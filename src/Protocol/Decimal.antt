-- ===== src/Protocol/Decimal.antt =====
-- The decimal form of a uint64 in internal/protocol/frame.go: `%d` and `strconv.ParseUint(s, 10, 64)`.
use exec_over_lark.Prelude.{
  ℕ, zero, suc, ◌+◌, ◌-◌, ◌*◌, ◌/◌, ◌%◌, ◌^◌, ◌≤◌, ◌<◌, ◌≡◌, refl, ap, ◌∙◌, false, ◌&&◌, Option,
  none, some, [], ◌∷◌, ◌++◌, ltb, leb, if◌then◌else◌, is_empty, All, All-append, arith,
}
use exec_over_lark.Prelude.{Bool-cases, leb→le, ltb→lt, inl, inr}
use mathlib.Core.List.{append_assoc, append-nil}
use native.Mathlib.Nat.{pow-suc}
use exec_over_lark.Prelude.Bytes.{Bytes, codes}
use exec_over_lark.Protocol.Frame.{max_uint64}
use exec_over_lark.Protocol.Base64.RoundTrip.{IsPrintable}

-- `%d`, with the number of digits at most as fuel.
unfoldable pub print_digits : ℕ → ℕ → Bytes
print_digits zero n = []
print_digits (suc fuel) n =
    let front = print_digits fuel (n / 10) in
    if ltb n 10 then (b'0' + n) ∷ [] else front ++ (b'0' + n % 10) ∷ []

-- A uint64 has at most 20 digits.
unfoldable pub print_uint : ℕ → Bytes
print_uint n = print_digits 20 n

unfoldable pub parse_digits : ℕ → Bytes → Option ℕ
parse_digits n [] = some n
parse_digits n (c ∷ s) =
    let m = n * 10 + (c - b'0') in
    let rest = parse_digits m s in
    if leb b'0' c && leb c b'9' then (if leb m max_uint64 then rest else none) else none

-- `none` is the error.
unfoldable pub parse_uint : Bytes → Option ℕ
unfolding parse_digits
parse_uint s = if is_empty s then none else parse_digits 0 s

uint_runs :
    (print_uint max_uint64 ≡ codes "18446744073709551615")
    × (parse_uint (codes "18446744073709551615") ≡ some max_uint64)
    × (parse_uint (codes "18446744073709551616") ≡ none)
    × (parse_uint (codes "+1") ≡ none)
    × (parse_uint (codes "007") ≡ some 7)
unfolding print_uint print_digits parse_uint
uint_runs = (refl, refl, refl, refl, refl)

print_digits-IsPrintable : (fuel n : ℕ) → All IsPrintable (print_digits fuel n)
unfolding print_digits
print_digits-IsPrintable zero n = tt
print_digits-IsPrintable (suc fuel) n = elim (Bool-cases (ltb n 10)) [
  | inl one ↦ rw one ((omega (arith, ltb→lt n 10 one), omega (arith, ltb→lt n 10 one)), tt)
  | inr more ↦ rw more (
      All-append IsPrintable (print_digits fuel (n / 10)) ((b'0' + n % 10) ∷ [])
        (print_digits-IsPrintable fuel (n / 10)) ((omega arith, omega arith), tt))
]

pub print_uint-IsPrintable : (n : ℕ) → All IsPrintable (print_uint n)
unfolding print_uint
print_uint-IsPrintable n = print_digits-IsPrintable 20 n

parse_digit :
    (m d : ℕ) (rest : Bytes)
    → d < 10
    → m * 10 + d ≤ max_uint64
    → parse_digits m ((b'0' + d) ∷ rest) ≡ parse_digits (m * 10 + d) rest
parse_digit m d rest lt le =
    let e : m * 10 + (b'0' + d - b'0') ≡ m * 10 + d = omega arith in
    unfold parse_digits in rw e (ground arith)

zero_of_lt_one : (n : ℕ) → n < 1 → n ≡ 0
zero_of_lt_one n h = omega arith

tenth_lt : (fuel n : ℕ) → n < 10 ^ suc fuel → n / 10 < 10 ^ fuel
tenth_lt fuel n lt = omega (arith, pow-suc 10 fuel)

parse_digits-print_digits :
    (fuel n : ℕ) (rest : Bytes)
    → n < 10 ^ fuel
    → n ≤ max_uint64
    → parse_digits 0 (print_digits fuel n ++ rest) ≡ parse_digits n rest
unfolding print_digits
parse_digits-print_digits zero n rest lt le = rw (zero_of_lt_one n (omega arith))
parse_digits-print_digits (suc fuel) n rest lt le = elim (Bool-cases (ltb n 10)) [
  | inl one ↦ rw one (
      parse_digit 0 n rest (ltb→lt n 10 one) (omega arith)
      ∙ ap (λ m. parse_digits m rest) (omega arith))
  | inr more ↦
      rw
        (
          more,
          append_assoc,
          parse_digits-print_digits fuel (n / 10) ((b'0' + n % 10) ∷ rest) (tenth_lt fuel n lt)
              (omega arith),
        )
        (parse_digit (n / 10) (n % 10) rest (omega arith) (omega arith)
          ∙ ap (λ m. parse_digits m rest) (omega arith))
]

not_empty-append : (xs : Bytes) (c : ℕ) → is_empty (xs ++ c ∷ []) ≡ false
not_empty-append [] c = refl
not_empty-append (x ∷ xs) c = refl

print_digits_not_empty : (fuel n : ℕ) → is_empty (print_digits (suc fuel) n) ≡ false
unfolding print_digits
print_digits_not_empty fuel n = elim (Bool-cases (ltb n 10)) [
  | inl one ↦ rw one
  | inr more ↦ rw more (not_empty-append (print_digits fuel (n / 10)) (b'0' + n % 10))
]

-- A uint64 comes back from its digits; 20 of them are enough.
pub parse_uint-print_uint : (n : ℕ) → n ≤ max_uint64 → parse_uint (print_uint n) ≡ some n
unfolding parse_uint print_uint
parse_uint-print_uint n le =
    let e = parse_digits-print_digits 20 n [] (omega arith) le in
    rw (print_digits_not_empty 19 n) (rw (← append-nil (print_digits 20 n)) (e))

pub print_uint_not_empty : (n : ℕ) → is_empty (print_uint n) ≡ false
unfolding print_uint
print_uint_not_empty n = print_digits_not_empty 19 n

parse_digits-le :
    (n : ℕ) (s : Bytes) {r : ℕ} → n ≤ max_uint64 → parse_digits n s ≡ some r → r ≤ max_uint64
unfolding parse_digits
parse_digits-le n [] le h = ground arith
parse_digits-le n (c ∷ s) {r} le h =
    let m = n * 10 + (c - b'0') in
    elim (Bool-cases (leb b'0' c && leb c b'9')) [
      | inl digit ↦ elim (Bool-cases (leb m max_uint64)) [
        | inl fits ↦ parse_digits-le m s {r = r} (leb→le _ _ fits) (simp (digit, fits) at h)
        | inr big ↦ cc (simp (digit, big) at h)
      ]
      | inr other ↦ cc (simp other at h)
    ]

-- What parses is a uint64.
pub parse_uint-le : (s : Bytes) {r : ℕ} → parse_uint s ≡ some r → r ≤ max_uint64
unfolding parse_uint
parse_uint-le s {r} h = parse_digits-le 0 s {r = r} (omega arith) (ground arith)
