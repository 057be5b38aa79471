-- ===== src/Prelude/Bytes/Trim.antt =====
-- What trimming keeps.
use exec_over_lark.Prelude.Tests.{Bool-cases, ℕ-cases}
use exec_over_lark.Prelude.Lists.{length, All}
use Prim.Native.Nat.{ℕ, zero, suc, ◌≤◌, ◌<◌}
use mathlib.Core.Path.{◌≡◌, refl, ap, ◌∙◌}
use mathlib.Core.Logic.{◌≢◌, inl, inr}
use mathlib.Core.Bool.{true}
use mathlib.Core.List.{
  List, [], ◌∷◌, ◌++◌, reverse, reverse-cons, reverse-append, reverse-reverse, append_assoc, map,
}
use native.Mathlib.Omega.{arith}
use exec_over_lark.Prelude.Bytes.{
  Bytes, has_prefix, prefix_width, drop_prefixes, white_space, trim_left, trim_space,
}

drop_prefixes_le :
    (ps : List Bytes) (skip : ℕ) (s : Bytes) → length (drop_prefixes ps skip s) ≤ length s
unfolding drop_prefixes
drop_prefixes_le ps skip [] = omega arith
drop_prefixes_le ps zero (c ∷ s) = elim (ℕ-cases (prefix_width ps (c ∷ s))) [
  | inl e ↦ rw (e, drop_prefixes) (omega arith)
  | inr (k, e) ↦ rw (e, drop_prefixes) (omega (arith, drop_prefixes_le ps k s))
]
drop_prefixes_le ps (suc skip) (c ∷ s) = omega (arith, drop_prefixes_le ps skip s)

pub length-trim_left : (s : Bytes) → length (trim_left s) ≤ length s
unfolding trim_left
length-trim_left s = drop_prefixes_le white_space 0 s

-- A byte that no blank has.
abbrev pub IsInk : ℕ → Type 0
IsInk d = (32 < d) × (d < 0x80)

abbrev Avoids : ℕ → Bytes → Type 0
Avoids d = All (λ c. c ≢ d)

has_prefix-le :
    (d : ℕ) (q p s : Bytes) → Avoids d p → has_prefix p (s ++ d ∷ q) ≡ true → length p ≤ length s
unfolding has_prefix
has_prefix-le d q [] s av h = omega arith
has_prefix-le d q (c ∷ p) [] av h = absurd (av.0 (ground arith))
has_prefix-le d q (c ∷ p) (e ∷ s) av h = omega (arith, has_prefix-le d q p s av.1 (ground arith))

prefix_width-le :
    (d : ℕ) (q : Bytes) (ps : List Bytes) (s : Bytes)
    → All (Avoids d) ps
    → prefix_width ps (s ++ d ∷ q) ≤ length s
unfolding prefix_width
prefix_width-le d q [] s av = omega arith
prefix_width-le d q (p ∷ ps) s av = elim (Bool-cases (has_prefix p (s ++ d ∷ q))) [
  | inl h ↦ rw h (has_prefix-le d q p s av.0 h)
  | inr h ↦ rw h (prefix_width-le d q ps s av.1)
]

-- What begins with a byte that no prefix has is kept.
drop_prefixes_keeps :
    (d : ℕ) (q : Bytes) (ps : List Bytes) (skip : ℕ) (s : Bytes)
    → All (Avoids d) ps
    → skip ≤ length s
    → (t : Bytes) × (drop_prefixes ps skip (s ++ d ∷ q) ≡ t ++ d ∷ q)
unfolding drop_prefixes
drop_prefixes_keeps d q ps zero [] av h =
    let e : prefix_width ps (d ∷ q) ≡ 0 = omega (arith, prefix_width-le d q ps [] av) in
    rw (e, drop_prefixes) ([], refl)
drop_prefixes_keeps d q ps zero (c ∷ s) av h =
    let le = prefix_width-le d q ps (c ∷ s) av in
    elim (ℕ-cases (prefix_width ps (c ∷ (s ++ d ∷ q)))) [
      | inl e ↦ rw (e, drop_prefixes) (c ∷ s, refl)
      | inr (k, e) ↦ rw (e, drop_prefixes) (drop_prefixes_keeps d q ps k s av (omega arith))
    ]
drop_prefixes_keeps d q ps (suc skip) [] av h = absurd (omega arith)
drop_prefixes_keeps d q ps (suc skip) (c ∷ s) av h =
    drop_prefixes_keeps d q ps skip s av (omega arith)

back-Avoids : (d : ℕ) → IsInk d → All (Avoids d) (map reverse white_space)
back-Avoids d h = omega (arith, h)

white_space-Avoids : (d : ℕ) → IsInk d → All (Avoids d) white_space
white_space-Avoids d h = omega (arith, h)

-- A text that begins with ink stays as it is on the left.
pub trim_left_ink : (d : ℕ) (s : Bytes) → IsInk d → trim_left (d ∷ s) ≡ d ∷ s
unfolding trim_left drop_prefixes
trim_left_ink d s h =
    let e : prefix_width white_space (d ∷ s) ≡ 0 =
      omega (arith, prefix_width-le d s white_space [] (white_space-Avoids d h)) in
    rw (e, drop_prefixes) refl

-- A line end before ink is taken away.
pub trim_left_newline : (d : ℕ) (s : Bytes) → IsInk d → trim_left (10 ∷ d ∷ s) ≡ d ∷ s
unfolding trim_left drop_prefixes prefix_width has_prefix
trim_left_newline d s h = trim_left_ink d s h

reverse_middle : (a : Bytes) (d : ℕ) (b : Bytes) → reverse (a ++ d ∷ b) ≡ reverse b ++ d ∷ reverse a
reverse_middle a d b =
    reverse-append a (d ∷ b)
    ∙ ap (λ x. x ++ reverse a) (reverse-cons d b)
    ∙ append_assoc (reverse b) (d ∷ []) (reverse a)

-- Between ink, nothing is trimmed away.
pub trim_space_keeps :
    (c : ℕ) (h : Bytes) (d : ℕ) (s : Bytes)
    → IsInk c
    → IsInk d
    → (t : Bytes) × (trim_space ((c ∷ h) ++ d ∷ s) ≡ (c ∷ h) ++ d ∷ t)
unfolding trim_space trim_left
trim_space_keeps c h d s ic id =
    let back = map reverse white_space in
    let r = reverse (c ∷ h) in
    let (t, e) = drop_prefixes_keeps d r back 0 (reverse s) (back-Avoids d id) (omega arith) in
    (
      reverse t,
      ap (λ y. reverse (drop_prefixes back 0 (reverse y))) (trim_left_ink c (h ++ d ∷ s) ic)
          ∙ ap (λ y. reverse (drop_prefixes back 0 y)) (reverse_middle (c ∷ h) d s)
          ∙ ap reverse e
          ∙ reverse_middle t d r
          ∙ ap (λ x. x ++ d ∷ reverse t) (reverse-reverse (c ∷ h)),
    )
