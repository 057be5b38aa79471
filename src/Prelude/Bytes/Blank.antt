-- ===== src/Prelude/Bytes/Blank.antt =====
-- A text that begins with a letter is not blank.
use exec_over_lark.Prelude.Tests.{Bool-cases, ℕ-cases}
use exec_over_lark.Prelude.Lists.{length, is_empty, All}
use Prim.Native.Nat.{ℕ, zero, suc, ◌≤◌}
use mathlib.Core.Path.{◌≡◌, refl, sym, subst}
use mathlib.Core.Logic.{◌≢◌, inl, inr}
use mathlib.Core.Bool.{true, false}
use mathlib.Core.List.{List, [], ◌∷◌, ◌++◌, reverse, reverse-cons, map}
use native.Mathlib.Omega.{arith}
use exec_over_lark.Prelude.Bytes.{
  Bytes, has_prefix, prefix_width, drop_prefixes, white_space, is_blank,
}

-- The letter that the texts begin with.
abbrev letter : ℕ
letter = b'E'

abbrev Avoids : Bytes → Type 0
Avoids = All (λ c. c ≢ letter)

has_prefix-le :
    (p s : Bytes) → Avoids p → has_prefix p (s ++ letter ∷ []) ≡ true → length p ≤ length s
unfolding has_prefix
has_prefix-le [] s av h = omega arith
has_prefix-le (c ∷ p) [] av h = absurd (av.0 (ground arith))
has_prefix-le (c ∷ p) (d ∷ s) av h = omega (arith, has_prefix-le p s av.1 (ground arith))

prefix_width-le :
    (ps : List Bytes) (s : Bytes) → All Avoids ps → prefix_width ps (s ++ letter ∷ []) ≤ length s
unfolding prefix_width
prefix_width-le [] s av = omega arith
prefix_width-le (p ∷ ps) s av = elim (Bool-cases (has_prefix p (s ++ letter ∷ []))) [
  | inl h ↦ rw h (has_prefix-le p s av.0 h)
  | inr h ↦ rw h (prefix_width-le ps s av.1)
]

drop_prefixes_not_empty :
    (ps : List Bytes) (skip : ℕ) (s : Bytes)
    → All Avoids ps
    → skip ≤ length s
    → is_empty (drop_prefixes ps skip (s ++ letter ∷ [])) ≡ false
unfolding drop_prefixes
drop_prefixes_not_empty ps zero [] av h =
    let e : prefix_width ps (letter ∷ []) ≡ 0 = omega (arith, prefix_width-le ps [] av) in
    rw (e, drop_prefixes)
drop_prefixes_not_empty ps zero (c ∷ s) av h =
    let le = prefix_width-le ps (c ∷ s) av in
    elim (ℕ-cases (prefix_width ps (c ∷ (s ++ letter ∷ [])))) [
      | inl e ↦ rw (e, drop_prefixes)
      | inr (k, e) ↦ rw (e, drop_prefixes) (drop_prefixes_not_empty ps k s av (omega arith))
    ]
drop_prefixes_not_empty ps (suc skip) [] av h = absurd (omega arith)
drop_prefixes_not_empty ps (suc skip) (c ∷ s) av h =
    drop_prefixes_not_empty ps skip s av (omega arith)

not_empty-append : (s : Bytes) (c : ℕ) → is_empty (s ++ c ∷ []) ≡ false
not_empty-append [] c = refl
not_empty-append (d ∷ s) c = refl

is_empty-reverse : (s : Bytes) → is_empty s ≡ false → is_empty (reverse s) ≡ false
is_empty-reverse [] h = cc
is_empty-reverse (c ∷ s) h = rw reverse-cons (not_empty-append (reverse s) c)

white_space-Avoids : All Avoids (map reverse white_space)
white_space-Avoids = omega arith

pub is_blank-letter : (s : Bytes) → is_blank (letter ∷ s) ≡ false
unfolding is_blank
is_blank-letter s =
    let back = map reverse white_space in
    subst (λ t. is_empty (reverse (drop_prefixes back 0 t)) ≡ false) (sym (reverse-cons letter s))
      (is_empty-reverse (drop_prefixes back 0 (reverse s ++ letter ∷ []))
        (drop_prefixes_not_empty back 0 (reverse s) white_space-Avoids (omega arith)))
