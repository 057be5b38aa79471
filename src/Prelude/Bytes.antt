-- ===== src/Prelude/Bytes.antt =====
-- Go's strings: sequences of bytes, their comparison, and the functions of package strings that
-- the code calls.
pub mod Blank
pub mod Trim
use Prim.Native.Nat.{ℕ, zero, suc}
use Prim.Native.Char.{code}
use Prim.Native.String.{String}
use mathlib.Core.Path.{◌≡◌, refl}
use mathlib.Core.Logic.{◌↔◌}
use mathlib.Core.Bool.{Bool, true, false, ◌&&◌, ◌||◌}
use mathlib.Core.List.{List, [], ◌∷◌, reverse, map}
use native.Mathlib.Omega.{arith}
use exec_over_lark.Prelude.Tests.{Eq, ◌==◌, ltb, ==_iff, if◌then◌else◌}
use exec_over_lark.Prelude.Lists.{length, is_empty}

abbrev pub Bytes : Type 0
Bytes = List ℕ

-- The bytes of a literal, if it is ASCII.
abbrev pub codes : String → Bytes
codes String.[] = []
codes (String.◌∷◌ c s) = code c ∷ codes s

unfoldable pub same : Bytes → Bytes → Bool
same [] [] = true
same [] (y ∷ ys) = false
same (x ∷ xs) [] = false
same (x ∷ xs) (y ∷ ys) = x == y && same xs ys

pub same_iff : (a b : Bytes) → (same a b ≡ true) ↔ (a ≡ b)
unfolding same
same_iff [] [] = ground arith
same_iff [] (y ∷ ys) = ground arith
same_iff (x ∷ xs) [] = ground arith
same_iff (x ∷ xs) (y ∷ ys) = ground (arith, same_iff xs ys, ==_iff x y)

instance abbrev pub bytes_eq : Eq Bytes
bytes_eq = record { beq = same; beq_iff = same_iff }

-- The order of Go's strings.
unfoldable pub bytes_le : Bytes → Bytes → Bool
bytes_le [] t = true
bytes_le (c ∷ s) [] = false
bytes_le (c ∷ s) (d ∷ t) = ltb c d || (c == d && bytes_le s t)

-- `strings.HasPrefix`
unfoldable pub has_prefix : Bytes → Bytes → Bool
has_prefix [] s = true
has_prefix (p ∷ ps) [] = false
has_prefix (p ∷ ps) (c ∷ s) = p == c && has_prefix ps s

-- The characters of unicode.IsSpace, in UTF-8: U+0009 to U+000D, U+0020, U+0085, U+00A0, U+1680,
-- U+2000 to U+200A, U+2028, U+2029, U+202F, U+205F and U+3000.
abbrev pub white_space : List Bytes
white_space =
    (9 ∷ [])
    ∷ (10 ∷ [])
    ∷ (11 ∷ [])
    ∷ (12 ∷ [])
    ∷ (13 ∷ [])
    ∷ (32 ∷ [])
    ∷ (0xc2 ∷ 0x85 ∷ [])
    ∷ (0xc2 ∷ 0xa0 ∷ [])
    ∷ (0xe1 ∷ 0x9a ∷ 0x80 ∷ [])
    ∷ (0xe2 ∷ 0x80 ∷ 0x80 ∷ [])
    ∷ (0xe2 ∷ 0x80 ∷ 0x81 ∷ [])
    ∷ (0xe2 ∷ 0x80 ∷ 0x82 ∷ [])
    ∷ (0xe2 ∷ 0x80 ∷ 0x83 ∷ [])
    ∷ (0xe2 ∷ 0x80 ∷ 0x84 ∷ [])
    ∷ (0xe2 ∷ 0x80 ∷ 0x85 ∷ [])
    ∷ (0xe2 ∷ 0x80 ∷ 0x86 ∷ [])
    ∷ (0xe2 ∷ 0x80 ∷ 0x87 ∷ [])
    ∷ (0xe2 ∷ 0x80 ∷ 0x88 ∷ [])
    ∷ (0xe2 ∷ 0x80 ∷ 0x89 ∷ [])
    ∷ (0xe2 ∷ 0x80 ∷ 0x8a ∷ [])
    ∷ (0xe2 ∷ 0x80 ∷ 0xa8 ∷ [])
    ∷ (0xe2 ∷ 0x80 ∷ 0xa9 ∷ [])
    ∷ (0xe2 ∷ 0x80 ∷ 0xaf ∷ [])
    ∷ (0xe2 ∷ 0x81 ∷ 0x9f ∷ [])
    ∷ (0xe3 ∷ 0x80 ∷ 0x80 ∷ [])
    ∷ []

-- The length of the first of `ps` that begins the text, or 0.
pub prefix_width : List Bytes → Bytes → ℕ
unfolding has_prefix
prefix_width [] s = 0
prefix_width (p ∷ ps) s = if has_prefix p s then length p else prefix_width ps s

-- Drops `skip` bytes, then prefixes out of `ps` for as long as there is one.
pub drop_prefixes : List Bytes → ℕ → Bytes → Bytes
unfolding prefix_width
drop_prefixes ps skip [] = []
drop_prefixes ps zero (c ∷ s) = elim (prefix_width ps (c ∷ s)) [
  | zero ↦ c ∷ s
  | suc skip ↦ drop_prefixes ps skip s
]
drop_prefixes ps (suc skip) (c ∷ s) = drop_prefixes ps skip s

-- `strings.TrimLeftFunc(s, unicode.IsSpace)`
unfoldable pub trim_left : Bytes → Bytes
unfolding drop_prefixes
trim_left s = drop_prefixes white_space 0 s

-- `strings.TrimSpace`: from the left, then from the right on the text read backwards.
unfoldable pub trim_space : Bytes → Bytes
unfolding drop_prefixes
trim_space s =
    reverse (drop_prefixes (map reverse white_space) 0 (reverse (drop_prefixes white_space 0 s)))

-- `strings.TrimSpace(s) == ""`
unfoldable pub is_blank : Bytes → Bool
unfolding trim_space
is_blank s = is_empty (trim_space s)

-- The first of two texts that is not blank, or the empty text.
unfoldable pub first_non_empty : Bytes → Bytes → Bytes
unfolding is_blank
first_non_empty a b = if is_blank a then (if is_blank b then [] else b) else a

trim_space_runs :
    trim_space (9 ∷ 0xe2 ∷ 0x80 ∷ 0x89 ∷ b'a' ∷ 32 ∷ b'b' ∷ 0xc2 ∷ 0xa0 ∷ 10 ∷ []) ≡ codes "a b"
unfolding trim_space
trim_space_runs = refl
