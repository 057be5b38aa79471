-- ===== src/Protocol/Wire/Split.antt =====
-- Cutting and joining text (internal/protocol/frame.go).
use exec_over_lark.Prelude.{ℕ, ◌≤◌, ◌≡◌, refl, some, List, [], ◌∷◌, ◌++◌, arith, All}
use exec_over_lark.Prelude.Bytes.{Bytes}
use exec_over_lark.Protocol.Base64.RoundTrip.{IsPrintable}
use exec_over_lark.Protocol.Wire.{cut, space, newline, trim_cr, push, split_lines, join_lines}

-- Text on one line: no control character.
abbrev pub IsInline : ℕ → Type 0
IsInline c = 32 ≤ c

pub cut-append : (a b : Bytes) → All IsPrintable a → cut space (a ++ (space ∷ b)) ≡ some (a, b)
unfolding cut
cut-append [] b h = refl
cut-append (x ∷ a) b h = ground (arith, cut-append a b h.1)

pub trim_cr_inline : (s : Bytes) → All IsInline s → trim_cr s ≡ s
unfolding trim_cr
trim_cr_inline [] h = refl
trim_cr_inline (c ∷ []) h = ground arith
trim_cr_inline (c ∷ d ∷ s) h = rw (trim_cr_inline (d ∷ s) h.1)

pub split_lines-append :
    (l s : Bytes) → All IsInline l → split_lines (l ++ (newline ∷ s)) ≡ l ∷ split_lines s
unfolding split_lines push
split_lines-append [] s h = refl
split_lines-append (c ∷ l) s h = rw (split_lines-append l s h.1) (ground arith)

pub split_lines_inline : (l : Bytes) → All IsInline l → split_lines l ≡ l ∷ []
unfolding split_lines push
split_lines_inline [] h = refl
split_lines_inline (c ∷ l) h = rw (split_lines_inline l h.1) (ground arith)

-- Lines come back from their joined text.
pub split_lines-join_lines :
    (l : Bytes) (ls : List Bytes)
    → All (All IsInline) (l ∷ ls)
    → split_lines (join_lines (l ∷ ls)) ≡ l ∷ ls
unfolding join_lines
split_lines-join_lines l [] h = split_lines_inline l h.0
split_lines-join_lines l (m ∷ ls) h =
    rw (split_lines-append l (join_lines (m ∷ ls)) h.0, split_lines-join_lines m ls h.1)
