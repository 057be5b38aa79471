-- ===== src/Lark/Text/Strip.antt =====
-- internal/lark/client.go: the loop of stripLeadingAtMentions ends, and what it leaves.
use exec_over_lark.Prelude.{
  ℕ, zero, suc, ◌≤◌, ◌<◌, ◌≡◌, refl, ap, ◌⊎◌, inl, inr, Bool, false, Option, none, some, [], ◌∷◌,
  drop, length, if◌then◌else◌, Bool-cases, Option-cases, arith,
}
use mathlib.Core.Path.{subst}
use mathlib.Core.Option.{some-injective}
use exec_over_lark.Lark.Mention.{at_close}
use exec_over_lark.Prelude.Bytes.{Bytes, has_prefix, trim_left}
use exec_over_lark.Prelude.Bytes.Trim.{length-trim_left}
use exec_over_lark.Lark.Text.{at_open, after_close, strip_mentions, strip_leading_at_mentions}

-- The loop ends here: no mention begins the text, or one that is not closed.
abbrev pub IsStripped : Bytes → Type 0
IsStripped text = (has_prefix at_open text ≡ false) ⊎ (after_close text ≡ none)

length-drop : (n : ℕ) (s : Bytes) → length (drop n s) ≤ length s
length-drop zero s = omega arith
length-drop (suc n) [] = omega arith
length-drop (suc n) (c ∷ s) = omega (arith, length-drop n s)

abbrev pick : Bool → ℕ → Bytes → Option Bytes
pick b c s = if b then some (drop 5 (c ∷ s)) else after_close s

after_close_lt : (s : Bytes) {rest : Bytes} → after_close s ≡ some rest → length rest < length s
unfolding after_close
after_close_lt [] h = cc h
after_close_lt (c ∷ s) {rest} h = elim (Bool-cases (has_prefix at_close (c ∷ s))) [
  | inl t ↦
      let q : some (drop 4 s) ≡ some rest = subst (λ b. pick b c s ≡ some rest) t h in
      omega (arith, length-drop 4 s, ap length (some-injective (drop 4 s) rest q))
  | inr f ↦
      let q : after_close s ≡ some rest = subst (λ b. pick b c s ≡ some rest) f h in
      omega (arith, after_close_lt s q)
]

strip_mentions-IsStripped :
    (fuel : ℕ) (text : Bytes) → length text ≤ fuel → IsStripped (strip_mentions fuel text)
unfolding strip_mentions
strip_mentions-IsStripped zero [] h = inl refl
strip_mentions-IsStripped zero (c ∷ s) h = absurd (omega arith)
strip_mentions-IsStripped (suc fuel) text h = elim (Bool-cases (has_prefix at_open text)) [
  | inr f ↦ rw f (inl f)
  | inl t ↦ rw t (elim (Option-cases (after_close text)) [
    | inl q ↦ rw (q, strip_mentions) (inr q)
    | inr (rest, q) ↦
        rw (q, strip_mentions)
          (strip_mentions-IsStripped fuel (trim_left rest)
            (omega (arith, after_close_lt text q, length-trim_left rest, h)))
  ])
]

-- The loop over the leading mentions runs until its condition fails, whatever the text: as many rounds as the
-- text has bytes are enough.
pub strip_leading_at_mentions-IsStripped :
    (text : Bytes) → IsStripped (strip_leading_at_mentions text)
unfolding strip_leading_at_mentions
strip_leading_at_mentions-IsStripped text =
    strip_mentions-IsStripped (length (trim_left text)) (trim_left text) (omega arith)
