-- ===== src/Protocol/Sequencer.antt =====
-- internal/protocol/frame.go: `Sequencer`, the sender's sequence numbers.
use exec_over_lark.Prelude.{
  ℕ, zero, suc, ◌+◌, ◌≤◌, ◌<◌, ◌≡◌, ◌∙◌, Bool, true, false, Option, none, some, arith, ◌==◌, leb,
  if◌then◌else◌,
}
use native.Mathlib.Decide.{dec_lt}
use exec_over_lark.Prelude.Bytes.{Bytes}
use exec_over_lark.Prelude.Result.{Result, ok, err, ◌>>=◌}
use exec_over_lark.Protocol.Frame.{
  Frame, FrameType, ProtocolError, invalid_frame, sequencer_exhausted, max_uint64, new_frame,
}

pub record Sequencer : Type 0 where
  pub next : ℕ  -- uint64
  pub exhausted : Bool

-- `NewSequencer`
abbrev pub new_sequencer : Sequencer
new_sequencer = record { next = 1; exhausted = false }

unfoldable pub new_sequencer_from : ℕ → Result ProtocolError Sequencer
new_sequencer_from next =
    if next == 0 then err invalid_frame else ok (record { next = next; exhausted = false })

unfoldable pub ensure_initialized : Sequencer → Sequencer
ensure_initialized s = if s.next == 0 then record s { next = 1 } else s

-- `Peek`: the sequencer afterwards, and the number.
unfoldable pub peek : Sequencer → Sequencer × ℕ
unfolding ensure_initialized
peek s₀ = let s = ensure_initialized s₀ in (s, if s.exhausted then 0 else s.next)

-- `NextSeq`
unfoldable pub next_seq : Sequencer → Sequencer × Result ProtocolError ℕ
unfolding ensure_initialized
next_seq s₀ =
    let s = ensure_initialized s₀ in
    if s.exhausted
    then (s, err sequencer_exhausted)
    else if s.next == max_uint64
    then (record s { exhausted = true }, ok s.next)
    else (record s { next = s.next + 1 }, ok s.next)

-- `Next`, where `none` is the panic.
unfoldable pub next_or_panic : Sequencer → Sequencer × Option ℕ
unfolding next_seq
next_or_panic s = let (s', r) = next_seq s in (s', elim r [ ok n ↦ some n | err e ↦ none ])

-- `Frame`
unfoldable pub next_frame : Sequencer → FrameType → Bytes → Sequencer × Result ProtocolError Frame
unfolding next_seq new_frame
next_frame s typ payload = let (s', r) = next_seq s in (s', r >>= λ seq. new_frame seq typ payload)

-- The answer of the (i + 1)-th call of `NextSeq`.
pub draw : ℕ → Sequencer → Result ProtocolError ℕ
draw zero s = (next_seq s).1
draw (suc i) s = draw i (next_seq s).0

draw_exhausted : (i : ℕ) (s : Sequencer) → s.exhausted ≡ true → draw i s ≡ err sequencer_exhausted
unfolding draw next_seq
draw_exhausted zero s h = ground arith
draw_exhausted (suc i) s h = draw_exhausted i (next_seq s).0 (ground arith)

after_last :
    (s : Sequencer) → s.exhausted ≡ false → s.next ≡ max_uint64 → (next_seq s).0.exhausted ≡ true
unfolding next_seq
after_last s f e = ground arith

after_other :
    (s : Sequencer)
    → s.exhausted ≡ false
    → 0 < s.next
    → s.next < max_uint64
    → ((next_seq s).0.exhausted ≡ false) × ((next_seq s).0.next ≡ s.next + 1)
unfolding next_seq
after_other s f pos lt = ground arith

draw_from :
    (i : ℕ) (s : Sequencer)
    → s.exhausted ≡ false
    → 0 < s.next
    → s.next ≤ max_uint64
    → draw i s ≡ (if leb (s.next + i) max_uint64 then ok (s.next + i) else err sequencer_exhausted)
unfolding draw next_seq
draw_from zero s f pos le = ground arith
draw_from (suc i) s f pos le = elim (dec_lt s.next max_uint64) [
  | yes lt ↦
      let (f', n') = after_other s f pos lt in
      draw_from i (next_seq s).0 f' (omega arith) (omega arith) ∙ ground arith
  | no ge ↦ draw_exhausted i (next_seq s).0 (after_last s f (omega arith)) ∙ ground arith
]

-- A sequencer that starts at k gives k, k + 1, k + 2 and so on up to 2 ^ 64 - 1, and from then on
-- nothing but the error: no number comes twice, none is left out, and 0 is never given.
pub draw_exact :
    (i k : ℕ) {s : Sequencer}
    → k ≤ max_uint64
    → new_sequencer_from k ≡ ok s
    → draw i s ≡ (if leb (k + i) max_uint64 then ok (k + i) else err sequencer_exhausted)
unfolding new_sequencer_from
draw_exact i k {s} le h =
    let pos : 0 < k = ground arith in
    let start : s.next ≡ k = ground arith in
    let fresh : s.exhausted ≡ false = ground arith in
    simp start at (draw_from i s fresh (omega arith) (omega arith))
