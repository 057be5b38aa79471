-- ===== src/Protocol/Window/Timeout.antt =====
-- When a gap times out, and what that does to the window (internal/protocol/frame.go).
use exec_over_lark.Prelude.{
  ℕ, ◌+◌, ◌≤◌, ◌<◌, ◌≡◌, inl, inr, true, false, Option, none, some, [], arith, ◌==◌, Bool-cases,
  ltb, nat_eq, not, is_empty,
}
use exec_over_lark.Protocol.Frame.{ProtocolError, sequence_gap_timeout}
use exec_over_lark.Protocol.Window.{RecvWindow, init, check_gap, check_gap_timeout_at, pending_seqs}
use exec_over_lark.Protocol.Window.Invariant.{WindowInv}

-- A gap is due: it is open, the timeout is positive, and it has passed since the gap opened.
abbrev pub GapDue : RecvWindow → ℕ → Type 0
GapDue w now = (w.gap_open ≡ true) × (0 < w.gap_timeout) × (w.gap_started_at + w.gap_timeout ≤ now)

-- What the check for a timeout does to a window whose gap is due.
abbrev pub GivesUp : RecvWindow → RecvWindow × Option ProtocolError → Type 0
GivesUp w r =
    (r.1 ≡ some (sequence_gap_timeout (init w).next_expected_seq (pending_seqs (init w))))
    × (r.0.pending_frames ≡ [])
    × (r.0.gap_open ≡ false)
    × (r.0.next_expected_seq ≡ (init w).next_expected_seq)

check_gap_due :
    (w : RecvWindow) (now : ℕ)
    → w.gap_open ≡ not (is_empty w.pending_frames)
    → GapDue w now
    → ((check_gap w now).1 ≡ some (sequence_gap_timeout w.next_expected_seq (pending_seqs w)))
      × ((check_gap w now).0.pending_frames ≡ [])
      × ((check_gap w now).0.gap_open ≡ false)
      × ((check_gap w now).0.next_expected_seq ≡ w.next_expected_seq)
unfolding check_gap
check_gap_due w now gap (up, pos, late) = ground arith

check_gap-not_due :
    (w : RecvWindow) (now : ℕ)
    → w.gap_open ≡ not (is_empty w.pending_frames)
    → ¬ (GapDue w now)
    → check_gap w now ≡ (w, none)
unfolding check_gap
check_gap-not_due w now gap n = elim (Bool-cases w.gap_open) [
  | inl up ↦ elim (Bool-cases (is_empty w.pending_frames)) [
    | inl e ↦ absurd (cc)
    | inr e ↦ elim (Bool-cases (w.gap_timeout == 0)) [
      | inl z ↦ simp (up, e, z)
      | inr z ↦ elim (Bool-cases (ltb now (w.gap_started_at + w.gap_timeout))) [
        | inl early ↦ simp (up, e, z, early)
        | inr late ↦ absurd (n (up, ground arith, ground arith))
      ]
    ]
  ]
  | inr shut ↦ simp shut
]

-- In a window that keeps its invariant, a gap that is due gives the timeout error, drops all that is pending, closes
-- the gap and keeps the expected number; a gap that is not due gives no error and changes nothing
-- but a zero expected number.
pub check_gap_timeout_at_exact :
    (w : RecvWindow) (now : ℕ)
    → WindowInv w
    → (GapDue w now → GivesUp w (check_gap_timeout_at w now))
      × (¬ (GapDue w now) → check_gap_timeout_at w now ≡ (init w, none))
unfolding check_gap_timeout_at
check_gap_timeout_at_exact w now h = (
  λ d. unfold init in check_gap_due (init w) now h.gap d,
  λ n. unfold init in check_gap-not_due (init w) now h.gap n,
)
