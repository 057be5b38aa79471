-- ===== src/Protocol/Window/Tests.antt =====
-- The theorems on `RecvWindow` at concrete arrivals.
use exec_over_lark.Prelude.{
  ℕ, zero, suc, ◌≤◌, ◌<◌, ◌≡◌, refl, inl, inr, true, none, List, [], ◌∷◌, arith, length, All,
  nat_eq,
}
use exec_over_lark.Prelude.Dict.{lookup, insert, remove}
use exec_over_lark.Protocol.Frame.{Frame, stdin}
use exec_over_lark.Protocol.Window.{
  RecvWindow, new_recv_window, check_gap_timeout_at, init, offer_at,
}
use exec_over_lark.Protocol.Window.Loop.{Consecutive}
use exec_over_lark.Protocol.Window.Invariant.{WindowInv}
use exec_over_lark.Protocol.Window.Seen.{Room}
use exec_over_lark.Protocol.Window.Order.{Arrival, run, run_in_order}
use exec_over_lark.Protocol.Window.Authentic.{run_authentic}
use exec_over_lark.Protocol.Window.Complete.{Arrives, run_complete}
use exec_over_lark.Protocol.Window.Timeout.{GapDue, GivesUp, check_gap_timeout_at_exact}
use exec_over_lark.Protocol.Window.Repeat.{repeated, offer_at_again}

abbrev numbered : ℕ → Frame
numbered n = record { seq = n; type = stdin; payload = n ∷ [] }

-- The second frame comes first, and the first one twice.
abbrev mixed_up : List Arrival
mixed_up = (numbered 2, 10) ∷ (numbered 1, 11) ∷ (numbered 1, 12) ∷ (numbered 3, 13) ∷ []

mixed_up-run : run (new_recv_window 5) mixed_up ≡ (
  record (new_recv_window 5) { next_expected_seq = 4 },
  numbered 1 ∷ numbered 2 ∷ numbered 3 ∷ [],
  [],
)
unfolding run new_recv_window offer_at lookup insert remove
mixed_up-run = refl

run_in_order_example : Consecutive 1 (run (new_recv_window 5) mixed_up).1
run_in_order_example = run_in_order 5 mixed_up (omega arith)

run_authentic_example : All (λ (f : Frame). f.seq < 10) (run (new_recv_window 5) mixed_up).1
run_authentic_example = run_authentic (λ (f : Frame). f.seq < 10) 5 mixed_up (omega arith)

mixed_up_quiet : (run (new_recv_window 5) mixed_up).2 ≡ []
unfolding run new_recv_window offer_at lookup insert remove
mixed_up_quiet = refl

mixed_up_all : (s : ℕ) → 0 < s → s ≤ 3 → Arrives s mixed_up
mixed_up_all zero pos le = absurd (omega arith)
mixed_up_all (suc zero) pos le = inr (inl refl)
mixed_up_all (suc (suc zero)) pos le = inl refl
mixed_up_all (suc (suc (suc zero))) pos le = inr (inr (inr (inl refl)))
mixed_up_all (suc (suc (suc (suc s)))) pos le = absurd (omega arith)

run_complete_example : 3 ≤ length (run (new_recv_window 5) mixed_up).1
run_complete_example = run_complete 5 3 mixed_up (omega arith) mixed_up_quiet mixed_up_all

-- The third frame waits for the first two since 10.
abbrev waiting : RecvWindow
waiting = record {
  next_expected_seq = 1;
  pending_frames = (3, numbered 3) ∷ [];
  gap_started_at = 10;
  gap_open = true;
  gap_timeout = 5;
}

waiting-WindowInv : WindowInv waiting
waiting-WindowInv = record { bounded = omega arith; ahead = omega arith; gap = refl }

check_gap_timeout_at_exact_example :
    (GapDue waiting 15 → GivesUp waiting (check_gap_timeout_at waiting 15))
    × (¬ (GapDue waiting 15) → check_gap_timeout_at waiting 15 ≡ (init waiting, none))
check_gap_timeout_at_exact_example = check_gap_timeout_at_exact waiting 15 waiting-WindowInv

waiting_due : GapDue waiting 15
waiting_due = (refl, omega arith, omega arith)

waiting-Room : Room waiting
waiting-Room = record { next = omega arith; frames = omega arith }

waiting_first : (offer_at waiting (numbered 2) 11).2 ≡ none
unfolding offer_at
waiting_first = refl

waiting_again : (offer_at (offer_at waiting (numbered 2) 11).0 (numbered 2) 12).2 ≡ none
unfolding offer_at lookup insert
waiting_again = refl

offer_at_again_example :
    offer_at (offer_at waiting (numbered 2) 11).0 (numbered 2) 12
    ≡ ((check_gap_timeout_at (init (offer_at waiting (numbered 2) 11).0) 12).0, repeated, none)
offer_at_again_example =
    offer_at_again waiting (numbered 2) 11 12 waiting-WindowInv waiting-Room (omega arith)
      (omega arith) waiting_first waiting_again
