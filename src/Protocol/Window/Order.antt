-- ===== src/Protocol/Window/Order.antt =====
-- Runs of a window: what a connection delivers, whatever arrives (internal/protocol/frame.go).
use exec_over_lark.Prelude.{ℕ, ◌^◌, ◌<◌, refl, Option, none, some, List, [], ◌∷◌, ◌++◌, nat_eq, All}
use exec_over_lark.Protocol.Frame.{Frame, ProtocolError}
use exec_over_lark.Protocol.Window.{RecvWindow, offer_at, new_recv_window}
use exec_over_lark.Protocol.Window.Loop.{Consecutive, Consecutive-append, expect, after-append}
use exec_over_lark.Protocol.Window.Invariant.{
  WindowInv, Advances, offer_at-Advances, new_recv_window-WindowInv,
}

-- A frame and the time at which it arrives.
abbrev pub Arrival : Type 0
Arrival = Frame × ℕ

abbrev pub errors_of : Option ProtocolError → List ProtocolError
errors_of none = []
errors_of (some e) = e ∷ []

-- `OfferAt` for each arrival in turn: the window, all that is delivered, and all errors.
unfoldable pub run : RecvWindow → List Arrival → RecvWindow × List Frame × List ProtocolError
run w [] = (w, [], [])
run w ((frame, now) ∷ rest) =
    let (w', r, e) = offer_at w frame now in
    let (w'', delivered, errors) = run w' rest in
    (w'', r.delivered ++ delivered, errors_of e ++ errors)

abbrev pub SeqBelow : ℕ → Arrival → Type 0
SeqBelow n a = a.0.seq < n

pub run-Advances :
    (w : RecvWindow) (arrivals : List Arrival)
    → All (SeqBelow (2 ^ 64)) arrivals
    → WindowInv w
    → Advances w (run w arrivals).0 (run w arrivals).1
unfolding run
run-Advances w [] b h = record { inv = h; in_order = tt; expects = refl }
run-Advances w ((frame, now) ∷ rest) b h =
    let a = offer_at-Advances w frame now b.0 h in
    let w' = (offer_at w frame now).0 in
    let r = run-Advances w' rest b.1 a.inv in
    let delivered = (offer_at w frame now).1.delivered in
    record {
      inv = r.inv;
      in_order =
          Consecutive-append (expect w.next_expected_seq) delivered (run w' rest).1 a.in_order
            (rw a.expects at r.in_order);
      expects =
          rw (after-append (expect w.next_expected_seq) delivered (run w' rest).1, ← a.expects)
            r.expects;
    }

-- Whatever frames arrive, in whatever order, late, twice or across a timeout of the gap, a new
-- window delivers frames numbered 1, 2, 3 and so on, each number once and none left out, for as long as
-- the sequence numbers are uint64 (behind 2 ^ 64 - 1 the window goes on with 1).
pub run_in_order :
    (timeout : ℕ) (arrivals : List Arrival)
    → All (SeqBelow (2 ^ 64)) arrivals
    → Consecutive 1 (run (new_recv_window timeout) arrivals).1
run_in_order timeout arrivals b =
    unfold new_recv_window in
    (run-Advances (new_recv_window timeout) arrivals b (new_recv_window-WindowInv timeout)).in_order
