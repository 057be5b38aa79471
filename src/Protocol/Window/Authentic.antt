-- ===== src/Protocol/Window/Authentic.antt =====
-- Where the frames that a window delivers come from (internal/protocol/frame.go).
use exec_over_lark.Prelude.{
  ℕ, zero, suc, inl, inr, Option, none, some, List, [], ◌∷◌, length, Option-cases, nat_eq, All,
  All-append,
}
use exec_over_lark.Prelude.Dict.{lookup, Every, Every-insert, Every-remove, Every-lookup}
use exec_over_lark.Protocol.Frame.{Frame}
use exec_over_lark.Protocol.Window.{
  RecvWindow, init, deliver_pending, buffer, deliver, offer_at, new_recv_window,
}
use exec_over_lark.Protocol.Window.Loop.{
  advance, deliver_pending_stop, deliver_pending_step, deliver_pending-append,
}
use exec_over_lark.Protocol.Window.Invariant.{
  checked, stepped, offer_at_cases, accept_cases, check_gap-pending_frames,
  settle_gap-pending_frames,
}
use exec_over_lark.Protocol.Window.Order.{Arrival, run}

module _ (P : Frame → Type 0) where
  -- Every pending frame satisfies P.
  abbrev Holds : RecvWindow → Type 0
  Holds w = Every (λ (k : ℕ) (f : Frame). P f) w.pending_frames

  deliver_pending-Holds :
      (fuel : ℕ) (w : RecvWindow)
      → Holds w
      → Holds (deliver_pending fuel w []).0 × All P (deliver_pending fuel w []).1
  deliver_pending-Holds zero w h = unfold deliver_pending in (h, tt)
  deliver_pending-Holds (suc fuel) w h =
      elim (Option-cases (lookup w.next_expected_seq w.pending_frames)) [
        | inl e ↦ rw (deliver_pending_stop (suc fuel) w [] e) (h, tt)
        | inr (p, e) ↦
            let kept =
              Every-remove (λ (k : ℕ) (f : Frame). P f) w.next_expected_seq w.pending_frames h in
            let ih = deliver_pending-Holds fuel (advance w) kept in
            rw (deliver_pending_step fuel w e) (
              ih.0,
              (
                Every-lookup (λ (k : ℕ) (f : Frame). P f) w.next_expected_seq w.pending_frames h e,
                ih.1,
              ),
            )
      ]

  -- A step leaves frames that satisfy P pending, and delivers only such frames.
  abbrev Honest : RecvWindow → List Frame → Type 0
  Honest w delivered = Holds w × All P delivered

  buffer-Honest :
      (w : RecvWindow) (frame : Frame) (now : ℕ) (o : Option Frame)
      → P frame
      → Holds w
      → Honest (buffer w frame now o).0 []
  unfolding buffer
  buffer-Honest w frame now (some f) p h = (h, tt)
  buffer-Honest w frame now none p h =
      (Every-insert (λ (k : ℕ) (f : Frame). P f) frame.seq frame w.pending_frames p h, tt)

  deliver-Honest :
      (w : RecvWindow) (frame : Frame) (now : ℕ)
      → P frame
      → Holds w
      → Honest (deliver w frame now).0 (deliver w frame now).1.delivered
  deliver-Honest w frame now p h =
      let fuel = length w.pending_frames in
      let (kept, good) = deliver_pending-Holds fuel (stepped w) h in
      unfold deliver in
      rw
        (
          deliver_pending-append fuel (stepped w) (frame ∷ []),
          settle_gap-pending_frames (deliver_pending fuel (stepped w) []).0 now,
        )
        (kept, (p, good))

  checked-Holds : (w : RecvWindow) (now : ℕ) → Holds w → Holds (checked w now).0
  checked-Holds w now h =
      let (same_frames, no_frames) = check_gap-pending_frames (init (init w)) now in
      elim (Option-cases (checked w now).1) [
        | inl e ↦ rw (same_frames e) (unfold init in h)
        | inr (x, e) ↦ rw (no_frames x e) tt
      ]

  offer_at-Honest :
      (w : RecvWindow) (frame : Frame) (now : ℕ)
      → P frame
      → Holds w
      → Honest (offer_at w frame now).0 (offer_at w frame now).1.delivered
  offer_at-Honest w frame now p h =
      let c = (checked w now).0 in
      let hc = checked-Holds w now h in
      offer_at_cases (λ w' d e. Honest w' d) w frame now (unfold init in (h, tt))
        (λ e late. (hc, tt))
        λ in_time.
          accept_cases Honest c frame now (λ old. (hc, tt))
            (λ early. buffer-Honest c frame now (lookup frame.seq c.pending_frames) p hc)
            (λ due. deliver-Honest c frame now p hc)

  run-Honest :
      (w : RecvWindow) (arrivals : List Arrival)
      → All (λ (a : Arrival). P a.0) arrivals
      → Holds w
      → Honest (run w arrivals).0 (run w arrivals).1
  unfolding run
  run-Honest w [] p h = (h, tt)
  run-Honest w ((frame, now) ∷ rest) p h =
      let o = offer_at-Honest w frame now p.0 h in
      let r = run-Honest (offer_at w frame now).0 rest p.1 o.0 in
      (
        r.0,
        All-append P (offer_at w frame now).1.delivered (run (offer_at w frame now).0 rest).1 o.1
            r.1,
      )

-- A new window delivers frames that arrived, unchanged: what holds of every arriving frame holds of
-- every delivered one.
pub run_authentic :
    (P : Frame → Type 0) (timeout : ℕ) (arrivals : List Arrival)
    → All (λ (a : Arrival). P a.0) arrivals
    → All P (run (new_recv_window timeout) arrivals).1
run_authentic P timeout arrivals p =
    (run-Honest P (new_recv_window timeout) arrivals p (unfold new_recv_window in tt)).1
