-- ===== src/Protocol/Window/Repeat.antt =====
-- A frame that comes twice (internal/protocol/frame.go).
use exec_over_lark.Prelude.{
  ℕ, ◌<◌, ◌≡◌, inl, inr, true, none, [], arith, ◌==◌, Bool-cases, Option-cases, ltb, nat_eq,
}
use exec_over_lark.Protocol.Frame.{Frame, max_uint64}
use exec_over_lark.Protocol.Window.{
  RecvWindow, RecvResult, init, check_gap, check_gap_timeout_at, accept, offer_at, result,
}
use exec_over_lark.Protocol.Window.Invariant.{
  WindowInv, checked, checked-WindowInv, offer_at-Advances,
}
use exec_over_lark.Protocol.Window.Seen.{Seen, Room, offer_at-Takes, checked-Keeps}
use exec_over_lark.Protocol.Window.Complete.{not-Seen}

abbrev pub repeated : RecvResult
repeated = record (result []) { duplicate = true }

accept-Seen :
    (w : RecvWindow) (frame : Frame) (now : ℕ)
    → WindowInv w
    → Seen frame.seq w
    → accept w frame now ≡ (w, repeated)
unfolding accept
accept-Seen w frame now h (inl lt) = ground arith
accept-Seen w frame now h (inr (f, e)) = elim (Bool-cases (ltb frame.seq w.next_expected_seq)) [
  | inl old ↦ rw old
  | inr new ↦ elim (Bool-cases (ltb w.next_expected_seq frame.seq)) [
    | inl early ↦ rw (new, early, e)
    | inr due ↦ absurd (not-Seen w h (inr (f, ground arith)))
  ]
]

-- What the offer of a frame computes to, behind its tests.
offer_at-Seen :
    (w : RecvWindow) (frame : Frame) (now : ℕ)
    → WindowInv w
    → Room w
    → 0 < w.next_expected_seq
    → Seen frame.seq w
    → (offer_at w frame now).2 ≡ none
    → offer_at w frame now ≡ ((checked w now).0, repeated, none)
unfolding offer_at
offer_at-Seen w frame now h r pos seen ok = elim (Bool-cases (frame.seq == 0)) [
  | inl z ↦ cc (simp z at ok)
  | inr p ↦ elim (Option-cases (checked w now).1) [
    | inl e ↦ simp (
      p,
      e,
      accept-Seen (checked w now).0 frame now (checked-WindowInv w now h)
          ((checked-Keeps w now e pos r).seen frame.seq seen),
    )
    | inr (x, e) ↦ cc (simp (p, e) at ok)
  ]
]

-- A frame that comes again, in a window that kept its invariant and whose numbers lie below
-- 2 ^ 64 - 1, is reported as a duplicate: if neither offer fails, the second delivers nothing and changes nothing
-- but the state of the gap that the check for a timeout leaves.
pub offer_at_again :
    (w : RecvWindow) (frame : Frame) (now later : ℕ)
    → WindowInv w
    → Room w
    → 0 < w.next_expected_seq
    → frame.seq < max_uint64
    → (offer_at w frame now).2 ≡ none
    → (offer_at (offer_at w frame now).0 frame later).2 ≡ none
    → offer_at (offer_at w frame now).0 frame later
      ≡ ((check_gap_timeout_at (init (offer_at w frame now).0) later).0, repeated, none)
unfolding check_gap_timeout_at check_gap
offer_at_again w frame now later h r pos b first second =
    let t = offer_at-Takes w frame now b pos r first in
    offer_at-Seen (offer_at w frame now).0 frame later
      (offer_at-Advances w frame now (omega arith) h).inv t.keeps.room
      (omega (arith, t.keeps.grows)) t.taken second
