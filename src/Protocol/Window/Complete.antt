-- ===== src/Protocol/Window/Complete.antt =====
-- Nothing is lost: every number that arrives is delivered once those before it have arrived
-- (internal/protocol/frame.go).
use exec_over_lark.Prelude.{
  ℕ, ◌+◌, ◌^◌, ◌≤◌, ◌<◌, ◌≡◌, refl, inl, inr, ◌⊎◌, Option, none, some, List, [], ◌∷◌, ◌++◌, arith,
  length, nat_eq, All, All-map,
}
use native.Mathlib.Decide.{dec_le}
use mathlib.Core.Path.{subst}
use exec_over_lark.Prelude.Dict.{Every-lookup}
use exec_over_lark.Protocol.Frame.{Frame, ProtocolError, max_uint64}
use exec_over_lark.Protocol.Window.{RecvWindow, offer_at, new_recv_window}
use exec_over_lark.Protocol.Window.Loop.{Ahead, expect, after, next_seq}
use exec_over_lark.Protocol.Window.Invariant.{
  WindowInv, new_recv_window-WindowInv, offer_at-Advances,
}
use exec_over_lark.Protocol.Window.Seen.{
  Seen, Room, Keeps, Keeps-refl, Keeps-trans, Takes, offer_at-Takes,
}
use exec_over_lark.Protocol.Window.Order.{Arrival, SeqBelow, errors_of, run, run-Advances}

-- A frame with the number arrives.
abbrev pub Arrives : ℕ → List Arrival → Type 0
Arrives s [] = ⊥
Arrives s ((frame, now) ∷ rest) = (frame.seq ≡ s) ⊎ Arrives s rest

pub no_errors :
    (o : Option ProtocolError) (es : List ProtocolError)
    → errors_of o ++ es ≡ []
    → (o ≡ none) × (es ≡ [])
no_errors none es h = (refl, h)
no_errors (some e) es h = cc

-- The window expects a number, and knows of none that is the last.
record Open (w : RecvWindow) : Type 0 where
  inv : WindowInv w
  room : Room w
  pos : 0 < w.next_expected_seq

offer_at-Open :
    (w : RecvWindow) (frame : Frame) (now : ℕ)
    → frame.seq < max_uint64
    → (offer_at w frame now).2 ≡ none
    → Open w
    → Open (offer_at w frame now).0 × Takes frame.seq w (offer_at w frame now).0
offer_at-Open w frame now b e o =
    let a = offer_at-Advances w frame now (omega arith) o.inv in
    let t = offer_at-Takes w frame now b o.pos o.room e in
    (record { inv = a.inv; room = t.keeps.room; pos = omega (arith, t.keeps.grows, o.pos) }, t)

abbrev Quiet : RecvWindow → List Arrival → Type 0
Quiet w arrivals = (run w arrivals).2 ≡ []

run-Keeps :
    (w : RecvWindow) (arrivals : List Arrival)
    → All (SeqBelow max_uint64) arrivals
    → Quiet w arrivals
    → Open w
    → Open (run w arrivals).0 × Keeps w (run w arrivals).0
unfolding run
run-Keeps w [] b q o = (o, Keeps-refl w o.room)
run-Keeps w ((frame, now) ∷ rest) b q o =
    let w' = (offer_at w frame now).0 in
    let (e, es) = no_errors (offer_at w frame now).2 (run w' rest).2 q in
    let (o', t) = offer_at-Open w frame now b.0 e o in
    let (o'', k) = run-Keeps w' rest b.1 es o' in (o'', Keeps-trans t.keeps k)

-- What arrives is seen.
run-Seen :
    (w : RecvWindow) (arrivals : List Arrival) (s : ℕ)
    → All (SeqBelow max_uint64) arrivals
    → Quiet w arrivals
    → Open w
    → Arrives s arrivals
    → Seen s (run w arrivals).0
unfolding run
run-Seen w [] s b q o a = absurd a
run-Seen w ((frame, now) ∷ rest) s b q o a =
    let w' = (offer_at w frame now).0 in
    let (e, es) = no_errors (offer_at w frame now).2 (run w' rest).2 q in
    let (o', t) = offer_at-Open w frame now b.0 e o in
    elim a [
      | inl here ↦ (run-Keeps w' rest b.1 es o').1.seen s (subst (λ n. Seen n w') here t.taken)
      | inr later ↦ run-Seen w' rest s b.1 es o' later
    ]

-- The expected number itself is not seen.
pub not-Seen : (w : RecvWindow) → WindowInv w → Seen w.next_expected_seq w → ⊥
not-Seen w h (inl lt) = omega arith
not-Seen w h (inr (f, e)) =
    let a =
      Every-lookup (Ahead w.next_expected_seq) w.next_expected_seq w.pending_frames h.ahead e in
    omega (arith, a.1)

after-le : (n : ℕ) (fs : List Frame) → after n fs ≤ n + length fs
after-le n [] = omega arith
after-le n (f ∷ fs) = ground (arith, after-le (next_seq n) fs)

-- If 1 to n have all arrived, in any order and however often, and no step failed by a timeout
-- (the numbers lie below 2 ^ 64 - 1), then a new window has delivered at least n frames.
pub run_complete :
    (timeout n : ℕ) (arrivals : List Arrival)
    → All (SeqBelow max_uint64) arrivals
    → (run (new_recv_window timeout) arrivals).2 ≡ []
    → ((s : ℕ) → 0 < s → s ≤ n → Arrives s arrivals)
    → n ≤ length (run (new_recv_window timeout) arrivals).1
run_complete timeout n arrivals b q all =
    let w = new_recv_window timeout in
    let inv = new_recv_window-WindowInv timeout in
    let o : Open w = record {
      inv = inv;
      room = unfold new_recv_window in record { next = omega arith; frames = tt };
      pos = unfold new_recv_window in omega arith;
    } in
    let (o', k) = run-Keeps w arrivals b q o in
    let w' = (run w arrivals).0 in
    let a =
      run-Advances w arrivals
        (All-map (SeqBelow max_uint64) (SeqBelow (2 ^ 64)) arrivals (λ a h. omega arith) b) inv in
    let e : expect w'.next_expected_seq ≡ after 1 (run w arrivals).1 =
      unfold new_recv_window in a.expects in
    elim (dec_le w'.next_expected_seq n) [
      | yes le ↦ absurd (
          not-Seen w' o'.inv
            (run-Seen w arrivals w'.next_expected_seq b q o (all w'.next_expected_seq o'.pos le)))
      | no gt ↦ ground (arith, after-le 1 (run w arrivals).1, e)
    ]
