-- ===== src/Protocol/Window/Invariant.antt =====
-- What holds of a window between two calls of `OfferAt` (internal/protocol/frame.go), and what one
-- call delivers.
use exec_over_lark.Prelude.{
  ℕ, ◌+◌, ◌^◌, ◌<◌, ◌≡◌, refl, sym, ap, ◌∙◌, inl, inr, Option, none, some, List, [], ◌∷◌, arith,
  ◌==◌, ==_iff, length, is_empty, not, Bool-cases, Option-cases, ltb, ltb→lt, nat_eq,
}
use exec_over_lark.Prelude.Dict.{
  lookup, Every, Every-insert, Every-map, Every-lookup-none, insert-not_empty,
}
use exec_over_lark.Protocol.Frame.{Frame, ProtocolError, invalid_frame, u64}
use exec_over_lark.Protocol.Window.{
  RecvWindow, init, check_gap, deliver_pending, settle_gap, buffer, deliver, accept, offer_at,
  new_recv_window,
}
use exec_over_lark.Protocol.Window.Loop.{
  Due, Ahead, Consecutive, expect, after, next_seq, deliver_pending-Delivers,
  deliver_pending-append, deliver_pending_ends,
}

pub record WindowInv (w : RecvWindow) : Type 0 where
  pub bounded : w.next_expected_seq < 2 ^ 64
  pub ahead : Every (Ahead w.next_expected_seq) w.pending_frames
  pub gap : w.gap_open ≡ not (is_empty w.pending_frames)

pub new_recv_window-WindowInv : (timeout : ℕ) → WindowInv (new_recv_window timeout)
unfolding new_recv_window
new_recv_window-WindowInv timeout = record { bounded = omega arith; ahead = tt; gap = refl }

-- What a step from `w` to `w'` delivers, in order and without a gap.
pub record Advances (w w' : RecvWindow) (delivered : List Frame) : Type 0 where
  pub inv : WindowInv w'
  pub in_order : Consecutive (expect w.next_expected_seq) delivered
  pub expects : expect w'.next_expected_seq ≡ after (expect w.next_expected_seq) delivered

pub init-WindowInv : (w : RecvWindow) → WindowInv w → WindowInv (init w)
unfolding init
init-WindowInv w h = elim (Bool-cases (w.next_expected_seq == 0)) [
  | inl z ↦ record {
    bounded = ground arith;
    ahead =
        Every-map (Ahead w.next_expected_seq) (Ahead (expect w.next_expected_seq)) w.pending_frames
          (λ j v a. ground arith) h.ahead;
    gap = h.gap;
  }
  | inr p ↦ rw p (record { bounded = h.bounded; ahead = h.ahead; gap = h.gap })
]

-- The check for a timeout keeps the expected number.
pub check_gap-next_expected_seq :
    (w : RecvWindow) (now : ℕ) → (check_gap w now).0.next_expected_seq ≡ w.next_expected_seq
unfolding check_gap
check_gap-next_expected_seq w now = ground arith

pub check_gap-WindowInv : (w : RecvWindow) (now : ℕ) → WindowInv w → WindowInv (check_gap w now).0
unfolding check_gap
check_gap-WindowInv w now h = elim (Bool-cases w.gap_open) [
  | inl up ↦ elim (Bool-cases (is_empty w.pending_frames)) [
    | inl e ↦ simp (up, e) (record { bounded = h.bounded; ahead = h.ahead; gap = rw e })
    | inr e ↦ elim (Bool-cases (w.gap_timeout == 0)) [
      | inl z ↦ simp (up, e, z) h
      | inr z ↦ elim (Bool-cases (ltb now (w.gap_started_at + w.gap_timeout))) [
        | inl early ↦ simp (up, e, z, early) h
        | inr late ↦ simp (up, e, z, late) (record { bounded = h.bounded; ahead = tt; gap = refl })
      ]
    ]
  ]
  | inr shut ↦ simp shut h
]

settle_gap-WindowInv :
    (w : RecvWindow) (now : ℕ)
    → w.next_expected_seq < 2 ^ 64
    → Every (Ahead w.next_expected_seq) w.pending_frames
    → WindowInv (settle_gap now w)
unfolding settle_gap
settle_gap-WindowInv w now b h = elim (Bool-cases (is_empty w.pending_frames)) [
  | inl e ↦ rw e (record { bounded = b; ahead = h; gap = rw e })
  | inr e ↦ rw e (record { bounded = b; ahead = h; gap = rw e })
]

pub settle_gap-next_expected_seq :
    (w : RecvWindow) (now : ℕ) → (settle_gap now w).next_expected_seq ≡ w.next_expected_seq
unfolding settle_gap
settle_gap-next_expected_seq w now = ground arith

-- The window in which the loop of `OfferAt` starts.
abbrev pub stepped : RecvWindow → RecvWindow
stepped w = record w { next_expected_seq = u64 (w.next_expected_seq + 1) }

deliver-Advances :
    (w : RecvWindow) (frame : Frame) (now : ℕ)
    → 0 < w.next_expected_seq
    → frame.seq ≡ w.next_expected_seq
    → WindowInv w
    → Advances w (deliver w frame now).0 (deliver w frame now).1.delivered
unfolding deliver
deliver-Advances w frame now pos e h =
    let n = w.next_expected_seq in
    let due : Every (Due (u64 (n + 1))) w.pending_frames =
      Every-map (Ahead n) (Due (u64 (n + 1))) w.pending_frames (λ j v a. omega arith) h.ahead in
    let fuel = length w.pending_frames in
    let d = deliver_pending-Delivers fuel (stepped w) (omega arith) due in
    let next : expect (u64 (n + 1)) ≡ next_seq (expect n) = ground arith in
    let r = (deliver_pending fuel (stepped w) []).0 in
    let ahead : Every (Ahead r.next_expected_seq) r.pending_frames =
      Every-lookup-none (Due r.next_expected_seq) (Ahead r.next_expected_seq) r.next_expected_seq
        r.pending_frames (λ j v a ne. ground (arith, ==_iff j r.next_expected_seq))
        (deliver_pending_ends fuel (stepped w) (omega arith)) d.due in
    rw (deliver_pending-append fuel (stepped w) (frame ∷ [])) (record {
      inv = settle_gap-WindowInv r now d.bounded ahead;
      in_order = ((ground arith), rw next at d.in_order);
      expects = ap expect (settle_gap-next_expected_seq r now) ∙ (rw next at d.expects);
    })

buffer-WindowInv :
    (w : RecvWindow) (frame : Frame) (now : ℕ) (o : Option Frame)
    → 0 < w.next_expected_seq
    → w.next_expected_seq < frame.seq
    → frame.seq < 2 ^ 64
    → WindowInv w
    → WindowInv (buffer w frame now o).0
unfolding buffer
buffer-WindowInv w frame now (some f) pos lt b h = h
buffer-WindowInv w frame now none pos lt b h = record {
  bounded = h.bounded;
  ahead =
      Every-insert (Ahead w.next_expected_seq) frame.seq frame w.pending_frames (pos, lt, refl, b)
        h.ahead;
  gap = sym (insert-not_empty frame.seq frame w.pending_frames);
}

pub buffer-delivers_nothing :
    (w : RecvWindow) (frame : Frame) (now : ℕ) (o : Option Frame)
    → ((buffer w frame now o).0.next_expected_seq ≡ w.next_expected_seq)
      × ((buffer w frame now o).1.delivered ≡ [])
unfolding buffer
buffer-delivers_nothing w frame now none = (refl, refl)
buffer-delivers_nothing w frame now (some f) = (refl, refl)

-- A step that delivers nothing and keeps the expected number.
Advances-nothing :
    (w w' : RecvWindow) (delivered : List Frame)
    → WindowInv w'
    → expect w'.next_expected_seq ≡ expect w.next_expected_seq
    → delivered ≡ []
    → Advances w w' delivered
Advances-nothing w w' delivered h e nothing =
    rw nothing (record { inv = h; in_order = tt; expects = e })

accept-Advances :
    (w : RecvWindow) (frame : Frame) (now : ℕ)
    → 0 < w.next_expected_seq
    → frame.seq < 2 ^ 64
    → WindowInv w
    → Advances w (accept w frame now).0 (accept w frame now).1.delivered
unfolding accept
accept-Advances w frame now pos b h = elim (Bool-cases (ltb frame.seq w.next_expected_seq)) [
  | inl old ↦ rw old (Advances-nothing w w [] h refl refl)
  | inr new ↦ elim (Bool-cases (ltb w.next_expected_seq frame.seq)) [
    | inl early ↦
        let o = lookup frame.seq w.pending_frames in
        let (same_next, nothing) = buffer-delivers_nothing w frame now o in
        rw (new, early)
          (Advances-nothing w (buffer w frame now o).0 (buffer w frame now o).1.delivered
            (buffer-WindowInv w frame now o pos (ltb→lt _ _ early) b h) (ap expect same_next)
            nothing)
    | inr due ↦ rw (new, due) (deliver-Advances w frame now pos (ground arith) h)
  ]
]

init-next_expected_seq : (w : RecvWindow) → (init w).next_expected_seq ≡ expect w.next_expected_seq
unfolding init
init-next_expected_seq w = refl

expect-pos : (n : ℕ) → 0 < expect n
expect-pos n = ground arith

-- What a step does from a window that expects the same number.
Advances-from :
    (w u w' : RecvWindow) (delivered : List Frame)
    → expect u.next_expected_seq ≡ expect w.next_expected_seq
    → Advances u w' delivered
    → Advances w w' delivered
Advances-from w u w' delivered e a = record {
  inv = a.inv;
  in_order = rw e at a.in_order;
  expects = rw e at a.expects;
}

-- The window that `OfferAt` has behind its check for a timeout.
abbrev pub checked : RecvWindow → ℕ → RecvWindow × Option ProtocolError
checked w now = check_gap (init (init w)) now

pub checked-expect :
    (w : RecvWindow) (now : ℕ) → (checked w now).0.next_expected_seq ≡ expect w.next_expected_seq
checked-expect w now =
    let e = check_gap-next_expected_seq (init (init w)) now in
    let i = init-next_expected_seq (init w) in
    let j = init-next_expected_seq w in ground (arith, e, i, j)

pub checked-WindowInv : (w : RecvWindow) (now : ℕ) → WindowInv w → WindowInv (checked w now).0
checked-WindowInv w now h =
    check_gap-WindowInv (init (init w)) now (init-WindowInv (init w) (init-WindowInv w h))

pub offer_at-Advances :
    (w : RecvWindow) (frame : Frame) (now : ℕ)
    → frame.seq < 2 ^ 64
    → WindowInv w
    → Advances w (offer_at w frame now).0 (offer_at w frame now).1.delivered
unfolding offer_at
offer_at-Advances w frame now b h = elim (Bool-cases (frame.seq == 0)) [
  | inl zero_seq ↦ rw zero_seq (
      Advances-nothing w (init w) [] (init-WindowInv w h) (ground (arith, init-next_expected_seq w))
        refl)
  | inr pos ↦
      let same_expect : expect (checked w now).0.next_expected_seq ≡ expect w.next_expected_seq =
        ground (arith, checked-expect w now) in
      elim (Option-cases (checked w now).1) [
        | inl in_time ↦
            rw (pos, in_time)
              (Advances-from w (checked w now).0 _ _ same_expect (
                accept-Advances (checked w now).0 frame now (ground (arith, checked-expect w now)) b
                  (checked-WindowInv w now h)))
        | inr (e, late) ↦
            rw (pos, late)
              (Advances-nothing w (checked w now).0 [] (checked-WindowInv w now h) same_expect refl)
      ]
]

-- The three ways through `OfferAt`.
pub offer_at_cases {ℓ} :
    (C : RecvWindow → List Frame → Option ProtocolError → Type ℓ) (w : RecvWindow) (frame : Frame)
    (now : ℕ)
    → C (init w) [] (some invalid_frame)
    → ((e : ProtocolError) → (checked w now).1 ≡ some e → C (checked w now).0 [] (some e))
    → ((checked w now).1 ≡ none
        → C
            (accept (checked w now).0 frame now).0
            (accept (checked w now).0 frame now).1.delivered
            none)
    → C (offer_at w frame now).0 (offer_at w frame now).1.delivered (offer_at w frame now).2
unfolding offer_at
offer_at_cases C w frame now bad late good = elim (Bool-cases (frame.seq == 0)) [
  | inl zero_seq ↦ simp zero_seq bad
  | inr pos ↦ elim (Option-cases (checked w now).1) [
    | inl in_time ↦ simp (pos, in_time) (good in_time)
    | inr (e, out) ↦ simp (pos, out) (late e out)
  ]
]

-- The three ways through the rest of it.
pub accept_cases {ℓ} :
    (C : RecvWindow → List Frame → Type ℓ) (w : RecvWindow) (frame : Frame) (now : ℕ)
    → (frame.seq < w.next_expected_seq → C w [])
    → (w.next_expected_seq < frame.seq
        → C (buffer w frame now (lookup frame.seq w.pending_frames)).0 [])
    → (frame.seq ≡ w.next_expected_seq
        → C (deliver w frame now).0 (deliver w frame now).1.delivered)
    → C (accept w frame now).0 (accept w frame now).1.delivered
unfolding accept
accept_cases C w frame now old early due = elim (Bool-cases (ltb frame.seq w.next_expected_seq)) [
  | inl lt ↦ simp lt (old (ltb→lt _ _ lt))
  | inr ge ↦ elim (Bool-cases (ltb w.next_expected_seq frame.seq)) [
    | inl gt ↦
        simp (ge, gt, (buffer-delivers_nothing w frame now (lookup frame.seq w.pending_frames)).1)
          (early (ltb→lt _ _ gt))
    | inr le ↦ simp (ge, le) (due (ground arith))
  ]
]

-- A check without a timeout leaves the pending frames, and one with it none.
pub check_gap-pending_frames :
    (w : RecvWindow) (now : ℕ)
    → ((check_gap w now).1 ≡ none → (check_gap w now).0.pending_frames ≡ w.pending_frames)
      × ((e : ProtocolError)
          → (check_gap w now).1 ≡ some e
          → (check_gap w now).0.pending_frames ≡ [])
unfolding check_gap
check_gap-pending_frames w now = (λ h. ground arith, λ e h. ground arith)

pub settle_gap-pending_frames :
    (w : RecvWindow) (now : ℕ) → (settle_gap now w).pending_frames ≡ w.pending_frames
unfolding settle_gap
settle_gap-pending_frames w now = ground arith
