-- ===== src/Protocol/Window/Seen.antt =====
-- The numbers that a window has seen: delivered, or pending (internal/protocol/frame.go).
use exec_over_lark.Prelude.{
  ℕ, zero, suc, ◌≤◌, ◌<◌, ◌≡◌, refl, ◌∙◌, inl, inr, ◌⊎◌, Option, none, some, [], ◌∷◌, arith, length,
  Bool-cases, Option-cases, nat_eq, beq,
}
use native.Mathlib.Nat.{le_trans}
use exec_over_lark.Prelude.Dict.{
  lookup, insert, Every, Every-insert, Every-remove, Every-lookup, lookup-insert, lookup-remove,
}
use exec_over_lark.Protocol.Frame.{Frame, ProtocolError, max_uint64}
use exec_over_lark.Protocol.Window.{
  RecvWindow, init, deliver_pending, settle_gap, buffer, deliver, offer_at,
}
use exec_over_lark.Protocol.Window.Loop.{
  advance, deliver_pending_stop, deliver_pending_step, deliver_pending-append,
}
use exec_over_lark.Protocol.Window.Invariant.{
  checked, stepped, offer_at_cases, accept_cases, check_gap-pending_frames,
  settle_gap-pending_frames, settle_gap-next_expected_seq, checked-expect,
}

abbrev pub Seen : ℕ → RecvWindow → Type 0
Seen s w = (s < w.next_expected_seq) ⊎ ((f : Frame) × (lookup s w.pending_frames ≡ some f))

-- No number that the window knows of is the last uint64, so its counter does not wrap.
pub record Room (w : RecvWindow) : Type 0 where
  pub next : w.next_expected_seq ≤ max_uint64
  pub frames : Every (λ (k : ℕ) (f : Frame). k < max_uint64) w.pending_frames

-- A step from `w` to `w'` that forgets no number.
pub record Keeps (w w' : RecvWindow) : Type 0 where
  pub room : Room w'
  pub seen : (s : ℕ) → Seen s w → Seen s w'
  pub grows : w.next_expected_seq ≤ w'.next_expected_seq

pub Keeps-refl : (w : RecvWindow) → Room w → Keeps w w
Keeps-refl w r = record { room = r; seen = λ s h. h; grows = omega arith }

pub Keeps-trans : {u v w : RecvWindow} → Keeps u v → Keeps v w → Keeps u w
Keeps-trans a b = record {
  room = b.room;
  seen = λ s h. b.seen s (a.seen s h);
  grows = le_trans a.grows b.grows;
}

-- Windows that agree in what they expect and in what is pending.
pub Keeps-of_same :
    (w w' : RecvWindow)
    → w'.next_expected_seq ≡ w.next_expected_seq
    → w'.pending_frames ≡ w.pending_frames
    → Room w
    → Keeps w w'
Keeps-of_same w w' e p r = record {
  room = record { next = rw e r.next; frames = rw p r.frames };
  seen = λ s h. rw (e, p) h;
  grows = omega arith;
}

advance-Keeps :
    (w : RecvWindow) {f : Frame}
    → lookup w.next_expected_seq w.pending_frames ≡ some f
    → Room w
    → Keeps w (advance w)
advance-Keeps w e r =
    let n = w.next_expected_seq in
    let below : n < max_uint64 =
      Every-lookup (λ (k : ℕ) (f : Frame). k < max_uint64) n w.pending_frames r.frames e in
    record {
      room = record {
        next = omega arith;
        frames = Every-remove (λ (k : ℕ) (f : Frame). k < max_uint64) n w.pending_frames r.frames;
      };
      seen = λ s h. ground (arith, lookup-remove n s w.pending_frames);
      grows = omega arith;
    }

deliver_pending-Keeps : (fuel : ℕ) (w : RecvWindow) → Room w → Keeps w (deliver_pending fuel w []).0
deliver_pending-Keeps zero w r = unfold deliver_pending in Keeps-refl w r
deliver_pending-Keeps (suc fuel) w r =
    elim (Option-cases (lookup w.next_expected_seq w.pending_frames)) [
      | inl e ↦ rw (deliver_pending_stop (suc fuel) w [] e) (Keeps-refl w r)
      | inr (p, e) ↦
          let step = advance-Keeps w e r in
          rw (deliver_pending_step fuel w e)
            (Keeps-trans step (deliver_pending-Keeps fuel (advance w) step.room))
    ]

-- A step that takes the frame in: its number is seen behind it.
pub record Takes (s : ℕ) (w w' : RecvWindow) : Type 0 where
  pub keeps : Keeps w w'
  pub taken : Seen s w'

insert-Seen :
    (w : RecvWindow) (frame : Frame) (s : ℕ)
    → Seen s w
    → Seen s (record w { pending_frames = insert frame.seq frame w.pending_frames })
insert-Seen w frame s (inl lt) = inl lt
insert-Seen w frame s (inr (f, e)) =
    let l = lookup-insert frame.seq s frame w.pending_frames in
    elim (Bool-cases (beq frame.seq s)) [
      | inl t ↦ inr (frame, ground (arith, l))
      | inr n ↦ inr (f, ground (arith, l))
    ]

buffer-Takes :
    (w : RecvWindow) (frame : Frame) (now : ℕ)
    → frame.seq < max_uint64
    → Room w
    → Takes frame.seq w (buffer w frame now (lookup frame.seq w.pending_frames)).0
unfolding buffer
buffer-Takes w frame now b r = elim (Option-cases (lookup frame.seq w.pending_frames)) [
  | inl e ↦ rw e (record {
    keeps = record {
      room = record {
        next = r.next;
        frames =
            Every-insert (λ (k : ℕ) (f : Frame). k < max_uint64) frame.seq frame w.pending_frames b
              r.frames;
      };
      seen = λ s h. insert-Seen w frame s h;
      grows = omega arith;
    };
    taken = inr (frame, ground (arith, lookup-insert frame.seq frame.seq frame w.pending_frames));
  })
  | inr (f, e) ↦ rw e (record { keeps = Keeps-refl w r; taken = inr (f, e) })
]

deliver-Takes :
    (w : RecvWindow) (frame : Frame) (now : ℕ)
    → frame.seq ≡ w.next_expected_seq
    → frame.seq < max_uint64
    → Room w
    → Takes frame.seq w (deliver w frame now).0
deliver-Takes w frame now e b r =
    let fuel = length w.pending_frames in
    let out = (deliver_pending fuel (stepped w) []).0 in
    let start : Keeps w (stepped w) = record {
      room = record { next = omega arith; frames = r.frames };
      seen = λ s h. ground arith;
      grows = omega arith;
    } in
    let loop = deliver_pending-Keeps fuel (stepped w) start.room in
    let settled =
      Keeps-of_same out (settle_gap now out) (settle_gap-next_expected_seq out now)
        (settle_gap-pending_frames out now) loop.room in
    unfold deliver in
    rw (deliver_pending-append fuel (stepped w) (frame ∷ [])) (record {
      keeps = Keeps-trans start (Keeps-trans loop settled);
      taken = settled.seen frame.seq (loop.seen frame.seq (inl (omega arith)));
    })

after_check : {s : ℕ} {u v w : RecvWindow} → Keeps u v → Takes s v w → Takes s u w
after_check k t = record { keeps = Keeps-trans k t.keeps; taken = t.taken }

pub checked-Keeps :
    (w : RecvWindow) (now : ℕ)
    → (checked w now).1 ≡ none
    → 0 < w.next_expected_seq
    → Room w
    → Keeps w (checked w now).0
checked-Keeps w now e pos r =
    Keeps-of_same w (checked w now).0 (ground (arith, checked-expect w now))
      ((check_gap-pending_frames (init (init w)) now).0 e ∙ (unfold init in refl)) r

-- What an offer does to the numbers seen, if there is no error.
abbrev OfferSeen : RecvWindow → ℕ → RecvWindow → Option ProtocolError → Type 0
OfferSeen w s w' none = Takes s w w'
OfferSeen w s w' (some e) = Unit

pub offer_at-Takes :
    (w : RecvWindow) (frame : Frame) (now : ℕ)
    → frame.seq < max_uint64
    → 0 < w.next_expected_seq
    → Room w
    → (offer_at w frame now).2 ≡ none
    → Takes frame.seq w (offer_at w frame now).0
offer_at-Takes w frame now b pos r no_error =
    let all : OfferSeen w frame.seq (offer_at w frame now).0 (offer_at w frame now).2 =
      offer_at_cases (λ w' d e. OfferSeen w frame.seq w' e) w frame now tt (λ e late. tt)
        λ in_time.
          let c = (checked w now).0 in
          let k = checked-Keeps w now in_time pos r in
          accept_cases (λ w' d. Takes frame.seq w w') c frame now
            (λ old. record { keeps = k; taken = inl old })
            (λ early. after_check k (buffer-Takes c frame now b k.room))
            (λ due. after_check k (deliver-Takes c frame now due b k.room)) in
    rw no_error at all
