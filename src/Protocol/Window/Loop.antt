-- ===== src/Protocol/Window/Loop.antt =====
-- The delivery loop of `OfferAt` (internal/protocol/frame.go).
use exec_over_lark.Prelude.{
  ℕ, zero, suc, ◌+◌, ◌^◌, ◌≤◌, ◌<◌, ◌≡◌, refl, ◌∙◌, inl, inr, none, some, List, [], ◌∷◌, ◌++◌,
  arith, ◌==◌, ==_iff, if◌then◌else◌, length, Option-cases, nat_eq,
}
use mathlib.Core.List.{append_assoc, append-nil}
use exec_over_lark.Prelude.Dict.{
  lookup, remove, Every, Every-lookup, Every-remove_ne, length-remove_lt, lookup_empty,
}
use exec_over_lark.Protocol.Frame.{Frame, u64, max_uint64}
use exec_over_lark.Protocol.Window.{RecvWindow, deliver_pending}

-- A pending frame that may be the expected one; with no frame pending it says nothing.
abbrev pub Due : ℕ → ℕ → Frame → Type 0
Due n k f = (0 < n) × (n ≤ k) × (f.seq ≡ k) × (k < 2 ^ 64)

-- A pending frame behind a gap.
abbrev pub Ahead : ℕ → ℕ → Frame → Type 0
Ahead n k f = (0 < n) × (n < k) × (f.seq ≡ k) × (k < 2 ^ 64)

-- The number after `n`: the window goes from 2 ^ 64 - 1 to 1, because it takes 0 for a new window.
abbrev pub next_seq : ℕ → ℕ
next_seq n = if n == max_uint64 then 1 else n + 1

-- The frames carry the numbers from `n` on, each once and in order.
abbrev pub Consecutive : ℕ → List Frame → Type 0
Consecutive n [] = Unit
Consecutive n (f ∷ fs) = (f.seq ≡ n) × Consecutive (next_seq n) fs

-- The number that a window waits for.
abbrev pub expect : ℕ → ℕ
expect n = if n == 0 then 1 else n

-- The number behind `count` frames from `n` on.
abbrev pub after : ℕ → List Frame → ℕ
after n [] = n
after n (f ∷ fs) = after (next_seq n) fs

pub Consecutive-append :
    (n : ℕ) (xs ys : List Frame)
    → Consecutive n xs
    → Consecutive (after n xs) ys
    → Consecutive n (xs ++ ys)
Consecutive-append n [] ys h k = k
Consecutive-append n (x ∷ xs) ys h k = (h.0, Consecutive-append (next_seq n) xs ys h.1 k)

pub after-append : (n : ℕ) (xs ys : List Frame) → after n (xs ++ ys) ≡ after (after n xs) ys
after-append n [] ys = refl
after-append n (x ∷ xs) ys = after-append (next_seq n) xs ys

pub expect-u64 : (n : ℕ) → n < 2 ^ 64 → expect (u64 (n + 1)) ≡ next_seq n
expect-u64 n h = ground arith

-- One round.
abbrev pub advance : RecvWindow → RecvWindow
advance w = record w {
  pending_frames = remove w.next_expected_seq w.pending_frames;
  next_expected_seq = u64 (w.next_expected_seq + 1);
}

pub advance-Due :
    (w : RecvWindow)
    → Every (Due w.next_expected_seq) w.pending_frames
    → Every (Due (advance w).next_expected_seq) (advance w).pending_frames
advance-Due w h =
    Every-remove_ne (Due w.next_expected_seq) (Due (u64 (w.next_expected_seq + 1)))
      w.next_expected_seq w.pending_frames (λ j v p q. ground (arith, ==_iff j w.next_expected_seq))
      h

pub deliver_pending_stop :
    (fuel : ℕ) (w : RecvWindow) (before : List Frame)
    → lookup w.next_expected_seq w.pending_frames ≡ none
    → deliver_pending fuel w before ≡ (w, before)
unfolding deliver_pending
deliver_pending_stop zero w before e = refl
deliver_pending_stop (suc fuel) w before e = rw (e, deliver_pending)

deliver_pending_next :
    (fuel : ℕ) (w : RecvWindow) (before : List Frame) {p : Frame}
    → lookup w.next_expected_seq w.pending_frames ≡ some p
    → deliver_pending (suc fuel) w before ≡ deliver_pending fuel (advance w) (before ++ p ∷ [])
unfolding deliver_pending
deliver_pending_next fuel w before e = rw (e, deliver_pending)

-- What is delivered is put behind what was delivered before.
pub deliver_pending-append :
    (fuel : ℕ) (w : RecvWindow) (before : List Frame)
    → deliver_pending fuel w before
      ≡ ((deliver_pending fuel w []).0, before ++ (deliver_pending fuel w []).1)
deliver_pending-append zero w before = unfold deliver_pending in simp append-nil
deliver_pending-append (suc fuel) w before =
    elim (Option-cases (lookup w.next_expected_seq w.pending_frames)) [
      | inl e ↦
          rw (deliver_pending_stop (suc fuel) w before e, deliver_pending_stop (suc fuel) w [] e)
            (simp append-nil)
      | inr (p, e) ↦ rw (
        deliver_pending_next fuel w before e,
        deliver_pending_next fuel w [] e,
        deliver_pending-append fuel (advance w) (before ++ p ∷ []),
        deliver_pending-append fuel (advance w) (p ∷ []),
        append_assoc,
      )
    ]

pub deliver_pending_step :
    (fuel : ℕ) (w : RecvWindow) {p : Frame}
    → lookup w.next_expected_seq w.pending_frames ≡ some p
    → deliver_pending (suc fuel) w []
      ≡ ((deliver_pending fuel (advance w) []).0, p ∷ (deliver_pending fuel (advance w) []).1)
deliver_pending_step fuel w {p} e =
    deliver_pending_next fuel w [] e ∙ deliver_pending-append fuel (advance w) (p ∷ [])

-- What the loop leaves and what it delivers.
pub record Delivers (w : RecvWindow) (r : RecvWindow × List Frame) : Type 0 where
  pub in_order : Consecutive (expect w.next_expected_seq) r.1
  pub expects : expect r.0.next_expected_seq ≡ after (expect w.next_expected_seq) r.1
  pub due : Every (Due r.0.next_expected_seq) r.0.pending_frames
  pub bounded : r.0.next_expected_seq < 2 ^ 64

pub deliver_pending-Delivers :
    (fuel : ℕ) (w : RecvWindow)
    → w.next_expected_seq < 2 ^ 64
    → Every (Due w.next_expected_seq) w.pending_frames
    → Delivers w (deliver_pending fuel w [])
deliver_pending-Delivers zero w b h =
    unfold deliver_pending in record { in_order = tt; expects = refl; due = h; bounded = b }
deliver_pending-Delivers (suc fuel) w b h =
    elim (Option-cases (lookup w.next_expected_seq w.pending_frames)) [
      | inl e ↦
          rw (deliver_pending_stop (suc fuel) w [] e)
            (record { in_order = tt; expects = refl; due = h; bounded = b })
      | inr (p, e) ↦
          let d = Every-lookup (Due w.next_expected_seq) w.next_expected_seq w.pending_frames h e in
          let ih = deliver_pending-Delivers fuel (advance w) (omega arith) (advance-Due w h) in
          let next : expect (u64 (w.next_expected_seq + 1))
              ≡ next_seq (expect w.next_expected_seq) =
            ground arith in
          rw (deliver_pending_step fuel w e) (record {
            in_order = ((ground arith), rw next at ih.in_order);
            expects = rw next at ih.expects;
            due = ih.due;
            bounded = ih.bounded;
          })
    ]

-- With the number of pending frames as fuel the loop ends by its test.
pub deliver_pending_ends :
    (fuel : ℕ) (w : RecvWindow)
    → length w.pending_frames ≤ fuel
    → lookup
        (deliver_pending fuel w []).0.next_expected_seq
        (deliver_pending fuel w []).0.pending_frames
      ≡ none
deliver_pending_ends zero w h =
    unfold deliver_pending in lookup_empty w.next_expected_seq w.pending_frames h
deliver_pending_ends (suc fuel) w h =
    elim (Option-cases (lookup w.next_expected_seq w.pending_frames)) [
      | inl e ↦ rw (deliver_pending_stop (suc fuel) w [] e) e
      | inr (p, e) ↦ rw (deliver_pending_step fuel w e) (
          deliver_pending_ends fuel (advance w)
            (omega (arith, length-remove_lt w.next_expected_seq w.pending_frames e)))
    ]
