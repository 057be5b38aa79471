-- ===== src/Outbound/Fit.antt =====
-- What a batch of replies holds (internal/outbound/manager.go).
use exec_over_lark.Prelude.{
  ℕ, zero, suc, ◌+◌, ◌≤◌, ◌≡◌, refl, sym, ◌∙◌, ap, true, false, ◌⊎◌, inl, inr, some, List, [], ◌∷◌,
  ◌++◌, ltb, is_empty, length, take, drop, take-append-drop, arith,
}
use mathlib.Core.List.{append_assoc, append-nil}
use mathlib.Core.Path.{subst}
use exec_over_lark.Prelude.Bytes.{Bytes, bytes_eq}
use exec_over_lark.Prelude.Dict.{lookup, insert, lookup-insert_self}
use exec_over_lark.Prelude.Result.{ok, Result-cases}
use exec_over_lark.Protocol.Frame.{Frame}
use exec_over_lark.Outbound.Types.{QueuedFrame, ConnQueue, ChatQueue, SendBatch}
use exec_over_lark.Outbound.Batch.{fits, collect, pop_reply_batch, reply_batch, build_reply_batch}

abbrev pub frames_of : List QueuedFrame → List Frame
frames_of [] = []
frames_of (q ∷ qs) = q.frame ∷ frames_of qs

length-frames_of : (qs : List QueuedFrame) → length (frames_of qs) ≡ length qs
length-frames_of [] = refl
length-frames_of (q ∷ qs) = omega (arith, length-frames_of qs)

is_empty-append : {A : Type 0} (xs : List A) (x : A) → is_empty (xs ++ x ∷ []) ≡ false
is_empty-append [] x = refl
is_empty-append (y ∷ ys) x = refl

take-length : {A : Type 0} (n : ℕ) (xs : List A) → n ≤ length xs → length (take n xs) ≡ n
take-length zero xs h = refl
take-length (suc n) [] h = absurd (omega arith)
take-length (suc n) (x ∷ xs) h = omega (arith, take-length n xs (omega arith))

-- The frames that the loop of `buildAndPopReplyBatchLocked` collects behind `acc`: the first ones of the
-- queue, as many as fit.
record Collected (c : ChatQueue) (conn : ConnQueue) (acc : List Frame) (rest : List QueuedFrame)
    (fs : List Frame) : Type 0 where
  count : ℕ
  within : count ≤ length rest
  prefix : fs ≡ acc ++ frames_of (take count rest)
  fit : fits c conn.target fs ≡ ok true
  full :
      (count ≡ length rest)
      ⊎ (fits c conn.target (acc ++ frames_of (take (suc count) rest)) ≡ ok false)

collect-Collected :
    (c : ChatQueue) (conn : ConnQueue) (acc : List Frame) (rest : List QueuedFrame)
    {fs : List Frame}
    → is_empty acc ≡ false
    → fits c conn.target acc ≡ ok true
    → collect c conn acc rest ≡ ok fs
    → Collected c conn acc rest fs
unfolding collect
collect-Collected c conn acc [] {fs} ne h e =
    let same_frames : acc ≡ fs = cc in
    record {
      count = 0;
      within = omega arith;
      prefix = sym same_frames ∙ sym (append-nil acc);
      fit = subst (λ x. fits c conn.target x ≡ ok true) same_frames h;
      full = inl refl;
    }
collect-Collected c conn acc (q ∷ rest) {fs} ne h e =
    elim (Result-cases (fits c conn.target (acc ++ q.frame ∷ []))) [
      | inl (x, r) ↦ cc (rw (r, collect) at e)
      | inr (true, r) ↦
          let ih =
            collect-Collected c conn (acc ++ q.frame ∷ []) rest {fs = fs}
              (is_empty-append acc q.frame) r (rw (r, collect) at e) in
          record {
            count = suc ih.count;
            within = omega (arith, ih.within);
            prefix = ih.prefix ∙ append_assoc acc (q.frame ∷ []) (frames_of (take ih.count rest));
            fit = ih.fit;
            full = elim ih.full [
              | inl all ↦ inl (omega (arith, all))
              | inr more ↦ inr (
                  subst (λ x. fits c conn.target x ≡ ok false)
                    (append_assoc acc (q.frame ∷ []) (frames_of (take (suc ih.count) rest))) more)
            ];
          }
      | inr (false, r) ↦
          let same_frames : acc ≡ fs = cc (rw (r, ne, collect) at e) in
          record {
            count = 0;
            within = omega arith;
            prefix = sym same_frames ∙ sym (append-nil acc);
            fit = subst (λ x. fits c conn.target x ≡ ok true) same_frames h;
            full = inr r;
          }
    ]

-- A batch of replies of a connection, and the queue that it leaves.
pub record Filled (key : Bytes) (conn : ConnQueue) (c c' : ChatQueue) (batch : SendBatch)
    : Type 0 where
  pub owner : batch.conn_id ≡ conn.conn_id
  pub sent : batch.frames ≡ frames_of batch.queued_frames
  pub some_frame : is_empty batch.frames ≡ false
  pub fit : fits c conn.target batch.frames ≡ ok true
  pub left : List QueuedFrame
  pub kept : batch.queued_frames ++ left ≡ conn.frames
  pub full :
      (left ≡ [])
      ⊎ (fits c conn.target (frames_of (take (suc (length batch.queued_frames)) conn.frames))
          ≡ ok false)
  pub queue :
      lookup key c'.conns ≡ some (record conn { frames = left; in_flight = conn.in_flight + 1 })

-- The loop from its start, on a queue that is not empty.
collect_start :
    (c : ChatQueue) (conn : ConnQueue) (q : QueuedFrame) (rest : List QueuedFrame) {fs : List Frame}
    → collect c conn [] (q ∷ rest) ≡ ok fs
    → Collected c conn (q.frame ∷ []) rest fs
unfolding collect
collect_start c conn q rest {fs} e = elim (Result-cases (fits c conn.target (q.frame ∷ []))) [
  | inl (x, r) ↦ cc (rw (r, collect) at e)
  | inr (true, r) ↦
      collect-Collected c conn (q.frame ∷ []) rest {fs = fs} refl r (rw (r, collect) at e)
  | inr (false, r) ↦ cc (rw (r, collect) at e)
]

-- The number of frames, and those that are taken and left.
collected_length :
    (c : ChatQueue) (conn : ConnQueue) (q : QueuedFrame) (rest : List QueuedFrame) (fs : List Frame)
    → (k : Collected c conn (q.frame ∷ []) rest fs) → length fs ≡ suc k.count
collected_length c conn q rest fs k =
    let len : length fs ≡ length (q.frame ∷ frames_of (take k.count rest)) = ap length k.prefix in
    omega (arith, len, length-frames_of (take k.count rest), take-length k.count rest k.within)

drop_all : {A : Type 0} (n : ℕ) (xs : List A) → n ≡ length xs → drop n xs ≡ []
drop_all zero [] h = refl
drop_all zero (x ∷ xs) h = absurd (omega arith)
drop_all (suc n) [] h = refl
drop_all (suc n) (x ∷ xs) h = drop_all n xs (omega arith)

not_empty-cons :
    {A : Type 0} (xs : List A) → is_empty xs ≡ false → (y : A) × (ys : List A) × (xs ≡ y ∷ ys)
not_empty-cons [] h = cc
not_empty-cons (y ∷ ys) h = (y, ys, refl)

no_more : (a b : ℕ) → b ≤ a → ltb a b ≡ false
no_more a b h = ground arith

pop-Filled :
    (key : Bytes) (conn : ConnQueue) (c : ChatQueue) (q : QueuedFrame) (rest : List QueuedFrame)
    (fs : List Frame)
    → conn.frames ≡ q ∷ rest
    → Collected c conn (q.frame ∷ []) rest fs
    → Filled key conn c
        (record c { conns = insert key (pop_reply_batch conn (reply_batch conn fs)).0 c.conns })
        (pop_reply_batch conn (reply_batch conn fs)).1
unfolding pop_reply_batch reply_batch
pop-Filled key conn c q rest fs e k =
    let len = collected_length c conn q rest fs k in
    let all : length conn.frames ≡ suc (length rest) = ap length e in
    let count = no_more (length conn.frames) (length fs) (omega (arith, len, all, k.within)) in
    rw (count, len, e)
      (record {
        owner = refl;
        sent = k.prefix;
        some_frame = subst (λ x. is_empty x ≡ false) (sym k.prefix) refl;
        fit = k.fit;
        left = drop k.count rest;
        kept = rw (take-append-drop k.count rest) refl;
        full = elim k.full [
          | inl all_taken ↦ inl (drop_all k.count rest all_taken)
          | inr more ↦ inr (
              subst (λ n. fits c conn.target (q.frame ∷ frames_of (take (suc n) rest)) ≡ ok false)
                (sym (take-length k.count rest k.within)) more)
        ];
        queue =
            lookup-insert_self key
              (record conn { frames = drop k.count rest; in_flight = conn.in_flight + 1 }) c.conns;
      })

-- A batch of replies that is taken from a connection's queue holds the frames at the queue's head, at least one of them, in
-- order; together they fit the limit; either nothing is left in the queue, or one frame more would
-- not have fitted; and the rest of the queue stays with the connection, which has one more batch in flight.
pub build_reply_batch-Filled :
    (key : Bytes) (conn : ConnQueue) (c : ChatQueue) {batch : SendBatch}
    → is_empty conn.frames ≡ false
    → (build_reply_batch key conn c).1 ≡ ok batch
    → Filled key conn c (build_reply_batch key conn c).0 batch
unfolding build_reply_batch
build_reply_batch-Filled key conn c {batch} ne h =
    let (q, rest, e) = not_empty-cons conn.frames ne in
    elim (Result-cases (collect c conn [] conn.frames)) [
      | inl (x, r) ↦ cc (rw (ne, r, build_reply_batch) at h)
      | inr (fs, r) ↦
          let k =
            collect_start c conn q rest {fs = fs}
              (subst (λ qs. collect c conn [] qs ≡ ok fs) e r) in
          let popped = pop_reply_batch conn (reply_batch conn fs) in
          let out : ok popped.1 ≡ ok batch = rw (ne, r, build_reply_batch) at h in
          let batch_is : popped.1 ≡ batch = cc in
          rw ne (
            rw (r, build_reply_batch)
              (subst (Filled key conn c (record c { conns = insert key popped.0 c.conns })) batch_is
                (pop-Filled key conn c q rest fs e k)))
    ]
