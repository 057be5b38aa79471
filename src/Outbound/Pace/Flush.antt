-- ===== src/Outbound/Pace/Flush.antt =====
-- What a flush does to the pace of a chat (internal/outbound/manager.go).
use exec_over_lark.Prelude.{
  ℕ, ◌≡◌, refl, sym, ◌∙◌, Bool, true, false, Option, none, some, List, [], ◌∷◌, ltb, is_empty,
  arith, Bool-cases, Option-cases, inl, inr,
}
use mathlib.Core.Path.{subst}
use exec_over_lark.Prelude.Bytes.{Bytes, bytes_eq}
use exec_over_lark.Prelude.Dict.{Dict, insert, remove}
use exec_over_lark.Prelude.Result.{Result, ok, err, Result-cases}
use exec_over_lark.Outbound.Types.{
  ConnQueue, RootOpenJob, ChatQueue, SendBatch, SendKind, no_send, root, reply, OutboundError,
  too_large, Effect, DropReason,
}
use exec_over_lark.Outbound.Schedule.{replan, mark_attempt}
use exec_over_lark.Outbound.Select.{
  select_heartbeat_conn, select_root_job, select_pending_conn, head_created_at,
}
use exec_over_lark.Outbound.Batch.{
  fits, collect, build_reply_batch, build_root_batch, with_heartbeat, pop_heartbeat_batch,
  pop_pending_batch, select_and_pop_batch, drop_conn, settle_batch, prepare_batch, finish_flush,
  flush_once, Prepared,
}
use exec_over_lark.Outbound.Pace.{
  Paced, Idle, Idle-refl, Keeps, replanned, replan-Paced, replan-Idle, SendKind-cases,
}

pub Keeps-refl : (c : ChatQueue) → Keeps c c
Keeps-refl c = record { idle = Idle-refl c; paced = λ p. p }

pub Keeps-trans : (a b c : ChatQueue) → Keeps a b → Keeps b c → Keeps a c
Keeps-trans a b c k l = record {
  idle = record {
    last = l.idle.last ∙ k.idle.last;
    has_last = l.idle.has_last ∙ k.idle.has_last;
    cooldown = l.idle.cooldown ∙ k.idle.cooldown;
  };
  paced = λ p. l.paced (k.paced p);
}

-- Only the connections or the jobs change.
Keeps-conns : (c : ChatQueue) (m : Dict Bytes ConnQueue) → Keeps c (record c { conns = m })
Keeps-conns c m = record {
  idle = record { last = refl; has_last = refl; cooldown = refl };
  paced = λ p. p;
}

Keeps-jobs : (c : ChatQueue) (m : Dict Bytes RootOpenJob) → Keeps c (record c { root_jobs = m })
Keeps-jobs c m = record {
  idle = record { last = refl; has_last = refl; cooldown = refl };
  paced = λ p. p;
}

build_reply_batch-Keeps :
    (key : Bytes) (conn : ConnQueue) (c : ChatQueue) → Keeps c (build_reply_batch key conn c).0
build_reply_batch-Keeps key conn c = elim (Bool-cases (is_empty conn.frames)) [
  | inl e ↦ unfold build_reply_batch in rw e (Keeps-refl c)
  | inr e ↦ elim (Result-cases (collect c conn [] conn.frames)) [
    | inl (x, r) ↦ unfold build_reply_batch in rw e (rw (r, build_reply_batch) (Keeps-refl c))
    | inr (fs, r) ↦ unfold build_reply_batch in rw e (rw (r, build_reply_batch) (Keeps-conns c _))
  ]
]

build_root_batch-Keeps :
    (now : ℕ) (key : Bytes) (job : RootOpenJob) (c : ChatQueue)
    → Keeps c (build_root_batch now key job c).0
unfolding build_root_batch
build_root_batch-Keeps now key job c = elim (Result-cases (fits c job.target (job.frame ∷ []))) [
  | inl (x, r) ↦ rw (r, build_root_batch) (Keeps-refl c)
  | inr (true, r) ↦ rw (r, build_root_batch) (Keeps-jobs c _)
  | inr (false, r) ↦
      rw (r, build_root_batch)
        (replanned now c (record c { root_jobs = remove job.id c.root_jobs })
          (record { last = refl; has_last = refl; cooldown = refl }))
]

pop_heartbeat_batch-Keeps :
    (now : ℕ) (key : Bytes) (conn : ConnQueue) (c : ChatQueue)
    → Keeps c (pop_heartbeat_batch now key conn c).0
unfolding pop_heartbeat_batch
pop_heartbeat_batch-Keeps now key conn c = elim (Bool-cases (is_empty conn.frames)) [
  | inr e ↦ rw e (build_reply_batch-Keeps key conn c)
  | inl e ↦ elim (Result-cases (with_heartbeat now conn).0) [
    | inl (x, r) ↦ rw e (rw (r, pop_heartbeat_batch) (Keeps-conns c _))
    | inr (conn', r) ↦
        let d : ChatQueue = record c { conns = insert key conn' c.conns } in
        rw e (
          rw (r, pop_heartbeat_batch)
            (Keeps-trans c d _ (Keeps-conns c d.conns) (build_reply_batch-Keeps key conn' d)))
  ]
]

pop_pending_batch-Keeps :
    (now : ℕ) (job : Option (Bytes × RootOpenJob)) (conn : Option (Bytes × ConnQueue))
    (c : ChatQueue)
    → Keeps c (pop_pending_batch now job conn c).0
unfolding pop_pending_batch
pop_pending_batch-Keeps now none none c = Keeps-refl c
pop_pending_batch-Keeps now none (some (key, conn)) c = build_reply_batch-Keeps key conn c
pop_pending_batch-Keeps now (some (id, job)) none c = build_root_batch-Keeps now id job c
pop_pending_batch-Keeps now (some (id, job)) (some (key, conn)) c =
    elim (Bool-cases (ltb (head_created_at conn) job.created_at)) [
      | inl t ↦ rw t (build_reply_batch-Keeps key conn c)
      | inr f ↦ rw f (build_root_batch-Keeps now id job c)
    ]

select_and_pop_batch-Keeps : (now : ℕ) (c : ChatQueue) → Keeps c (select_and_pop_batch now c).0
unfolding select_and_pop_batch
select_and_pop_batch-Keeps now c = elim (Option-cases (select_heartbeat_conn now c)) [
  | inl e ↦
      rw (e, select_and_pop_batch)
        (pop_pending_batch-Keeps now (select_root_job c) (select_pending_conn c) c)
  | inr ((key, conn), e) ↦ rw (e, select_and_pop_batch) (pop_heartbeat_batch-Keeps now key conn c)
]

-- A step that makes an attempt at `now`.
pub record Sends (now : ℕ) (c c' : ChatQueue) : Type 0 where
  pub last : c'.last_attempt_at ≡ now
  pub has_last : c'.has_last_attempt ≡ true
  pub cooldown : c'.cooldown ≡ c.cooldown
  pub paced : Paced c'

sends : (now : ℕ) (c d : ChatQueue) → Keeps c d → Sends now c (replan now (mark_attempt now d))
unfolding mark_attempt
sends now c d k =
    let e : ChatQueue = record d { last_attempt_at = now; has_last_attempt = true } in
    let i = replan-Idle now e in
    record {
      last = i.last;
      has_last = i.has_last;
      cooldown = i.cooldown ∙ k.idle.cooldown;
      paced = replan-Paced now e;
    }

-- What a flush does, by the batch that it sends.
abbrev pub Outcome : ℕ → ChatQueue → ChatQueue → Option SendBatch → Type 0
Outcome now c c' none = Keeps c c'
Outcome now c c' (some batch) = Sends now c c'

abbrev ByKind : ℕ → ChatQueue → ChatQueue → SendKind → Type 0
ByKind now c c' no_send = Keeps c c'
ByKind now c c' root = Sends now c c'
ByKind now c c' reply = Sends now c c'

abbrev ByDrop : ℕ → ChatQueue → ChatQueue → SendKind → Option (DropReason × Bool) → Type 0
ByDrop now c c' kind none = ByKind now c c' kind
ByDrop now c c' kind (some r) = Keeps c c'

drop_conn-Idle : (id : Bytes) (e : OutboundError) (c : ChatQueue) → Idle c (drop_conn id e c).0
unfolding drop_conn
drop_conn-Idle id e c = record {
  last = ground arith;
  has_last = ground arith;
  cooldown = ground arith;
}

-- No batch is sent, whatever was dropped.
ByDrop-Keeps :
    (now : ℕ) (c c' : ChatQueue) (d : Option (DropReason × Bool))
    → Keeps c c'
    → ByDrop now c c' no_send d
ByDrop-Keeps now c c' none k = k
ByDrop-Keeps now c c' (some r) k = k

settle_batch-ByDrop :
    (now : ℕ) (c d : ChatQueue) (r : Result OutboundError SendBatch) (effects : List Effect)
    → Keeps c d
    → ByDrop now c
        (settle_batch now d r effects).0
        (settle_batch now d r effects).1.0.kind
        (settle_batch now d r effects).1.1
unfolding settle_batch
settle_batch-ByDrop now c d (err (too_large e)) effects k =
    let dropped = drop_conn e.conn_id (too_large e) d in
    ByDrop-Keeps now c (replan now dropped.0) dropped.1
      (Keeps-trans c d _ k (replanned now d dropped.0 (drop_conn-Idle e.conn_id (too_large e) d)))
settle_batch-ByDrop now c d (err e) effects k = k
settle_batch-ByDrop now c d (ok batch) effects k = elim (SendKind-cases batch.kind) [
  | inl e ↦
      rw (e, settle_batch)
        (subst (ByKind now c (replan now d)) (sym e)
          (Keeps-trans c d _ k (replanned now d d (Idle-refl d))))
  | inr (inl e) ↦
      rw (e, settle_batch)
        (subst (ByKind now c (replan now (mark_attempt now d))) (sym e) (sends now c d k))
  | inr (inr e) ↦
      rw (e, settle_batch)
        (subst (ByKind now c (replan now (mark_attempt now d))) (sym e) (sends now c d k))
]

finish_flush-Outcome :
    (now : ℕ) (c d : ChatQueue) (p : Prepared)
    → ByDrop now c d p.0.kind p.1
    → Outcome now c (finish_flush now d p).0 (finish_flush now d p).1
unfolding finish_flush
finish_flush-Outcome now c d (batch, some (reason, callback), effects) k = k
finish_flush-Outcome now c d (batch, none, effects) k = elim (SendKind-cases batch.kind) [
  | inl e ↦ rw (e, finish_flush) (Keeps-trans c d _ (rw e at k) (replanned now d d (Idle-refl d)))
  | inr (inl e) ↦ rw (e, finish_flush) (rw e at k)
  | inr (inr e) ↦ rw (e, finish_flush) (rw e at k)
]

pub flush_once-Outcome :
    (now : ℕ) (c : ChatQueue) → Outcome now c (flush_once now c).0 (flush_once now c).1
unfolding flush_once prepare_batch
flush_once-Outcome now c =
    let s = select_and_pop_batch now c in
    let p = settle_batch now s.0 s.1 s.2 in
    finish_flush-Outcome now c p.0 p.1
      (settle_batch-ByDrop now c s.0 s.1 s.2 (select_and_pop_batch-Keeps now c))
