-- ===== src/Outbound/Pace.antt =====
-- The cooldown between the sends of a chat (internal/outbound/manager.go).
pub mod Flush
pub mod Run
use exec_over_lark.Prelude.{
  ℕ, ◌+◌, ◌-◌, ◌≤◌, ◌<◌, ◌≡◌, refl, sym, ◌∙◌, Bool, true, false, not, ◌&&◌, ◌||◌, Option, none,
  some, List, [], ◌∷◌, ◌++◌, ltb, leb, ◌==◌, if◌then◌else◌, is_empty, arith, Bool-cases,
  Option-cases, inl, inr, ◌⊎◌,
}
use exec_over_lark.Prelude.Bytes.{Bytes, bytes_eq}
use exec_over_lark.Prelude.Dict.{Dict, lookup, insert, remove}
use exec_over_lark.Prelude.Result.{Result, ok, err}
use exec_over_lark.Protocol.Frame.{Frame, FrameType}
use exec_over_lark.Protocol.Sequencer.{next_frame}
use exec_over_lark.Outbound.Types.{
  ConnQueue, RootOpenJob, ChatQueue, SendBatch, SendKind, Target, OutboundError, no_send, root,
  reply,
}
use exec_over_lark.Outbound.Schedule.{
  ready_at, schedule_ready, schedule_earlier, replan, plan_heartbeat, mark_attempt,
}
use exec_over_lark.Outbound.Commit.{
  Answer, send_batch, commit_root_result, commit_reply_result, settle_root, settle_reply,
  reply_sent, reply_dropped,
}
use exec_over_lark.Outbound.Batch.{drop_conn}
use exec_over_lark.Outbound.Manager.{add_conn, enqueue_in, mark_close_in}
use exec_over_lark.Outbound.RootOpen.{OpenRootRequest, add_root_job, cancel_root_in}

-- The next flush lies a cooldown behind the last attempt.
abbrev pub Paced : ChatQueue → Type 0
Paced c =
    c.has_last_attempt ≡ true
    → c.has_next_flush ≡ true
    → c.last_attempt_at + c.cooldown ≤ c.next_flush_at

-- A step that makes no attempt.
pub record Idle (c c' : ChatQueue) : Type 0 where
  pub last : c'.last_attempt_at ≡ c.last_attempt_at
  pub has_last : c'.has_last_attempt ≡ c.has_last_attempt
  pub cooldown : c'.cooldown ≡ c.cooldown

pub Idle-refl : (c : ChatQueue) → Idle c c
Idle-refl c = record { last = refl; has_last = refl; cooldown = refl }

pub replan-Paced : (now : ℕ) (c : ChatQueue) → Paced (replan now c)
unfolding replan plan_heartbeat ready_at
replan-Paced now c = ground arith

pub replan-Idle : (now : ℕ) (c : ChatQueue) → Idle c (replan now c)
unfolding replan plan_heartbeat
replan-Idle now c = ground arith

pub schedule_ready-Paced : (now : ℕ) (c : ChatQueue) → Paced c → Paced (schedule_ready now c)
unfolding schedule_ready
schedule_ready-Paced now c p = ground arith

pub schedule_ready-Idle : (now : ℕ) (c : ChatQueue) → Idle c (schedule_ready now c)
unfolding schedule_ready
schedule_ready-Idle now c = ground arith

-- A step that makes no attempt and keeps the pace.
pub record Keeps (c c' : ChatQueue) : Type 0 where
  pub idle : Idle c c'
  pub paced : Paced c → Paced c'

pub enqueue_in-Keeps :
    (now : ℕ) (id : Bytes) (typ : FrameType) (payload : Bytes) (c : ChatQueue)
    → Keeps c (enqueue_in now id typ payload c).0
unfolding enqueue_in schedule_ready
enqueue_in-Keeps now id typ payload c = record {
  idle = record { last = ground arith; has_last = ground arith; cooldown = ground arith };
  paced = λ p. ground arith;
}

-- `replan` behind a step that changes neither the attempts nor the cooldown.
pub replanned : (now : ℕ) (c d : ChatQueue) → Idle c d → Keeps c (replan now d)
replanned now c d i =
    let r = replan-Idle now d in
    record {
      idle = record {
        last = r.last ∙ i.last;
        has_last = r.has_last ∙ i.has_last;
        cooldown = r.cooldown ∙ i.cooldown;
      };
      paced = λ p. replan-Paced now d;
    }

pub mark_close_in-Keeps :
    (now : ℕ) (id : Bytes) (c : ChatQueue) → Keeps c (mark_close_in now id c).0
mark_close_in-Keeps now id c = elim (Option-cases (lookup id c.conns)) [
  | inl e ↦
      unfold mark_close_in in rw (e, mark_close_in) (record { idle = Idle-refl c; paced = λ p. p })
  | inr (conn, e) ↦ elim (Bool-cases (is_empty conn.frames && conn.in_flight == 0)) [
    | inl t ↦
        unfold mark_close_in in
        rw (e, mark_close_in)
          (rw t (
            replanned now c (record c { conns = remove id c.conns })
              (record { last = refl; has_last = refl; cooldown = refl })))
    | inr f ↦
        unfold mark_close_in in
        rw (e, mark_close_in)
          (rw f (record {
            idle = record { last = refl; has_last = refl; cooldown = refl };
            paced = λ p. p;
          }))
  ]
]

pub add_root_job-Keeps :
    (now : ℕ) (req : OpenRootRequest) (chat_id : Bytes) (target : Target) (frame : Frame)
    (c : ChatQueue)
    → Keeps c (add_root_job now req chat_id target frame c).0
unfolding add_root_job schedule_ready
add_root_job-Keeps now req chat_id target frame c = record {
  idle = record { last = ground arith; has_last = ground arith; cooldown = ground arith };
  paced = λ p. ground arith;
}

pub cancel_root_in-Keeps :
    (now : ℕ) (id : Bytes) (c : ChatQueue) → Keeps c (cancel_root_in now id c)
cancel_root_in-Keeps now id c = elim (Option-cases (lookup id c.root_jobs)) [
  | inl e ↦
      unfold cancel_root_in in
      rw (e, cancel_root_in) (record { idle = Idle-refl c; paced = λ p. p })
  | inr (job, e) ↦
      unfold cancel_root_in in
      rw (e, cancel_root_in)
        (replanned now c (record c { root_jobs = remove id c.root_jobs })
          (record { last = refl; has_last = refl; cooldown = refl }))
]

settle_root-Idle :
    (batch : SendBatch) (job : RootOpenJob) (r : Result OutboundError Bytes) (c : ChatQueue)
    → Idle c (settle_root batch job r c).0
unfolding settle_root
settle_root-Idle batch job r c = record {
  last = ground arith;
  has_last = ground arith;
  cooldown = ground arith;
}

settle_reply-Idle :
    (now : ℕ) (batch : SendBatch) (conn : ConnQueue) (e : Option OutboundError) (c : ChatQueue)
    → Idle c (settle_reply now batch conn e c).0
unfolding settle_reply reply_sent reply_dropped drop_conn
settle_reply-Idle now batch conn e c = record {
  last = ground arith;
  has_last = ground arith;
  cooldown = ground arith;
}

commit_root_result-Keeps :
    (now : ℕ) (batch : SendBatch) (r : Result OutboundError Bytes) (c : ChatQueue)
    → Keeps c (commit_root_result now batch r c).0
unfolding commit_root_result
commit_root_result-Keeps now batch r c =
    elim (Option-cases (lookup batch.root_job_id c.root_jobs)) [
      | inl e ↦ rw (e, commit_root_result) (replanned now c c (Idle-refl c))
      | inr (job, e) ↦
          rw (e, commit_root_result)
            (replanned now c (settle_root batch job r c).0 (settle_root-Idle batch job r c))
    ]

commit_reply_result-Keeps :
    (now : ℕ) (batch : SendBatch) (x : Option OutboundError) (c : ChatQueue)
    → Keeps c (commit_reply_result now batch x c).0
unfolding commit_reply_result
commit_reply_result-Keeps now batch x c = elim (Option-cases (lookup batch.conn_id c.conns)) [
  | inl e ↦ rw (e, commit_reply_result) (replanned now c c (Idle-refl c))
  | inr (conn, e) ↦
      rw (e, commit_reply_result)
        (replanned now c (settle_reply now batch conn x c).0 (settle_reply-Idle now batch conn x c))
]

pub SendKind-cases : (k : SendKind) → (k ≡ no_send) ⊎ (k ≡ root) ⊎ (k ≡ reply)
SendKind-cases no_send = inl refl
SendKind-cases root = inr (inl refl)
SendKind-cases reply = inr (inr refl)

pub send_batch-Keeps :
    (now : ℕ) (batch : SendBatch) (answer : Answer) (c : ChatQueue)
    → Keeps c (send_batch now batch answer c).0
unfolding send_batch
send_batch-Keeps now batch answer c = elim (SendKind-cases batch.kind) [
  | inl k ↦ rw (k, send_batch) (record { idle = Idle-refl c; paced = λ p. p })
  | inr (inl k) ↦ rw (k, send_batch) (commit_root_result-Keeps now batch _ c)
  | inr (inr k) ↦ rw (k, send_batch) (commit_reply_result-Keeps now batch _ c)
]
