-- ===== src/Outbound/Planned.antt =====
-- Whatever waits in a chat has a flush planned (internal/outbound/manager.go).
use exec_over_lark.Prelude.{
  ℕ, ◌≡◌, refl, sym, ap, Bool, true, false, ◌&&◌, ◌||◌, ◌==◌, Option, none, some, List, [], ◌∷◌,
  if◌then◌else◌, is_empty, arith, Bool-cases, Option-cases, inl, inr,
}
use mathlib.Core.Path.{subst}
use exec_over_lark.Prelude.Bytes.{Bytes, same, bytes_eq}
use exec_over_lark.Prelude.Dict.{Dict, lookup, insert, remove}
use exec_over_lark.Prelude.Result.{Result, ok, Result-cases}
use exec_over_lark.Protocol.Frame.{FrameType}
use exec_over_lark.Protocol.Sequencer.{next_frame}
use exec_over_lark.Outbound.Types.{ConnQueue, ChatQueue, SendBatch, OutboundError, Effect, SendKind}
use exec_over_lark.Outbound.Schedule.{
  any_waiting_job, any_queued_frame, has_pending, plan_heartbeat, replan, schedule_ready,
}
use exec_over_lark.Outbound.Batch.{
  Prepared, select_and_pop_batch, settle_batch, prepare_batch, finish_flush, flush_once,
}
use exec_over_lark.Outbound.Commit.{Answer, send_batch, commit_root_result, commit_reply_result}
use exec_over_lark.Outbound.Manager.{ManagerError, add_conn, enqueue_in, mark_close_in}
use exec_over_lark.Outbound.RootOpen.{add_root_job, cancel_root_in}
use exec_over_lark.Outbound.Pace.{SendKind-cases}
use exec_over_lark.Outbound.Pace.Run.{
  Op, register, enqueue, mark_close, drop, open_root, cancel_root, finish_send, apply_op,
}

-- If a frame or a root message waits, then a flush is planned.
abbrev pub Planned : ChatQueue → Type 0
Planned c = has_pending c ≡ true → c.has_next_flush ≡ true

replan-Planned : (now : ℕ) (c : ChatQueue) → Planned (replan now c)
unfolding replan plan_heartbeat has_pending
replan-Planned now c = ground arith

schedule_ready-Planned : (now : ℕ) (c : ChatQueue) → Planned (schedule_ready now c)
unfolding schedule_ready
schedule_ready-Planned now c = λ h. ground arith

-- A connection that is there is set anew, and has something queued exactly as before.
any_queued_frame-insert :
    (k : Bytes) (old new : ConnQueue) (m : Dict Bytes ConnQueue)
    → lookup k m ≡ some old
    → is_empty new.frames ≡ is_empty old.frames
    → any_queued_frame (insert k new m) ≡ any_queued_frame m
unfolding any_queued_frame lookup insert
any_queued_frame-insert k old new [] h e = cc
any_queued_frame-insert k old new ((j, conn) ∷ m) h e = elim (Bool-cases (same j k)) [
  | inl t ↦ rw t (ground arith)
  | inr f ↦ rw f (ground (arith, any_queued_frame-insert k old new m (ground arith) e))
]

-- A connection that is there is set anew, with something queued exactly if it had something queued.
reset-Planned :
    (id : Bytes) (old new : ConnQueue) (c : ChatQueue)
    → lookup id c.conns ≡ some old
    → is_empty new.frames ≡ is_empty old.frames
    → Planned c
    → Planned (record c { conns = insert id new c.conns })
unfolding has_pending
reset-Planned id old new c e f p =
    subst (λ b. (any_waiting_job c.root_jobs || b) ≡ true → c.has_next_flush ≡ true)
      (sym (any_queued_frame-insert id old new c.conns e f)) p

branch-Planned :
    (b : Bool) (c : ChatQueue) (x : Option ManagerError) (r : ChatQueue × Option ManagerError)
    → Planned c
    → Planned r.0
    → Planned (if◌then◌else◌ {A = ChatQueue × Option ManagerError} b (c, x) r).0
branch-Planned true c x r p q = p
branch-Planned false c x r p q = q

enqueue_in-Planned :
    (now : ℕ) (id : Bytes) (typ : FrameType) (payload : Bytes) (c : ChatQueue)
    → Planned c
    → Planned (enqueue_in now id typ payload c).0
unfolding enqueue_in
enqueue_in-Planned now id typ payload c p = elim (Option-cases (lookup id c.conns)) [
  | inl e ↦ rw (e, enqueue_in) p
  | inr (conn, e) ↦ elim (Result-cases (next_frame conn.seq typ payload).1) [
    | inl (x, r) ↦
        let new : ConnQueue = record conn { seq = (next_frame conn.seq typ payload).0 } in
        rw (e, enqueue_in)
          (rw (r, enqueue_in)
            (branch-Planned conn.dropped c _ (record c { conns = insert id new c.conns }, _) p
              (reset-Planned id conn new c e refl p)))
    | inr (f, r) ↦
        rw (e, enqueue_in)
          (rw (r, enqueue_in) (branch-Planned conn.dropped c _ _ p (schedule_ready-Planned now _)))
  ]
]

mark_close_in-Planned :
    (now : ℕ) (id : Bytes) (c : ChatQueue) → Planned c → Planned (mark_close_in now id c).0
unfolding mark_close_in
mark_close_in-Planned now id c p = elim (Option-cases (lookup id c.conns)) [
  | inl e ↦ rw (e, mark_close_in) p
  | inr (conn, e) ↦ elim (Bool-cases (is_empty conn.frames && conn.in_flight == 0)) [
    | inl t ↦ rw (e, mark_close_in) (rw t (replan-Planned now _))
    | inr f ↦
        let new : ConnQueue = record conn { close_after_drained = true } in
        rw (e, mark_close_in) (rw f (reset-Planned id conn new c e refl p))
  ]
]

cancel_root_in-Planned :
    (now : ℕ) (id : Bytes) (c : ChatQueue) → Planned c → Planned (cancel_root_in now id c)
unfolding cancel_root_in
cancel_root_in-Planned now id c p = elim (Option-cases (lookup id c.root_jobs)) [
  | inl e ↦ rw (e, cancel_root_in) p
  | inr (job, e) ↦ rw (e, cancel_root_in) (replan-Planned now _)
]

commit_root_result-Planned :
    (now : ℕ) (batch : SendBatch) (r : Result OutboundError Bytes) (c : ChatQueue)
    → Planned (commit_root_result now batch r c).0
unfolding commit_root_result
commit_root_result-Planned now batch r c =
    elim (Option-cases (lookup batch.root_job_id c.root_jobs)) [
      | inl e ↦ rw (e, commit_root_result) (replan-Planned now c)
      | inr (job, e) ↦ rw (e, commit_root_result) (replan-Planned now _)
    ]

commit_reply_result-Planned :
    (now : ℕ) (batch : SendBatch) (x : Option OutboundError) (c : ChatQueue)
    → Planned (commit_reply_result now batch x c).0
unfolding commit_reply_result
commit_reply_result-Planned now batch x c = elim (Option-cases (lookup batch.conn_id c.conns)) [
  | inl e ↦ rw (e, commit_reply_result) (replan-Planned now c)
  | inr (conn, e) ↦ rw (e, commit_reply_result) (replan-Planned now _)
]

send_batch-Planned :
    (now : ℕ) (batch : SendBatch) (answer : Answer) (c : ChatQueue)
    → Planned c
    → Planned (send_batch now batch answer c).0
unfolding send_batch
send_batch-Planned now batch answer c p = elim (SendKind-cases batch.kind) [
  | inl k ↦ rw (k, send_batch) p
  | inr (inl k) ↦ rw (k, send_batch) (commit_root_result-Planned now batch _ c)
  | inr (inr k) ↦ rw (k, send_batch) (commit_reply_result-Planned now batch _ c)
]

-- Every step of the other goroutines on a chat keeps this: if a frame or a root message waits to be sent, then
-- a flush is planned.
pub apply_op-Planned : (op : Op) (c : ChatQueue) → Planned c → Planned (apply_op op c)
unfolding apply_op
apply_op-Planned (register now conn) c p = unfold add_conn in replan-Planned now _
apply_op-Planned (enqueue now id typ payload) c p = enqueue_in-Planned now id typ payload c p
apply_op-Planned (mark_close now id) c p = mark_close_in-Planned now id c p
apply_op-Planned (drop now id) c p = replan-Planned now (record c { conns = remove id c.conns })
apply_op-Planned (open_root now req id target frame) c p =
    unfold add_root_job in schedule_ready-Planned now _
apply_op-Planned (cancel_root now id) c p = cancel_root_in-Planned now id c p
apply_op-Planned (finish_send now batch answer) c p = send_batch-Planned now batch answer c p

finish_flush-Planned :
    (now : ℕ) (c : ChatQueue) (batch : SendBatch) (effects : List Effect)
    → Planned c
    → Planned (finish_flush now c (batch, none, effects)).0
unfolding finish_flush
finish_flush-Planned now c batch effects p = elim (SendKind-cases batch.kind) [
  | inl e ↦ rw (e, finish_flush) (replan-Planned now c)
  | inr (inl e) ↦ rw (e, finish_flush) p
  | inr (inr e) ↦ rw (e, finish_flush) p
]

abbrev sent_as : SendBatch → List Effect → SendKind → Prepared
sent_as batch effects kind = (record batch { kind = kind }, none, effects)

settle_batch-Planned :
    (now : ℕ) (c : ChatQueue) (batch : SendBatch) (effects : List Effect)
    → Planned (settle_batch now c (ok batch) effects).0
      × ((settle_batch now c (ok batch) effects).1 ≡ (batch, none, effects))
unfolding settle_batch
settle_batch-Planned now c batch effects = elim (SendKind-cases batch.kind) [
  | inl e ↦ rw (e, settle_batch) (replan-Planned now c, ap (sent_as batch effects) e)
  | inr (inl e) ↦ rw (e, settle_batch) (replan-Planned now _, ap (sent_as batch effects) e)
  | inr (inr e) ↦ rw (e, settle_batch) (replan-Planned now _, ap (sent_as batch effects) e)
]

-- `flushOnce` behind the selection of a batch.
settled-Planned :
    (now : ℕ) (c : ChatQueue) (batch : SendBatch) (effects : List Effect)
    → let s = settle_batch now c (ok batch) effects in Planned (finish_flush now s.0 s.1).0
settled-Planned now c batch effects =
    let d = (settle_batch now c (ok batch) effects).0 in
    let (planned, shape) = settle_batch-Planned now c batch effects in
    subst (λ p. Planned (finish_flush now d p).0) (sym shape)
      (finish_flush-Planned now d batch effects planned)

-- A flush whose batch could be built leaves the chat so too, whatever it was before: what still waits has
-- a flush planned.
pub flush_once-Planned :
    (now : ℕ) (c : ChatQueue) {batch : SendBatch}
    → (select_and_pop_batch now c).1 ≡ ok batch
    → Planned (flush_once now c).0
unfolding flush_once prepare_batch
flush_once-Planned now c {batch} h =
    let (d, r, effects) = select_and_pop_batch now c in
    subst (λ x. let s = settle_batch now d x effects in Planned (finish_flush now s.0 s.1).0)
      (sym h) (settled-Planned now d batch effects)
