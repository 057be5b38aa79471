-- ===== src/Outbound/Commit.antt =====
-- internal/outbound/manager.go: what becomes of a batch once its send has ended.
use exec_over_lark.Prelude.{
  ℕ, ◌+◌, ◌-◌, Bool, false, ◌&&◌, Option, none, some, List, [], ◌∷◌, ◌++◌, ◌==◌, if◌then◌else◌,
  is_empty,
}
use exec_over_lark.Prelude.Bytes.{Bytes, bytes_eq}
use exec_over_lark.Prelude.Dict.{lookup, insert, remove}
use exec_over_lark.Prelude.Result.{Result, ok, err}
use exec_over_lark.Lark.Errors.{SendError, is_retryable_send_error}
use exec_over_lark.Protocol.Wire.{encode_frames}
use exec_over_lark.Outbound.Types.{
  ConnQueue, RootOpenJob, OutboundError, protocol, send, ChatQueue, SendBatch, no_send, root, reply,
  Effect, forget_conn, call_on_drained, root_result,
}
use exec_over_lark.Outbound.Schedule.{replan}
use exec_over_lark.Outbound.Batch.{drop_conn, drop_effect}

-- `lark.IsRetryableSendError`; an encoding error is neither a network error nor one of the API.
unfoldable pub retryable : OutboundError → Bool
retryable (send e) = is_retryable_send_error e
retryable _ = false

-- The job of a root message whose send has ended. The message's id is the answer.
unfoldable pub settle_root :
    SendBatch → RootOpenJob → Result OutboundError Bytes → ChatQueue → ChatQueue × List Effect
settle_root batch job (ok message_id) c = (
  record c { root_jobs = remove batch.root_job_id c.root_jobs },
  root_result batch.root_job_id (ok message_id) ∷ [],
)
settle_root batch job (err e) c =
    if retryable e
    then (
      record c {
        root_jobs = insert batch.root_job_id (record job { in_flight = false }) c.root_jobs;
      },
      [],
    )
    else (
      record c { root_jobs = remove batch.root_job_id c.root_jobs },
      root_result batch.root_job_id (err e)
          ∷ drop_effect job.on_drop
              (record { target = batch.target; conn_id = []; role = batch.role; error = e }),
    )

unfoldable pub commit_root_result :
    ℕ → SendBatch → Result OutboundError Bytes → ChatQueue → ChatQueue × List Effect
commit_root_result now batch result c = elim (lookup batch.root_job_id c.root_jobs) [
  | none ↦ (replan now c, [])
  | some job ↦ let (c', effects) = settle_root batch job result c in (replan now c', effects)
]

-- `conn.inFlight--`, not below 0.
unfoldable pub landed : ConnQueue → ConnQueue
landed conn = if conn.in_flight == 0 then conn else record conn { in_flight = conn.in_flight - 1 }

-- A reply that was sent: the next heartbeat is put off, and a connection that is to close and has
-- nothing left is taken out.
unfoldable pub reply_sent : ℕ → Bytes → ConnQueue → ChatQueue → ChatQueue × List Effect
reply_sent now key conn₀ c =
    let conn =
      if conn₀.heartbeat_interval == 0
      then conn₀
      else record conn₀ { next_heartbeat_at = now + conn₀.heartbeat_interval } in
    if conn.close_after_drained && is_empty conn.frames && conn.in_flight == 0
    then (
      record c { conns = remove conn.conn_id c.conns },
      (if is_empty conn.conn_id then [] else forget_conn conn.conn_id ∷ [])
          ++ (if conn.on_drained then call_on_drained conn.conn_id ∷ [] else []),
    )
    else (record c { conns = insert key conn c.conns }, [])

-- A reply that failed for good: the connection is dropped.
unfoldable pub reply_dropped : SendBatch → OutboundError → ChatQueue → ChatQueue × List Effect
reply_dropped batch e c =
    let (c', dropped) = drop_conn batch.conn_id e c in
    (
      c',
      (if is_empty batch.conn_id then [] else forget_conn batch.conn_id ∷ [])
          ++ elim dropped [ none ↦ [] | some (reason, callback) ↦ drop_effect callback reason ],
    )

-- The connection of a reply whose send has ended.
unfoldable pub settle_reply :
    ℕ → SendBatch → ConnQueue → Option OutboundError → ChatQueue → ChatQueue × List Effect
settle_reply now batch conn none c = reply_sent now batch.conn_id (landed conn) c
settle_reply now batch conn (some e) c =
    if retryable e
    then (
      record c {
        conns =
            insert batch.conn_id
              (record (landed conn) { frames = batch.queued_frames ++ conn.frames }) c.conns;
      },
      [],
    )
    else reply_dropped batch e (record c { conns = insert batch.conn_id (landed conn) c.conns })

unfoldable pub commit_reply_result :
    ℕ → SendBatch → Option OutboundError → ChatQueue → ChatQueue × List Effect
commit_reply_result now batch error c = elim (lookup batch.conn_id c.conns) [
  | none ↦ (replan now c, [])
  | some conn ↦ let (c', effects) = settle_reply now batch conn error c in (replan now c', effects)
]

-- The answer of the sender: the id of the message, or an error.
abbrev pub Answer : Type 0
Answer = Result SendError Bytes

abbrev pub root_answer : Answer → Result OutboundError Bytes
root_answer (ok id) = ok id
root_answer (err e) = err (send e)

abbrev pub reply_answer : Answer → Option OutboundError
reply_answer (ok id) = none
reply_answer (err e) = some (send e)

-- `sendBatch` with the sender's answer, and `commitSendError` where the frames do not encode.
unfoldable pub send_batch : ℕ → SendBatch → Answer → ChatQueue → ChatQueue × List Effect
send_batch now batch answer c = elim batch.kind [
  | no_send ↦ (c, [])
  | root ↦
      commit_root_result now batch
        (elim (encode_frames batch.frames) [
          | ok text ↦ root_answer answer
          | err e ↦ err (protocol e)
        ])
        c
  | reply ↦
      commit_reply_result now batch
        (elim (encode_frames batch.frames) [
          | ok text ↦ reply_answer answer
          | err e ↦ some (protocol e)
        ])
        c
]
