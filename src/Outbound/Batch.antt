-- ===== src/Outbound/Batch.antt =====
-- internal/outbound/manager.go: taking a batch out of a chat's queue. The copies of frames are the
-- frames.
use exec_over_lark.Prelude.{
  ℕ, ◌+◌, Bool, true, false, Option, none, some, List, [], ◌∷◌, ◌++◌, ltb, leb, if◌then◌else◌,
  is_empty, length, take, drop,
}
use exec_over_lark.Prelude.Bytes.{Bytes, codes, bytes_eq}
use exec_over_lark.Prelude.Dict.{lookup, insert, remove}
use exec_over_lark.Prelude.Result.{Result, ok, err}
use exec_over_lark.Protocol.Frame.{Frame, heartbeat}
use exec_over_lark.Protocol.Sequencer.{Sequencer, next_frame}
use exec_over_lark.Protocol.Wire.{encode_frames}
use exec_over_lark.Outbound.Types.{
  local, Target, QueuedFrame, ConnQueue, RootOpenJob, OutboundError, too_large, protocol,
  sizer_failed, ChatQueue, no_send, root, reply, SendBatch, DropReason, Effect, forget_conn,
  call_on_drop, root_result,
}
use exec_over_lark.Outbound.Schedule.{replan, mark_attempt}
use exec_over_lark.Outbound.Select.{
  select_heartbeat_conn, select_root_job, select_pending_conn, head_created_at,
}

-- `fits`: the text of the frames is within the limit.
unfoldable pub fits : ChatQueue → Target → List Frame → Result OutboundError Bool
fits c target frames = elim (encode_frames frames) [
  | err e ↦ err (protocol e)
  | ok text ↦ elim (c.sizer target text) [
    | none ↦ err sizer_failed
    | some size ↦ ok (leb size c.limit)
  ]
]

-- The zero values of Go.
abbrev pub no_target : Target
no_target = record { chat_id = []; root_message_id = []; mention_open_id = [] }

abbrev pub no_batch : SendBatch
no_batch = record {
  kind = no_send;
  conn_id = [];
  role = local;
  target = no_target;
  root_job_id = [];
  frames = [];
  queued_frames = [];
  frame_count = 0;
}

unfoldable pub conn_too_large : ChatQueue → ConnQueue → Frame → OutboundError
conn_too_large c conn frame = too_large (record {
  target = conn.target;
  conn_id = conn.conn_id;
  role = conn.role;
  seq = frame.seq;
  type = frame.type;
  limit = c.limit;
})

-- The loop of `buildAndPopReplyBatchLocked`: as many frames from the head as fit together.
unfoldable pub collect :
    ChatQueue → ConnQueue → List Frame → List QueuedFrame → Result OutboundError (List Frame)
collect c conn frames [] = ok frames
collect c conn frames (queued ∷ rest) =
    let candidate = frames ++ queued.frame ∷ [] in
    let more = collect c conn candidate rest in
    elim (fits c conn.target candidate) [
      | err e ↦ err e
      | ok true ↦ more
      | ok false ↦ if is_empty frames then err (conn_too_large c conn queued.frame) else ok frames
    ]

-- `popReplyBatchLocked`: the connection and the batch.
unfoldable pub pop_reply_batch : ConnQueue → SendBatch → ConnQueue × SendBatch
pop_reply_batch conn batch =
    let count =
      if ltb (length conn.frames) batch.frame_count
      then length conn.frames
      else batch.frame_count in
    (
      record conn { frames = drop count conn.frames; in_flight = conn.in_flight + 1 },
      record batch { queued_frames = take count conn.frames; frame_count = count },
    )

unfoldable pub reply_batch : ConnQueue → List Frame → SendBatch
reply_batch conn frames = record {
  kind = reply;
  conn_id = conn.conn_id;
  role = conn.role;
  target = conn.target;
  root_job_id = [];
  frames = frames;
  queued_frames = [];
  frame_count = length frames;
}

-- `buildAndPopReplyBatchLocked`, for the connection under the key.
unfoldable pub build_reply_batch :
    Bytes → ConnQueue → ChatQueue → ChatQueue × Result OutboundError SendBatch
build_reply_batch key conn c =
    if is_empty conn.frames then (c, ok no_batch) else elim (collect c conn [] conn.frames) [
      | err e ↦ (c, err e)
      | ok frames ↦
          let (conn', batch) = pop_reply_batch conn (reply_batch conn frames) in
          (record c { conns = insert key conn' c.conns }, ok batch)
    ]

-- `buildAndPopRootBatchLocked`, for the job under the key.
unfoldable pub build_root_batch :
    ℕ → Bytes → RootOpenJob → ChatQueue → ChatQueue × Result OutboundError SendBatch × List Effect
build_root_batch now key job c = elim (fits c job.target (job.frame ∷ [])) [
  | err e ↦ (c, err e, [])
  | ok false ↦ (
    replan now (record c { root_jobs = remove job.id c.root_jobs }),
    ok no_batch,
    root_result job.id (
          err (
            too_large (record {
              target = job.target;
              conn_id = [];
              role = job.role;
              seq = job.frame.seq;
              type = job.frame.type;
              limit = c.limit;
            })))
        ∷ [],
  )
  | ok true ↦ (
    record c { root_jobs = insert key (record job { in_flight = true }) c.root_jobs },
    ok (record no_batch {
      kind = root;
      role = job.role;
      target = job.target;
      root_job_id = job.id;
      frames = job.frame ∷ [];
      frame_count = 1;
    }),
    [],
  )
]

-- The payload `HeartbeatPayload{}` in JSON.
abbrev pub heartbeat_payload : Bytes
heartbeat_payload = codes "{}"

-- A heartbeat frame for a connection that has nothing queued.
unfoldable pub with_heartbeat : ℕ → ConnQueue → Result OutboundError ConnQueue × Sequencer
with_heartbeat now conn =
    let (seq, frame) = next_frame conn.seq heartbeat heartbeat_payload in
    (
      elim frame [
        | err e ↦ err (protocol e)
        | ok f ↦
            ok (record conn { seq = seq; frames = record { frame = f; created_at = now } ∷ [] })
      ],
      seq,
    )

-- The branch of `selectAndPopBatchLocked` for a due heartbeat. The heartbeat frame and the sequence
-- number that it took stay with the connection whatever becomes of the batch.
unfoldable pub pop_heartbeat_batch :
    ℕ → Bytes → ConnQueue → ChatQueue → ChatQueue × Result OutboundError SendBatch
pop_heartbeat_batch now key conn c =
    if is_empty conn.frames
    then (let (made, seq) = with_heartbeat now conn in
        elim made [
          | err e ↦ (record c { conns = insert key (record conn { seq = seq }) c.conns }, err e)
          | ok conn' ↦ build_reply_batch key conn' (record c { conns = insert key conn' c.conns })
        ])
    else build_reply_batch key conn c

-- The oldest of the waiting root message and the waiting replies.
unfoldable pub pop_pending_batch :
    ℕ
    → Option (Bytes × RootOpenJob)
    → Option (Bytes × ConnQueue)
    → ChatQueue
    → ChatQueue × Result OutboundError SendBatch × List Effect
pop_pending_batch now none none c = (c, ok no_batch, [])
pop_pending_batch now none (some (key, conn)) c =
    let (c', r) = build_reply_batch key conn c in (c', r, [])
pop_pending_batch now (some (id, job)) none c = build_root_batch now id job c
pop_pending_batch now (some (id, job)) (some (key, conn)) c =
    if ltb (head_created_at conn) job.created_at
    then (let (c', r) = build_reply_batch key conn c in (c', r, []))
    else build_root_batch now id job c

unfoldable pub select_and_pop_batch :
    ℕ → ChatQueue → ChatQueue × Result OutboundError SendBatch × List Effect
select_and_pop_batch now c = elim (select_heartbeat_conn now c) [
  | some (key, conn) ↦ let (c', r) = pop_heartbeat_batch now key conn c in (c', r, [])
  | none ↦ pop_pending_batch now (select_root_job c) (select_pending_conn c) c
]

-- The callback of a dropped connection, if it is set.
abbrev pub drop_effect : Bool → DropReason → List Effect
drop_effect true reason = call_on_drop reason ∷ []
drop_effect false reason = []

-- `dropConnLocked`: nothing for a connection that is not there.
unfoldable pub drop_conn :
    Bytes → OutboundError → ChatQueue → ChatQueue × Option (DropReason × Bool)
drop_conn conn_id error c = elim (lookup conn_id c.conns) [
  | none ↦ (c, none)
  | some conn ↦ (
    record c { conns = remove conn_id c.conns },
    some (
      record { target = conn.target; conn_id = conn.conn_id; role = conn.role; error = error },
      conn.on_drop,
    ),
  )
]

-- What `prepareBatch` returns: the batch, and the reason of a drop with the flag of its callback.
abbrev pub Prepared : Type 0
Prepared = SendBatch × Option (DropReason × Bool) × List Effect

-- `prepareBatch` behind the selection.
unfoldable pub settle_batch :
    ℕ → ChatQueue → Result OutboundError SendBatch → List Effect → ChatQueue × Prepared
settle_batch now c (err (too_large e)) effects =
    let (c', dropped) = drop_conn e.conn_id (too_large e) c in
    (replan now c', (no_batch, dropped, effects))
settle_batch now c (err e) effects = (
  c,
  (
    no_batch,
    some (record { target = no_target; conn_id = []; role = local; error = e }, false),
    effects,
  ),
)
settle_batch now c (ok batch) effects = elim batch.kind [
  | no_send ↦ (replan now c, (batch, none, effects))
  | root ↦ (replan now (mark_attempt now c), (batch, none, effects))
  | reply ↦ (replan now (mark_attempt now c), (batch, none, effects))
]

unfoldable pub prepare_batch : ℕ → ChatQueue → ChatQueue × Prepared
prepare_batch now c =
    let (c', r, effects) = select_and_pop_batch now c in settle_batch now c' r effects

-- `flushOnce` behind `prepareBatch`: the batch that a goroutine is started for, if there is one.
unfoldable pub finish_flush : ℕ → ChatQueue → Prepared → ChatQueue × Option SendBatch × List Effect
finish_flush now c (batch, some (reason, callback), effects) = (
  c,
  none,
  effects
      ++ ((if is_empty reason.conn_id then [] else forget_conn reason.conn_id ∷ [])
          ++ drop_effect callback reason),
)
finish_flush now c (batch, none, effects) = elim batch.kind [
  | no_send ↦ (replan now c, none, effects)
  | root ↦ (c, some batch, effects)
  | reply ↦ (c, some batch, effects)
]

unfoldable pub flush_once : ℕ → ChatQueue → ChatQueue × Option SendBatch × List Effect
flush_once now c = let (c', prepared) = prepare_batch now c in finish_flush now c' prepared
