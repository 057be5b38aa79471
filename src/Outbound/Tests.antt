-- ===== src/Outbound/Tests.antt =====
-- The theorems on the outbound queue at a concrete chat.
use exec_over_lark.Prelude.{List, [], ◌∷◌, some, true, false}
use exec_over_lark.Prelude.Bytes.{codes}
use exec_over_lark.Protocol.Frame.{stdin}
use exec_over_lark.Protocol.Sequencer.{new_sequencer}
use exec_over_lark.Outbound.Types.{ConnQueue, Target, remote}
use exec_over_lark.Outbound.Manager.{Manager, new_manager}
use exec_over_lark.Outbound.Pace.Run.{
  Event, other, plan, wake, register, enqueue, new_loop, run_loop, Spaced, run_loop-Spaced,
}
use exec_over_lark.Prelude.{none, ◌++◌, ◌≡◌, refl}
use exec_over_lark.Prelude.Bytes.{same, bytes_eq}
use exec_over_lark.Prelude.Dict.{lookup, insert}
use exec_over_lark.Prelude.Result.{ok}
use exec_over_lark.Lark.Errors.{is_retryable_send_error}
use exec_over_lark.Outbound.Types.{ChatQueue, SendBatch, QueuedFrame, OutboundError, send, reply}
use exec_over_lark.Outbound.Batch.{build_reply_batch, collect, fits, pop_reply_batch, reply_batch}
use exec_over_lark.Protocol.Wire.{encode_frames, encode_lines, join_lines, encode_frame_line}
use exec_over_lark.Protocol.Frame.{validate_frame, valid_frame_type, has_blank, type_name}
use exec_over_lark.Outbound.Commit.{retryable, landed, commit_reply_result}
use exec_over_lark.Outbound.Fit.{Filled, build_reply_batch-Filled}
use exec_over_lark.Outbound.Retry.{retry_restores}
use exec_over_lark.Outbound.Planned.{Planned, apply_op-Planned, flush_once-Planned}
use exec_over_lark.Outbound.Batch.{select_and_pop_batch, pop_pending_batch, flush_once}
use exec_over_lark.Outbound.Select.{
  select_heartbeat_conn, select_earliest, select_root_job, select_pending_conn,
}
use exec_over_lark.Outbound.Pace.Run.{apply_op, mark_close}
use exec_over_lark.Outbound.Sleep.{
  Sleeper, Turn, change, notify, look, rescheduled, take_turns, new_sleeper,
}
use exec_over_lark.Outbound.Sleep.Rests.{Rests}

-- A request is as long as its text.
abbrev manager : Manager
manager = new_manager 100 64 (λ target text. some 40) 1000

abbrev target : Target
target = record {
  chat_id = codes "chat";
  root_message_id = codes "root";
  mention_open_id = codes "bot";
}

abbrev conn : ConnQueue
conn = record {
  conn_id = codes "c1";
  role = remote;
  target = target;
  seq = new_sequencer;
  heartbeat_interval = 1000;
  next_heartbeat_at = 1005;
  frames = [];
  close_after_drained = false;
  dropped = false;
  in_flight = 0;
  on_drop = true;
  on_drained = true;
}

-- Two frames a little apart: the second is sent a cooldown behind the first.
abbrev events : List Event
events =
    other (register 5 conn)
    ∷ plan
    ∷ other (enqueue 10 (codes "c1") stdin (codes "a"))
    ∷ plan
    ∷ wake 12
    ∷ other (enqueue 13 (codes "c1") stdin (codes "b"))
    ∷ plan
    ∷ wake 50
    ∷ wake 115
    ∷ []

run_loop-Spaced_example :
    Spaced manager.cooldown (run_loop (new_loop manager (codes "chat")) events).attempts
run_loop-Spaced_example = run_loop-Spaced manager (codes "chat") events

-- A chat where a frame waits.
abbrev waiting : ConnQueue
waiting = record conn {
  frames =
      record { frame = record { seq = 1; type = stdin; payload = codes "a" }; created_at = 10 }
      ∷ [];
}

abbrev chat : ChatQueue
chat = record {
  chat_id = codes "chat";
  cooldown = 100;
  last_attempt_at = 0;
  has_last_attempt = false;
  next_flush_at = 10;
  has_next_flush = true;
  conns = (codes "c1", waiting) ∷ [];
  root_seq = 0;
  root_jobs = [];
  sizer = λ target text. some 40;
  limit = 64;
}

abbrev batch : SendBatch
batch = record {
  kind = reply;
  conn_id = codes "c1";
  role = remote;
  target = target;
  root_job_id = [];
  frames = record { seq = 1; type = stdin; payload = codes "a" } ∷ [];
  queued_frames = waiting.frames;
  frame_count = 1;
}

batch_built : (build_reply_batch (codes "c1") waiting chat).1 ≡ ok batch
unfolding build_reply_batch collect fits encode_frames encode_lines join_lines encode_frame_line
    validate_frame valid_frame_type has_blank type_name pop_reply_batch reply_batch
batch_built = refl

build_reply_batch-Filled_example :
    Filled (codes "c1") waiting chat (build_reply_batch (codes "c1") waiting chat).0 batch
build_reply_batch-Filled_example =
    build_reply_batch-Filled (codes "c1") waiting chat {batch = batch} refl batch_built

-- The connection while the batch is on its way, and one more frame has come.
abbrev left : ConnQueue
left = record waiting { frames = []; in_flight = 1 }

abbrev later : List QueuedFrame
later =
    record { frame = record { seq = 2; type = stdin; payload = codes "b" }; created_at = 20 } ∷ []

abbrev sending : ConnQueue
sending = record left { frames = later }

abbrev busy : ChatQueue
busy = record chat { conns = (codes "c1", sending) ∷ [] }

left_there : lookup (codes "c1") (build_reply_batch (codes "c1") waiting chat).0.conns ≡ some left
unfolding build_reply_batch collect fits encode_frames encode_lines join_lines encode_frame_line
    validate_frame valid_frame_type has_blank type_name pop_reply_batch reply_batch lookup insert
    same
left_there = refl

sending_there : lookup (codes "c1") busy.conns ≡ some sending
unfolding lookup same
sending_there = refl

-- A connection that broke.
abbrev network : OutboundError
network = send (record {
  canceled = false;
  deadline_exceeded = false;
  api = none;
  url_error = true;
  op_error = false;
  net_error = false;
})

network-retryable : retryable network ≡ true
unfolding retryable is_retryable_send_error
network-retryable = refl

retry_restores_example :
    lookup (codes "c1") (commit_reply_result 30 batch (some network) busy).0.conns
    ≡ some (record (landed sending) { frames = waiting.frames ++ later })
retry_restores_example =
    retry_restores 30 chat busy waiting left sending later network {batch = batch} refl batch_built
      left_there sending_there refl network-retryable

busy-Planned : Planned busy
busy-Planned = λ h. refl

apply_op-Planned_example : Planned (apply_op (mark_close 20 (codes "c1")) busy)
apply_op-Planned_example = apply_op-Planned (mark_close 20 (codes "c1")) busy busy-Planned

batch_selected : (select_and_pop_batch 10 chat).1 ≡ ok batch
unfolding select_and_pop_batch select_heartbeat_conn select_earliest pop_pending_batch
    select_root_job select_pending_conn build_reply_batch collect fits encode_frames encode_lines
    encode_frame_line validate_frame valid_frame_type has_blank type_name pop_reply_batch
    reply_batch join_lines
batch_selected = refl

flush_once-Planned_example : Planned (flush_once 10 chat).0
flush_once-Planned_example = flush_once-Planned 10 chat {batch = batch} batch_selected

-- The loop sleeps without a timer when a connection is registered and a frame enqueued.
abbrev turns : List Turn
turns =
    look
    ∷ change (register 5 conn)
    ∷ change (enqueue 6 (codes "c1") stdin (codes "a"))
    ∷ notify
    ∷ rescheduled
    ∷ look
    ∷ notify
    ∷ rescheduled
    ∷ look
    ∷ []

abbrev slept : Sleeper
slept = take_turns (new_sleeper manager (codes "chat")) turns
