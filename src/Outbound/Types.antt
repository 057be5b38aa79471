-- ===== src/Outbound/Types.antt =====
-- internal/outbound/manager.go, common.go and errors.go: the data of the outbound queue. A time is a number of
-- nanoseconds; a duration that is not positive is 0. A callback is a flag that says whether it is set,
-- and its call an effect.
use exec_over_lark.Prelude.{ℕ, Bool, Option, List}
use exec_over_lark.Prelude.Bytes.{Bytes}
use exec_over_lark.Prelude.Dict.{Dict}
use exec_over_lark.Prelude.Result.{Result}
use exec_over_lark.Lark.Errors.{SendError}
use exec_over_lark.Protocol.Frame.{Frame, FrameType, ProtocolError}
use exec_over_lark.Protocol.Sequencer.{Sequencer}

pub data Role : Type 0 where
  local remote : Role

pub record Target : Type 0 where
  pub chat_id : Bytes
  pub root_message_id : Bytes
  pub mention_open_id : Bytes

pub record QueuedFrame : Type 0 where
  pub frame : Frame
  pub created_at : ℕ

pub record ConnQueue : Type 0 where
  pub conn_id : Bytes
  pub role : Role
  pub target : Target
  pub seq : Sequencer
  pub heartbeat_interval : ℕ
  pub next_heartbeat_at : ℕ
  pub frames : List QueuedFrame
  pub close_after_drained : Bool
  pub dropped : Bool
  pub in_flight : ℕ
  pub on_drop : Bool
  pub on_drained : Bool

pub record RootOpenJob : Type 0 where
  pub id : Bytes
  pub role : Role
  pub target : Target
  pub frame : Frame
  pub created_at : ℕ
  pub in_flight : Bool
  pub on_drop : Bool

-- `FrameTooLargeError`
pub record FrameTooLarge : Type 0 where
  pub target : Target
  pub conn_id : Bytes
  pub role : Role
  pub seq : ℕ
  pub type : FrameType
  pub limit : ℕ

-- Why a batch is not sent, or fails.
pub data OutboundError : Type 0 where
  too_large : FrameTooLarge → OutboundError
  protocol : ProtocolError → OutboundError
  sizer_failed : OutboundError
  send : SendError → OutboundError

-- `RequestSizer`; `none` is an error.
abbrev pub RequestSizer : Type 0
RequestSizer = Target → Bytes → Option ℕ

pub record ChatQueue : Type 0 where
  pub chat_id : Bytes
  pub cooldown : ℕ
  pub last_attempt_at : ℕ
  pub has_last_attempt : Bool
  pub next_flush_at : ℕ
  pub has_next_flush : Bool
  pub conns : Dict Bytes ConnQueue
  pub root_seq : ℕ
  pub root_jobs : Dict Bytes RootOpenJob
  pub sizer : RequestSizer
  pub limit : ℕ

pub data SendKind : Type 0 where
  no_send root reply : SendKind

pub record SendBatch : Type 0 where
  pub kind : SendKind
  pub conn_id : Bytes
  pub role : Role
  pub target : Target
  pub root_job_id : Bytes
  pub frames : List Frame
  pub queued_frames : List QueuedFrame
  pub frame_count : ℕ

pub record DropReason : Type 0 where
  pub target : Target
  pub conn_id : Bytes
  pub role : Role
  pub error : OutboundError

-- What a step of a queue does outside it: `forgetConn`, a callback, or the answer to `OpenRoot`.
pub data Effect : Type 0 where
  forget_conn : Bytes → Effect
  call_on_drop : DropReason → Effect
  call_on_drained : Bytes → Effect
  root_result : Bytes → Result OutboundError Bytes → Effect
