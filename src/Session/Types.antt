-- ===== src/Session/Types.antt =====
-- internal/session/session.go: the data of the session manager, and what it asks of its surroundings.
-- A time is a number of nanoseconds; a duration that is not positive is 0.
use exec_over_lark.Prelude.{ℕ, Bool, Option, List}
use exec_over_lark.Prelude.Bytes.{Bytes}
use exec_over_lark.Prelude.Int.{ℤ}
use exec_over_lark.Prelude.Dict.{Dict}
use exec_over_lark.Prelude.Result.{Result}
use exec_over_lark.Protocol.Frame.{Frame, FrameType, ProtocolError}
use exec_over_lark.Protocol.Window.{RecvWindow}
use exec_over_lark.Outbound.Types.{DropReason}
use exec_over_lark.Outbound.Manager.{ManagerError, RegisterConnectionRequest}

-- The errors of the package, and those that it passes on. Their texts are not modelled.
pub data SessionError : Type 0 where
  invalid_session session_not_found session_closed unauthorized_peer unexpected_frame : SessionError
  no_outbound_manager remote_session_limit : SessionError
  protocol_error : ProtocolError → SessionError
  outbound_error : ManagerError → SessionError
  payload_error : SessionError  -- encoding/json
  delivery_error : ℕ → SessionError
  peer_heartbeat_timeout : ℕ → SessionError
  outbound_drop : DropReason → SessionError

-- `Subscriber` and `RemoteReceiver`, which are not nil here: who they are, and whether they have a
-- method `Close`.
pub record Subscriber : Type 0 where
  pub handle : ℕ
  pub closable : Bool

-- `LocalEvent`, less the connection and the request. `failed` is an error event of the manager itself, whose
-- detail is the text of the error.
pub data LocalEvent : Type 0 where
  start_ack : LocalEvent
  stdout stderr : Bytes → LocalEvent
  exit : ℤ → LocalEvent
  error : Bytes → Bytes → LocalEvent
  failed : SessionError → LocalEvent
  close : Bytes → LocalEvent

-- `protocol.StartPayload`: the timeout of its heartbeat config; the rest is the receiver's.
pub record StartPayload : Type 0 where
  pub heartbeat_timeout : Bytes
  pub rest : Bytes

-- `RemoteEvent`, less the connection.
pub data RemoteEvent : Type 0 where
  start : StartPayload → RemoteEvent
  stdin : Bytes → RemoteEvent
  resize : ℤ → ℤ → RemoteEvent
  signal : Bytes → RemoteEvent
  close : Bytes → RemoteEvent
  error : Bytes → Bytes → RemoteEvent
  failed : SessionError → RemoteEvent
  sequence_gap_timeout : ProtocolError → RemoteEvent
  peer_timeout : ℕ → RemoteEvent

-- A call of a subscriber or a receiver, with the connection and, for a subscriber, the request.
pub data Call : Type 0 where
  deliver_local : Bytes → Bytes → Subscriber → LocalEvent → Call
  deliver_remote : Bytes → Subscriber → RemoteEvent → Call
  close_subscriber : Subscriber → Call

-- The interface `Outbound` on a state, encoding/json on the payloads, and the answers of subscribers and
-- receivers, which may depend on all calls before.
pub record World : Type 1 where
  pub Outbound : Type 0
  pub register : ℕ → RegisterConnectionRequest → Outbound → Result ManagerError Outbound
  pub enqueue : ℕ → Bytes → FrameType → Bytes → Outbound → Outbound × Option ManagerError
  -- `MarkCloseAfterDrained`, and whether it called `OnDrained` at once.
  pub mark_close : ℕ → Bytes → Outbound → Outbound × Bool
  pub drop : ℕ → Bytes → Outbound → Outbound
  pub decode_start : Bytes → Option StartPayload
  pub decode_start_ack : Bytes → Option Bytes
  pub decode_exit : Bytes → Option ℤ
  pub decode_error : Bytes → Option (Bytes × Bytes)
  pub decode_reason : Bytes → Option Bytes
  pub decode_resize : Bytes → Option (ℤ × ℤ)
  pub decode_signal : Bytes → Option Bytes
  pub error_payload : Bytes → SessionError → Bytes
  pub start_ack_payload : ℕ → ℕ → Bytes
  pub answer : List Call → Call → Option ℕ
  -- `strconv.ParseFloat` and the product with a unit of so many nanoseconds, as an int64.
  pub scaled : Bytes → ℕ → Option ℕ

-- `sessionState`
pub record SessionState : Type 0 where
  pub conn_id : Bytes
  pub root_message_id : Bytes
  pub chat_id : Bytes
  pub peer_open_id : Bytes
  pub started_at : ℕ
  pub closed_at : ℕ
  pub closed : Bool
  pub last_local_send_at : ℕ
  pub last_peer_message_at : ℕ
  pub local_heartbeat_interval : ℕ
  pub local_heartbeat_timeout : ℕ
  pub peer_heartbeat_timeout : ℕ
  pub rx : RecvWindow

pub record LocalSession : Type 0 where
  pub base : SessionState
  pub host : Bytes
  pub root_message_url : Bytes
  pub subscribers : Dict Bytes Subscriber

pub record RemoteSession : Type 0 where
  pub base : SessionState
  pub start : StartPayload
  pub receiver : Option Subscriber

-- `calls` are the calls of subscribers and receivers so far, the last one first. `deadlocked` is set where
-- the code takes its own lock again.
pub record Manager (w : World) : Type 0 where
  pub outbound : Option w.Outbound
  pub heartbeat_interval : ℕ
  pub heartbeat_timeout : ℕ
  pub sequence_gap_timeout : ℕ
  pub max_remote_sessions : ℕ
  pub local_by_conn : Dict Bytes LocalSession
  pub local_by_request : Dict Bytes Bytes
  pub remote_by_conn : Dict Bytes RemoteSession
  pub calls : List Call
  pub deadlocked : Bool

pub record LocalStart : Type 0 where
  pub request_id : Bytes
  pub host : Bytes
  pub conn_id : Bytes
  pub root_message_id : Bytes
  pub root_message_url : Bytes
  pub chat_id : Bytes
  pub peer_bot_open_id : Bytes
  pub next_send_seq : ℕ
  pub heartbeat_timeout : ℕ

pub record InboundMessage : Type 0 where
  pub conn_id : Bytes
  pub root_message_id : Bytes
  pub message_id : Bytes
  pub chat_id : Bytes
  pub sender_open_id : Bytes
  pub frames : List Frame
