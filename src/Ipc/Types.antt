-- ===== src/Ipc/Types.antt =====
-- internal/ipc/ipc.go: the messages and their headers, the statuses, and the errors.
-- The clone functions copy, and a copy is the value itself; a nil map or list is an empty one.
use exec_over_lark.Prelude.{ℕ, Bool, Option, List}
use exec_over_lark.Prelude.Bytes.{Bytes}
use exec_over_lark.Prelude.Dict.{Dict}
use exec_over_lark.Prelude.Int.{ℤ}

abbrev pub default_max_header_bytes : ℕ
default_max_header_bytes = 1048576

abbrev pub default_max_payload_bytes : ℕ
default_max_payload_bytes = 67108864

-- `MessageType`: the types of the client, those of the server, and any other text.
pub data MessageType : Type 0 where
  start_session stdin resize signal close close_conn status sessions : MessageType
  start_ack stdout stderr exit status_result sessions_result error : MessageType
  unknown : Bytes → MessageType

pub record HostConfig : Type 0 where
  pub chat_id : Bytes
  pub peer_bot_open_id : Bytes
  pub shell : Bytes
  pub stream_chunk_bytes : ℤ
  pub default_cwd : Bytes

pub record SessionInfo : Type 0 where
  pub conn_id : Bytes
  pub host : Bytes
  pub started_at : ℕ
  pub last_peer_message_at : ℕ
  pub state : Bytes

pub record EventConnectionStatus : Type 0 where
  pub checked : Bool
  pub connected : Bool
  pub last_connected_at : ℕ
  pub last_event_at : ℕ
  pub error : Bytes

pub record OutboundTarget : Type 0 where
  pub chat_id : Bytes
  pub root_message_id : Bytes
  pub mention_open_id : Bytes

pub record OutboundQueueStatus : Type 0 where
  pub checked : Bool
  pub pending_frames : ℤ
  pub pending_targets : List OutboundTarget
  pub last_sent_at : ℕ
  pub has_last_sent : Bool
  pub next_flush_at : ℕ
  pub has_next_flush : Bool

pub record DaemonStatus : Type 0 where
  pub running : Bool
  pub version : Bytes
  pub socket_path : Bytes
  pub self_bot_open_id : Bytes
  pub event : EventConnectionStatus
  pub outbound : OutboundQueueStatus

-- What `Message` and `messageHeader` share.
pub record Fields : Type 0 where
  pub type : MessageType
  pub request_id : Bytes
  pub conn_id : Bytes
  pub host : Bytes
  pub host_config : Option HostConfig
  pub config_path : Bytes
  pub socket_path : Bytes
  pub node_name : Bytes
  pub cmd : Bytes
  pub pty : Bool
  pub cwd : Bytes
  pub env : Dict Bytes Bytes
  pub shell : Bytes
  pub rows : ℤ
  pub cols : ℤ
  pub name : Bytes
  pub reason : Bytes
  pub code : ℤ
  pub error_code : Bytes
  pub message : Bytes
  pub detail : Bytes
  pub daemon_status : Option DaemonStatus
  pub sessions : List SessionInfo

pub record Message : Type 0 where
  pub fields : Fields
  pub open fields use *
  pub bytes : Bytes

pub record MessageHeader : Type 0 where
  pub fields : Fields
  pub bytes_len : ℤ

pub data InvalidReason : Type 0 where
  missing_type unknown_type empty_header bad_header negative_bytes_len : InvalidReason
  request_id_required host_required negative_size size_not_positive name_required conn_id_required :
      InvalidReason
  daemon_status_required error_code_required error_message_required : InvalidReason

-- `end_of_file` and `unexpected_end` are io.EOF and io.ErrUnexpectedEOF.
pub data IpcError : Type 0 where
  invalid_message : InvalidReason → IpcError
  payload_too_large : ℕ → IpcError
  marshal_failed end_of_file unexpected_end : IpcError
