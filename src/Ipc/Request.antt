-- ===== src/Ipc/Request.antt =====
-- internal/ipc/ipc.go: the requests of a client, the messages that carry them, and dispatch.
pub mod Delivered
use exec_over_lark.Prelude.{
  Bool, true, false, ◌&&◌, Option, none, some, [], ◌∷◌, ◌≡◌, refl, is_empty, if◌then◌else◌,
}
use exec_over_lark.Prelude.Bytes.{Bytes, codes}
use exec_over_lark.Prelude.Dict.{Dict}
use exec_over_lark.Prelude.Int.{ℤ, pos, negsuc, is_zero}
use exec_over_lark.Prelude.Result.{Result, ok, err}
use exec_over_lark.Ipc.Types.{
  MessageType, start_session, stdin, resize, signal, close, close_conn, status, sessions, start_ack,
  stdout, stderr, exit, status_result, sessions_result, error, unknown, HostConfig, Fields, Message,
}

pub record StartSessionRequest : Type 0 where
  pub request_id : Bytes
  pub host : Bytes
  pub host_config : HostConfig
  pub cmd : Bytes
  pub pty : Bool
  pub cwd : Bytes
  pub env : Dict Bytes Bytes
  pub shell : Bytes
  pub rows : ℤ
  pub cols : ℤ

pub record StatusRequest : Type 0 where
  pub request_id : Bytes
  pub config_path : Bytes
  pub socket_path : Bytes
  pub host : Bytes
  pub node_name : Bytes

-- The requests, by the method of Handler that takes them.
pub data Request : Type 0 where
  ask_start_session : StartSessionRequest → Request
  ask_stdin : Bytes → Bytes → Request
  ask_resize : Bytes → ℤ → ℤ → Request
  ask_signal ask_close ask_close_conn : Bytes → Bytes → Request
  ask_status : StatusRequest → Request
  ask_sessions : Bytes → Request

abbrev pub no_host_config : HostConfig
no_host_config = record {
  chat_id = [];
  peer_bot_open_id = [];
  shell = [];
  stream_chunk_bytes = pos 0;
  default_cwd = [];
}

-- `cloneHostConfig`: nil for a config without a value.
unfoldable pub clone_host_config : HostConfig → Option HostConfig
clone_host_config c =
    if is_empty c.chat_id
      && (is_empty c.peer_bot_open_id
          && (is_empty c.shell && (is_zero c.stream_chunk_bytes && is_empty c.default_cwd)))
    then none
    else some c

abbrev pub clone_host_config_value : Option HostConfig → HostConfig
clone_host_config_value none = no_host_config
clone_host_config_value (some c) = c

abbrev pub no_fields : MessageType → Bytes → Fields
no_fields type request_id = record {
  type = type;
  request_id = request_id;
  conn_id = [];
  host = [];
  host_config = none;
  config_path = [];
  socket_path = [];
  node_name = [];
  cmd = [];
  pty = false;
  cwd = [];
  env = [];
  shell = [];
  rows = pos 0;
  cols = pos 0;
  name = [];
  reason = [];
  code = pos 0;
  error_code = [];
  message = [];
  detail = [];
  daemon_status = none;
  sessions = [];
}

unfoldable pub start_session_message : StartSessionRequest → Message
unfolding clone_host_config
start_session_message r = record {
  fields = record (no_fields start_session r.request_id) {
    host = r.host;
    host_config = clone_host_config r.host_config;
    cmd = r.cmd;
    pty = r.pty;
    cwd = r.cwd;
    env = r.env;
    shell = r.shell;
    rows = r.rows;
    cols = r.cols;
  };
  bytes = [];
}

unfoldable pub status_message : StatusRequest → Message
status_message r = record {
  fields = record (no_fields status r.request_id) {
    config_path = r.config_path;
    socket_path = r.socket_path;
    host = r.host;
    node_name = r.node_name;
  };
  bytes = [];
}

unfoldable pub stdin_message : Bytes → Bytes → Message
stdin_message request_id bytes = record { fields = no_fields stdin request_id; bytes = bytes }

unfoldable pub resize_message : Bytes → ℤ → ℤ → Message
resize_message request_id rows cols = record {
  fields = record (no_fields resize request_id) { rows = rows; cols = cols };
  bytes = [];
}

unfoldable pub signal_message : Bytes → Bytes → Message
signal_message request_id name = record {
  fields = record (no_fields signal request_id) { name = name };
  bytes = [];
}

unfoldable pub close_message : Bytes → Bytes → Message
close_message request_id reason = record {
  fields = record (no_fields close request_id) { reason = reason };
  bytes = [];
}

unfoldable pub close_conn_message : Bytes → Bytes → Message
close_conn_message conn_id reason = record {
  fields = record (no_fields close_conn []) { conn_id = conn_id; reason = reason };
  bytes = [];
}

unfoldable pub sessions_message : Bytes → Message
sessions_message request_id = record { fields = no_fields sessions request_id; bytes = [] }

-- The methods of Client
unfoldable pub message_of : Request → Message
unfolding start_session_message status_message stdin_message resize_message signal_message
    close_message close_conn_message sessions_message
message_of (ask_start_session r) = start_session_message r
message_of (ask_stdin request_id bytes) = stdin_message request_id bytes
message_of (ask_resize request_id rows cols) = resize_message request_id rows cols
message_of (ask_signal request_id name) = signal_message request_id name
message_of (ask_close request_id reason) = close_message request_id reason
message_of (ask_close_conn conn_id reason) = close_conn_message conn_id reason
message_of (ask_status r) = status_message r
message_of (ask_sessions request_id) = sessions_message request_id

-- The handler that `dispatch` calls, or the type that is refused.
unfoldable pub dispatch_type : MessageType → Message → Result MessageType Request
dispatch_type start_session m = ok (
    ask_start_session (record {
      request_id = m.fields.request_id;
      host = m.fields.host;
      host_config = clone_host_config_value m.fields.host_config;
      cmd = m.fields.cmd;
      pty = m.fields.pty;
      cwd = m.fields.cwd;
      env = m.fields.env;
      shell = m.fields.shell;
      rows = m.fields.rows;
      cols = m.fields.cols;
    }))
dispatch_type stdin m = ok (ask_stdin m.fields.request_id m.bytes)
dispatch_type resize m = ok (ask_resize m.fields.request_id m.fields.rows m.fields.cols)
dispatch_type signal m = ok (ask_signal m.fields.request_id m.fields.name)
dispatch_type close m = ok (ask_close m.fields.request_id m.fields.reason)
dispatch_type close_conn m = ok (ask_close_conn m.fields.conn_id m.fields.reason)
dispatch_type status m = ok (
    ask_status (record {
      request_id = m.fields.request_id;
      config_path = m.fields.config_path;
      socket_path = m.fields.socket_path;
      host = m.fields.host;
      node_name = m.fields.node_name;
    }))
dispatch_type sessions m = ok (ask_sessions m.fields.request_id)
dispatch_type start_ack m = err start_ack
dispatch_type stdout m = err stdout
dispatch_type stderr m = err stderr
dispatch_type exit m = err exit
dispatch_type status_result m = err status_result
dispatch_type sessions_result m = err sessions_result
dispatch_type error m = err error
dispatch_type (unknown s) m = err (unknown s)

unfoldable pub dispatch_request : Message → Result MessageType Request
unfolding dispatch_type
dispatch_request m = dispatch_type m.fields.type m
