-- ===== src/Daemon/Create.antt =====
-- internal/daemon/remote.go: RemoteConfigFromConfig and NewRemote.
pub mod Limit
use exec_over_lark.Prelude.{ℕ, Bool, false, not, ◌||◌, Option, none, some, List, [], is_empty}
use exec_over_lark.Prelude.Bytes.{Bytes, trim_space, is_blank}
use exec_over_lark.Prelude.Int.{ℤ, pos, negsuc}
use exec_over_lark.Prelude.Result.{Result, ok, err, ◌>>=◌, ◌>>◌, ensure}
use exec_over_lark.Config.Types.{Config}
use exec_over_lark.Session.Types.{World}
use exec_over_lark.Session.Base.{new_manager}
use exec_over_lark.Daemon.Remote.{RemoteConfig, RemoteDaemon, normalize_remote_config, string_set}

pub data CreateError : Type 0 where
  remote_exec_disabled missing_stream missing_bot_id missing_sender outbound_is_nil missing_exec :
      CreateError

abbrev or_nil : Option (List Bytes) → List Bytes
or_nil none = []
or_nil (some ids) = ids

-- `RemoteConfigFromConfig`: a configuration that is nil gives the zero value.
unfoldable pub remote_config_from_config : Option Config → RemoteConfig
remote_config_from_config none = record {
  exec_enabled = false;
  default_shell = [];
  max_sessions = pos 0;
  stream_chunk_bytes = pos 0;
  allowed_chat_ids = [];
  send_cooldown = pos 0;
  lark_text_request_limit_bytes = pos 0;
  heartbeat_interval = pos 0;
  heartbeat_timeout = pos 0;
  sequence_gap_timeout = pos 0;
}
remote_config_from_config (some cfg) = record {
  exec_enabled = cfg.exec.enabled;
  default_shell = cfg.exec.default_shell;
  max_sessions = cfg.exec.max_sessions;
  stream_chunk_bytes = cfg.exec.stream_chunk_bytes;
  allowed_chat_ids = or_nil cfg.exec.allowed_chat_ids;
  send_cooldown = cfg.lark.send_cooldown;
  lark_text_request_limit_bytes = cfg.lark.lark_text_request_limit_bytes;
  heartbeat_interval = cfg.connection.heartbeat_interval;
  heartbeat_timeout = cfg.connection.heartbeat_timeout;
  sequence_gap_timeout = cfg.connection.sequence_gap_timeout;
}

-- A number that is not positive is 0 for the session manager.
abbrev pub positive : ℤ → ℕ
positive (pos n) = n
positive (negsuc n) = 0

-- `RemoteOptions`: whether the stream, the source of events, the sender and the executor are given.
pub record RemoteOptions (w : World) : Type 0 where
  pub config : RemoteConfig
  pub event_stream : Bool
  pub event_source : Bool
  pub self_bot_open_id : Bytes
  pub sender : Bool
  pub executor : Bool
  pub outbound : Option w.Outbound

module _ (w : World) where
  unfoldable pub remote_daemon : RemoteConfig → Bytes → w.Outbound → RemoteDaemon w
  unfolding string_set
  remote_daemon cfg self out = record {
    exec_enabled = cfg.exec_enabled;
    self_bot_open_id = trim_space self;
    allowed_chats = string_set cfg.allowed_chat_ids;
    manager =
        new_manager w (some out) (positive cfg.heartbeat_interval) (positive cfg.heartbeat_timeout)
          (positive cfg.sequence_gap_timeout) (positive cfg.max_sessions);
    tasks = [];
  }

  abbrev of_outbound : Option w.Outbound → Result CreateError w.Outbound
  of_outbound none = err outbound_is_nil
  of_outbound (some out) = ok out

  unfoldable pub new_remote : RemoteOptions w → Result CreateError (RemoteDaemon w)
  unfolding normalize_remote_config remote_daemon
  new_remote opts =
      let cfg = normalize_remote_config opts.config in
      do
        ensure cfg.exec_enabled remote_exec_disabled
        ensure (opts.event_stream || opts.event_source) missing_stream
        ensure (not (is_blank opts.self_bot_open_id)) missing_bot_id
        ensure opts.sender missing_sender
        out ← of_outbound opts.outbound
        ensure (opts.executor || not (is_blank cfg.default_shell)) missing_exec
        ok (remote_daemon cfg opts.self_bot_open_id out)
