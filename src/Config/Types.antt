-- ===== src/Config/Types.antt =====
-- internal/config/config.go: the structs of the configuration, the default values, and the errors.
-- A duration is an int64 of nanoseconds.
use exec_over_lark.Prelude.{ℕ, Bool, List, Option}
use exec_over_lark.Prelude.Bytes.{Bytes}
use exec_over_lark.Prelude.Dict.{Dict}
use exec_over_lark.Prelude.Int.{ℤ, pos}

pub record IpcConfig : Type 0 where
  pub enabled : Bool
  pub socket_path : Bytes

pub record LarkConfig : Type 0 where
  pub app_id : Bytes
  pub app_secret : Bytes
  pub send_cooldown : ℤ
  pub lark_text_request_limit_bytes : ℤ

pub record ConnectionConfig : Type 0 where
  pub heartbeat_interval : ℤ
  pub heartbeat_timeout : ℤ
  pub sequence_gap_timeout : ℤ

-- `allowed_chat_ids` is none for a nil slice.
pub record ExecConfig : Type 0 where
  pub enabled : Bool
  pub default_shell : Bytes
  pub max_sessions : ℤ
  pub stream_chunk_bytes : ℤ
  pub allowed_chat_ids : Option (List Bytes)

pub record HostConfig : Type 0 where
  pub chat_id : Bytes
  pub peer_bot_open_id : Bytes
  pub shell : Bytes
  pub stream_chunk_bytes : ℤ
  pub default_cwd : Bytes

-- A nil map of hosts is an empty one: the code tells them apart only to give the same error.
pub record Config : Type 0 where
  pub path : Bytes
  pub node_name : Bytes
  pub default_host : Bytes
  pub ipc : IpcConfig
  pub lark : LarkConfig
  pub connection : ConnectionConfig
  pub exec : ExecConfig
  pub hosts : Dict Bytes HostConfig

abbrev pub default_send_cooldown : ℤ
default_send_cooldown = pos 500000000

abbrev pub default_lark_text_request_limit_bytes : ℤ
default_lark_text_request_limit_bytes = pos 153600

abbrev pub default_heartbeat_interval : ℤ
default_heartbeat_interval = pos 10000000000

abbrev pub default_heartbeat_timeout : ℤ
default_heartbeat_timeout = pos 30000000000

abbrev pub default_sequence_gap_timeout : ℤ
default_sequence_gap_timeout = pos 30000000000

abbrev pub default_stream_chunk_bytes : ℤ
default_stream_chunk_bytes = pos 12000

abbrev pub default_max_sessions : ℤ
default_max_sessions = pos 8

-- The errors of the checks on files.
pub data FileError : Type 0 where
  missing stat_failed not_directory is_link not_regular : FileError
  owner_unknown other_owner too_wide : FileError

-- The errors of `validateLarkID`.
pub data IdError : Type 0 where
  empty_id wrong_prefix invalid_characters : IdError

-- The keys that the errors name. The index of an allowed chat is the number of ids after it.
pub data Field : Type 0 where
  key : Bytes → Field
  host_chat_id host_peer host_chunk : Bytes → Field
  allowed_chat : ℕ → Field

pub data ConfigError : Type 0 where
  home_failed working_dir_failed nil_config wrong_limit interval_not_less : ConfigError
  empty_host_name empty_allowlist read_failed parse_failed unknown_role : ConfigError
  already_exists create_failed chmod_failed write_failed : ConfigError
  required not_positive : Field → ConfigError
  bad_id : Field → IdError → ConfigError
  host_not_defined : Bytes → ConfigError
  file_error : FileError → ConfigError
