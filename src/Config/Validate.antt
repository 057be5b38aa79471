-- ===== src/Config/Validate.antt =====
-- internal/config/config.go: Validate and validateLarkID.
pub mod Valid
pub mod Exact
use exec_over_lark.Prelude.{
  ℕ, Bool, true, false, not, ◌&&◌, ◌||◌, Option, none, some, List, [], ◌∷◌, length, is_empty, leb,
  ◌==◌, if◌then◌else◌,
}
use exec_over_lark.Prelude.Bytes.{Bytes, codes, has_prefix, trim_space, is_blank, bytes_eq}
use exec_over_lark.Prelude.Dict.{Dict, lookup}
use exec_over_lark.Prelude.Int.{ℤ, pos, negsuc, is_positive, ltz}
use exec_over_lark.Prelude.Result.{Result, ok, err, ◌>>=◌, ◌>>◌, ensure}
use exec_over_lark.Prelude.FilePath.{dir}
use exec_over_lark.Prelude.Files.{Os}
use exec_over_lark.Config.Types.{
  Config, HostConfig, LarkConfig, ConnectionConfig, IpcConfig, ExecConfig, Field, key, host_chat_id,
  host_peer, host_chunk, allowed_chat, ConfigError, FileError, missing, IdError, empty_id,
  wrong_prefix, invalid_characters, nil_config, wrong_limit, interval_not_less, empty_host_name,
  empty_allowlist, required, not_positive, bad_id, host_not_defined, file_error,
}
use exec_over_lark.Config.Paths.{expand_user_path}
use exec_over_lark.Config.Security.{check_secure_directory}

-- `[A-Za-z0-9_-]`
abbrev pub is_id_char : ℕ → Bool
is_id_char c =
    leb b'A' c && leb c b'Z'
    || leb b'a' c && leb c b'z'
    || leb b'0' c && leb c b'9'
    || c == b'_'
    || c == b'-'

unfoldable pub all_id_chars : Bytes → Bool
all_id_chars [] = true
all_id_chars (c ∷ s) = is_id_char c && all_id_chars s

-- `larkIDRE.MatchString`
unfoldable pub matches_id : Bytes → Bool
unfolding all_id_chars
matches_id s = not (is_empty s) && all_id_chars s

unfoldable pub validate_lark_id : Field → Bytes → Bytes → Result ConfigError (Unit {0})
unfolding matches_id
validate_lark_id field text prefix =
    let value = trim_space text in
    do
      ensure (not (is_empty value)) (bad_id field empty_id)
      ensure (has_prefix prefix value) (bad_id field wrong_prefix)
      ensure (matches_id value) (bad_id field invalid_characters)

abbrev pub is_limit : ℤ → Bool
is_limit (pos n) = n == 153600
is_limit (negsuc n) = false

-- The checks on the settings of the application and of its requests.
unfoldable pub validate_lark : Bytes → LarkConfig → Result ConfigError (Unit {0})
validate_lark node_name lark = do
  ensure (not (is_blank node_name)) (required (key (codes "node_name")))
  ensure (not (is_blank lark.app_id)) (required (key (codes "lark.app_id")))
  ensure (not (is_blank lark.app_secret)) (required (key (codes "lark.app_secret")))
  ensure (is_positive lark.send_cooldown) (not_positive (key (codes "lark.send_cooldown")))
  ensure (is_limit lark.lark_text_request_limit_bytes) wrong_limit

unfoldable pub validate_connection : ConnectionConfig → Result ConfigError (Unit {0})
validate_connection c = do
  ensure (is_positive c.heartbeat_interval)
      (not_positive (key (codes "connection.heartbeat_interval")))
  ensure (is_positive c.heartbeat_timeout)
      (not_positive (key (codes "connection.heartbeat_timeout")))
  ensure (is_positive c.sequence_gap_timeout)
      (not_positive (key (codes "connection.sequence_gap_timeout")))
  ensure (ltz c.heartbeat_interval c.heartbeat_timeout) interval_not_less

-- A directory of the socket that does not exist yet is no error.
abbrev pub tolerate_missing : Result FileError (Unit {0}) → Result ConfigError (Unit {0})
tolerate_missing (ok done) = ok done
tolerate_missing (err missing) = ok tt
tolerate_missing (err e) = err (file_error e)

unfoldable pub validate_socket : Os → Bytes → Result ConfigError (Unit {0})
validate_socket os socket_path = do
  ensure (not (is_blank socket_path)) (required (key (codes "ipc.socket_path")))
  tolerate_missing (check_secure_directory os (dir socket_path))

unfoldable pub validate_ipc : Os → IpcConfig → Result ConfigError (Unit {0})
unfolding validate_socket
validate_ipc os ipc =
    if ipc.enabled then (expand_user_path os ipc.socket_path >>= validate_socket os) else ok tt

unfoldable pub is_defined : Bytes → Dict Bytes HostConfig → Bool
unfolding lookup
is_defined name hosts = elim (lookup name hosts) [ none ↦ false | some host ↦ true ]

unfoldable pub validate_default_host : Bytes → Dict Bytes HostConfig → Result ConfigError (Unit {0})
unfolding is_defined
validate_default_host name hosts =
    ensure (is_empty name || is_defined name hosts) (host_not_defined name)

unfoldable pub validate_host : Bytes → HostConfig → Result ConfigError (Unit {0})
unfolding validate_lark_id
validate_host name host = do
  ensure (not (is_blank name)) empty_host_name
  validate_lark_id (host_chat_id name) host.chat_id (codes "oc_")
  validate_lark_id (host_peer name) host.peer_bot_open_id (codes "ou_")
  ensure (is_positive host.stream_chunk_bytes) (not_positive (host_chunk name))

unfoldable pub validate_hosts : Dict Bytes HostConfig → Result ConfigError (Unit {0})
unfolding validate_host
validate_hosts [] = ok tt
validate_hosts ((name, host) ∷ hosts) = validate_host name host >> validate_hosts hosts

unfoldable pub validate_exec : ExecConfig → Result ConfigError (Unit {0})
validate_exec exec =
    if exec.enabled
    then (do
      ensure (not (is_blank exec.default_shell)) (required (key (codes "exec.default_shell")))
      ensure (is_positive exec.max_sessions) (not_positive (key (codes "exec.max_sessions")))
      ensure (is_positive exec.stream_chunk_bytes)
          (not_positive (key (codes "exec.stream_chunk_bytes"))))
    else ok tt

unfoldable pub validate_chat_ids : List Bytes → Result ConfigError (Unit {0})
unfolding validate_lark_id
validate_chat_ids [] = ok tt
validate_chat_ids (id ∷ ids) =
    validate_lark_id (allowed_chat (length ids)) id (codes "oc_") >> validate_chat_ids ids

unfoldable pub validate_allowed : Option (List Bytes) → Result ConfigError (Unit {0})
unfolding validate_chat_ids
validate_allowed none = ok tt
validate_allowed (some []) = err empty_allowlist
validate_allowed (some (id ∷ ids)) = validate_chat_ids (id ∷ ids)

-- `Validate`, of a pointer that may be nil.
unfoldable pub validate : Os → Option Config → Result ConfigError (Unit {0})
unfolding validate_lark validate_connection validate_ipc validate_default_host validate_hosts
    validate_exec validate_allowed
validate os none = err nil_config
validate os (some cfg) = do
  validate_lark cfg.node_name cfg.lark
  validate_connection cfg.connection
  validate_ipc os cfg.ipc
  validate_default_host cfg.default_host cfg.hosts
  validate_hosts cfg.hosts
  validate_exec cfg.exec
  validate_allowed cfg.exec.allowed_chat_ids
