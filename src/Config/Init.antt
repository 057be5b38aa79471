-- ===== src/Config/Init.antt =====
-- internal/config/config.go: Template and WriteInitTemplate.
pub mod Private
use exec_over_lark.Prelude.{
  Bool, Bool-cases, inl, inr, All, true, false, List, [], ◌∷◌, ◌++◌, ◌≡◌, refl, not, if◌then◌else◌,
}
use exec_over_lark.Prelude.Bytes.{Bytes, codes, same}
use exec_over_lark.Prelude.Result.{Result, ok, err, Result-cases}
use exec_over_lark.Prelude.FilePath.{dir}
use exec_over_lark.Prelude.Files.{Os}
use exec_over_lark.Config.Types.{
  ConfigError, unknown_role, already_exists, create_failed, chmod_failed, write_failed, file_error,
  FileError,
}
use exec_over_lark.Config.Paths.{resolve_path}
use exec_over_lark.Config.Security.{check_secure_directory}
use exec_over_lark.Config.Security.Private.{IsPrivateDirectory, check_secure_directory_iff}

-- Lines, each with its end.
unlines : List Bytes → Bytes
unlines [] = []
unlines (l ∷ ls) = l ++ (10 ∷ unlines ls)

pub client_template : Bytes
unfolding unlines
client_template = unlines (
    codes "node_name = \"local\""
    ∷ codes "default_host = \"example\""
    ∷ codes ""
    ∷ codes "[ipc]"
    ∷ codes "enabled = true"
    ∷ codes "socket_path = \"~/.local/run/exec-over-lark/elarkd.sock\""
    ∷ codes ""
    ∷ codes "[lark]"
    ∷ codes "app_id = \"cli_client_xxx\""
    ∷ codes "app_secret = \"client_secret_xxx\""
    ∷ codes "send_cooldown = \"500ms\""
    ∷ codes "lark_text_request_limit_bytes = 153600"
    ∷ codes ""
    ∷ codes "[connection]"
    ∷ codes "heartbeat_interval = \"10s\""
    ∷ codes "heartbeat_timeout = \"30s\""
    ∷ codes "sequence_gap_timeout = \"30s\""
    ∷ codes ""
    ∷ codes "[exec]"
    ∷ codes "enabled = false"
    ∷ codes ""
    ∷ codes "[hosts.example]"
    ∷ codes "chat_id = \"oc_xxx\""
    ∷ codes "peer_bot_open_id = \"ou_server_bot\""
    ∷ codes "shell = \"/bin/zsh\""
    ∷ codes "stream_chunk_bytes = 12000"
    ∷ [])

pub server_template : Bytes
unfolding unlines
server_template = unlines (
    codes "node_name = \"server\""
    ∷ codes ""
    ∷ codes "[ipc]"
    ∷ codes "enabled = false"
    ∷ codes "socket_path = \"~/.local/run/exec-over-lark/elarkd.sock\""
    ∷ codes ""
    ∷ codes "[lark]"
    ∷ codes "app_id = \"cli_server_xxx\""
    ∷ codes "app_secret = \"server_secret_xxx\""
    ∷ codes "send_cooldown = \"500ms\""
    ∷ codes "lark_text_request_limit_bytes = 153600"
    ∷ codes ""
    ∷ codes "[connection]"
    ∷ codes "heartbeat_interval = \"10s\""
    ∷ codes "heartbeat_timeout = \"30s\""
    ∷ codes "sequence_gap_timeout = \"30s\""
    ∷ codes ""
    ∷ codes "[exec]"
    ∷ codes "enabled = true"
    ∷ codes "default_shell = \"/bin/zsh\""
    ∷ codes "max_sessions = 8"
    ∷ codes "stream_chunk_bytes = 12000"
    ∷ codes "# Optional chat allowlist. Omit this field to allow all chats."
    ∷ codes "# allowed_chat_ids = [\"oc_xxx\", \"oc_yyy\"]"
    ∷ [])

unfoldable pub template : Bytes → Result ConfigError Bytes
unfolding client_template server_template
template role =
    if same role (codes "client")
    then ok client_template
    else if same role (codes "server")
    then ok server_template
    else err unknown_role

-- What a step of the file system answers.
pub data OpenAnswer : Type 0 where
  opened exists failed : OpenAnswer

-- os.MkdirAll, os.OpenFile with O_TRUNC or else O_EXCL, and Chmod and WriteString of the file.
pub record Disk : Type 0 where
  pub mkdir_all : Bytes → Bool
  pub open_file : Bytes → Bool → OpenAnswer
  pub chmod : Bytes → Bool
  pub write : Bytes → Bytes → Bool

pub data Effect : Type 0 where
  make_directory : Bytes → Effect
  open_truncated open_new : Bytes → Effect
  set_mode_0600 : Bytes → Effect
  write_body : Bytes → Bytes → Effect

-- The answer, with the calls that were made, in order.
abbrev pub Done : Type 0
Done = Result ConfigError Bytes × List Effect

abbrev pub open_effect : Bool → Bytes → Effect
open_effect force path = if force then open_truncated path else open_new path

abbrev after : Effect → Done → Done
after e (r, es) = (r, e ∷ es)

module _ (disk : Disk) where
  unfoldable pub write_open_file : Bytes → Bytes → Done
  write_open_file path body =
      if disk.chmod path
      then (if disk.write path body
          then (ok path, set_mode_0600 path ∷ write_body path body ∷ [])
          else (err write_failed, set_mode_0600 path ∷ write_body path body ∷ []))
      else (err chmod_failed, set_mode_0600 path ∷ [])

  unfoldable pub write_opened : Bytes → Bytes → OpenAnswer → Done
  unfolding write_open_file
  write_opened path body opened = write_open_file path body
  write_opened path body exists = (err already_exists, [])
  write_opened path body failed = (err create_failed, [])

  unfoldable pub write_secure : Bytes → Bytes → Bool → Result FileError (Unit {0}) → Done
  unfolding write_opened
  write_secure path body force (err e) = (err (file_error e), [])
  write_secure path body force (ok done) =
      after (open_effect force path) (write_opened path body (disk.open_file path force))

  unfoldable pub write_template : Os → Bytes → Bool → Result ConfigError Bytes → Done
  unfolding write_secure
  write_template os path force (err e) = (err e, [])
  write_template os path force (ok body) = after (make_directory (dir path)) (
      if disk.mkdir_all (dir path)
      then write_secure path body force (check_secure_directory os (dir path))
      else (err create_failed, []))

  -- `os` answers for the file system after the directory is made.
  unfoldable pub write_init_template : Os → Bytes → Bytes → Bool → Done
  unfolding resolve_path template write_template
  write_init_template os config_path role force = elim (resolve_path os config_path) [
    | err e ↦ (err e, [])
    | ok path ↦ write_template os path force (template role)
  ]
