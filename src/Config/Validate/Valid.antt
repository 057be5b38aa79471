-- ===== src/Config/Validate/Valid.antt =====
-- internal/config/config.go: what a valid configuration is, said without the order of the checks.
use exec_over_lark.Prelude.{
  ℕ, suc, ◌≤◌, ◌<◌, ◌≡◌, ◌≢◌, ◌⊎◌, true, false, Option, none, some, List, [], ◌++◌, All,
}
use exec_over_lark.Prelude.Bytes.{Bytes, codes, trim_space, is_blank, bytes_eq}
use exec_over_lark.Prelude.Dict.{Dict, lookup, Every}
use exec_over_lark.Prelude.Int.{ℤ, pos, negsuc}
use exec_over_lark.Prelude.Result.{ok, err}
use exec_over_lark.Prelude.FilePath.{dir}
use exec_over_lark.Prelude.Files.{Os}
use exec_over_lark.Config.Types.{
  Config, HostConfig, LarkConfig, ConnectionConfig, IpcConfig, ExecConfig, missing,
}
use exec_over_lark.Config.Paths.{expand_user_path}
use exec_over_lark.Config.Security.{check_secure_directory}
use exec_over_lark.Config.Security.Private.{IsPrivateDirectory}

abbrev pub IsPositive : ℤ → Type 0
IsPositive z = (n : ℕ) × (z ≡ pos (suc n))

abbrev pub IsLess : ℤ → ℤ → Type 0
IsLess (pos a) (pos b) = a < b
IsLess (pos a) (negsuc b) = ⊥
IsLess (negsuc a) (pos b) = Unit
IsLess (negsuc a) (negsuc b) = b < a

abbrev pub IsIdChar : ℕ → Type 0
IsIdChar c =
    ((b'A' ≤ c) × (c ≤ b'Z'))
    ⊎ (((b'a' ≤ c) × (c ≤ b'z')) ⊎ (((b'0' ≤ c) × (c ≤ b'9')) ⊎ ((c ≡ b'_') ⊎ (c ≡ b'-'))))

-- An identifier of Lark: within blanks, the prefix and then letters, digits, "_" and "-".
abbrev pub IsLarkId : Bytes → Bytes → Type 0
IsLarkId prefix text =
    (trim_space text ≢ [])
    × (((rest : Bytes) × (trim_space text ≡ prefix ++ rest)) × All IsIdChar (trim_space text))

abbrev pub IsText : Bytes → Type 0
IsText s = is_blank s ≡ false

abbrev pub IsLark : Bytes → LarkConfig → Type 0
IsLark node_name lark =
    IsText node_name
    × (IsText lark.app_id
        × (IsText lark.app_secret
            × (IsPositive lark.send_cooldown × (lark.lark_text_request_limit_bytes ≡ pos 153600))))

abbrev pub IsConnection : ConnectionConfig → Type 0
IsConnection c =
    IsPositive c.heartbeat_interval
    × (IsPositive c.heartbeat_timeout
        × (IsPositive c.sequence_gap_timeout × IsLess c.heartbeat_interval c.heartbeat_timeout))

-- The directory of the socket is private, or not there yet.
abbrev pub IsSocket : Os → Bytes → Type 0
IsSocket os path =
    IsText path
    × (IsPrivateDirectory os (dir path) ⊎ (check_secure_directory os (dir path) ≡ err missing))

abbrev pub IsIpc : Os → IpcConfig → Type 0
IsIpc os ipc =
    ipc.enabled ≡ true
    → (path : Bytes) × ((expand_user_path os ipc.socket_path ≡ ok path) × IsSocket os path)

abbrev pub IsDefaultHost : Bytes → Dict Bytes HostConfig → Type 0
IsDefaultHost name hosts = (name ≡ []) ⊎ ((host : HostConfig) × (lookup name hosts ≡ some host))

abbrev pub IsHost : Bytes → HostConfig → Type 0
IsHost name host =
    IsText name
    × (IsLarkId (codes "oc_") host.chat_id
        × (IsLarkId (codes "ou_") host.peer_bot_open_id × IsPositive host.stream_chunk_bytes))

abbrev pub IsExec : ExecConfig → Type 0
IsExec exec =
    exec.enabled ≡ true
    → IsText exec.default_shell
      × (IsPositive exec.max_sessions × IsPositive exec.stream_chunk_bytes)

-- No list of chats, or a list of at least one.
abbrev pub IsAllowed : Option (List Bytes) → Type 0
IsAllowed none = Unit
IsAllowed (some ids) = (ids ≢ []) × All (IsLarkId (codes "oc_")) ids

pub record IsValid (os : Os) (cfg : Config) : Type 0 where
  pub lark : IsLark cfg.node_name cfg.lark
  pub connection : IsConnection cfg.connection
  pub ipc : IsIpc os cfg.ipc
  pub default_host : IsDefaultHost cfg.default_host cfg.hosts
  pub hosts : Every IsHost cfg.hosts
  pub exec : IsExec cfg.exec
  pub allowed : IsAllowed cfg.exec.allowed_chat_ids
