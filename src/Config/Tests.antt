-- ===== src/Config/Tests.antt =====
-- Runs of the configuration on concrete files, and the theorems of Config applied to them.
use exec_over_lark.Prelude.{◌↔◌, ◌≡◌, refl, true, false, some, [], ◌∷◌, All}
use exec_over_lark.Prelude.Bytes.{codes, is_blank, same}
use exec_over_lark.Prelude.Int.{pos}
use exec_over_lark.Prelude.Result.{ok}
use exec_over_lark.Prelude.FilePath.{dir, join}
use exec_over_lark.Prelude.Files.{Os, regular, directory}
use exec_over_lark.Config.Types.{Config, HostConfig}
use exec_over_lark.Config.Defaults.{apply_defaults}
use exec_over_lark.Config.Validate.{validate}
use exec_over_lark.Config.Validate.Valid.{IsValid}
use exec_over_lark.Config.Validate.Exact.{validate_iff}
use exec_over_lark.Config.Security.{check_config_file_permissions}
use exec_over_lark.Config.Security.Private.{
  IsPrivateFile, IsPrivateDirectory, check_config_file_permissions_iff,
}
use exec_over_lark.Config.Load.{load}
use exec_over_lark.Config.Init.{Disk, opened, write_init_template}
use exec_over_lark.Config.Init.Private.{IsAllowedEffect, write_init_template_private}
use exec_over_lark.Config.Load.Checked.{IsChecked, load_checked}

-- The file of the user 1000 is there with mode 0600, in a directory with mode 0700.
abbrev os : Os
os = record {
  home_dir = some (codes "/h");
  working_dir = some (codes "/w");
  uid = 1000;
  stat = λ path. ok (record { kind = directory; perm = 0o700; owner = some 1000 });
  lstat = λ path. ok (record { kind = regular; perm = 0o600; owner = some 1000 });
}

abbrev host : HostConfig
host = record {
  chat_id = codes "oc_a1";
  peer_bot_open_id = codes " ou_b-2 ";
  shell = [];
  stream_chunk_bytes = pos 0;
  default_cwd = [];
}

abbrev raw : Config
raw = record {
  path = [];
  node_name = codes "n";
  default_host = codes "h";
  ipc = record { enabled = true; socket_path = codes "~/s" };
  lark = record {
    app_id = codes "a";
    app_secret = codes "s";
    send_cooldown = pos 0;
    lark_text_request_limit_bytes = pos 0;
  };
  connection = record {
    heartbeat_interval = pos 0;
    heartbeat_timeout = pos 0;
    sequence_gap_timeout = pos 0;
  };
  exec = record {
    enabled = true;
    default_shell = codes "/bin/sh";
    max_sessions = pos 2;
    stream_chunk_bytes = pos 0;
    allowed_chat_ids = some (codes "oc_x" ∷ []);
  };
  hosts = (codes "h", host) ∷ [];
}

abbrev cfg : Config
cfg = apply_defaults (record raw { path = codes "/h/.elark/config.toml" })

cfg_loaded : load os (λ path. some []) (λ content. some raw) (codes " ") ≡ ok cfg
unfolding load is_blank same join
cfg_loaded = refl

validate_iff_example : (validate os (some cfg) ≡ ok tt) ↔ IsValid os cfg
validate_iff_example = validate_iff os cfg

check_config_file_permissions_iff_example :
    (check_config_file_permissions os (codes "/h/c") ≡ ok tt)
    ↔ (IsPrivateFile os (codes "/h/c") × IsPrivateDirectory os (dir (codes "/h/c")))
check_config_file_permissions_iff_example = check_config_file_permissions_iff os (codes "/h/c")

abbrev disk : Disk
disk = record {
  mkdir_all = λ path. true;
  open_file = λ path force. opened;
  chmod = λ path. true;
  write = λ path body. true;
}

write_init_template_private_example :
    All
      (IsAllowedEffect os (codes "client") false)
      (write_init_template disk os (codes "~/c") (codes "client") false).1
write_init_template_private_example =
    write_init_template_private disk os (codes "client") false (codes "~/c")

load_checked_example : IsChecked os (λ path. some []) (λ content. some raw) (codes " ") cfg
load_checked_example =
    load_checked os (λ path. some []) (λ content. some raw) (codes " ") cfg_loaded
