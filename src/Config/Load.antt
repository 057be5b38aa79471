-- ===== src/Config/Load.antt =====
-- internal/config/config.go: Load.
pub mod Checked
use exec_over_lark.Prelude.{ℕ, Bool, true, false, Option, none, some, List, [], ◌∷◌, if◌then◌else◌}
use exec_over_lark.Prelude.Bytes.{Bytes}
use exec_over_lark.Prelude.Result.{Result, ok, err, ◌>>=◌, ◌>>◌}
use exec_over_lark.Prelude.Files.{Os}
use exec_over_lark.Config.Types.{
  Config, ConfigError, FileError, file_error, read_failed, parse_failed,
}
use exec_over_lark.Config.Paths.{resolve_path}
use exec_over_lark.Config.Security.{check_config_file_permissions}
use exec_over_lark.Config.Defaults.{apply_defaults}
use exec_over_lark.Config.Validate.{validate}

abbrev pub of_file : Result FileError (Unit {0}) → Result ConfigError (Unit {0})
of_file (ok done) = ok done
of_file (err e) = err (file_error e)

abbrev pub or_error : {A : Type 0} → ConfigError → Option A → Result ConfigError A
or_error e none = err e
or_error e (some a) = ok a

-- os.ReadFile, and toml.Unmarshal of the package go-toml.
module _ (os : Os) (read_file : Bytes → Option Bytes) (unmarshal : Bytes → Option Config) where
  unfoldable pub load : Bytes → Result ConfigError Config
  unfolding resolve_path check_config_file_permissions apply_defaults validate
  load config_path = do
    path ← resolve_path os config_path
    of_file (check_config_file_permissions os path)
    content ← or_error read_failed (read_file path)
    parsed ← or_error parse_failed (unmarshal content)
    let cfg = apply_defaults (record parsed { path = path })
    validate os (some cfg)
    ok cfg
