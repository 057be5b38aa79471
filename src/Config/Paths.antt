-- ===== src/Config/Paths.antt =====
-- internal/config/config.go: DefaultPath, ResolvePath and ExpandUserPath.
use exec_over_lark.Prelude.{◌||◌, Option, none, some, drop, is_empty, if◌then◌else◌}
use exec_over_lark.Prelude.Bytes.{Bytes, codes, same, has_prefix, is_blank}
use exec_over_lark.Prelude.Result.{Result, ok, err, ◌>>=◌}
use exec_over_lark.Prelude.FilePath.{join, clean, is_abs}
use exec_over_lark.Prelude.Files.{Os}
use exec_over_lark.Config.Types.{ConfigError, home_failed, working_dir_failed}

abbrev pub default_config_dir : Bytes
default_config_dir = codes ".elark"

abbrev pub default_config_file : Bytes
default_config_file = codes "config.toml"

-- The home directory, which has to be there and not empty.
pub home_of : Option Bytes → Result ConfigError Bytes
home_of none = err home_failed
home_of (some home) = if is_empty home then err home_failed else ok home

abbrev pub working_dir_of : Option Bytes → Result ConfigError Bytes
working_dir_of none = err working_dir_failed
working_dir_of (some path) = ok path

-- What "~" or a path below "~/" stands for.
pub under_home : Bytes → Bytes → Bytes
under_home path home = if same path (codes "~") then home else join home (drop 2 path)

module _ (os : Os) where
  unfoldable pub default_path : Result ConfigError Bytes
  unfolding home_of
  default_path = do
    home ← home_of os.home_dir
    ok (join (join home default_config_dir) default_config_file)

  unfoldable pub expand_user_path : Bytes → Result ConfigError Bytes
  unfolding home_of under_home
  expand_user_path path =
      if same path (codes "~") || has_prefix (codes "~/") path
      then (home_of os.home_dir >>= λ home. ok (under_home path home))
      else ok path

  -- `filepath.Abs`
  pub absolute : Bytes → Result ConfigError Bytes
  absolute path =
      if is_abs path
      then ok (clean path)
      else (working_dir_of os.working_dir >>= λ here. ok (join here path))

  unfoldable pub resolve_path : Bytes → Result ConfigError Bytes
  unfolding default_path expand_user_path absolute
  resolve_path config_path =
      if is_blank config_path then default_path else (expand_user_path config_path >>= absolute)
