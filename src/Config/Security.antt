-- ===== src/Config/Security.antt =====
-- internal/config/config.go: CheckConfigFilePermissions, CheckSecureDirectory and checkCurrentUserOwner.
pub mod Private
use exec_over_lark.Prelude.{ℕ, not, Option, none, some, ◌==◌}
use exec_over_lark.Prelude.Bytes.{Bytes}
use exec_over_lark.Prelude.Result.{Result, ok, err, ◌>>◌, ensure}
use exec_over_lark.Prelude.FilePath.{dir}
use exec_over_lark.Prelude.Files.{
  Os, FileInfo, StatError, not_exist, other, is_dir, is_regular, is_symlink, and_not,
}
use exec_over_lark.Config.Types.{
  FileError, missing, stat_failed, not_directory, is_link, not_regular, owner_unknown, other_owner,
  too_wide,
}

abbrev pub stat_error : StatError → FileError
stat_error not_exist = missing
stat_error other = stat_failed

-- `checkCurrentUserOwner`
unfoldable pub check_current_user_owner : ℕ → Option ℕ → Result FileError (Unit {0})
check_current_user_owner uid none = err owner_unknown
check_current_user_owner uid (some owner) = ensure (owner == uid) other_owner

-- What `CheckSecureDirectory` asks of what os.Stat found.
unfoldable pub secure_directory : ℕ → Result StatError FileInfo → Result FileError (Unit {0})
unfolding check_current_user_owner and_not
secure_directory uid (err e) = err (stat_error e)
secure_directory uid (ok info) = do
  ensure (is_dir info.kind) not_directory
  check_current_user_owner uid info.owner
  ensure (and_not 9 info.perm 0o700 == 0) too_wide

-- What `CheckConfigFilePermissions` asks of what os.Lstat found.
unfoldable pub secure_file : ℕ → Result StatError FileInfo → Result FileError (Unit {0})
unfolding check_current_user_owner and_not
secure_file uid (err e) = err (stat_error e)
secure_file uid (ok info) = do
  ensure (not (is_symlink info.kind)) is_link
  ensure (is_regular info.kind) not_regular
  check_current_user_owner uid info.owner
  ensure (and_not 9 info.perm 0o600 == 0) too_wide

module _ (os : Os) where
  unfoldable pub check_secure_directory : Bytes → Result FileError (Unit {0})
  unfolding secure_directory
  check_secure_directory path = secure_directory os.uid (os.stat path)

  unfoldable pub check_config_file_permissions : Bytes → Result FileError (Unit {0})
  unfolding secure_file check_secure_directory
  check_config_file_permissions path = do
    secure_file os.uid (os.lstat path)
    check_secure_directory (dir path)
