-- ===== src/Config/Security/Private.antt =====
-- internal/config/config.go: what the checks of files and directories admit, exactly.
use exec_over_lark.Prelude.{
  ℕ, ◌%◌, ◌≡◌, refl, ◌↔◌, Bool, true, not, Option, none, some, ◌==◌, ==_iff, arith,
}
use exec_over_lark.Prelude.Bytes.{Bytes}
use exec_over_lark.Prelude.Result.{Result, ok, err, ensures, chain}
use exec_over_lark.Prelude.FilePath.{dir}
use exec_over_lark.Prelude.Files.{
  Os, FileInfo, FileKind, regular, directory, symlink, special, StatError, is_dir, is_regular,
  is_symlink, and_not, and_not-0600_iff, and_not-0700_iff,
}
use exec_over_lark.Config.Security.{
  check_current_user_owner, secure_directory, secure_file, check_secure_directory,
  check_config_file_permissions,
}

-- Found, owned by the user, of the kind, and with no permission among the lowest bits.
abbrev pub IsOwn : ℕ → FileKind → ℕ → Result StatError FileInfo → Type 0
IsOwn uid kind bits (err e) = ⊥
IsOwn uid kind bits (ok info) =
    (info.kind ≡ kind) × ((info.owner ≡ some uid) × (info.perm % bits ≡ 0))

-- A directory with no permission for the group and others.
abbrev pub IsPrivateDirectory : Os → Bytes → Type 0
IsPrivateDirectory os path = IsOwn os.uid directory 64 (os.stat path)

-- A regular file, not a link to one, that only its owner can read or write and nobody can execute.
abbrev pub IsPrivateFile : Os → Bytes → Type 0
IsPrivateFile os path = IsOwn os.uid regular 128 (os.lstat path)

owner_iff :
    (uid : ℕ) (owner : Option ℕ) → (check_current_user_owner uid owner ≡ ok tt) ↔ (owner ≡ some uid)
unfolding check_current_user_owner
owner_iff uid none = (λ h. cc, λ h. cc)
owner_iff uid (some owner) = ground (arith, ==_iff owner uid)

perm_iff :
    (p mask bits : ℕ)
    → (and_not 9 p mask ≡ 0) ↔ (p % bits ≡ 0)
    → ((and_not 9 p mask == 0) ≡ true) ↔ (p % bits ≡ 0)
perm_iff p mask bits i = ground (arith, ==_iff (and_not 9 p mask) 0)

true_iff : (b : Bool) → (b ≡ true) ↔ (b ≡ true)
true_iff b = (λ h. h, λ h. h)

is_dir_iff : (kind : FileKind) → (is_dir kind ≡ true) ↔ (kind ≡ directory)
is_dir_iff regular = (λ h. cc, λ h. cc)
is_dir_iff directory = (λ h. refl, λ h. refl)
is_dir_iff symlink = (λ h. cc, λ h. cc)
is_dir_iff special = (λ h. cc, λ h. cc)

kind_iff :
    (kind : FileKind)
    → ((not (is_symlink kind) ≡ true) × (is_regular kind ≡ true)) ↔ (kind ≡ regular)
kind_iff regular = (λ h. refl, λ h. (refl, refl))
kind_iff directory = (λ h. cc, λ h. cc)
kind_iff symlink = (λ h. cc, λ h. cc)
kind_iff special = (λ h. cc, λ h. cc)

secure_directory_iff :
    (uid : ℕ) (found : Result StatError FileInfo)
    → (secure_directory uid found ≡ ok tt) ↔ IsOwn uid directory 64 found
unfolding secure_directory
secure_directory_iff uid (err e) = (λ h. cc, λ h. absurd h)
secure_directory_iff uid (ok info) = chain _ _ (ensures _ _ (is_dir_iff info.kind)) (
    chain _ _ (owner_iff uid info.owner)
      (ensures _ _ (perm_iff info.perm 0o700 64 (and_not-0700_iff info.perm))))

secure_file_iff :
    (uid : ℕ) (found : Result StatError FileInfo)
    → (secure_file uid found ≡ ok tt) ↔ IsOwn uid regular 128 found
unfolding secure_file
secure_file_iff uid (err e) = (λ h. cc, λ h. absurd h)
secure_file_iff uid (ok info) =
    let all = chain _ _ (ensures _ _ (true_iff (not (is_symlink info.kind)))) (
      chain _ _ (ensures _ _ (true_iff (is_regular info.kind))) (
        chain _ _ (owner_iff uid info.owner)
          (ensures _ _ (perm_iff info.perm 0o600 128 (and_not-0600_iff info.perm))))) in
    let kind = kind_iff info.kind in
    (
      λ h. let (a, bc) = all.0 h in (kind.0 (a, bc.0), bc.1),
      λ p. let (a, b) = kind.1 p.0 in all.1 (a, (b, p.1)),
    )

pub check_secure_directory_iff :
    (os : Os) (path : Bytes) → (check_secure_directory os path ≡ ok tt) ↔ IsPrivateDirectory os path
unfolding check_secure_directory
check_secure_directory_iff os path = secure_directory_iff os.uid (os.stat path)

-- The check of the configuration file succeeds exactly for a private file in a private directory:
-- both owned by the user, the file a regular one and no link that only its owner can read or write
-- and nobody can execute, the directory without permissions for the group and others.
pub check_config_file_permissions_iff :
    (os : Os) (path : Bytes)
    → (check_config_file_permissions os path ≡ ok tt)
      ↔ (IsPrivateFile os path × IsPrivateDirectory os (dir path))
unfolding check_config_file_permissions
check_config_file_permissions_iff os path =
    chain _ _ (secure_file_iff os.uid (os.lstat path)) (check_secure_directory_iff os (dir path))
