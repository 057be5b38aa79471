-- ===== src/Prelude/Files.antt =====
-- What the operating system answers about files and users: package os.
use Prim.Native.Nat.{ℕ, zero, suc, ◌+◌, ◌*◌, ◌/◌, ◌%◌}
use mathlib.Core.Path.{◌≡◌}
use mathlib.Core.Logic.{◌↔◌}
use mathlib.Core.Bool.{Bool, true, false, ◌&&◌}
use mathlib.Core.Option.{Option}
use native.Mathlib.Omega.{arith}
use exec_over_lark.Prelude.Tests.{◌==◌, if◌then◌else◌}
use exec_over_lark.Prelude.Bytes.{Bytes}
use exec_over_lark.Prelude.Result.{Result}

pub data FileKind : Type 0 where
  regular directory symlink special : FileKind

-- `os.FileInfo`: the kind and the nine permission bits of its mode, and the owner in `Sys()`.
pub record FileInfo : Type 0 where
  pub kind : FileKind
  pub perm : ℕ
  pub owner : Option ℕ

pub data StatError : Type 0 where
  not_exist other : StatError

pub record Os : Type 0 where
  pub home_dir : Option Bytes  -- os.UserHomeDir, none if it fails
  pub working_dir : Option Bytes  -- os.Getwd
  pub uid : ℕ  -- os.Getuid
  pub stat : Bytes → Result StatError FileInfo
  pub lstat : Bytes → Result StatError FileInfo

abbrev pub is_dir : FileKind → Bool
is_dir regular = false
is_dir directory = true
is_dir symlink = false
is_dir special = false

abbrev pub is_regular : FileKind → Bool
is_regular regular = true
is_regular directory = false
is_regular symlink = false
is_regular special = false

abbrev pub is_symlink : FileKind → Bool
is_symlink regular = false
is_symlink directory = false
is_symlink symlink = true
is_symlink special = false

-- `a &^ b` on the lowest `n` bits
unfoldable pub and_not : ℕ → ℕ → ℕ → ℕ
and_not zero a b = 0
and_not (suc n) a b = 2 * and_not n (a / 2) (b / 2) + (if a % 2 == 1 && b % 2 == 0 then 1 else 0)

-- 0600: the last seven bits are not set.
pub and_not-0600_iff : (p : ℕ) → (and_not 9 p 0o600 ≡ 0) ↔ (p % 128 ≡ 0)
unfolding and_not
and_not-0600_iff p = ground arith

-- 0700: the last six bits are not set.
pub and_not-0700_iff : (p : ℕ) → (and_not 9 p 0o700 ≡ 0) ↔ (p % 64 ≡ 0)
unfolding and_not
and_not-0700_iff p = ground arith
