-- ===== src/Config/Init/Private.antt =====
-- internal/config/config.go: what WriteInitTemplate does to the file system.
use exec_over_lark.Prelude.{Bool, Bool-cases, inl, inr, All, true, false, ◌≡◌, refl}
use exec_over_lark.Prelude.Bytes.{Bytes}
use exec_over_lark.Prelude.Result.{Result, ok, err, Result-cases}
use exec_over_lark.Prelude.FilePath.{dir}
use exec_over_lark.Prelude.Files.{Os}
use exec_over_lark.Config.Types.{ConfigError, FileError}
use exec_over_lark.Config.Paths.{resolve_path}
use exec_over_lark.Config.Security.{check_secure_directory}
use exec_over_lark.Config.Security.Private.{IsPrivateDirectory, check_secure_directory_iff}
use exec_over_lark.Config.Init.{
  template, OpenAnswer, opened, exists, failed, Disk, Effect, make_directory, open_truncated,
  open_new, set_mode_0600, write_body, Done, open_effect, write_open_file, write_opened,
  write_secure, write_template, write_init_template,
}

-- A call on a file is made in a private directory, truncates a file only by force, and writes the
-- template of the role.
abbrev pub IsAllowedEffect : Os → Bytes → Bool → Effect → Type 0
IsAllowedEffect os role force (make_directory path) = Unit
IsAllowedEffect os role force (open_truncated path) =
    IsPrivateDirectory os (dir path) × (force ≡ true)
IsAllowedEffect os role force (open_new path) = IsPrivateDirectory os (dir path) × (force ≡ false)
IsAllowedEffect os role force (set_mode_0600 path) = IsPrivateDirectory os (dir path)
IsAllowedEffect os role force (write_body path body) =
    IsPrivateDirectory os (dir path) × (template role ≡ ok body)

module _ (disk : Disk) (os : Os) (role : Bytes) (force : Bool) where
  Allowed : Done → Type 0
  Allowed (r, es) = All (IsAllowedEffect os role force) es

  open_effect_allowed :
      (path : Bytes)
      → IsPrivateDirectory os (dir path)
      → IsAllowedEffect os role force (open_effect force path)
  open_effect_allowed path p = elim (Bool-cases force) [
    | inl t ↦ rw t (p, refl)
    | inr f ↦ rw f (p, refl)
  ]

  write_open_file-Allowed :
      (path body : Bytes)
      → IsPrivateDirectory os (dir path)
      → template role ≡ ok body
      → Allowed (write_open_file disk path body)
  unfolding write_open_file Allowed
  write_open_file-Allowed path body p b = elim (Bool-cases (disk.chmod path)) [
    | inl t ↦ rw t (elim (Bool-cases (disk.write path body)) [
      | inl u ↦ rw u (p, ((p, b), tt))
      | inr u ↦ rw u (p, ((p, b), tt))
    ])
    | inr f ↦ rw f (p, tt)
  ]

  write_opened-Allowed :
      (path body : Bytes) (answer : OpenAnswer)
      → IsPrivateDirectory os (dir path)
      → template role ≡ ok body
      → Allowed (write_opened disk path body answer)
  unfolding write_opened Allowed
  write_opened-Allowed path body opened p b = write_open_file-Allowed path body p b
  write_opened-Allowed path body exists p b = tt
  write_opened-Allowed path body failed p b = tt

  write_secure-Allowed :
      (path body : Bytes) (checked : Result FileError (Unit {0}))
      → check_secure_directory os (dir path) ≡ checked
      → template role ≡ ok body
      → Allowed (write_secure disk path body force checked)
  unfolding write_secure Allowed
  write_secure-Allowed path body (err e) c b = tt
  write_secure-Allowed path body (ok done) c b =
      let p = (check_secure_directory_iff os (dir path)).0 c in
      (open_effect_allowed path p, write_opened-Allowed path body (disk.open_file path force) p b)

  write_template-Allowed :
      (path : Bytes) (body : Result ConfigError Bytes)
      → template role ≡ body
      → Allowed (write_template disk os path force body)
  unfolding write_template Allowed
  write_template-Allowed path (err e) b = tt
  write_template-Allowed path (ok body) b = elim (Bool-cases (disk.mkdir_all (dir path))) [
    | inl t ↦
        rw t (tt, write_secure-Allowed path body (check_secure_directory os (dir path)) refl b)
    | inr f ↦ rw f (tt, tt)
  ]

  -- Whatever the file system answers: a file is opened, given its mode or written only in a private
  -- directory, truncated only by force, and all that is written is the template of the role.
  pub write_init_template_private :
      (given : Bytes)
      → All (IsAllowedEffect os role force) (write_init_template disk os given role force).1
  unfolding write_init_template Allowed
  write_init_template_private given = elim (Result-cases (resolve_path os given)) [
    | inl (e, r) ↦ rw (r, write_init_template) tt
    | inr (path, r) ↦ rw (r, write_init_template) (write_template-Allowed path (template role) refl)
  ]
