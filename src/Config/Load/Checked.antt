-- ===== src/Config/Load/Checked.antt =====
-- internal/config/config.go: what a configuration that Load returns went through.
use exec_over_lark.Prelude.{◌≡◌, refl, Option, none, some}
use mathlib.Core.Path.{subst}
use exec_over_lark.Prelude.Bytes.{Bytes}
use exec_over_lark.Prelude.Result.{Result, ok, err, >>=-eq-ok, >>_iff}
use exec_over_lark.Prelude.FilePath.{dir}
use exec_over_lark.Prelude.Files.{Os}
use exec_over_lark.Config.Types.{Config, ConfigError, FileError, read_failed, parse_failed}
use exec_over_lark.Config.Paths.{resolve_path}
use exec_over_lark.Config.Security.{check_config_file_permissions}
use exec_over_lark.Config.Security.Private.{
  IsPrivateFile, IsPrivateDirectory, check_config_file_permissions_iff,
}
use exec_over_lark.Config.Defaults.{apply_defaults}
use exec_over_lark.Config.Validate.{validate}
use exec_over_lark.Config.Validate.Valid.{IsValid}
use exec_over_lark.Config.Validate.Exact.{validate_iff}
use exec_over_lark.Config.Load.{load, of_file, or_error}

-- Where a configuration came from, and what holds of it.
pub record IsChecked (os : Os) (read_file : Bytes → Option Bytes)
    (unmarshal : Bytes → Option Config) (given : Bytes) (cfg : Config) : Type 0 where
  pub resolved : resolve_path os given ≡ ok cfg.path
  pub private_file : IsPrivateFile os cfg.path
  pub private_directory : IsPrivateDirectory os (dir cfg.path)
  pub parsed :
      (content : Bytes) × ((raw : Config) × ((read_file cfg.path ≡ some content)
          × ((unmarshal content ≡ some raw)
              × (cfg ≡ apply_defaults (record raw { path = cfg.path })))))
  pub valid : IsValid os cfg

of_file_ok : (r : Result FileError (Unit {0})) → of_file r ≡ ok tt → r ≡ ok tt
of_file_ok (ok done) h = refl
of_file_ok (err e) h = cc

or_error-some :
    {A : Type 0} (e : ConfigError) (o : Option A) {a : A} → or_error e o ≡ ok a → o ≡ some a
or_error-some e none h = cc
or_error-some e (some b) h = cc

checked :
    (os : Os) (read_file : Bytes → Option Bytes) (unmarshal : Bytes → Option Config)
    (given path : Bytes) (raw : Config) (content : Bytes)
    → resolve_path os given ≡ ok path
    → IsPrivateFile os path × IsPrivateDirectory os (dir path)
    → read_file path ≡ some content
    → unmarshal content ≡ some raw
    → IsValid os (apply_defaults (record raw { path = path }))
    → IsChecked os read_file unmarshal given (apply_defaults (record raw { path = path }))
unfolding apply_defaults
checked os read_file unmarshal given path raw content rp own rc rr v = record {
  resolved = rp;
  private_file = own.0;
  private_directory = own.1;
  parsed = (content, (raw, (rc, (rr, refl))));
  valid = v;
}

-- A configuration that Load returns was read from the file that the given path resolves to, a
-- private one in a private directory; it is what the parser made of the content with the defaults
-- for what is not set, and it is valid.
pub load_checked :
    (os : Os) (read_file : Bytes → Option Bytes) (unmarshal : Bytes → Option Config) (given : Bytes)
    {cfg : Config}
    → load os read_file unmarshal given ≡ ok cfg
    → IsChecked os read_file unmarshal given cfg
unfolding load
load_checked os read_file unmarshal given {cfg} h =
    let (path, rp, h1) = >>=-eq-ok (resolve_path os given) _ h in
    let (fp, h2) = (>>_iff (of_file (check_config_file_permissions os path)) _ cfg).0 h1 in
    let (content, rc, h3) = >>=-eq-ok (or_error read_failed (read_file path)) _ h2 in
    let (raw, rr, h4) = >>=-eq-ok (or_error parse_failed (unmarshal content)) _ h3 in
    let (v, e) =
      (>>_iff (validate os (some (apply_defaults (record raw { path = path })))) _ cfg).0 h4 in
    let own =
      (check_config_file_permissions_iff os path).0
        (of_file_ok (check_config_file_permissions os path) fp) in
    let same : apply_defaults (record raw { path = path }) ≡ cfg = cc e in
    subst (IsChecked os read_file unmarshal given) same (
      checked os read_file unmarshal given path raw content rp own
        (or_error-some _ (read_file path) rc) (or_error-some _ (unmarshal content) rr)
        ((validate_iff os (apply_defaults (record raw { path = path }))).0 v))
