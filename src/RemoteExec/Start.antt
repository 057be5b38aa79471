-- ===== src/RemoteExec/Start.antt =====
-- internal/remoteexec/exec.go: Executor.Start up to the start of the process, resolveShell,
-- resolveCwd, userDefaultShell and firstNonEmpty.
use exec_over_lark.Prelude.{
  ℕ, Bool, true, false, Option, none, some, List, [], ◌∷◌, ◌==◌, ◌||◌, if◌then◌else◌,
}
use exec_over_lark.Prelude.Bytes.{Bytes, codes, is_blank}
use exec_over_lark.Prelude.Result.{Result, ok, err, ◌>>=◌, ◌>>◌, ensure}
use exec_over_lark.Prelude.FilePath.{slash}
use exec_over_lark.Prelude.Files.{FileInfo, StatError, is_dir}
use exec_over_lark.RemoteExec.Types.{
  Request, ContextError, StartCause, shell_does_not_exist, cwd_does_not_exist, command_start_failed,
  ExecError, context_error, start_error, pipe_failed, Command, Machine,
}
use exec_over_lark.RemoteExec.Env.{merge_env}

abbrev pub exit_code_cwd_error : ℕ
exit_code_cwd_error = 1

abbrev pub exit_code_command_start_error : ℕ
exit_code_command_start_error = 127

-- `firstNonEmpty`
unfoldable pub first_set : List Bytes → Bytes
first_set [] = []
first_set ([] ∷ values) = first_set values
first_set ((c ∷ s) ∷ values) = c ∷ s

abbrev pub bin_sh : Bytes
bin_sh = codes "/bin/sh"

unfoldable pub user_default_shell : Bytes → Bytes
user_default_shell [] = bin_sh
user_default_shell (c ∷ s) = c ∷ s

-- `strings.ContainsRune(s, '/')`
unfoldable pub has_slash : Bytes → Bool
has_slash [] = false
has_slash (c ∷ s) = c == slash || has_slash s

abbrev pub not_directory : Bytes → Result StatError FileInfo → Option Bytes
not_directory path (err e) = none
not_directory path (ok info) = if is_dir info.kind then none else some path

abbrev pub only_directory : Bytes → Result StatError FileInfo → Option Bytes
only_directory path (err e) = none
only_directory path (ok info) = if is_dir info.kind then some path else none

module _ (m : Machine) where
  unfoldable pub find_shell : Bytes → Option Bytes
  unfolding has_slash
  find_shell shell =
      if has_slash shell then not_directory shell (m.os.stat shell) else m.look_path shell

  -- `resolveShell`, none for an error
  unfoldable pub resolve_shell : Bytes → Option Bytes
  unfolding find_shell
  resolve_shell shell = if is_blank shell then find_shell bin_sh else find_shell shell

  abbrev pub home_directory : Option Bytes → Option Bytes
  home_directory none = none
  home_directory (some home) = only_directory home (m.os.stat home)

  -- `resolveCwd`, none for an error
  unfoldable pub resolve_cwd : Bytes → Option Bytes
  resolve_cwd [] = home_directory m.os.home_dir
  resolve_cwd (c ∷ s) = only_directory (c ∷ s) (m.os.stat (c ∷ s))

  abbrev pub or_start_error : ℕ → StartCause → Option Bytes → Result ExecError Bytes
  or_start_error code cause none = err (start_error code cause)
  or_start_error code cause (some path) = ok path

  abbrev pub check_context : Option ContextError → Result ExecError (Unit {0})
  check_context none = ok tt
  check_context (some e) = err (context_error e)

  unfoldable pub shell_command : Request → Bytes → Bytes → Command
  unfolding merge_env
  shell_command req shell cwd = record {
    path = shell;
    args = shell ∷ codes "-lc" ∷ req.command ∷ [];
    dir = cwd;
    env = merge_env m.environ req.env;
    setpgid = true;
  }

  -- `Start`: the command that runs. `done` is the context's error when it is called.
  unfoldable pub start_command : Bytes → Option ContextError → Request → Result ExecError Command
  unfolding first_set user_default_shell resolve_shell resolve_cwd shell_command
  start_command default_shell done req = do
    check_context done
    shell ← or_start_error exit_code_command_start_error shell_does_not_exist (
        resolve_shell
          (first_set (req.shell ∷ default_shell ∷ user_default_shell m.shell_variable ∷ [])))
    cwd ← or_start_error exit_code_cwd_error cwd_does_not_exist (resolve_cwd req.cwd)
    ensure m.pipes pipe_failed
    ensure (m.start (shell_command req shell cwd))
        (start_error exit_code_command_start_error command_start_failed)
    ok (shell_command req shell cwd)
