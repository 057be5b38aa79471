-- ===== src/Pty/Start.antt =====
-- internal/pty/pty.go: commandForRequest, Executor.Start up to the start of the process, and what Run
-- returns.
use exec_over_lark.Prelude.{ℕ, Bool, true, ◌||◌, Option, none, some, List, [], ◌∷◌, if◌then◌else◌}
use exec_over_lark.Prelude.Bytes.{Bytes, codes}
use exec_over_lark.Prelude.Dict.{Dict}
use exec_over_lark.Prelude.Int.{ℤ}
use exec_over_lark.Prelude.FilePath.{base}
use exec_over_lark.Prelude.Result.{Result, ok, ◌>>=◌, ◌>>◌, ensure}
use exec_over_lark.RemoteExec.Types.{
  ContextError, ExecError, start_error, copy_failed, shell_does_not_exist, cwd_does_not_exist,
  command_start_failed, Machine,
}
use exec_over_lark.RemoteExec.Env.{merge_env}
use exec_over_lark.RemoteExec.Start.{
  first_set, user_default_shell, resolve_shell, resolve_cwd, or_start_error, check_context,
  exit_code_cwd_error, exit_code_command_start_error,
}
use exec_over_lark.RemoteExec.Wait.{WaitResult}
use exec_over_lark.Pty.Size.{Size, Winsize, normalize_size, winsize}

pub record Request : Type 0 where
  pub command : Bytes
  pub shell : Bytes
  pub cwd : Bytes
  pub env : Dict Bytes Bytes
  pub rows : ℤ
  pub cols : ℤ

pub record Command : Type 0 where
  pub path : Bytes
  pub args : List Bytes
  pub dir : Bytes
  pub env : List Bytes

-- The arguments that `commandForRequest` gives: a login shell has a dash before its name.
unfoldable pub command_args : Bytes → Bytes → List Bytes
command_args shell [] = (b'-' ∷ base shell) ∷ []
command_args shell (c ∷ s) = shell ∷ codes "-lc" ∷ (c ∷ s) ∷ []

-- `start_with_size` is the function StartWithSize of creack/pty.
module _ (m : Machine) (start_with_size : Command → Winsize → Bool) where
  unfoldable pub terminal_command : Request → Bytes → Bytes → Command
  unfolding command_args merge_env
  terminal_command req shell cwd = record {
    path = shell;
    args = command_args shell req.command;
    dir = cwd;
    env = merge_env m.environ req.env;
  }

  abbrev pub request_size : Request → Size
  request_size req = record { rows = req.rows; cols = req.cols }

  unfoldable pub start_terminal :
      Bytes → Option ContextError → Request → Result ExecError (Command × Winsize)
  unfolding first_set user_default_shell resolve_shell resolve_cwd terminal_command normalize_size
      winsize
  start_terminal default_shell ctx req = do
    check_context m ctx
    shell ← or_start_error m exit_code_command_start_error shell_does_not_exist (
        resolve_shell m
          (first_set (req.shell ∷ default_shell ∷ user_default_shell m.shell_variable ∷ [])))
    cwd ← or_start_error m exit_code_cwd_error cwd_does_not_exist (resolve_cwd m req.cwd)
    let command = terminal_command req shell cwd
    let size = winsize (normalize_size (request_size req))
    ensure (start_with_size command size)
        (start_error exit_code_command_start_error command_start_failed)
    ok (command, size)

-- An error of a read or a write, by what `errors.Is` finds in its chain.
pub record IoError : Type 0 where
  pub id : ℕ
  pub eof : Bool  -- io.EOF
  pub eio : Bool  -- syscall.EIO
  pub closed : Bool  -- os.ErrClosed
  pub closed_pipe : Bool  -- io.ErrClosedPipe
  pub epipe : Bool  -- syscall.EPIPE

unfoldable pub is_closed_pipe : IoError → Bool
is_closed_pipe e = e.closed || e.closed_pipe || e.epipe

-- `IsReadEOF` of an error that may be nil
unfoldable pub is_read_eof : Option IoError → Bool
unfolding is_closed_pipe
is_read_eof none = true
is_read_eof (some e) = e.eof || e.eio || is_closed_pipe e

-- The errors that the goroutines of `Run` report: of the output, of the input, and of its close.
pub data CopyError : Type 0 where
  output input close_input : IoError → CopyError

unfoldable pub ignored : CopyError → Bool
unfolding is_read_eof is_closed_pipe
ignored (output e) = is_read_eof (some e)
ignored (input e) = is_closed_pipe e
ignored (close_input e) = is_closed_pipe e

abbrev pub cause : CopyError → IoError
cause (output e) = e
cause (input e) = e
cause (close_input e) = e

-- The first error that is reported, in the order in which the goroutines end.
unfoldable pub first_reported : List CopyError → Option ExecError
unfolding ignored
first_reported [] = none
first_reported (e ∷ es) =
    let later = first_reported es in if ignored e then later else some (copy_failed (cause e).id)

unfoldable pub finish_terminal_run : WaitResult → List CopyError → WaitResult
unfolding first_reported
finish_terminal_run waited copies = elim waited.error [
  | some e ↦ waited
  | none ↦ record { result = waited.result; error = first_reported copies }
]
