-- ===== src/RemoteExec/Types.antt =====
-- internal/remoteexec/exec.go: requests, results and errors, and what the system answers.
use exec_over_lark.Prelude.{ℕ, Bool, Option, List}
use exec_over_lark.Prelude.Bytes.{Bytes}
use exec_over_lark.Prelude.Dict.{Dict}
use exec_over_lark.Prelude.Int.{ℤ}
use exec_over_lark.Prelude.Files.{Os}

pub record Request : Type 0 where
  pub command : Bytes
  pub shell : Bytes
  pub cwd : Bytes
  pub env : Dict Bytes Bytes

pub record ExitResult : Type 0 where
  pub exit_code : ℤ
  pub canceled : Bool

-- The error of a context that is done.
pub data ContextError : Type 0 where
  canceled deadline_exceeded : ContextError

-- What `StartError` wraps: the cause is not looked at.
pub data StartCause : Type 0 where
  shell_does_not_exist cwd_does_not_exist command_start_failed : StartCause

-- `wait_failed` is an error of Cmd.Wait, `copy_failed` one of io.Copy.
pub data ExecError : Type 0 where
  context_error : ContextError → ExecError
  start_error : ℕ → StartCause → ExecError
  pipe_failed : ExecError
  wait_failed : ExecError
  copy_failed : ℕ → ExecError

-- `exec.Cmd` as it is started.
pub record Command : Type 0 where
  pub path : Bytes
  pub args : List Bytes
  pub dir : Bytes
  pub env : List Bytes
  pub setpgid : Bool

-- What the system and os/exec answer to a start.
pub record Machine : Type 0 where
  pub os : Os
  pub environ : List Bytes
  pub shell_variable : Bytes  -- os.Getenv("SHELL")
  pub look_path : Bytes → Option Bytes
  pub pipes : Bool  -- whether the three pipes can be made
  pub start : Command → Bool

-- `syscall.WaitStatus`
pub data WaitStatus : Type 0 where
  exited signaled : ℕ → WaitStatus
  neither : WaitStatus

-- The error of Cmd.Wait that is an `exec.ExitError`: its status, if `Sys()` has one, and `ExitCode()`.
pub record ExitError : Type 0 where
  pub sys : Option WaitStatus
  pub code : ℤ

pub data WaitError : Type 0 where
  exit_error : ExitError → WaitError
  other_error : WaitError
