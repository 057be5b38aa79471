-- ===== src/RemoteExec/Kill.antt =====
-- internal/remoteexec/exec.go: Session.Signal, Session.Kill and killProcessGroup.
use exec_over_lark.Prelude.{ℕ, zero, suc, Option, none, some}
use exec_over_lark.Prelude.Int.{ℤ, pos, negsuc}

-- What syscall.Kill answers: nil, ESRCH, or another error.
pub data KillAnswer : Type 0 where
  delivered no_such_process refused : KillAnswer

-- The errors: os.ErrInvalid, and those of the system call.
pub data SignalError : Type 0 where
  invalid : SignalError
  kill_failed : KillAnswer → SignalError

abbrev pub sigkill : ℕ
sigkill = 9

abbrev pub every_error : KillAnswer → Option SignalError
every_error delivered = none
every_error no_such_process = some (kill_failed no_such_process)
every_error refused = some (kill_failed refused)

abbrev pub but_no_such_process : KillAnswer → Option SignalError
but_no_such_process delivered = none
but_no_such_process no_such_process = none
but_no_such_process refused = some (kill_failed refused)

-- syscall.Kill of a process id, which is negative for a group.
module _ (kill : ℤ → ℕ → KillAnswer) where
  -- `killProcessGroup`, and signalProcessGroup of internal/pty/pty.go for any signal.
  unfoldable pub signal_process_group : ℤ → ℕ → Option SignalError
  signal_process_group (pos zero) sig = some invalid
  signal_process_group (pos (suc n)) sig = but_no_such_process (kill (negsuc n) sig)
  signal_process_group (negsuc n) sig = some invalid

  -- `Signal` of a syscall.Signal; none for a session without a process.
  unfoldable pub signal_session : Option ℕ → ℕ → Option SignalError
  signal_session none sig = some invalid
  signal_session (some zero) sig = every_error (kill (pos zero) sig)
  signal_session (some (suc n)) sig = every_error (kill (negsuc n) sig)

  -- `Kill`
  unfoldable pub kill_session : Option ℕ → Option SignalError
  unfolding signal_process_group
  kill_session none = some invalid
  kill_session (some pid) = signal_process_group (pos pid) sigkill
