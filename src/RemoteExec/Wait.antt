-- ===== src/RemoteExec/Wait.antt =====
-- internal/remoteexec/exec.go: exitCode, classifyWait, and the answer of Run.
use exec_over_lark.Prelude.{
  ℕ, ◌+◌, Bool, true, false, Option, none, some, List, [], ◌∷◌, if◌then◌else◌,
}
use exec_over_lark.Prelude.Int.{ℤ, pos, negsuc}
use exec_over_lark.RemoteExec.Types.{
  ExitResult, ContextError, ExecError, context_error, start_error, pipe_failed, wait_failed,
  copy_failed, WaitStatus, exited, signaled, neither, ExitError, WaitError, exit_error, other_error,
}

abbrev pub status_code : ℤ → WaitStatus → ℤ
status_code fallback (exited n) = pos n
status_code fallback (signaled n) = pos (128 + n)
status_code fallback neither = fallback

unfoldable pub exit_code : ExitError → ℤ
exit_code e = elim e.sys [ none ↦ e.code | some status ↦ status_code e.code status ]

pub record WaitResult : Type 0 where
  pub result : ExitResult
  pub error : Option ExecError

abbrev pub is_negative : ℤ → Bool
is_negative (pos n) = false
is_negative (negsuc n) = true

-- What is reported of a code, by the error of the context.
unfoldable pub classify_code : ℤ → Option ContextError → WaitResult
classify_code code (some e) = record {
  result = record { exit_code = code; canceled = true };
  error = some (context_error e);
}
classify_code code none = record {
  result = record { exit_code = code; canceled = false };
  error = if is_negative code then some wait_failed else none;
}

-- `classifyWait` of the context's error and the error of Cmd.Wait.
unfoldable pub classify_wait : Option ContextError → Option WaitError → WaitResult
unfolding exit_code classify_code
classify_wait ctx none = record {
  result = record { exit_code = pos 0; canceled = false };
  error = none;
}
classify_wait ctx (some (exit_error e)) = classify_code (exit_code e) ctx
classify_wait (some e) (some other_error) = record {
  result = record { exit_code = pos 1; canceled = true };
  error = some (context_error e);
}
classify_wait none (some other_error) = record {
  result = record { exit_code = pos 1; canceled = false };
  error = some wait_failed;
}

abbrev pub no_result : ExitResult
no_result = record { exit_code = pos 0; canceled = false }

-- `Run` where the start failed
unfoldable pub failed_start : ExecError → WaitResult
failed_start (context_error e) = record { result = no_result; error = some (context_error e) }
failed_start (start_error code cause) = record {
  result = record { exit_code = pos code; canceled = false };
  error = some (start_error code cause);
}
failed_start pipe_failed = record { result = no_result; error = some pipe_failed }
failed_start wait_failed = record { result = no_result; error = some wait_failed }
failed_start (copy_failed n) = record { result = no_result; error = some (copy_failed n) }

-- The first error of the copies, in the order in which they end.
abbrev pub first_copy_error : List ℕ → Option ExecError
first_copy_error [] = none
first_copy_error (n ∷ ns) = some (copy_failed n)

-- `Run` where the process has ended and the pipes are copied
unfoldable pub finish_run : WaitResult → List ℕ → WaitResult
finish_run waited copies = elim waited.error [
  | some e ↦ waited
  | none ↦ record { result = waited.result; error = first_copy_error copies }
]
