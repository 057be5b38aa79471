-- ===== src/RemoteExec/Outcome.antt =====
-- internal/remoteexec/exec.go: what the errors of a start and the results of a wait tell.
use exec_over_lark.Prelude.{
  ◌≤◌, ◌≡◌, ◌≢◌, ◌↔◌, inl, inr, refl, Bool, true, false, Option, none, some, [], ◌∷◌, Option-cases,
  arith,
}
use exec_over_lark.Prelude.Bytes.{Bytes, codes}
use exec_over_lark.Prelude.Int.{ℤ, pos, negsuc}
use exec_over_lark.Prelude.Result.{Result, ok, err, ensure, ◌>>◌}
use exec_over_lark.RemoteExec.Types.{
  Request, ContextError, shell_does_not_exist, cwd_does_not_exist, command_start_failed, ExecError,
  context_error, start_error, pipe_failed, wait_failed, copy_failed, Command, Machine, WaitStatus,
  exited, signaled, neither, ExitError, WaitError, exit_error, other_error,
}
use exec_over_lark.RemoteExec.Start.{
  first_set, user_default_shell, resolve_shell, find_shell, resolve_cwd, shell_command,
  start_command,
}
use exec_over_lark.RemoteExec.Env.{merge_env}
use exec_over_lark.RemoteExec.Wait.{
  WaitResult, exit_code, is_negative, classify_code, classify_wait,
}

-- The shell that is looked for: the first that is set, of the request's, the executor's and the user's.
abbrev pub shell_found : Machine → Bytes → Request → Option Bytes
shell_found m shell req =
    resolve_shell m (first_set (req.shell ∷ shell ∷ user_default_shell m.shell_variable ∷ []))

-- The login shell that runs the command of a request.
abbrev pub RunsLogin : Machine → Request → Command → Type 0
RunsLogin m req c =
    (c.args ≡ c.path ∷ codes "-lc" ∷ req.command ∷ [])
    × ((c.env ≡ merge_env m.environ req.env) × (c.setpgid ≡ true))

-- What went wrong in a start that failed, and what was found before it.
abbrev pub IsStartError : Machine → Bytes → Option ContextError → Request → ExecError → Type 0
IsStartError m shell ctx req (context_error e) = ctx ≡ some e
IsStartError m shell ctx req (start_error code shell_does_not_exist) =
    (code ≡ 127) × ((ctx ≡ none) × (shell_found m shell req ≡ none))
IsStartError m shell ctx req (start_error code cwd_does_not_exist) =
    (code ≡ 1)
    × ((ctx ≡ none) × ((shell_found m shell req ≢ none) × (resolve_cwd m req.cwd ≡ none)))
IsStartError m shell ctx req (start_error code command_start_failed) =
    (code ≡ 127)
    × ((ctx ≡ none)
        × ((m.pipes ≡ true)
            × ((c : Command) × ((shell_found m shell req ≡ some c.path)
                  × ((resolve_cwd m req.cwd ≡ some c.dir)
                      × (RunsLogin m req c × (m.start c ≡ false)))))))
IsStartError m shell ctx req pipe_failed =
    (ctx ≡ none)
    × ((m.pipes ≡ false) × ((shell_found m shell req ≢ none) × (resolve_cwd m req.cwd ≢ none)))
IsStartError m shell ctx req wait_failed = ⊥
IsStartError m shell ctx req (copy_failed n) = ⊥

-- What a start comes to: an error as above, or the login shell that runs the command.
abbrev pub StartsAs :
    Machine → Bytes → Option ContextError → Request → Result ExecError Command → Type 0
StartsAs m shell ctx req (err e) = IsStartError m shell ctx req e
StartsAs m shell ctx req (ok c) =
    (ctx ≡ none)
    × ((m.pipes ≡ true)
        × ((shell_found m shell req ≡ some c.path)
            × ((resolve_cwd m req.cwd ≡ some c.dir) × (RunsLogin m req c × (m.start c ≡ true)))))

-- What Start does with a shell and a directory that are found.
abbrev launch : Machine → Request → Bytes → Bytes → Bool → Bool → Result ExecError Command
launch m req path cwd pipes starts =
    ensure pipes pipe_failed
    >> (ensure starts (start_error 127 command_start_failed) >> ok (shell_command m req path cwd))

launch_as :
    (m : Machine) (shell : Bytes) (req : Request) (path cwd : Bytes) (pipes starts : Bool)
    → shell_found m shell req ≡ some path
    → resolve_cwd m req.cwd ≡ some cwd
    → m.pipes ≡ pipes
    → m.start (shell_command m req path cwd) ≡ starts
    → StartsAs m shell none req (launch m req path cwd pipes starts)
unfolding shell_command
launch_as m shell req path cwd false starts q r p t = (refl, (p, (λ e. cc (e, q), λ e. cc (e, r))))
launch_as m shell req path cwd true false q r p t =
    (refl, (refl, (p, (shell_command m req path cwd, (q, (r, ((refl, (refl, refl)), t)))))))
launch_as m shell req path cwd true true q r p t = (refl, (p, (q, (r, ((refl, (refl, refl)), t)))))

-- Start fails with the error of a context only if the context is done, with the exit code 127 only if no shell
-- is found or the system does not start the command, with 1 only if the shell is found and the directory is not, and
-- without a code only if a pipe cannot be made. If it does not fail, the system started the command: the
-- shell and the directory that the request resolves to, with the arguments -lc and the command, the
-- merged environment, in a process group of its own.
pub start_command_lem :
    (m : Machine) (shell : Bytes) (ctx : Option ContextError) (req : Request)
    → StartsAs m shell ctx req (start_command m shell ctx req)
unfolding start_command resolve_shell find_shell resolve_cwd shell_command
start_command_lem m shell (some e) req = refl
start_command_lem m shell none req = elim (Option-cases (shell_found m shell req)) [
  | inl q ↦ rw q (refl, (refl, q))
  | inr (path, q) ↦ rw q (elim (Option-cases (resolve_cwd m req.cwd)) [
    | inl r ↦ rw r (refl, (refl, (λ e. cc (e, q), r)))
    | inr (cwd, r) ↦ rw r (
        launch_as m shell req path cwd m.pipes (m.start (shell_command m req path cwd)) q r refl
          refl)
  ])
]

-- A status of Unix: an exit status is a byte, and a signal has seven bits.
abbrev pub IsStatus : WaitStatus → Type 0
IsStatus (exited n) = n ≤ 255
IsStatus (signaled n) = n ≤ 127
IsStatus neither = ⊥

abbrev pub IsByte : ℤ → Type 0
IsByte (pos n) = n ≤ 255
IsByte (negsuc n) = ⊥

abbrev pub HasStatus : Option WaitError → Type 0
HasStatus none = Unit
HasStatus (some other_error) = Unit
HasStatus (some (exit_error e)) = (s : WaitStatus) × ((e.sys ≡ some s) × IsStatus s)

status-IsByte :
    (e : ExitError) (s : WaitStatus) → e.sys ≡ some s → IsStatus s → IsByte (exit_code e)
unfolding exit_code
status-IsByte e (exited n) q h = rw q h
status-IsByte e (signaled n) q h = rw q (omega (arith, h))
status-IsByte e neither q h = absurd h

byte_not_negative : (z : ℤ) → IsByte z → is_negative z ≡ false
byte_not_negative (pos n) h = refl
byte_not_negative (negsuc n) h = absurd h

-- What a result says: the exit code is a byte; it is canceled exactly if the context is done and the
-- command failed, and then the error is the context's; no error means that it is not canceled.
pub record IsReport (ctx : Option ContextError) (e : Option WaitError) (w : WaitResult)
    : Type 0 where
  pub code : IsByte w.result.exit_code
  pub canceled_iff : (w.result.canceled ≡ true) ↔ ((ctx ≢ none) × (e ≢ none))
  pub canceled_error :
      w.result.canceled ≡ true
      → (c : ContextError) × ((ctx ≡ some c) × (w.error ≡ some (context_error c)))
  pub exited_normally : e ≡ none → (w.error ≡ none) × (w.result.exit_code ≡ pos 0)
  pub no_context :
      (x : ExitError)
      → ctx ≡ none
      → e ≡ some (exit_error x)
      → (w.error ≡ none) × (w.result.exit_code ≡ exit_code x)

-- The result of a command whose end has a status of Unix: the exit code is a byte; it is canceled
-- exactly if the context is done and the command did not succeed, and then the error is the
-- context's; a success is code 0 without an error; and without a context that is done, a status of the command
-- is no error and its code is returned.
pub classify_wait-IsReport :
    (ctx : Option ContextError) (e : Option WaitError)
    → HasStatus e
    → IsReport ctx e (classify_wait ctx e)
unfolding classify_wait classify_code
classify_wait-IsReport ctx none h = record {
  code = omega arith;
  canceled_iff = (λ q. cc q, λ p. absurd (p.1 refl));
  canceled_error = λ q. cc q;
  exited_normally = λ q. (refl, refl);
  no_context = λ x q r. cc r;
}
classify_wait-IsReport (some c) (some other_error) h = record {
  code = omega arith;
  canceled_iff = (λ q. (λ r. cc r, λ r. cc r), λ p. refl);
  canceled_error = λ q. (c, (refl, refl));
  exited_normally = λ q. cc q;
  no_context = λ x q r. cc q;
}
classify_wait-IsReport none (some other_error) h = record {
  code = omega arith;
  canceled_iff = (λ q. cc q, λ p. absurd (p.0 refl));
  canceled_error = λ q. cc q;
  exited_normally = λ q. cc q;
  no_context = λ x q r. cc r;
}
classify_wait-IsReport (some c) (some (exit_error e)) (s, (q, r)) = record {
  code = status-IsByte e s q r;
  canceled_iff = (λ q. (λ r. cc r, λ r. cc r), λ p. refl);
  canceled_error = λ q. (c, (refl, refl));
  exited_normally = λ q. cc q;
  no_context = λ x q r. cc q;
}
classify_wait-IsReport none (some (exit_error e)) (s, (q, r)) =
    let byte = status-IsByte e s q r in
    record {
      code = byte;
      canceled_iff = (λ q. cc q, λ p. absurd (p.0 refl));
      canceled_error = λ q. cc q;
      exited_normally = λ q. cc q;
      no_context = λ x _ t. (rw (byte_not_negative (exit_code e) byte) refl, cc t);
    }
