-- ===== src/Pty/Terminal.antt =====
-- internal/pty/pty.go: TerminalState.Restore, and the methods of Session on its terminal.
use exec_over_lark.Prelude.{
  ℕ, ◌+◌, ◌≡◌, refl, ap, ◌∙◌, Bool, true, false, Option, none, some, List, [], ◌∷◌, if◌then◌else◌,
}
use exec_over_lark.Prelude.Bytes.{Bytes}
use exec_over_lark.RemoteExec.Kill.{SignalError, kill_failed, no_such_process}
use exec_over_lark.Pty.Signals.{Signal, signal_by_name}

-- `calls` counts the calls of term.Restore; `has_state` is false for a nil pointer or state.
pub record TerminalState : Type 0 where
  pub has_state : Bool
  pub restored : Bool
  pub calls : ℕ

abbrev pub restore_when : Bool → Bool → Bool → TerminalState → Bool × TerminalState
restore_when false restored answer s = (true, s)
restore_when true true answer s = (true, s)
restore_when true false answer s = (answer, record s { restored = true; calls = s.calls + 1 })

-- The result of term.Restore is the caller's; true is no error.
unfoldable pub restore : Bool → TerminalState → Bool × TerminalState
restore answer s = restore_when s.has_state s.restored answer s

-- Restores one after the other, with what term.Restore would answer to each.
unfoldable pub restores : List Bool → TerminalState → TerminalState
unfolding restore
restores [] s = s
restores (a ∷ answers) s = restores answers (restore a s).1

restore_when_again :
    (has_state restored a : Bool) (s : TerminalState)
    → restored ≡ true
    → (restore_when has_state restored a s).1 ≡ s
restore_when_again false restored a s h = refl
restore_when_again true true a s h = refl
restore_when_again true false a s h = cc h

restores_done :
    (answers : List Bool) (s : TerminalState) → s.restored ≡ true → restores answers s ≡ s
unfolding restores restore
restores_done [] s h = refl
restores_done (a ∷ answers) s h =
    rw (restore_when_again s.has_state s.restored a s h) (restores_done answers s h)

restore_when_first :
    (has_state restored a : Bool) (s : TerminalState)
    → has_state ≡ true
    → restored ≡ false
    → (restore_when has_state restored a s).1 ≡ record s { restored = true; calls = s.calls + 1 }
restore_when_first true false a s h r = refl
restore_when_first true true a s h r = cc r
restore_when_first false restored a s h r = cc h

-- However often a terminal in raw mode is restored, and whatever term.Restore answers: term.Restore is
-- called once.
pub restores_once :
    (answer : Bool) (answers : List Bool) (s : TerminalState)
    → s.has_state ≡ true
    → s.restored ≡ false
    → (restores (answer ∷ answers) s).calls ≡ s.calls + 1
unfolding restores restore
restores_once answer answers s h r =
    let first : TerminalState = record s { restored = true; calls = s.calls + 1 } in
    ap (λ t. (restores answers t).calls) (restore_when_first s.has_state s.restored answer s h r)
    ∙ ap (λ t. t.calls) (restores_done answers first refl)

-- `Signal` and `SignalName` of a session: the process group is signaled.
pub data NameError : Type 0 where
  unknown_signal : Bytes → NameError
  signal_error : SignalError → NameError

abbrev pub of_signal : Option SignalError → Option NameError
of_signal none = none
of_signal (some e) = some (signal_error e)

unfoldable pub signal_name_session : (Signal → Option SignalError) → Bytes → Option NameError
unfolding signal_by_name
signal_name_session send name = elim (signal_by_name name) [
  | none ↦ some (unknown_signal name)
  | some s ↦ of_signal (send s)
]

-- `CloseInput` writes an end of transmission: the byte 4.
unfoldable pub close_input : Option (Bytes → Bool) → Bool
close_input none = false
close_input (some write) = write (4 ∷ [])

-- What `Close` answers: nothing, the error of the kill, or that of the close.
pub data CloseError : Type 0 where
  kill_error : SignalError → CloseError
  close_error : CloseError

abbrev of_close : Bool → Option CloseError
of_close true = none
of_close false = some close_error

abbrev with_kill : Option SignalError → Bool → Option CloseError
with_kill none closed = of_close closed
with_kill (some (kill_failed no_such_process)) closed = of_close closed
with_kill (some e) closed = some (kill_error e)

-- `Close`: the process group is killed unless the process has ended, and the terminal is closed.
unfoldable pub close : Bool → Option SignalError → Option Bool → Option CloseError
close ended kill none =
    if ended then none else elim kill [ none ↦ none | some e ↦ some (kill_error e) ]
close ended kill (some closed) = if ended then of_close closed else with_kill kill closed
