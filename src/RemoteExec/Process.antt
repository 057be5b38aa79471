-- ===== src/RemoteExec/Process.antt =====
-- internal/remoteexec/exec.go: a running Session, its two goroutines, Wait and cancel, as steps.
pub mod Once
use exec_over_lark.Prelude.{
  ◌+◌, ◌≤◌, ◌⊎◌, inl, inr, All, Option-cases, arith, Bool, true, false, Option, none, some, ℕ, ◌≡◌,
  refl, sym, ◌∙◌, List, [], ◌∷◌, ◌++◌,
}
use exec_over_lark.RemoteExec.Types.{ContextError, WaitError}
use exec_over_lark.RemoteExec.Wait.{WaitResult, classify_wait}

-- `ended` is the answer of Cmd.Wait once `done` is closed, before `classifyWait` is sent.
pub record Session : Type 0 where
  pub ended : Option (Option WaitError)
  pub sent : Bool  -- the goroutine that calls Cmd.Wait has sent its result
  pub wait_ch : Option WaitResult
  pub wait_result : Option WaitResult
  pub watching : Bool  -- the goroutine that waits for the context
  pub cancel_err : Option ContextError
  pub kills : ℕ
  pub answers : List WaitResult  -- what the calls of Wait returned

abbrev pub new_session : Session
new_session = record {
  ended = none;
  sent = false;
  wait_ch = none;
  wait_result = none;
  watching = true;
  cancel_err = none;
  kills = 0;
  answers = [];
}

abbrev pub cancel_once : ContextError → Option ContextError → Session → Session
cancel_once e none s = record s { cancel_err = some e; kills = s.kills + 1 }
cancel_once e (some first) s = s

-- `cancel`, once: the error is kept and the process group is killed.
unfoldable pub cancel : ContextError → Session → Session
cancel e s = cancel_once e s.cancel_err s

abbrev pub take_result :
    Option WaitResult → Option WaitResult → Session → Option (WaitResult × Session)
take_result (some r) ch s = some (r, record s { answers = s.answers ++ r ∷ [] })
take_result none none s = none
take_result none (some r) s =
    some (r, record s { wait_ch = none; wait_result = some r; answers = s.answers ++ r ∷ [] })

-- `Wait` returns what it holds, or else what it takes from the channel; without either it blocks.
unfoldable pub wait : Session → Option (WaitResult × Session)
wait s = take_result s.wait_result s.wait_ch s

-- The steps of the two goroutines and of the callers of Wait and cancel, in any order and as often as they like.
pub data Step : Session → Session → Type 0 where
  context_done :
      (s : Session) (e : ContextError)
      → s.watching ≡ true
      → Step s (cancel e (record s { watching = false }))
  cancel_called : (s : Session) (e : ContextError) → Step s (cancel e s)
  process_done :
      (s : Session) (r : Option WaitError)
      → s.watching ≡ true
      → s.ended ≡ some r
      → Step s (record s { watching = false })
  command_ended :
      (s : Session) (r : Option WaitError) → s.ended ≡ none → Step s (record s { ended = some r })
  result_sent :
      (s : Session) (r : Option WaitError) (ctx : Option ContextError)
      → s.ended ≡ some r
      → s.sent ≡ false
      → Step s (record s { sent = true; wait_ch = some (classify_wait ctx r) })
  waited : (s t : Session) (r : WaitResult) → wait s ≡ some (r, t) → Step s t

pub data Reachable : Session → Type 0 where
  started : Reachable new_session
  stepped : (s t : Session) → Reachable s → Step s t → Reachable t
