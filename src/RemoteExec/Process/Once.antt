-- ===== src/RemoteExec/Process/Once.antt =====
-- internal/remoteexec/exec.go: every Wait of a session gives the same result, and it is killed once at most.
use exec_over_lark.Prelude.{◌⊎◌, All, Bool, true, false, Option, none, some, ℕ, ◌≡◌, List, []}
use exec_over_lark.RemoteExec.Types.{ContextError, WaitError}
use exec_over_lark.RemoteExec.Wait.{WaitResult, classify_wait}
use exec_over_lark.RemoteExec.Process.{Session, wait}

-- A result that a process with this end could have.
abbrev pub IsOutcome : Option (Option WaitError) → WaitResult → Type 0
IsOutcome ended r =
    (e : Option WaitError) × ((ctx : Option ContextError) × ((ended ≡ some e)
        × (r ≡ classify_wait ctx e)))

abbrev AllSame : WaitResult → List WaitResult → Type 0
AllSame r = All (λ a. a ≡ r)

-- How far the result has come: not sent, in the channel, or held by Wait.
data Phase (ended : Option (Option WaitError))
    : Bool → Option WaitResult → Option WaitResult → List WaitResult → Type 0 where
  unsent : Phase ended false none none []
  in_channel : (r : WaitResult) → IsOutcome ended r → Phase ended true (some r) none []
  held :
      (r : WaitResult) (ans : List WaitResult)
      → IsOutcome ended r
      → AllSame r ans
      → Phase ended true none (some r) ans

abbrev PhaseOf : Session → Type 0
PhaseOf s = Phase s.ended s.sent s.wait_ch s.wait_result s.answers

-- The process group was killed once if the session has an error of a cancellation, and else never.
abbrev pub Killed : Option ContextError → ℕ → Type 0
Killed none kills = kills ≡ 0
Killed (some e) kills = kills ≡ 1

abbrev KilledOnce : Session → Type 0
KilledOnce s = Killed s.cancel_err s.kills

-- What Wait leaves.
abbrev Kept : Session → Session → Type 0
Kept s t = PhaseOf t × ((t.cancel_err ≡ s.cancel_err) × (t.kills ≡ s.kills))

abbrev session :
    Option (Option WaitError)
    → Bool
    → Option WaitResult
    → Option WaitResult
    → List WaitResult
    → Bool
    → Option ContextError
    → ℕ
    → Session
session ended sent ch holds ans watching first kills = record {
  ended = ended;
  sent = sent;
  wait_ch = ch;
  wait_result = holds;
  watching = watching;
  cancel_err = first;
  kills = kills;
  answers = ans;
}

-- The result was not sent yet, and no call of Wait has returned; or it is the one that all calls returned, and
-- the next call returns it at once.
abbrev pub Settled : Session → Type 0
Settled s =
    ((s.sent ≡ false) × (s.answers ≡ []))
    ⊎ ((r : WaitResult) × (IsOutcome s.ended r
          × (All (λ a. a ≡ r) s.answers × ((t : Session) × (wait s ≡ some (r, t))))))
