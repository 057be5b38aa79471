-- ===== src/Outbound/Sleep/Rests.antt =====
-- internal/outbound/manager.go: no change of a plan escapes the loop of a chat.
use exec_over_lark.Prelude.{ℕ, zero, suc, ◌≡◌, Bool, true, false, Option, none, some}
use exec_over_lark.Prelude.Bytes.{Bytes, bytes_eq}
use exec_over_lark.Outbound.Types.{ChatQueue}
use exec_over_lark.Outbound.Manager.{Manager}
use exec_over_lark.Outbound.Sleep.{Sleeper, plan_of}

-- A loop that sleeps, without a signal in the channel or a call that is owed, waits for what the chat plans now.
abbrev pub Rests : Option (Option ℕ) → Bool → ℕ → ChatQueue → Type 0
Rests none signal owed c = Unit
Rests (some deadline) true owed c = Unit
Rests (some deadline) false (suc n) c = Unit
Rests (some deadline) false zero c = deadline ≡ plan_of c

abbrev RestsNow : Sleeper → Type 0
RestsNow s = Rests s.sleeping s.signal s.owed s.chat
