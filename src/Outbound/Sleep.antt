-- ===== src/Outbound/Sleep.antt =====
-- internal/outbound/manager.go: the sleep of the loop `run` and the channel that ends it, rescheduleCh.
pub mod Rests
use exec_over_lark.Prelude.{
  ℕ, zero, suc, Bool, true, false, ◌||◌, Option, none, some, List, [], ◌∷◌, leb, if◌then◌else◌,
}
use exec_over_lark.Prelude.Bytes.{Bytes}
use exec_over_lark.Outbound.Types.{ChatQueue}
use exec_over_lark.Outbound.Batch.{prepare_batch, flush_once}
use exec_over_lark.Outbound.Manager.{Manager, new_chat, enqueue_in}
use exec_over_lark.Outbound.Pace.Run.{
  Op, register, enqueue, mark_close, drop, open_root, cancel_root, finish_send, apply_op,
}

-- `sleeping` is none while the loop is awake, and else the time at which its timer ends, if it has set
-- one. `signal` is the one place of rescheduleCh, and `owed` counts the goroutines that have changed the chat and will
-- call notifyReschedule.
pub record Sleeper : Type 0 where
  pub chat : ChatQueue
  pub sleeping : Option (Option ℕ)
  pub signal : Bool
  pub owed : ℕ

-- What the loop waits for: the planned flush, if there is one.
abbrev pub plan_of : ChatQueue → Option ℕ
plan_of c = if c.has_next_flush then some c.next_flush_at else none

abbrev pub is_none : {A : Type 0} → Option A → Bool
is_none none = true
is_none (some a) = false

-- Whether an operation calls notifyReschedule behind its change: Enqueue returns its errors before the call.
unfoldable pub notifies : Op → ChatQueue → Bool
notifies (register now conn) c = true
notifies (enqueue now id typ payload) c = is_none (enqueue_in now id typ payload c).1
notifies (mark_close now id) c = true
notifies (drop now id) c = true
notifies (open_root now req id target frame) c = true
notifies (cancel_root now id) c = true
notifies (finish_send now batch answer) c = true

abbrev pub add_owed : Bool → ℕ → ℕ
add_owed true owed = suc owed
add_owed false owed = owed

-- `notifyReschedule`: the place is filled, or is full already.
abbrev pub notify_reschedule : ℕ → Sleeper → Sleeper
notify_reschedule zero s = s
notify_reschedule (suc owed) s = record s { signal = true; owed = owed }

-- The loop reads the plan and goes to sleep; a wait that is over is a timer that ends at once.
abbrev pub go_to_sleep : Option (Option ℕ) → Sleeper → Sleeper
go_to_sleep none s = record s { sleeping = some (plan_of s.chat) }
go_to_sleep (some deadline) s = s

abbrev pub take_signal : Option (Option ℕ) → Bool → Sleeper → Sleeper
take_signal (some deadline) true s = record s { sleeping = none; signal = false }
take_signal (some deadline) false s = s
take_signal none signal s = s

-- The timer ends, and the loop flushes; flushOnce calls notifyReschedule unless it drops.
unfoldable pub expire : ℕ → Option (Option ℕ) → Sleeper → Sleeper
expire now (some (some deadline)) s =
    let flushed = record s {
      chat = (flush_once now s.chat).0;
      sleeping = none;
      signal = s.signal || is_none (prepare_batch now s.chat).1.1;
    } in
    if leb deadline now then flushed else s
expire now (some none) s = s
expire now none s = s

-- A change by another goroutine, the call of notifyReschedule that it owes, and the steps of the loop.
pub data Turn : Type 0 where
  change : Op → Turn
  notify look rescheduled : Turn
  timer : ℕ → Turn

unfoldable pub take_turn : Sleeper → Turn → Sleeper
unfolding notifies expire
take_turn s (change op) = record s {
  chat = apply_op op s.chat;
  owed = add_owed (notifies op s.chat) s.owed;
}
take_turn s notify = notify_reschedule s.owed s
take_turn s look = go_to_sleep s.sleeping s
take_turn s rescheduled = take_signal s.sleeping s.signal s
take_turn s (timer now) = expire now s.sleeping s

unfoldable pub take_turns : Sleeper → List Turn → Sleeper
unfolding take_turn
take_turns s [] = s
take_turns s (t ∷ ts) = take_turns (take_turn s t) ts

abbrev pub new_sleeper : Manager → Bytes → Sleeper
new_sleeper m key = record { chat = new_chat m key; sleeping = none; signal = false; owed = 0 }
