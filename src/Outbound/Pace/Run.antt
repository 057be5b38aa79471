-- ===== src/Outbound/Pace/Run.antt =====
-- The loop `run` of a chat among the operations on its queue (internal/outbound/manager.go).
use exec_over_lark.Prelude.{
  ℕ, ◌+◌, ◌≤◌, ◌≡◌, refl, sym, ◌∙◌, true, Option, none, some, List, [], ◌∷◌, leb, leb→le,
  if◌then◌else◌, arith, Bool-cases, inl, inr,
}
use mathlib.Core.Path.{subst}
use exec_over_lark.Prelude.Bytes.{Bytes, bytes_eq}
use exec_over_lark.Prelude.Dict.{remove}
use exec_over_lark.Protocol.Frame.{Frame, FrameType}
use exec_over_lark.Outbound.Types.{ConnQueue, ChatQueue, SendBatch, Target}
use exec_over_lark.Outbound.Schedule.{replan}
use exec_over_lark.Outbound.Batch.{flush_once}
use exec_over_lark.Outbound.Commit.{Answer, send_batch}
use exec_over_lark.Outbound.Manager.{Manager, new_chat, add_conn, enqueue_in, mark_close_in}
use exec_over_lark.Outbound.RootOpen.{OpenRootRequest, add_root_job, cancel_root_in}
use exec_over_lark.Outbound.Pace.{
  Paced, Idle, Keeps, replanned, enqueue_in-Keeps, mark_close_in-Keeps, add_root_job-Keeps,
  cancel_root_in-Keeps, send_batch-Keeps,
}
use exec_over_lark.Outbound.Pace.Flush.{Outcome, flush_once-Outcome}

-- What the other goroutines do to a chat's queue, each with the time that it read.
pub data Op : Type 0 where
  register : ℕ → ConnQueue → Op
  enqueue : ℕ → Bytes → FrameType → Bytes → Op
  mark_close : ℕ → Bytes → Op
  drop : ℕ → Bytes → Op
  open_root : ℕ → OpenRootRequest → Bytes → Target → Frame → Op
  cancel_root : ℕ → Bytes → Op
  finish_send : ℕ → SendBatch → Answer → Op

unfoldable pub apply_op : Op → ChatQueue → ChatQueue
apply_op (register now conn) c = add_conn now conn c
apply_op (enqueue now id typ payload) c = (enqueue_in now id typ payload c).0
apply_op (mark_close now id) c = (mark_close_in now id c).0
apply_op (drop now id) c = replan now (record c { conns = remove id c.conns })
apply_op (open_root now req id target frame) c = (add_root_job now req id target frame c).0
apply_op (cancel_root now id) c = cancel_root_in now id c
apply_op (finish_send now batch answer) c = (send_batch now batch answer c).0

-- The queue, the time that the loop waits for (none while it waits to be rescheduled), and the times
-- of the sends so far, the last one first.
pub record Loop : Type 0 where
  pub chat : ChatQueue
  pub deadline : Option ℕ
  pub attempts : List ℕ

-- A step of another goroutine, a round of the loop up to its wait, or the wait's end at a time.
pub data Event : Type 0 where
  other : Op → Event
  plan : Event
  wake : ℕ → Event

abbrev add_attempt : ℕ → Option SendBatch → List ℕ → List ℕ
add_attempt now none l = l
add_attempt now (some batch) l = now ∷ l

-- `flushOnce` in the loop; the loop then plans anew.
unfoldable pub loop_flush : ℕ → Loop → Loop
loop_flush now l =
    let (c, sent, effects) = flush_once now l.chat in
    record { chat = c; deadline = none; attempts = add_attempt now sent l.attempts }

-- The loop's timer ends no earlier than at the time that it waits for.
unfoldable pub loop_wake : ℕ → Loop → Option ℕ → Loop
loop_wake now l none = l
loop_wake now l (some d) = if leb d now then loop_flush now l else l

unfoldable pub loop_step : Loop → Event → Loop
loop_step l (other op) = record l { chat = apply_op op l.chat }
loop_step l plan = record l {
  deadline = if l.chat.has_next_flush then some l.chat.next_flush_at else none;
}
loop_step l (wake now) = loop_wake now l l.deadline

unfoldable pub run_loop : Loop → List Event → Loop
run_loop l [] = l
run_loop l (e ∷ es) = run_loop (loop_step l e) es

-- Each time lies a cooldown behind the one before it.
abbrev pub Spaced : ℕ → List ℕ → Type 0
Spaced k [] = Unit
Spaced k (t ∷ []) = Unit
Spaced k (t ∷ s ∷ ts) = (s + k ≤ t) × Spaced k (s ∷ ts)

-- The last attempt is the first of the list.
abbrev Remembers : ChatQueue → List ℕ → Type 0
Remembers c [] = Unit
Remembers c (t ∷ ts) = (c.has_last_attempt ≡ true) × (c.last_attempt_at ≡ t)

abbrev Waits : ChatQueue → Option ℕ → Type 0
Waits c none = Unit
Waits c (some d) = c.has_last_attempt ≡ true → c.last_attempt_at + c.cooldown ≤ d

record LoopInv (k : ℕ) (l : Loop) : Type 0 where
  cooldown : l.chat.cooldown ≡ k
  paced : Paced l.chat
  waits : Waits l.chat l.deadline
  remembers : Remembers l.chat l.attempts
  spaced : Spaced k l.attempts

apply_op-Keeps : (op : Op) (c : ChatQueue) → Keeps c (apply_op op c)
unfolding apply_op
apply_op-Keeps (register now conn) c =
    unfold add_conn in
    replanned now c (record c { conns = _ })
      (record { last = refl; has_last = refl; cooldown = refl })
apply_op-Keeps (enqueue now id typ payload) c = enqueue_in-Keeps now id typ payload c
apply_op-Keeps (mark_close now id) c = mark_close_in-Keeps now id c
apply_op-Keeps (drop now id) c =
    replanned now c (record c { conns = remove id c.conns })
      (record { last = refl; has_last = refl; cooldown = refl })
apply_op-Keeps (open_root now req id target frame) c = add_root_job-Keeps now req id target frame c
apply_op-Keeps (cancel_root now id) c = cancel_root_in-Keeps now id c
apply_op-Keeps (finish_send now batch answer) c = send_batch-Keeps now batch answer c

Remembers-Idle : (c c' : ChatQueue) (ts : List ℕ) → Idle c c' → Remembers c ts → Remembers c' ts
Remembers-Idle c c' [] i r = tt
Remembers-Idle c c' (t ∷ ts) i r = (i.has_last ∙ r.0, i.last ∙ r.1)

Waits-Idle : (c c' : ChatQueue) (d : Option ℕ) → Idle c c' → Waits c d → Waits c' d
Waits-Idle c c' none i w = tt
Waits-Idle c c' (some d) i w = λ h. omega (arith, w (sym i.has_last ∙ h), i.last, i.cooldown)

Spaced-next :
    (k now d : ℕ) (c : ChatQueue) (ts : List ℕ)
    → c.cooldown ≡ k
    → d ≤ now
    → Waits c (some d)
    → Remembers c ts
    → Spaced k ts
    → Spaced k (now ∷ ts)
Spaced-next k now d c [] e le w r s = tt
Spaced-next k now d c (t ∷ ts) e le w r s = (omega (arith, w r.0, r.1), s)

after_flush :
    (k now d : ℕ) (l : Loop) (c : ChatQueue) (o : Option SendBatch)
    → Outcome now l.chat c o
    → d ≤ now
    → Waits l.chat (some d)
    → LoopInv k l
    → LoopInv k (record { chat = c; deadline = none; attempts = add_attempt now o l.attempts })
after_flush k now d l c none q le w h = record {
  cooldown = q.idle.cooldown ∙ h.cooldown;
  paced = q.paced h.paced;
  waits = tt;
  remembers = Remembers-Idle l.chat c l.attempts q.idle h.remembers;
  spaced = h.spaced;
}
after_flush k now d l c (some batch) s le w h = record {
  cooldown = s.cooldown ∙ h.cooldown;
  paced = s.paced;
  waits = tt;
  remembers = (s.has_last, s.last);
  spaced = Spaced-next k now d l.chat l.attempts h.cooldown le w h.remembers h.spaced;
}

loop_flush-LoopInv :
    (k now d : ℕ) (l : Loop)
    → d ≤ now
    → Waits l.chat (some d)
    → LoopInv k l
    → LoopInv k (loop_flush now l)
unfolding loop_flush
loop_flush-LoopInv k now d l le w h =
    let f = flush_once now l.chat in
    after_flush k now d l f.0 f.1 (flush_once-Outcome now l.chat) le w h

loop_wake-LoopInv :
    (k now : ℕ) (l : Loop) (d : Option ℕ)
    → Waits l.chat d
    → LoopInv k l
    → LoopInv k (loop_wake now l d)
unfolding loop_wake
loop_wake-LoopInv k now l none w h = h
loop_wake-LoopInv k now l (some d) w h = elim (Bool-cases (leb d now)) [
  | inl t ↦ rw (t, loop_wake) (loop_flush-LoopInv k now d l (leb→le d now t) w h)
  | inr f ↦ rw (f, loop_wake) h
]

plan-Waits :
    (c : ChatQueue) → Paced c → Waits c (if c.has_next_flush then some c.next_flush_at else none)
plan-Waits c p = elim (Bool-cases c.has_next_flush) [
  | inl t ↦ subst (λ b. Waits c (if b then some c.next_flush_at else none)) (sym t) (λ a. p a t)
  | inr f ↦ subst (λ b. Waits c (if b then some c.next_flush_at else none)) (sym f) tt
]

loop_step-LoopInv : (k : ℕ) (l : Loop) (e : Event) → LoopInv k l → LoopInv k (loop_step l e)
unfolding loop_step
loop_step-LoopInv k l (other op) h =
    let q = apply_op-Keeps op l.chat in
    record {
      cooldown = q.idle.cooldown ∙ h.cooldown;
      paced = q.paced h.paced;
      waits = Waits-Idle l.chat (apply_op op l.chat) l.deadline q.idle h.waits;
      remembers = Remembers-Idle l.chat (apply_op op l.chat) l.attempts q.idle h.remembers;
      spaced = h.spaced;
    }
loop_step-LoopInv k l plan h = record {
  cooldown = h.cooldown;
  paced = h.paced;
  waits = plan-Waits l.chat h.paced;
  remembers = h.remembers;
  spaced = h.spaced;
}
loop_step-LoopInv k l (wake now) h = loop_wake-LoopInv k now l l.deadline h.waits h

run_loop-LoopInv : (k : ℕ) (l : Loop) (es : List Event) → LoopInv k l → LoopInv k (run_loop l es)
unfolding run_loop
run_loop-LoopInv k l [] h = h
run_loop-LoopInv k l (e ∷ es) h = run_loop-LoopInv k (loop_step l e) es (loop_step-LoopInv k l e h)

-- The loop of a new chat, before its first round.
unfoldable pub new_loop : Manager → Bytes → Loop
new_loop m key = record { chat = new_chat m key; deadline = none; attempts = [] }

new_loop-LoopInv : (m : Manager) (key : Bytes) → LoopInv m.cooldown (new_loop m key)
unfolding new_loop new_chat
new_loop-LoopInv m key = record {
  cooldown = refl;
  paced = λ h. ground arith;
  waits = tt;
  remembers = tt;
  spaced = tt;
}

-- For every manager, every chat key and every sequence of steps from the chat's creation, in which the
-- loop's rounds and the ends of its waits interleave freely with registrations, enqueues, closings,
-- drops, root openings, cancellations and committed answers at any times: each send of the chat comes
-- at least the manager's cooldown behind the send before it.
pub run_loop-Spaced :
    (m : Manager) (key : Bytes) (es : List Event)
    → Spaced m.cooldown (run_loop (new_loop m key) es).attempts
run_loop-Spaced m key es =
    (run_loop-LoopInv m.cooldown (new_loop m key) es (new_loop-LoopInv m key)).spaced
