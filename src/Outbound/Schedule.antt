-- ===== src/Outbound/Schedule.antt =====
-- internal/outbound/manager.go: when a chat's queue is flushed next.
use exec_over_lark.Prelude.{
  ℕ, ◌+◌, ◌-◌, Bool, true, false, not, ◌||◌, Option, none, some, [], ◌∷◌, ltb, ◌==◌, if◌then◌else◌,
  is_empty,
}
use exec_over_lark.Prelude.Bytes.{Bytes}
use exec_over_lark.Prelude.Dict.{Dict}
use exec_over_lark.Outbound.Types.{ConnQueue, RootOpenJob, ChatQueue}

unfoldable pub mark_attempt : ℕ → ChatQueue → ChatQueue
mark_attempt now c = record c { last_attempt_at = now; has_last_attempt = true }

-- The time from which the cooldown allows a send.
unfoldable pub ready_at : ℕ → ChatQueue → ℕ
ready_at now c = if c.has_last_attempt then c.last_attempt_at + c.cooldown else now

unfoldable pub schedule_earlier : ℕ → ChatQueue → ChatQueue
schedule_earlier next c =
    if not c.has_next_flush || ltb next c.next_flush_at
    then record c { next_flush_at = next; has_next_flush = true }
    else c

unfoldable pub schedule_ready : ℕ → ChatQueue → ChatQueue
unfolding schedule_earlier ready_at
schedule_ready now c = schedule_earlier (ready_at now c) c

-- The two loops of `hasPendingLocked`.
unfoldable pub any_waiting_job : Dict Bytes RootOpenJob → Bool
any_waiting_job [] = false
any_waiting_job ((id, job) ∷ jobs) = not job.in_flight || any_waiting_job jobs

unfoldable pub any_queued_frame : Dict Bytes ConnQueue → Bool
any_queued_frame [] = false
any_queued_frame ((id, conn) ∷ conns) = not (is_empty conn.frames) || any_queued_frame conns

unfoldable pub has_pending : ChatQueue → Bool
has_pending c = any_waiting_job c.root_jobs || any_queued_frame c.conns

-- The loop of `earliestHeartbeatLocked`, with the earliest so far.
unfoldable pub earliest_heartbeat_from : Option ℕ → Dict Bytes ConnQueue → Option ℕ
earliest_heartbeat_from earliest [] = earliest
earliest_heartbeat_from earliest ((id, conn) ∷ conns) =
    earliest_heartbeat_from
      (if conn.heartbeat_interval == 0 then earliest else elim earliest [
        | none ↦ some conn.next_heartbeat_at
        | some t ↦ some (if ltb conn.next_heartbeat_at t then conn.next_heartbeat_at else t)
      ])
      conns

unfoldable pub earliest_heartbeat : ChatQueue → Option ℕ
earliest_heartbeat c = earliest_heartbeat_from none c.conns

unfoldable pub plan_heartbeat : ℕ → ChatQueue → Option ℕ → ChatQueue
plan_heartbeat now c none = record c { has_next_flush = false; next_flush_at = 0 }
plan_heartbeat now c (some earliest) =
    let ready = ready_at now c in
    record c {
      next_flush_at = if ltb earliest ready then ready else earliest;
      has_next_flush = true;
    }

unfoldable pub replan : ℕ → ChatQueue → ChatQueue
replan now c =
    if has_pending c
    then record c { next_flush_at = ready_at now c; has_next_flush = true }
    else plan_heartbeat now c (earliest_heartbeat c)

-- `currentWaitLocked`: how long the loop of `run` waits, if it waits for a time at all.
unfoldable pub current_wait : ℕ → ChatQueue → Option ℕ
current_wait now c =
    if not c.has_next_flush
    then none
    else if ltb now c.next_flush_at
    then some (c.next_flush_at - now)
    else some 0
