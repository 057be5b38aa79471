-- ===== src/Outbound/Select.antt =====
-- internal/outbound/manager.go: what is sent next. A loop over a map visits it in the order of the
-- list, and keeps the first of several candidates with the same time.
use exec_over_lark.Prelude.{
  ℕ, Bool, true, not, ◌&&◌, ◌||◌, Option, none, some, [], ◌∷◌, ltb, ◌==◌, if◌then◌else◌, is_empty,
}
use exec_over_lark.Prelude.Bytes.{Bytes}
use exec_over_lark.Prelude.Dict.{Dict}
use exec_over_lark.Outbound.Types.{ConnQueue, RootOpenJob, ChatQueue}

module _ {A : Type 0} (candidate : A → Bool) (time : A → ℕ) where
  -- `selected == nil`, or the time lies before that of the selected one.
  unfoldable pub comes_before : A → Option (Bytes × A) → Bool
  comes_before a none = true
  comes_before a (some (id, b)) = ltb (time a) (time b)

  -- The loop that the three selections share.
  unfoldable pub select_earliest : Option (Bytes × A) → Dict Bytes A → Option (Bytes × A)
  unfolding comes_before
  select_earliest selected [] = selected
  select_earliest selected ((id, a) ∷ rest) =
      select_earliest (if candidate a && comes_before a selected then some (id, a) else selected)
        rest

unfoldable pub heartbeat_due : ℕ → ConnQueue → Bool
heartbeat_due now conn =
    not (conn.dropped || conn.heartbeat_interval == 0 || ltb now conn.next_heartbeat_at)

unfoldable pub select_heartbeat_conn : ℕ → ChatQueue → Option (Bytes × ConnQueue)
unfolding heartbeat_due
select_heartbeat_conn now c =
    select_earliest (heartbeat_due now) (λ conn. conn.next_heartbeat_at) none c.conns

unfoldable pub select_root_job : ChatQueue → Option (Bytes × RootOpenJob)
select_root_job c =
    select_earliest (λ job. not job.in_flight) (λ job. job.created_at) none c.root_jobs

-- `frames[0].createdAt`, read only where there is a frame.
unfoldable pub head_created_at : ConnQueue → ℕ
head_created_at conn = elim conn.frames [ [] ↦ 0 | q ∷ qs ↦ q.created_at ]

unfoldable pub can_send : ConnQueue → Bool
can_send conn = not (conn.dropped || is_empty conn.frames)

unfoldable pub select_pending_conn : ChatQueue → Option (Bytes × ConnQueue)
unfolding can_send head_created_at
select_pending_conn c = select_earliest can_send head_created_at none c.conns
