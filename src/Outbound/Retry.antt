-- ===== src/Outbound/Retry.antt =====
-- A batch of replies whose send failed for the moment (internal/outbound/manager.go).
use exec_over_lark.Prelude.{ℕ, ◌≡◌, sym, ◌∙◌, ap, true, false, some, List, ◌++◌, is_empty, arith}
use mathlib.Core.List.{append_assoc}
use mathlib.Core.Path.{subst}
use mathlib.Core.Option.{some-injective}
use exec_over_lark.Prelude.Bytes.{bytes_eq}
use exec_over_lark.Prelude.Dict.{lookup-insert_self, lookup, insert}
use exec_over_lark.Prelude.Result.{ok}
use exec_over_lark.Outbound.Types.{QueuedFrame, ConnQueue, ChatQueue, SendBatch, OutboundError}
use exec_over_lark.Outbound.Schedule.{replan, plan_heartbeat}
use exec_over_lark.Outbound.Batch.{build_reply_batch}
use exec_over_lark.Outbound.Commit.{retryable, landed, settle_reply, commit_reply_result}
use exec_over_lark.Outbound.Fit.{build_reply_batch-Filled}

replan-conns : (now : ℕ) (c : ChatQueue) → (replan now c).conns ≡ c.conns
unfolding replan plan_heartbeat
replan-conns now c = ground arith

commit_retryable :
    (now : ℕ) (batch : SendBatch) (e : OutboundError) (c : ChatQueue) (conn : ConnQueue)
    → lookup batch.conn_id c.conns ≡ some conn
    → retryable e ≡ true
    → lookup batch.conn_id (commit_reply_result now batch (some e) c).0.conns
      ≡ some (record (landed conn) { frames = batch.queued_frames ++ conn.frames })
unfolding commit_reply_result settle_reply
commit_retryable now batch e c conn found r =
    let retried : ConnQueue = record (landed conn) {
      frames = batch.queued_frames ++ conn.frames;
    } in
    rw (found, commit_reply_result)
      (rw r (
        ap (lookup batch.conn_id)
          (replan-conns now (record c { conns = insert batch.conn_id retried c.conns }))
        ∙ lookup-insert_self batch.conn_id retried c.conns))

-- A batch is taken from a connection's queue, the queue grows by `later` while the batch is on its way, and
-- the send fails with an error that is retried: then the queue is what it was, with `later` behind it. No
-- frame is lost, doubled or moved.
pub retry_restores :
    (now : ℕ) (c d : ChatQueue) (conn left sending : ConnQueue) (later : List QueuedFrame)
    (e : OutboundError) {batch : SendBatch}
    → is_empty conn.frames ≡ false
    → (build_reply_batch conn.conn_id conn c).1 ≡ ok batch
    → lookup conn.conn_id (build_reply_batch conn.conn_id conn c).0.conns ≡ some left
    → lookup conn.conn_id d.conns ≡ some sending
    → sending.frames ≡ left.frames ++ later
    → retryable e ≡ true
    → lookup conn.conn_id (commit_reply_result now batch (some e) d).0.conns
      ≡ some (record (landed sending) { frames = conn.frames ++ later })
retry_restores now c d conn left sending later e {batch} ne h there found grown r =
    let f = build_reply_batch-Filled conn.conn_id conn c {batch = batch} ne h in
    let left_is : left.frames ≡ f.left =
      ap (λ (q : ConnQueue). q.frames) (some-injective _ _ (sym there ∙ f.queue)) in
    let restored : batch.queued_frames ++ sending.frames ≡ conn.frames ++ later =
      ap (λ qs. batch.queued_frames ++ qs) (grown ∙ ap (λ qs. qs ++ later) left_is)
      ∙ sym (append_assoc batch.queued_frames f.left later)
      ∙ ap (λ qs. qs ++ later) f.kept in
    let found' : lookup batch.conn_id d.conns ≡ some sending =
      subst (λ id. lookup id d.conns ≡ some sending) (sym f.owner) found in
    subst
      (λ id.
        lookup id (commit_reply_result now batch (some e) d).0.conns
        ≡ some (record (landed sending) { frames = conn.frames ++ later }))
      f.owner
      (commit_retryable now batch e d sending found' r
        ∙ ap (λ qs. some (record (landed sending) { frames = qs })) restored)
