-- ===== src/Session/Limit/Run.antt =====
-- Runs of the session manager (internal/session/session.go).
use exec_over_lark.Prelude.{refl, arith, ℕ, Bool, Option, none, List, [], ◌∷◌}
use exec_over_lark.Prelude.Bytes.{Bytes}
use exec_over_lark.Protocol.Frame.{FrameType}
use exec_over_lark.Outbound.Types.{DropReason}
use exec_over_lark.Session.Types.{Subscriber, World, Manager, LocalStart, InboundMessage}
use exec_over_lark.Session.Base.{new_manager, close_local_conn, close_remote_conn, sorted}
use exec_over_lark.Session.Register.{register_local, subscribe_local, unsubscribe_local}
use exec_over_lark.Session.Local.{
  send_local_frame, send_local_conn_frame, receive_local, handle_local_outbound_drop,
}
use exec_over_lark.Session.Accept.{accept_remote_start}
use exec_over_lark.Session.Remote.{receive_remote, send_remote_frame, handle_remote_outbound_drop}
use exec_over_lark.Session.Tick.{tick, tick_locals}
use exec_over_lark.Session.Same.{Same}
use exec_over_lark.Session.Limit.{Limited, Same-Limited, close_remote_conn-Limited}
use exec_over_lark.Session.Limit.Ops.{
  accept_remote_start-Limited, receive_remote-Limited, send_remote_frame-Limited,
  handle_remote_outbound_drop-Limited, tick_remotes-Limited,
}
use exec_over_lark.Session.Limit.Locals.{close_local_conn-Same}
use exec_over_lark.Session.Limit.LocalOps.{
  register_local-Same, subscribe_local-Same, unsubscribe_local-Same, send_local_frame-Same,
  send_local_conn_frame-Same, receive_local-Same, handle_local_outbound_drop-Same, tick_locals-Same,
}

-- The operations of the manager that change its state, each with the time that it reads.
pub data Op : Type 0 where
  register : ℕ → LocalStart → Option Subscriber → Op
  subscribe : Bytes → Bytes → Option Subscriber → Op
  unsubscribe : Bytes → Op
  send_local : ℕ → Bytes → FrameType → Bytes → Bool → Op
  send_local_conn : ℕ → Bytes → FrameType → Bytes → Bool → Op
  receive_from_remote : ℕ → InboundMessage → Op
  accept : ℕ → InboundMessage → Option Subscriber → Op
  receive_from_local : ℕ → InboundMessage → Op
  send_remote : ℕ → Bytes → FrameType → Bytes → Bool → Op
  tick_all : ℕ → Op
  close_local_session : ℕ → Bytes → Op
  close_remote_session : ℕ → Bytes → Op
  local_drop : ℕ → Bytes → DropReason → Op
  remote_drop : ℕ → Bytes → DropReason → Op

module _ (w : World) where
  unfoldable pub apply_op : Op → Manager w → Manager w
  apply_op (register now req sub) m = (register_local w now req sub m).0
  apply_op (subscribe id request_id sub) m = (subscribe_local w id request_id sub m).0
  apply_op (unsubscribe request_id) m = unsubscribe_local w request_id m
  apply_op (send_local now request_id typ payload close_after) m =
      (send_local_frame w now request_id typ payload close_after m).0
  apply_op (send_local_conn now id typ payload close_after) m =
      (send_local_conn_frame w now id typ payload close_after m).0
  apply_op (receive_from_remote now msg) m = (receive_local w now msg m).0
  apply_op (accept now msg receiver) m = (accept_remote_start w now msg receiver m).0
  apply_op (receive_from_local now msg) m = (receive_remote w now msg m).0
  apply_op (send_remote now id typ payload close_after) m =
      (send_remote_frame w now id typ payload close_after m).0
  apply_op (tick_all now) m = (tick w now m).0
  apply_op (close_local_session now id) m = close_local_conn w now id m
  apply_op (close_remote_session now id) m = close_remote_conn w now id m
  apply_op (local_drop now id reason) m = handle_local_outbound_drop w now id reason m
  apply_op (remote_drop now id reason) m = handle_remote_outbound_drop w now id reason m

  unfoldable pub run_ops : Manager w → List Op → Manager w
  unfolding apply_op
  run_ops m [] = m
  run_ops m (op ∷ ops) = run_ops (apply_op op m) ops

module _ (w : World) (cap : ℕ) where
  -- An operation that leaves the remote sessions alone.
  keep-Limited :
      (op : Op) (m : Manager w)
      → Same w m (apply_op w op m)
      → Limited w cap m
      → Limited w cap (apply_op w op m)
  keep-Limited op m s h = Same-Limited w cap m (apply_op w op m) s h

  apply_op-Limited : (op : Op) (m : Manager w) → Limited w cap m → Limited w cap (apply_op w op m)
  unfolding apply_op tick
  apply_op-Limited (register now req sub) m h =
      keep-Limited (register now req sub) m (register_local-Same w now req sub m) h
  apply_op-Limited (subscribe id request_id sub) m h =
      keep-Limited (subscribe id request_id sub) m (subscribe_local-Same w id request_id sub m) h
  apply_op-Limited (unsubscribe request_id) m h =
      keep-Limited (unsubscribe request_id) m (unsubscribe_local-Same w request_id m) h
  apply_op-Limited (send_local now request_id typ payload close_after) m h =
      keep-Limited (send_local now request_id typ payload close_after) m
        (send_local_frame-Same w now request_id typ payload close_after m) h
  apply_op-Limited (send_local_conn now id typ payload close_after) m h =
      keep-Limited (send_local_conn now id typ payload close_after) m
        (send_local_conn_frame-Same w now id typ payload close_after m) h
  apply_op-Limited (receive_from_remote now msg) m h =
      keep-Limited (receive_from_remote now msg) m (receive_local-Same w now msg m) h
  apply_op-Limited (accept now msg receiver) m h =
      accept_remote_start-Limited w cap now msg receiver m h
  apply_op-Limited (receive_from_local now msg) m h = receive_remote-Limited w cap now msg m h
  apply_op-Limited (send_remote now id typ payload close_after) m h =
      send_remote_frame-Limited w cap now id typ payload close_after m h
  apply_op-Limited (tick_all now) m h =
      let r = tick_locals w now none (sorted m.local_by_conn) m in
      tick_remotes-Limited w cap now (sorted r.0.remote_by_conn) r.1 r.0
        (Same-Limited w cap m r.0 (tick_locals-Same w now (sorted m.local_by_conn) none m) h)
  apply_op-Limited (close_local_session now id) m h =
      keep-Limited (close_local_session now id) m (close_local_conn-Same w now id m) h
  apply_op-Limited (close_remote_session now id) m h = close_remote_conn-Limited w cap now id m h
  apply_op-Limited (local_drop now id reason) m h =
      keep-Limited (local_drop now id reason) m (handle_local_outbound_drop-Same w now id reason m)
        h
  apply_op-Limited (remote_drop now id reason) m h =
      handle_remote_outbound_drop-Limited w cap now id reason m h

  run_ops-Limited :
      (m : Manager w) (ops : List Op) → Limited w cap m → Limited w cap (run_ops w m ops)
  unfolding run_ops
  run_ops-Limited m [] h = h
  run_ops-Limited m (op ∷ ops) h = run_ops-Limited (apply_op w op m) ops (apply_op-Limited op m h)

-- From a new manager, whatever operations follow and whatever the outbound manager, the JSON
-- codec, the subscribers and the receivers answer: every remote session is open and stands under its own
-- connection, there are never more of them than the limit of the new manager, and the limit stays.
pub run_ops_within_limit :
    (w : World) (out : Option w.Outbound) (interval timeout gap max : ℕ) (ops : List Op)
    → let m = new_manager w out interval timeout gap max in
      Limited w m.max_remote_sessions (run_ops w m ops)
run_ops_within_limit w out interval timeout gap max ops =
    let m = new_manager w out interval timeout gap max in
    run_ops-Limited w m.max_remote_sessions m ops (unfold new_manager in (tt, omega arith, refl))
