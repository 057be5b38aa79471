-- ===== src/Session/Limit/Ops.antt =====
-- The operations on the remote sessions keep their limit (internal/session/session.go).
use exec_over_lark.Prelude.{
  ℕ, ◌<◌, ◌≡◌, refl, sym, Bool, true, false, ◌||◌, Option, none, some, [], ◌∷◌, leb, if◌then◌else◌,
  is_empty, length, arith, Bool-cases, Option-cases, inl, inr,
}
use mathlib.Core.Path.{subst}
use exec_over_lark.Prelude.Bytes.{Bytes, is_blank, bytes_eq}
use exec_over_lark.Prelude.Dict.{Dict, lookup, Every-lookup}
use exec_over_lark.Prelude.Result.{Result-cases}
use exec_over_lark.Protocol.Frame.{FrameType, ProtocolError}
use exec_over_lark.Protocol.Window.{new_recv_window, check_gap_timeout_at}
use exec_over_lark.Outbound.Types.{DropReason}
use exec_over_lark.Outbound.Manager.{ManagerError}
use exec_over_lark.Session.Types as Ty
use exec_over_lark.Session.Types.{
  SessionError, Subscriber, RemoteEvent, World, RemoteSession, Manager, InboundMessage,
}
use exec_over_lark.Session.Base.{normalize_conn_id, ensure_peer, peer_timed_out, first_err}
use exec_over_lark.Session.Accept.{
  put_remote, remote_request, settle_refusal, enqueue_refusal, reply_remote_error, refuse_remote,
  collect_start, new_remote_session, acknowledged, acknowledge, open_remote, start_remote,
  accept_remote_start,
}
use exec_over_lark.Session.Remote.{
  send_remote_frame, finish_remote, receive_remote, handle_remote_outbound_drop,
}
use exec_over_lark.Session.Tick.{check_remote, tick_remote, tick_remotes}
use exec_over_lark.Session.Limit.Steps.{deliver-Limited, reset-Limited, offer_remote-Limited}
use exec_over_lark.Session.Limit.{
  Live, Limited, put_remote_new-Limited, finish_remote-Limited, enqueue_remote-Limited,
  handle_remote_sequence_error-Limited,
}

module _ (w : World) (cap : ℕ) where
  pub receive_remote-Limited :
      (now : ℕ) (msg : InboundMessage) (m : Manager w)
      → Limited w cap m
      → Limited w cap (receive_remote w now msg m).0
  unfolding receive_remote ensure_peer
  receive_remote-Limited now msg m h = elim (Bool-cases (is_blank (normalize_conn_id msg))) [
    | inl t ↦ rw t h
    | inr f ↦ elim (Option-cases (lookup (normalize_conn_id msg) m.remote_by_conn)) [
      | inl e ↦ rw f (rw (e, receive_remote) h)
      | inr (old, e) ↦
          let live = Every-lookup Live (normalize_conn_id msg) m.remote_by_conn h.0 e in
          let sess : RemoteSession = record old {
            base = record old.base { last_peer_message_at = now };
          } in
          let k = reset-Limited w cap (normalize_conn_id msg) old sess m e refl refl h in
          elim (Option-cases (ensure_peer msg.chat_id msg.sender_open_id old.base)) [
            | inl good ↦ rw f (
                rw (e, receive_remote)
                  (rw live.1 (
                    rw (good, receive_remote)
                      (offer_remote-Limited w cap now (normalize_conn_id msg) msg.frames
                        (put_remote w sess m) k))))
            | inr (x, bad) ↦ rw f (rw (e, receive_remote) (rw live.1 (rw (bad, receive_remote) h)))
          ]
    ]
  ]

  pub send_remote_frame-Limited :
      (now : ℕ) (id : Bytes) (t : FrameType) (payload : Bytes) (close_after : Bool) (m : Manager w)
      → Limited w cap m
      → Limited w cap (send_remote_frame w now id t payload close_after m).0
  unfolding send_remote_frame
  send_remote_frame-Limited now id t payload close_after m h =
      elim (Option-cases (lookup id m.remote_by_conn)) [
        | inl e ↦ rw (e, send_remote_frame) h
        | inr (sess, e) ↦
            let live = Every-lookup Live id m.remote_by_conn h.0 e in
            rw (e, send_remote_frame)
              (rw live.1 (enqueue_remote-Limited w cap now id t payload close_after m h))
      ]

  pub handle_remote_outbound_drop-Limited :
      (now : ℕ) (id : Bytes) (reason : DropReason) (m : Manager w)
      → Limited w cap m
      → Limited w cap (handle_remote_outbound_drop w now id reason m)
  unfolding handle_remote_outbound_drop
  handle_remote_outbound_drop-Limited now id reason m h =
      elim (Option-cases (lookup id m.remote_by_conn)) [
        | inl e ↦ rw (e, handle_remote_outbound_drop) h
        | inr (sess, e) ↦
            let live = Every-lookup Live id m.remote_by_conn h.0 e in
            let ended =
              (finish_remote w now (Ty.RemoteEvent.failed (Ty.outbound_drop reason)) sess m).0 in
            rw (e, handle_remote_outbound_drop)
              (subst (λ b. Limited w cap (if b then m else ended)) (sym live.1)
                (finish_remote-Limited w cap now _ sess m h))
      ]

  settle_refusal-Limited :
      (now : ℕ) (id : Bytes) (e : Option ManagerError) (out : w.Outbound) (m : Manager w)
      → Limited w cap m
      → Limited w cap (settle_refusal w now id e out m).0
  unfolding settle_refusal
  settle_refusal-Limited now id (some e) out m h = h
  settle_refusal-Limited now id none out m h = h

  reply_remote_error-Limited :
      (now : ℕ) (id chat sender : Bytes) (m : Manager w)
      → Limited w cap m
      → Limited w cap (reply_remote_error w now id chat sender m).0
  unfolding reply_remote_error enqueue_refusal
  reply_remote_error-Limited now id chat sender m h = elim (Option-cases m.outbound) [
    | inl e ↦ rw (e, reply_remote_error) h
    | inr (out, e) ↦
        elim (Result-cases (w.register now (remote_request w id chat sender 0 false) out)) [
          | inl (x, r) ↦ rw (e, reply_remote_error) (rw (r, reply_remote_error) h)
          | inr (out', r) ↦
              rw (e, reply_remote_error)
                (rw (r, reply_remote_error) (settle_refusal-Limited now id _ _ m h))
        ]
  ]

  -- A new session where there is room.
  acknowledged-Limited :
      (now : ℕ) (sess : RemoteSession) (e : Option ManagerError) (out : w.Outbound) (m : Manager w)
      → sess.base.closed ≡ false
      → length m.remote_by_conn < m.max_remote_sessions
      → Limited w cap m
      → Limited w cap (acknowledged w now sess e out m).0
  unfolding acknowledged
  acknowledged-Limited now sess (some e) out m live room h = h
  acknowledged-Limited now sess none out m live room h =
      let m' : Manager w = record m { outbound = some out } in
      deliver-Limited w cap sess _ (put_remote w sess m')
        (put_remote_new-Limited w cap sess m' live room h)

  open_remote-Limited :
      (now : ℕ) (sess : RemoteSession) (m : Manager w)
      → sess.base.closed ≡ false
      → length m.remote_by_conn < m.max_remote_sessions
      → Limited w cap m
      → Limited w cap (open_remote w now sess m).0
  unfolding open_remote acknowledge
  open_remote-Limited now sess m live room h = elim (Option-cases m.outbound) [
    | inl e ↦ rw (e, open_remote) h
    | inr (out, e) ↦
        let req =
          remote_request w sess.base.conn_id sess.base.chat_id sess.base.peer_open_id
            m.heartbeat_interval true in
        elim (Result-cases (w.register now req out)) [
          | inl (x, r) ↦ rw (e, open_remote) (rw (r, open_remote) h)
          | inr (out', r) ↦
              rw (e, open_remote)
                (rw (r, open_remote) (acknowledged-Limited now sess _ _ m live room h))
        ]
  ]

  start_remote-Limited :
      (now : ℕ) (id : Bytes) (msg : InboundMessage) (receiver : Option Subscriber) (m : Manager w)
      → length m.remote_by_conn < m.max_remote_sessions
      → Limited w cap m
      → Limited w cap (start_remote w now id msg receiver m).0
  unfolding start_remote
  start_remote-Limited now id msg receiver m room h =
      elim (Result-cases
        (collect_start w now (new_recv_window m.sequence_gap_timeout) none msg.frames)) [
          | inl (x, r) ↦ rw (r, start_remote) h
          | inr ((rx, none), r) ↦ rw (r, start_remote) h
          | inr ((rx, some payload), r) ↦
              rw (r, start_remote)
                (open_remote-Limited now (new_remote_session w now id msg payload receiver rx m) m
                  (unfold new_remote_session in refl) room h)
        ]

  pub accept_remote_start-Limited :
      (now : ℕ) (msg : InboundMessage) (receiver : Option Subscriber) (m : Manager w)
      → Limited w cap m
      → Limited w cap (accept_remote_start w now msg receiver m).0
  unfolding accept_remote_start refuse_remote
  accept_remote_start-Limited now msg receiver m h =
      let id = normalize_conn_id msg in
      elim (Bool-cases (
        is_blank id
        || is_blank msg.chat_id
        || is_blank msg.sender_open_id
        || is_empty msg.frames)) [
          | inl t ↦ rw t h
          | inr f ↦ elim (Option-cases (lookup id m.remote_by_conn)) [
            | inr (old, e) ↦ rw f (rw (e, accept_remote_start) h)
            | inl e ↦ elim (Bool-cases (leb m.max_remote_sessions (length m.remote_by_conn))) [
              | inl full ↦ rw f (
                  rw (e, accept_remote_start)
                    (rw full
                      (reply_remote_error-Limited now id msg.chat_id msg.sender_open_id m h)))
              | inr room ↦ rw f (
                  rw (e, accept_remote_start)
                    (rw room (start_remote-Limited now id msg receiver m (ground arith) h)))
            ]
          ]
        ]

  check_remote-Limited :
      (now : ℕ) (sess : RemoteSession) (o : Option ProtocolError) (m : Manager w)
      → Limited w cap m
      → Limited w cap (check_remote w now sess o m).0
  unfolding check_remote
  check_remote-Limited now sess (some e) m h =
      handle_remote_sequence_error-Limited w cap now sess e m h
  check_remote-Limited now sess none m h = elim (Bool-cases (peer_timed_out now sess.base)) [
    | inl silent ↦ rw silent (finish_remote-Limited w cap now _ sess m h)
    | inr heard ↦ rw heard h
  ]

  tick_remote-Limited :
      (now : ℕ) (id : Bytes) (sess : RemoteSession) (m : Manager w)
      → lookup id m.remote_by_conn ≡ some sess
      → Limited w cap m
      → Limited w cap (tick_remote w now sess m).0
  unfolding tick_remote
  tick_remote-Limited now id old m e h =
      let live = Every-lookup Live id m.remote_by_conn h.0 e in
      let c = check_gap_timeout_at old.base.rx now in
      let sess : RemoteSession = record old { base = record old.base { rx = c.0 } } in
      let m' = put_remote w sess m in
      subst (λ b. Limited w cap (if b then (m, none) else check_remote w now sess c.1 m').0)
        (sym live.1)
        (check_remote-Limited now sess c.1 m' (reset-Limited w cap id old sess m e refl refl h))

  pub tick_remotes-Limited :
      (now : ℕ) (l : Dict Bytes RemoteSession) (e : Option SessionError) (m : Manager w)
      → Limited w cap m
      → Limited w cap (tick_remotes w now e l m).0
  unfolding tick_remotes
  tick_remotes-Limited now [] e m h = h
  tick_remotes-Limited now ((id, _) ∷ rest) e m h =
      elim (Option-cases (lookup id m.remote_by_conn)) [
        | inl x ↦ rw (x, tick_remotes) (tick_remotes-Limited now rest e m h)
        | inr (sess, x) ↦
            let r = tick_remote w now sess m in
            rw (x, tick_remotes)
              (tick_remotes-Limited now rest (first_err e r.1) r.0
                (tick_remote-Limited now id sess m x h))
      ]
