-- ===== src/Session/Limit/LocalOps.antt =====
-- The manager's operations on the client's sessions leave the remote ones alone (internal/session/session.go).
use exec_over_lark.Prelude.{
  ℕ, ◌≡◌, refl, ◌∙◌, Bool, true, false, ◌||◌, Option, none, some, [], ◌∷◌, if◌then◌else◌,
  Bool-cases, Option-cases, inl, inr,
}
use mathlib.Core.Path.{subst}
use exec_over_lark.Prelude.Bytes.{Bytes, is_blank, first_non_empty, trim_space, bytes_eq}
use exec_over_lark.Prelude.Dict.{Dict, lookup}
use exec_over_lark.Prelude.Result.{ok, Result-cases}
use exec_over_lark.Protocol.Frame.{FrameType, ProtocolError}
use exec_over_lark.Outbound.Types.{DropReason}
use exec_over_lark.Session.Types as Ty
use exec_over_lark.Session.Types.{
  SessionError, Subscriber, LocalEvent, World, LocalSession, Manager, LocalStart, InboundMessage,
}
use exec_over_lark.Session.Base.{normalize_conn_id, ensure_peer, peer_timed_out, first_err}
use exec_over_lark.Session.Register.{
  put_local, new_local_session, local_request, find_or_open_local, subscribe, mapped_elsewhere,
  register_checked_local, register_local, subscribe_local, unsubscribe_from, unsubscribe_local,
}
use exec_over_lark.Session.Local.{
  enqueue_local, send_local_frame, send_local_conn_frame, offer_local, receive_local,
  handle_local_outbound_drop,
}
use exec_over_lark.Session.Tick.{check_local, tick_local, tick_locals}
use exec_over_lark.Session.Limit.Locals.{fail_local-Same, offer_local-Same, enqueue_local-Same}
use exec_over_lark.Session.Same.{Same, close_subscriber_of-Same}

module _ (w : World) where
  -- What is done with a session unless it is closed.
  branch-Same :
      (b : Bool) (x : Option SessionError) (m : Manager w) (r : Manager w × Option SessionError)
      → Same w m r.0
      → Same w m (if◌then◌else◌ {A = Manager w × Option SessionError} b (m, x) r).0
  branch-Same true x m r s = (refl, refl)
  branch-Same false x m r s = s

  either-Same :
      (b : Bool) (x y : Option SessionError) (m a c : Manager w)
      → Same w m a
      → Same w m c
      → Same w m (if◌then◌else◌ {A = Manager w × Option SessionError} b (a, x) (c, y)).0
  either-Same true x y m a c s t = s
  either-Same false x y m a c s t = t

  keep-Same : (b : Bool) (m a : Manager w) → Same w m a → Same w m (if b then m else a)
  keep-Same true m a s = (refl, refl)
  keep-Same false m a s = s

  subscribe-Same :
      (id request_id : Bytes) (o : Option Subscriber) (sess : LocalSession) (m : Manager w)
      → Same w m (subscribe w id request_id o sess m)
  unfolding subscribe put_local
  subscribe-Same id request_id none sess m = (refl, refl)
  subscribe-Same id request_id (some sub) sess m = (refl, refl)

  find_or_open_local-Same :
      (now : ℕ) (id : Bytes) (req : LocalStart) (m : Manager w) {r : LocalSession × Manager w}
      → find_or_open_local w now id req m ≡ ok r
      → Same w m r.1
  unfolding find_or_open_local put_local
  find_or_open_local-Same now id req m {r} h = elim (Option-cases (lookup id m.local_by_conn)) [
    | inr (sess, e) ↦ elim (Option-cases (ensure_peer req.chat_id req.peer_bot_open_id sess.base)) [
      | inl good ↦
          let out : ok (sess, m) ≡ ok r =
            rw (good, find_or_open_local) at (rw (e, find_or_open_local) at h) in
          let same : (sess, m) ≡ r = cc in
          subst (λ (q : LocalSession × Manager w). Same w m q.1) same (refl, refl)
      | inr (x, bad) ↦ cc (rw (bad, find_or_open_local) at (rw (e, find_or_open_local) at h))
    ]
    | inl e ↦ elim (Option-cases m.outbound) [
      | inl n ↦ cc (rw (n, find_or_open_local) at (rw (e, find_or_open_local) at h))
      | inr (o, y) ↦ elim (Result-cases (w.register now (local_request w id req m) o)) [
        | inl (x, bad) ↦ cc (
            rw (bad, find_or_open_local) at
              (rw (y, find_or_open_local) at (rw (e, find_or_open_local) at h)))
        | inr (o', good) ↦
            let opened : LocalSession × Manager w = (
              new_local_session w now id req m,
              put_local w (new_local_session w now id req m) (record m { outbound = some o' }),
            ) in
            let out : ok opened ≡ ok r =
              rw (good, find_or_open_local) at
                (rw (y, find_or_open_local) at (rw (e, find_or_open_local) at h)) in
            let same : opened ≡ r = cc in
            subst (λ (q : LocalSession × Manager w). Same w m q.1) same (refl, refl)
      ]
    ]
  ]

  pub register_local-Same :
      (now : ℕ) (req : LocalStart) (o : Option Subscriber) (m : Manager w)
      → Same w m (register_local w now req o m).0
  unfolding register_local register_checked_local
  register_local-Same now req o m =
      let id = first_non_empty req.conn_id req.root_message_id in
      elim (Bool-cases (
        is_blank id
        || is_blank req.request_id
        || is_blank req.chat_id
        || is_blank req.peer_bot_open_id
        || mapped_elsewhere w req.request_id id m)) [
          | inl t ↦ rw t (refl, refl)
          | inr f ↦ elim (Result-cases (find_or_open_local w now id req m)) [
            | inl (x, e) ↦ rw f (rw (e, register_checked_local) (refl, refl))
            | inr (r, e) ↦
                let s = find_or_open_local-Same now id req m {r = r} e in
                let t = subscribe-Same id req.request_id o r.0 r.1 in
                rw f (
                  rw (e, register_checked_local)
                    (either-Same r.0.base.closed _ _ m r.1 _ s (t.0 ∙ s.0, t.1 ∙ s.1)))
          ]
        ]

  pub subscribe_local-Same :
      (id request_id : Bytes) (o : Option Subscriber) (m : Manager w)
      → Same w m (subscribe_local w id request_id o m).0
  unfolding subscribe_local
  subscribe_local-Same id request_id o m = elim (Bool-cases (is_blank id || is_blank request_id)) [
    | inl t ↦ rw t (refl, refl)
    | inr f ↦ elim (Option-cases (lookup id m.local_by_conn)) [
      | inl e ↦ rw f (rw (e, subscribe_local) (refl, refl))
      | inr (sess, e) ↦ rw f (
          rw (e, subscribe_local)
            (branch-Same sess.base.closed _ m (subscribe w id request_id o sess m, none)
              (subscribe-Same id request_id o sess m)))
    ]
  ]

  unsubscribe_from-Same :
      (request_id : Bytes) (sess : LocalSession) (m : Manager w)
      → Same w m (unsubscribe_from w request_id sess m)
  unfolding unsubscribe_from put_local
  unsubscribe_from-Same request_id sess m =
      elim (Option-cases (lookup request_id sess.subscribers)) [
        | inl e ↦ rw (e, unsubscribe_from) (refl, refl)
        | inr (sub, e) ↦ rw (e, unsubscribe_from) (close_subscriber_of-Same w sub m)
      ]

  pub unsubscribe_local-Same :
      (request_id : Bytes) (m : Manager w) → Same w m (unsubscribe_local w request_id m)
  unfolding unsubscribe_local
  unsubscribe_local-Same request_id m = elim (Option-cases (lookup request_id m.local_by_request)) [
    | inl e ↦ rw (e, unsubscribe_local) (refl, refl)
    | inr (id, e) ↦ elim (Option-cases (lookup id m.local_by_conn)) [
      | inl n ↦ rw (e, unsubscribe_local) (rw (n, unsubscribe_local) (refl, refl))
      | inr (sess, y) ↦
          rw (e, unsubscribe_local)
            (rw (y, unsubscribe_local) (unsubscribe_from-Same request_id sess _))
    ]
  ]

  pub send_local_frame-Same :
      (now : ℕ) (request_id : Bytes) (t : FrameType) (payload : Bytes) (close_after : Bool)
      (m : Manager w)
      → Same w m (send_local_frame w now request_id t payload close_after m).0
  unfolding send_local_frame
  send_local_frame-Same now request_id t payload close_after m =
      elim (Option-cases (lookup request_id m.local_by_request)) [
        | inl e ↦ rw (e, send_local_frame) (refl, refl)
        | inr (id, e) ↦ elim (Option-cases (lookup id m.local_by_conn)) [
          | inl n ↦ rw (e, send_local_frame) (rw (n, send_local_frame) (refl, refl))
          | inr (sess, y) ↦
              rw (e, send_local_frame)
                (rw (y, send_local_frame)
                  (branch-Same sess.base.closed _ m (enqueue_local w now id t payload close_after m)
                    (enqueue_local-Same w now id t payload close_after m)))
        ]
      ]

  pub send_local_conn_frame-Same :
      (now : ℕ) (id : Bytes) (t : FrameType) (payload : Bytes) (close_after : Bool) (m : Manager w)
      → Same w m (send_local_conn_frame w now id t payload close_after m).0
  unfolding send_local_conn_frame
  send_local_conn_frame-Same now id t payload close_after m =
      elim (Option-cases (lookup (trim_space id) m.local_by_conn)) [
        | inl n ↦ rw (n, send_local_conn_frame) (refl, refl)
        | inr (sess, y) ↦
            rw (y, send_local_conn_frame)
              (branch-Same sess.base.closed _ m
                (enqueue_local w now (trim_space id) t payload close_after m)
                (enqueue_local-Same w now (trim_space id) t payload close_after m))
      ]

  pub receive_local-Same :
      (now : ℕ) (msg : InboundMessage) (m : Manager w) → Same w m (receive_local w now msg m).0
  unfolding receive_local put_local
  receive_local-Same now msg m = elim (Bool-cases (is_blank (normalize_conn_id msg))) [
    | inl t ↦ rw t (refl, refl)
    | inr f ↦ elim (Option-cases (lookup (normalize_conn_id msg) m.local_by_conn)) [
      | inl e ↦ rw f (rw (e, receive_local) (refl, refl))
      | inr (old, e) ↦ elim (Option-cases (ensure_peer msg.chat_id [] old.base)) [
        | inl good ↦ rw f (
            rw (e, receive_local)
              (rw (good, receive_local)
                (branch-Same old.base.closed _ m
                  (offer_local w now (normalize_conn_id msg) msg.frames _)
                  (offer_local-Same w now (normalize_conn_id msg) msg.frames _))))
        | inr (x, bad) ↦ rw f (
            rw (e, receive_local)
              (rw (bad, receive_local) (branch-Same old.base.closed _ m (m, some x) (refl, refl))))
      ]
    ]
  ]

  pub handle_local_outbound_drop-Same :
      (now : ℕ) (id : Bytes) (reason : DropReason) (m : Manager w)
      → Same w m (handle_local_outbound_drop w now id reason m)
  unfolding handle_local_outbound_drop
  handle_local_outbound_drop-Same now id reason m =
      elim (Option-cases (lookup id m.local_by_conn)) [
        | inl e ↦ rw (e, handle_local_outbound_drop) (refl, refl)
        | inr (sess, e) ↦
            rw (e, handle_local_outbound_drop)
              (keep-Same sess.base.closed m _
                (fail_local-Same w now (Ty.outbound_drop reason) sess m))
      ]

  check_local-Same :
      (now : ℕ) (sess : LocalSession) (o : Option ProtocolError) (m : Manager w)
      → Same w m (check_local w now sess o m).0
  unfolding check_local
  check_local-Same now sess (some e) m = fail_local-Same w now _ sess m
  check_local-Same now sess none m = elim (Bool-cases (peer_timed_out now sess.base)) [
    | inl silent ↦ rw silent (fail_local-Same w now _ sess m)
    | inr heard ↦ rw heard (refl, refl)
  ]

  tick_local-Same :
      (now : ℕ) (sess : LocalSession) (m : Manager w) → Same w m (tick_local w now sess m).0
  unfolding tick_local put_local
  tick_local-Same now sess m = branch-Same sess.base.closed none m _ (check_local-Same now _ _ _)

  pub tick_locals-Same :
      (now : ℕ) (l : Dict Bytes LocalSession) (e : Option SessionError) (m : Manager w)
      → Same w m (tick_locals w now e l m).0
  unfolding tick_locals
  tick_locals-Same now [] e m = (refl, refl)
  tick_locals-Same now ((id, _) ∷ rest) e m = elim (Option-cases (lookup id m.local_by_conn)) [
    | inl x ↦ rw (x, tick_locals) (tick_locals-Same now rest e m)
    | inr (sess, x) ↦
        let r = tick_local w now sess m in
        let s = tick_local-Same now sess m in
        let t = tick_locals-Same now rest (first_err e r.1) r.0 in
        rw (x, tick_locals) (t.0 ∙ s.0, t.1 ∙ s.1)
  ]
