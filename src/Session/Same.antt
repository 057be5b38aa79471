-- ===== src/Session/Same.antt =====
-- Steps that leave the remote sessions alone (internal/session/session.go).
use exec_over_lark.Prelude.{
  ℕ, ◌≡◌, refl, ◌∙◌, Option, none, some, [], ◌∷◌, Bool-cases, Option-cases, inl, inr,
}
use exec_over_lark.Prelude.Bytes.{Bytes, bytes_eq}
use exec_over_lark.Prelude.Dict.{Dict}
use exec_over_lark.Session.Types.{
  SessionError, Subscriber, LocalEvent, RemoteEvent, deliver_local, World, LocalSession,
  RemoteSession, Manager,
}
use exec_over_lark.Session.Base.{
  call, first_err, deliver_each, deliver_local_event, deliver_remote_event, close_subscriber_of,
  close_receiver, close_subscribers, close_local, sorted,
}

module _ (w : World) where
  abbrev pub Same : Manager w → Manager w → Type 0
  Same m m' =
      (m'.remote_by_conn ≡ m.remote_by_conn) × (m'.max_remote_sessions ≡ m.max_remote_sessions)

  pub Same-trans : (a b c : Manager w) → Same a b → Same b c → Same a c
  Same-trans a b c s t = (t.0 ∙ s.0, t.1 ∙ s.1)

  pub deliver_remote_event-Same :
      (sess : RemoteSession) (event : RemoteEvent) (m : Manager w)
      → Same m (deliver_remote_event w sess event m).0
  unfolding deliver_remote_event call
  deliver_remote_event-Same sess event m = elim (Option-cases sess.receiver) [
    | inl e ↦ rw (e, deliver_remote_event) (refl, refl)
    | inr (r, e) ↦ rw (e, deliver_remote_event) (refl, refl)
  ]

  pub close_subscriber_of-Same :
      (sub : Subscriber) (m : Manager w) → Same m (close_subscriber_of w sub m)
  unfolding close_subscriber_of
  close_subscriber_of-Same sub m = elim (Bool-cases sub.closable) [
    | inl t ↦ rw t (refl, refl)
    | inr f ↦ rw f (refl, refl)
  ]

  pub close_receiver-Same : (o : Option Subscriber) (m : Manager w) → Same m (close_receiver w o m)
  unfolding close_receiver
  close_receiver-Same none m = (refl, refl)
  close_receiver-Same (some sub) m = close_subscriber_of-Same sub m

  deliver_each-Same :
      (id : Bytes) (event : LocalEvent) (subs : Dict Bytes Subscriber) (e : Option SessionError)
      (m : Manager w)
      → Same m (deliver_each w id event e subs m).0
  unfolding deliver_each call
  deliver_each-Same id event [] e m = (refl, refl)
  deliver_each-Same id event ((r, sub) ∷ subs) e m =
      let (m', next) = call w (deliver_local id r sub event) m in
      deliver_each-Same id event subs (first_err e next) m'

  pub deliver_local_event-Same :
      (sess : LocalSession) (event : LocalEvent) (m : Manager w)
      → Same m (deliver_local_event w sess event m).0
  unfolding deliver_local_event
  deliver_local_event-Same sess event m =
      deliver_each-Same sess.base.conn_id event (sorted sess.subscribers) none m

  close_subscribers-Same :
      (subs : Dict Bytes Subscriber) (m : Manager w) → Same m (close_subscribers w subs m)
  unfolding close_subscribers
  close_subscribers-Same [] m = (refl, refl)
  close_subscribers-Same ((r, sub) ∷ subs) m =
      let s = close_subscriber_of-Same sub m in
      let t = close_subscribers-Same subs _ in (t.0 ∙ s.0, t.1 ∙ s.1)

  pub close_local-Same :
      (now : ℕ) (sess : LocalSession) (m : Manager w) → Same m (close_local w now sess m)
  unfolding close_local
  close_local-Same now sess m = elim (Bool-cases sess.base.closed) [
    | inl t ↦ rw t (refl, refl)
    | inr f ↦ rw f (close_subscribers-Same sess.subscribers m)
  ]
