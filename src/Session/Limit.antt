-- ===== src/Session/Limit.antt =====
-- How many remote sessions there are (internal/session/session.go).
pub mod Steps
pub mod Ops
pub mod Locals
pub mod LocalOps
pub mod Run
use exec_over_lark.Prelude.{
  ℕ, ◌+◌, ◌≤◌, ◌<◌, ◌≡◌, refl, sym, ◌∙◌, Bool, true, false, not, Option, none, some, List, [], ◌∷◌,
  leb, if◌then◌else◌, is_empty, length, arith, Bool-cases, Option-cases, inl, inr,
}
use mathlib.Core.Path.{subst, subst₂}
use exec_over_lark.Prelude.Bytes.{Bytes, is_blank, bytes_eq}
use exec_over_lark.Prelude.Dict.{
  Dict, lookup, insert, remove, Every, Every-insert, Every-remove, Every-lookup, length-remove_le,
  length-insert_le, length-insert_old,
}
use exec_over_lark.Prelude.Result.{Result, ok, err, Result-cases}
use exec_over_lark.Protocol.Frame.{Frame, FrameType, ProtocolError}
use exec_over_lark.Outbound.Manager.{ManagerError}
use exec_over_lark.Session.Types as Ty
use exec_over_lark.Session.Types.{
  SessionError, Subscriber, RemoteEvent, World, RemoteSession, Manager, InboundMessage,
}
use exec_over_lark.Session.Base.{
  deliver_remote_event, close_receiver, close_remote, close_remote_conn,
}
use exec_over_lark.Session.Accept.{put_remote}
use exec_over_lark.Session.Remote.{
  finish_remote, mark_remote, sent_remote, enqueue_remote, report_gap, handle_remote_sequence_error,
}
use exec_over_lark.Session.Same.{Same, deliver_remote_event-Same, close_receiver-Same}

-- The map's key is the session's connection, and the session is not closed.
abbrev pub Live : Bytes → RemoteSession → Type 0
Live conn_id sess = (sess.base.conn_id ≡ conn_id) × (sess.base.closed ≡ false)

abbrev pub Within : ℕ → Dict Bytes RemoteSession → ℕ → Type 0
Within cap sessions max = Every Live sessions × (length sessions ≤ cap) × (max ≡ cap)

module _ (w : World) (cap : ℕ) where
  -- All remote sessions are live, there are at most `cap` of them, and `cap` is the limit.
  abbrev pub Limited : Manager w → Type 0
  Limited m = Within cap m.remote_by_conn m.max_remote_sessions

  pub Same-Limited : (m m' : Manager w) → Same w m m' → Limited m → Limited m'
  Same-Limited m m' s h = subst₂ (Within cap) (sym s.0) (sym s.1) h

  -- A session that is there is set anew.
  pub put_remote-Limited :
      (sess old : RemoteSession) (m : Manager w)
      → sess.base.closed ≡ false
      → lookup sess.base.conn_id m.remote_by_conn ≡ some old
      → Limited m
      → Limited (put_remote w sess m)
  unfolding put_remote
  put_remote-Limited sess old m live found h = (
    Every-insert Live sess.base.conn_id sess m.remote_by_conn (refl, live) h.0,
    omega (arith, length-insert_old sess.base.conn_id sess m.remote_by_conn {old = old} found, h.1),
    h.2,
  )

  -- A new session where there is room.
  pub put_remote_new-Limited :
      (sess : RemoteSession) (m : Manager w)
      → sess.base.closed ≡ false
      → length m.remote_by_conn < m.max_remote_sessions
      → Limited m
      → Limited (put_remote w sess m)
  unfolding put_remote
  put_remote_new-Limited sess m live room h = (
    Every-insert Live sess.base.conn_id sess m.remote_by_conn (refl, live) h.0,
    omega (arith, length-insert_le sess.base.conn_id sess m.remote_by_conn, h.2, room),
    h.2,
  )

  pub close_remote-Limited :
      (now : ℕ) (sess : RemoteSession) (m : Manager w)
      → Limited m
      → Limited (close_remote w now sess m)
  unfolding close_remote
  close_remote-Limited now sess m h = elim (Bool-cases sess.base.closed) [
    | inl t ↦ rw t h
    | inr f ↦
        let m' = close_receiver w sess.receiver m in
        let k = Same-Limited m m' (close_receiver-Same w sess.receiver m) h in
        rw f (
          Every-remove Live sess.base.conn_id m'.remote_by_conn k.0,
          omega (arith, length-remove_le sess.base.conn_id m'.remote_by_conn, k.1),
          k.2,
        )
  ]

  pub finish_remote-Limited :
      (now : ℕ) (event : RemoteEvent) (sess : RemoteSession) (m : Manager w)
      → Limited m
      → Limited (finish_remote w now event sess m).0
  unfolding finish_remote
  finish_remote-Limited now event sess m h =
      let m' = (deliver_remote_event w sess event m).0 in
      close_remote-Limited now sess m'
        (Same-Limited m m' (deliver_remote_event-Same w sess event m) h)

  pub close_remote_conn-Limited :
      (now : ℕ) (id : Bytes) (m : Manager w) → Limited m → Limited (close_remote_conn w now id m)
  unfolding close_remote_conn
  close_remote_conn-Limited now id m h = elim (Option-cases (lookup id m.remote_by_conn)) [
    | inl e ↦ rw (e, close_remote_conn) h
    | inr (sess, e) ↦ rw (e, close_remote_conn) (close_remote-Limited now sess m h)
  ]

  mark_remote-Limited :
      (now : ℕ) (id : Bytes) (out : w.Outbound) (m : Manager w)
      → Limited m
      → Limited (mark_remote w now id out m)
  unfolding mark_remote
  mark_remote-Limited now id out m h = elim (Bool-cases (w.mark_close now id out).1) [
    | inl t ↦ rw t (
        close_remote_conn-Limited now id (record m { outbound = some (w.mark_close now id out).0 })
          h)
    | inr f ↦ rw f h
  ]

  sent_remote-Limited :
      (close_after : Bool) (e : Option ManagerError) (now : ℕ) (id : Bytes) (out : w.Outbound)
      (m : Manager w)
      → Limited m
      → Limited (sent_remote w close_after e now id out m).0
  unfolding sent_remote
  sent_remote-Limited close_after (some e) now id out m h = h
  sent_remote-Limited true none now id out m h = mark_remote-Limited now id out m h
  sent_remote-Limited false none now id out m h = h

  pub enqueue_remote-Limited :
      (now : ℕ) (id : Bytes) (typ : FrameType) (payload : Bytes) (close_after : Bool)
      (m : Manager w)
      → Limited m
      → Limited (enqueue_remote w now id typ payload close_after m).0
  unfolding enqueue_remote
  enqueue_remote-Limited now id typ payload close_after m h = elim (Option-cases m.outbound) [
    | inl e ↦ rw (e, enqueue_remote) h
    | inr (out, e) ↦
        let s = w.enqueue now id typ payload out in
        rw (e, enqueue_remote) (sent_remote-Limited close_after s.1 now id s.0 m h)
  ]

  report_gap-Limited :
      (now : ℕ) (sess : RemoteSession) (e : ProtocolError) (o : Option w.Outbound) (m : Manager w)
      → Limited m
      → Limited (report_gap w now sess e o m)
  unfolding report_gap
  report_gap-Limited now sess e none m h = close_remote-Limited now sess m h
  report_gap-Limited now sess e (some out) m h = h

  pub handle_remote_sequence_error-Limited :
      (now : ℕ) (sess : RemoteSession) (e : ProtocolError) (m : Manager w)
      → Limited m
      → Limited (handle_remote_sequence_error w now sess e m)
  unfolding handle_remote_sequence_error
  handle_remote_sequence_error-Limited now sess e m h =
      let m' = (deliver_remote_event w sess (Ty.sequence_gap_timeout e) m).0 in
      report_gap-Limited now sess e m'.outbound m'
        (Same-Limited m m' (deliver_remote_event-Same w sess _ m) h)
