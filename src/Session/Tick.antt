-- ===== src/Session/Tick.antt =====
-- internal/session/session.go: `Tick`, which looks for gaps and peers that timed out.
use exec_over_lark.Prelude.{ℕ, Option, none, some, [], ◌∷◌, if◌then◌else◌}
use exec_over_lark.Prelude.Bytes.{Bytes, bytes_eq}
use exec_over_lark.Prelude.Dict.{Dict, lookup}
use exec_over_lark.Protocol.Frame.{ProtocolError}
use exec_over_lark.Protocol.Window.{check_gap_timeout_at}
use exec_over_lark.Session.Types.{
  SessionError, protocol_error, peer_heartbeat_timeout, peer_timeout, World, LocalSession,
  RemoteSession, Manager,
}
use exec_over_lark.Session.Base.{peer_timed_out, first_err, sorted}
use exec_over_lark.Session.Register.{put_local}
use exec_over_lark.Session.Local.{fail_local}
use exec_over_lark.Session.Accept.{put_remote}
use exec_over_lark.Session.Remote.{finish_remote, handle_remote_sequence_error}

module _ (w : World) where
  -- A session in `Tick`, with the state of its window, and the error that it adds.
  unfoldable pub check_local :
      ℕ → LocalSession → Option ProtocolError → Manager w → Manager w × Option SessionError
  check_local now sess (some e) m =
      (fail_local w now (protocol_error e) sess m, some (protocol_error e))
  check_local now sess none m =
      if peer_timed_out now sess.base
      then (
        fail_local w now (peer_heartbeat_timeout sess.base.peer_heartbeat_timeout) sess m,
        some (peer_heartbeat_timeout sess.base.peer_heartbeat_timeout),
      )
      else (m, none)

  unfoldable pub tick_local : ℕ → LocalSession → Manager w → Manager w × Option SessionError
  unfolding check_local
  tick_local now sess m =
      if sess.base.closed
      then (m, none)
      else let (rx, timed_out) = check_gap_timeout_at sess.base.rx now in
        let sess' : LocalSession = record sess { base = record sess.base { rx = rx } } in
        check_local now sess' timed_out (put_local w sess' m)

  unfoldable pub check_remote :
      ℕ → RemoteSession → Option ProtocolError → Manager w → Manager w × Option SessionError
  check_remote now sess (some e) m =
      (handle_remote_sequence_error w now sess e m, some (protocol_error e))
  check_remote now sess none m =
      if peer_timed_out now sess.base
      then (
        (finish_remote w now (peer_timeout sess.base.peer_heartbeat_timeout) sess m).0,
        some (peer_heartbeat_timeout sess.base.peer_heartbeat_timeout),
      )
      else (m, none)

  unfoldable pub tick_remote : ℕ → RemoteSession → Manager w → Manager w × Option SessionError
  unfolding check_remote
  tick_remote now sess m =
      if sess.base.closed
      then (m, none)
      else let (rx, timed_out) = check_gap_timeout_at sess.base.rx now in
        let sess' : RemoteSession = record sess { base = record sess.base { rx = rx } } in
        check_remote now sess' timed_out (put_remote w sess' m)

  -- The two loops, over the sessions that there were at the start of each, with the first error so far. A
  -- session is closed exactly when it is in its map no more.
  unfoldable pub tick_locals :
      ℕ
      → Option SessionError
      → Dict Bytes LocalSession
      → Manager w
      → Manager w × Option SessionError
  unfolding tick_local
  tick_locals now e [] m = (m, e)
  tick_locals now e ((conn_id, _) ∷ rest) m = elim (lookup conn_id m.local_by_conn) [
    | none ↦ tick_locals now e rest m
    | some sess ↦
        let (m', next) = tick_local now sess m in tick_locals now (first_err e next) rest m'
  ]

  unfoldable pub tick_remotes :
      ℕ
      → Option SessionError
      → Dict Bytes RemoteSession
      → Manager w
      → Manager w × Option SessionError
  unfolding tick_remote
  tick_remotes now e [] m = (m, e)
  tick_remotes now e ((conn_id, _) ∷ rest) m = elim (lookup conn_id m.remote_by_conn) [
    | none ↦ tick_remotes now e rest m
    | some sess ↦
        let (m', next) = tick_remote now sess m in tick_remotes now (first_err e next) rest m'
  ]

  unfoldable pub tick : ℕ → Manager w → Manager w × Option SessionError
  tick now m =
      let (m', e) = tick_locals now none (sorted m.local_by_conn) m in
      tick_remotes now e (sorted m'.remote_by_conn) m'
