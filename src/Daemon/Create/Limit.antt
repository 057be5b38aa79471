-- ===== src/Daemon/Create/Limit.antt =====
-- internal/daemon/remote.go: the limit of sessions, from the configuration to the stream of events.
use exec_over_lark.Prelude.{
  ◌≡◌, refl, ℕ, Bool, not, ◌||◌, ◌==◌, zero, suc, Option, List, arith, if◌then◌else◌,
}
use mathlib.Core.Path.{subst}
use exec_over_lark.Prelude.Bytes.{Bytes, is_blank}
use exec_over_lark.Prelude.Int.{ℤ, pos, negsuc, ltz}
use exec_over_lark.Prelude.Result.{ok, ensure, >>_iff, >>=-eq-ok}
use exec_over_lark.Config.Types.{default_max_sessions}
use exec_over_lark.Lark.Event.{Json}
use exec_over_lark.RemoteExec.Types.{ContextError}
use exec_over_lark.Session.Types.{World}
use exec_over_lark.Session.Base.{new_manager, default_max_remote_sessions}
use exec_over_lark.Session.Limit.{Limited}
use exec_over_lark.Daemon.Remote.{RemoteDaemon, RemoteConfig, normalize_remote_config, or_positive}
use exec_over_lark.Daemon.Create.{RemoteOptions, positive, of_outbound, remote_daemon, new_remote}
use exec_over_lark.Daemon.Events.{MetaEnvelope, Line, consume_event_stream}
use exec_over_lark.Daemon.Events.Limit.{WithinLimit, consume_event_stream-WithinLimit}

-- The configured number if it is positive, and else the default 8.
abbrev pub session_limit : ℤ → ℕ
session_limit z = if ltz (pos 0) z then positive z else 8

limit_of :
    (z : ℤ)
    → (if positive (or_positive z default_max_sessions) == 0
        then default_max_remote_sessions
        else positive (or_positive z default_max_sessions))
      ≡ session_limit z
limit_of (pos zero) = refl
limit_of (pos (suc n)) = ground arith
limit_of (negsuc n) = refl

remote_daemon-WithinLimit :
    (w : World) (cfg : RemoteConfig) (self : Bytes) (out : w.Outbound)
    → WithinLimit w
        (session_limit cfg.max_sessions)
        (remote_daemon w (normalize_remote_config cfg) self out)
unfolding remote_daemon normalize_remote_config new_manager
remote_daemon-WithinLimit w cfg self out = (tt, omega arith, limit_of cfg.max_sessions)

-- However many events arrive at a daemon that NewRemote made, and however their stream ends: its remote sessions are
-- open, each stands under its own connection, and there are never more of them than the configured limit, which is
-- 8 if the configured number is not positive.
pub new_remote_limit :
    (unmarshal : Bytes → Option MetaEnvelope) (json : Json) (w : World) (opts : RemoteOptions w)
    (readable : Bool) (ctx : Option ContextError) (lines : List Line) {d : RemoteDaemon w}
    → new_remote w opts ≡ ok d
    → Limited w
        (session_limit opts.config.max_sessions)
        (consume_event_stream unmarshal json w readable ctx lines d).0.manager
unfolding new_remote
new_remote_limit unmarshal json w opts readable ctx lines {d} h =
    let cfg = normalize_remote_config opts.config in
    let limit = session_limit opts.config.max_sessions in
    let (_, h1) = (>>_iff (ensure cfg.exec_enabled _) _ d).0 h in
    let (_, h2) = (>>_iff (ensure (opts.event_stream || opts.event_source) _) _ d).0 h1 in
    let (_, h3) = (>>_iff (ensure (not (is_blank opts.self_bot_open_id)) _) _ d).0 h2 in
    let (_, h4) = (>>_iff (ensure opts.sender _) _ d).0 h3 in
    let (out, _, h5) = >>=-eq-ok (of_outbound w opts.outbound) _ h4 in
    let (_, h6) =
      (>>_iff (ensure (opts.executor || not (is_blank cfg.default_shell)) _) _ d).0 h5 in
    let q : remote_daemon w cfg opts.self_bot_open_id out ≡ d = cc h6 in
    consume_event_stream-WithinLimit w limit unmarshal json readable ctx lines d (
      subst (WithinLimit w limit) q
        (remote_daemon-WithinLimit w opts.config opts.self_bot_open_id out))
