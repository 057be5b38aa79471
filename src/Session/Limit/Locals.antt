-- ===== src/Session/Limit/Locals.antt =====
-- The operations on the client's sessions leave the remote ones alone (internal/session/session.go).
use exec_over_lark.Prelude.{
  ℕ, refl, ◌∙◌, Bool, true, false, Option, none, some, List, [], ◌∷◌, Bool-cases, Option-cases, inl,
  inr,
}
use exec_over_lark.Prelude.Bytes.{Bytes, bytes_eq}
use exec_over_lark.Prelude.Dict.{lookup}
use exec_over_lark.Protocol.Frame.{
  Frame, FrameType, start, start_ack, stdin, stdout, stderr, resize, signal, heartbeat, exit, close,
  error, other,
}
use exec_over_lark.Protocol.Window.{offer_at}
use exec_over_lark.Outbound.Manager.{ManagerError}
use exec_over_lark.Session.Types as Ty
use exec_over_lark.Session.Types.{
  SessionError, Subscriber, LocalEvent, World, LocalSession, Manager, LocalStart, InboundMessage,
}
use exec_over_lark.Session.Base.{deliver_local_event, close_local, close_local_conn}
use exec_over_lark.Session.Register.{put_local}
use exec_over_lark.Session.Local.{
  mark_local, sent_local, enqueue_local, fail_local, finish_local, ack_local, finish_decoded,
  handle_local_frame, handle_local_frames, offer_local,
}
use exec_over_lark.Session.Same.{Same, Same-trans, deliver_local_event-Same, close_local-Same}

module _ (w : World) where
  pub close_local_conn-Same :
      (now : ℕ) (id : Bytes) (m : Manager w) → Same w m (close_local_conn w now id m)
  unfolding close_local_conn
  close_local_conn-Same now id m = elim (Option-cases (lookup id m.local_by_conn)) [
    | inl e ↦ rw (e, close_local_conn) (refl, refl)
    | inr (sess, e) ↦ rw (e, close_local_conn) (close_local-Same w now sess m)
  ]

  pub fail_local-Same :
      (now : ℕ) (e : SessionError) (sess : LocalSession) (m : Manager w)
      → Same w m (fail_local w now e sess m)
  unfolding fail_local
  fail_local-Same now e sess m =
      let m' = (deliver_local_event w sess (Ty.LocalEvent.failed e) m).0 in
      Same-trans w m m' (close_local w now sess m') (deliver_local_event-Same w sess _ m)
        (close_local-Same w now sess m')

  finish_local-Same :
      (now : ℕ) (event : LocalEvent) (sess : LocalSession) (m : Manager w)
      → Same w m (finish_local w now event sess m).0
  unfolding finish_local
  finish_local-Same now event sess m =
      let m' = (deliver_local_event w sess event m).0 in
      Same-trans w m m' (close_local w now sess m') (deliver_local_event-Same w sess event m)
        (close_local-Same w now sess m')

  ack_local-Same :
      (o : Option Bytes) (now : ℕ) (sess : LocalSession) (m : Manager w)
      → Same w m (ack_local w o now sess m).0
  unfolding ack_local put_local
  ack_local-Same none now sess m = fail_local-Same now _ sess m
  ack_local-Same (some timeout) now sess m = deliver_local_event-Same w _ _ _

  finish_decoded-Same :
      (o : Option LocalEvent) (now : ℕ) (sess : LocalSession) (m : Manager w)
      → Same w m (finish_decoded w o now sess m).0
  unfolding finish_decoded
  finish_decoded-Same none now sess m = fail_local-Same now _ sess m
  finish_decoded-Same (some event) now sess m = finish_local-Same now event sess m

  handle_local_frame-Same :
      (now : ℕ) (sess : LocalSession) (t : FrameType) (payload : Bytes) (m : Manager w)
      → Same w m (handle_local_frame w now sess t payload m).0
  unfolding handle_local_frame
  handle_local_frame-Same now sess start_ack payload m = ack_local-Same _ now sess m
  handle_local_frame-Same now sess heartbeat payload m = (refl, refl)
  handle_local_frame-Same now sess stdout payload m = deliver_local_event-Same w sess _ m
  handle_local_frame-Same now sess stderr payload m = deliver_local_event-Same w sess _ m
  handle_local_frame-Same now sess exit payload m = finish_decoded-Same _ now sess m
  handle_local_frame-Same now sess error payload m = finish_decoded-Same _ now sess m
  handle_local_frame-Same now sess close payload m = finish_decoded-Same _ now sess m
  handle_local_frame-Same now sess start payload m = fail_local-Same now _ sess m
  handle_local_frame-Same now sess stdin payload m = fail_local-Same now _ sess m
  handle_local_frame-Same now sess resize payload m = fail_local-Same now _ sess m
  handle_local_frame-Same now sess signal payload m = fail_local-Same now _ sess m
  handle_local_frame-Same now sess (other s) payload m = fail_local-Same now _ sess m

  handle_local_frames-Same :
      (now : ℕ) (id : Bytes) (fs : List Frame) (m : Manager w)
      → Same w m (handle_local_frames w now id fs m).0
  unfolding handle_local_frames
  handle_local_frames-Same now id [] m = (refl, refl)
  handle_local_frames-Same now id (f ∷ fs) m = elim (Option-cases (lookup id m.local_by_conn)) [
    | inl e ↦ rw (e, handle_local_frames) (refl, refl)
    | inr (sess, e) ↦
        let r = handle_local_frame w now sess f.type f.payload m in
        let s = handle_local_frame-Same now sess f.type f.payload m in
        elim (Option-cases r.1) [
          | inl good ↦
              let t = handle_local_frames-Same now id fs r.0 in
              rw (e, handle_local_frames) (rw (good, handle_local_frames) (t.0 ∙ s.0, t.1 ∙ s.1))
          | inr (x, bad) ↦ rw (e, handle_local_frames) (rw (bad, handle_local_frames) s)
        ]
  ]

  pub offer_local-Same :
      (now : ℕ) (id : Bytes) (fs : List Frame) (m : Manager w)
      → Same w m (offer_local w now id fs m).0
  unfolding offer_local put_local
  offer_local-Same now id [] m = (refl, refl)
  offer_local-Same now id (f ∷ fs) m = elim (Option-cases (lookup id m.local_by_conn)) [
    | inl e ↦ rw (e, offer_local) (refl, refl)
    | inr (old, e) ↦
        let o = offer_at old.base.rx f now in
        let sess : LocalSession = record old { base = record old.base { rx = o.0 } } in
        let m' = put_local w sess m in
        elim (Option-cases o.2) [
          | inr (x, late) ↦
              rw (e, offer_local) (rw (late, offer_local) (fail_local-Same now _ sess m'))
          | inl in_time ↦
              let r = handle_local_frames w now id o.1.delivered m' in
              let s = handle_local_frames-Same now id o.1.delivered m' in
              elim (Option-cases r.1) [
                | inl good ↦
                    let t = offer_local-Same now id fs r.0 in
                    rw (e, offer_local)
                      (rw (in_time, offer_local) (rw (good, offer_local) (t.0 ∙ s.0, t.1 ∙ s.1)))
                | inr (x, bad) ↦
                    rw (e, offer_local) (rw (in_time, offer_local) (rw (bad, offer_local) s))
              ]
        ]
  ]

  mark_local-Same :
      (now : ℕ) (id : Bytes) (out : w.Outbound) (m : Manager w)
      → Same w m (mark_local w now id out m)
  unfolding mark_local
  mark_local-Same now id out m = elim (Bool-cases (w.mark_close now id out).1) [
    | inl t ↦
        rw t
          (close_local_conn-Same now id (record m { outbound = some (w.mark_close now id out).0 }))
    | inr f ↦ rw f (refl, refl)
  ]

  sent_local-Same :
      (close_after : Bool) (e : Option ManagerError) (now : ℕ) (id : Bytes) (out : w.Outbound)
      (m : Manager w)
      → Same w m (sent_local w close_after e now id out m).0
  unfolding sent_local
  sent_local-Same close_after (some e) now id out m = (refl, refl)
  sent_local-Same true none now id out m = mark_local-Same now id out m
  sent_local-Same false none now id out m = (refl, refl)

  pub enqueue_local-Same :
      (now : ℕ) (id : Bytes) (t : FrameType) (payload : Bytes) (close_after : Bool) (m : Manager w)
      → Same w m (enqueue_local w now id t payload close_after m).0
  unfolding enqueue_local
  enqueue_local-Same now id t payload close_after m = elim (Option-cases m.outbound) [
    | inl e ↦ rw (e, enqueue_local) (refl, refl)
    | inr (out, e) ↦ rw (e, enqueue_local) (sent_local-Same close_after _ now id _ m)
  ]
