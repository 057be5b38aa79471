-- ===== src/Session/Limit/Steps.antt =====
-- The steps of the remote sessions keep their limit (internal/session/session.go).
use exec_over_lark.Prelude.{
  ℕ, ◌≡◌, refl, sym, ◌∙◌, Option, none, some, List, [], ◌∷◌, Option-cases, inl, inr,
}
use mathlib.Core.Path.{subst}
use exec_over_lark.Prelude.Bytes.{Bytes, bytes_eq}
use exec_over_lark.Prelude.Dict.{lookup, Every-lookup}
use exec_over_lark.Protocol.Frame.{
  Frame, FrameType, start, start_ack, stdin, stdout, stderr, resize, signal, heartbeat, exit, close,
  error, other,
}
use exec_over_lark.Protocol.Window.{offer_at}
use exec_over_lark.Session.Types.{RemoteEvent, World, RemoteSession, Manager}
use exec_over_lark.Session.Base.{deliver_remote_event}
use exec_over_lark.Session.Accept.{put_remote}
use exec_over_lark.Session.Remote.{
  deliver_decoded, finish_decoded, handle_remote_frame, handle_remote_frames, offer_remote,
}
use exec_over_lark.Session.Same.{deliver_remote_event-Same}
use exec_over_lark.Session.Limit.{
  Live, Limited, Same-Limited, put_remote-Limited, finish_remote-Limited,
  handle_remote_sequence_error-Limited,
}

module _ (w : World) (cap : ℕ) where
  pub deliver-Limited :
      (sess : RemoteSession) (event : RemoteEvent) (m : Manager w)
      → Limited w cap m
      → Limited w cap (deliver_remote_event w sess event m).0
  deliver-Limited sess event m h =
      Same-Limited w cap m (deliver_remote_event w sess event m).0
        (deliver_remote_event-Same w sess event m) h

  deliver_decoded-Limited :
      (o : Option RemoteEvent) (sess : RemoteSession) (m : Manager w)
      → Limited w cap m
      → Limited w cap (deliver_decoded w o sess m).0
  unfolding deliver_decoded
  deliver_decoded-Limited none sess m h = h
  deliver_decoded-Limited (some event) sess m h = deliver-Limited sess event m h

  finish_decoded-Limited :
      (o : Option RemoteEvent) (now : ℕ) (sess : RemoteSession) (m : Manager w)
      → Limited w cap m
      → Limited w cap (finish_decoded w o now sess m).0
  unfolding finish_decoded
  finish_decoded-Limited none now sess m h = h
  finish_decoded-Limited (some event) now sess m h = finish_remote-Limited w cap now event sess m h

  handle_remote_frame-Limited :
      (now : ℕ) (sess : RemoteSession) (t : FrameType) (payload : Bytes) (m : Manager w)
      → Limited w cap m
      → Limited w cap (handle_remote_frame w now sess t payload m).0
  unfolding handle_remote_frame
  handle_remote_frame-Limited now sess heartbeat payload m h = h
  handle_remote_frame-Limited now sess stdin payload m h = deliver-Limited sess _ m h
  handle_remote_frame-Limited now sess resize payload m h = deliver_decoded-Limited _ sess m h
  handle_remote_frame-Limited now sess signal payload m h = deliver_decoded-Limited _ sess m h
  handle_remote_frame-Limited now sess close payload m h = finish_decoded-Limited _ now sess m h
  handle_remote_frame-Limited now sess error payload m h = finish_decoded-Limited _ now sess m h
  handle_remote_frame-Limited now sess start payload m h =
      finish_remote-Limited w cap now _ sess m h
  handle_remote_frame-Limited now sess start_ack payload m h =
      finish_remote-Limited w cap now _ sess m h
  handle_remote_frame-Limited now sess stdout payload m h =
      finish_remote-Limited w cap now _ sess m h
  handle_remote_frame-Limited now sess stderr payload m h =
      finish_remote-Limited w cap now _ sess m h
  handle_remote_frame-Limited now sess exit payload m h = finish_remote-Limited w cap now _ sess m h
  handle_remote_frame-Limited now sess (other s) payload m h =
      finish_remote-Limited w cap now _ sess m h

  pub handle_remote_frames-Limited :
      (now : ℕ) (id : Bytes) (fs : List Frame) (m : Manager w)
      → Limited w cap m
      → Limited w cap (handle_remote_frames w now id fs m).0
  unfolding handle_remote_frames
  handle_remote_frames-Limited now id [] m h = h
  handle_remote_frames-Limited now id (f ∷ fs) m h =
      elim (Option-cases (lookup id m.remote_by_conn)) [
        | inl e ↦ rw (e, handle_remote_frames) h
        | inr (sess, e) ↦
            let r = handle_remote_frame w now sess f.type f.payload m in
            let k = handle_remote_frame-Limited now sess f.type f.payload m h in
            elim (Option-cases r.1) [
              | inl x ↦
                  rw (e, handle_remote_frames)
                    (rw (x, handle_remote_frames) (handle_remote_frames-Limited now id fs r.0 k))
              | inr (x, y) ↦ rw (e, handle_remote_frames) (rw (y, handle_remote_frames) k)
            ]
      ]

  -- A session that is there, with other data, is still within the limit.
  pub reset-Limited :
      (id : Bytes) (old sess : RemoteSession) (m : Manager w)
      → lookup id m.remote_by_conn ≡ some old
      → sess.base.conn_id ≡ old.base.conn_id
      → sess.base.closed ≡ old.base.closed
      → Limited w cap m
      → Limited w cap (put_remote w sess m)
  reset-Limited id old sess m e same_id same_closed h =
      let live = Every-lookup Live id m.remote_by_conn h.0 e in
      put_remote-Limited w cap sess old m (same_closed ∙ live.1)
        (subst (λ k. lookup k m.remote_by_conn ≡ some old) (sym (same_id ∙ live.0)) e) h

  pub offer_remote-Limited :
      (now : ℕ) (id : Bytes) (fs : List Frame) (m : Manager w)
      → Limited w cap m
      → Limited w cap (offer_remote w now id fs m).0
  unfolding offer_remote
  offer_remote-Limited now id [] m h = h
  offer_remote-Limited now id (f ∷ fs) m h = elim (Option-cases (lookup id m.remote_by_conn)) [
    | inl e ↦ rw (e, offer_remote) h
    | inr (old, e) ↦
        let o = offer_at old.base.rx f now in
        let sess : RemoteSession = record old { base = record old.base { rx = o.0 } } in
        let m' = put_remote w sess m in
        let k = reset-Limited id old sess m e refl refl h in
        elim (Option-cases o.2) [
          | inr (x, late) ↦
              rw (e, offer_remote)
                (rw (late, offer_remote)
                  (handle_remote_sequence_error-Limited w cap now sess x m' k))
          | inl in_time ↦
              let r = handle_remote_frames w now id o.1.delivered m' in
              let l = handle_remote_frames-Limited now id o.1.delivered m' k in
              elim (Option-cases r.1) [
                | inl good ↦
                    rw (e, offer_remote)
                      (rw (in_time, offer_remote)
                        (rw (good, offer_remote) (offer_remote-Limited now id fs r.0 l)))
                | inr (x, bad) ↦
                    rw (e, offer_remote) (rw (in_time, offer_remote) (rw (bad, offer_remote) l))
              ]
        ]
  ]
