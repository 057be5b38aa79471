-- ===== src/Session/Stream.antt =====
-- What a receiver gets of a stream of input (internal/session/session.go).
use exec_over_lark.Prelude.{
  ℕ, ◌≡◌, refl, sym, ◌∙◌, ap, Option, none, some, List, [], ◌∷◌, ◌++◌, All, All-append_left,
  All-append_right,
}
use mathlib.Core.Path.{subst}
use exec_over_lark.Prelude.Bytes.{Bytes, bytes_eq}
use exec_over_lark.Prelude.Dict.{lookup, lookup-insert_self}
use exec_over_lark.Protocol.Frame.{Frame, stdin}
use exec_over_lark.Protocol.Window.{offer_at}
use exec_over_lark.Protocol.Window.Order.{Arrival, run}
use exec_over_lark.Protocol.Window.Complete.{no_errors}
use exec_over_lark.Session.Types as Ty
use exec_over_lark.Session.Types.{
  Subscriber, Call, deliver_remote, World, RemoteSession, Manager, SessionError,
}
use exec_over_lark.Session.Base.{call, deliver_remote_event}
use exec_over_lark.Session.Accept.{put_remote}
use exec_over_lark.Session.Remote.{handle_remote_frame, handle_remote_frames, offer_remote}

abbrev pub IsStdin : Frame → Type 0
IsStdin f = f.type ≡ stdin

-- The frames of one message arrive together.
abbrev pub together : ℕ → List Frame → List Arrival
together now [] = []
together now (f ∷ fs) = (f, now) ∷ together now fs

-- The calls of the receiver with the payloads of the frames, one after the other, behind the calls so
-- far.
abbrev pub told : Bytes → Subscriber → List Frame → List Call → List Call
told id r [] calls = calls
told id r (f ∷ fs) calls =
    told id r fs (deliver_remote id r (Ty.RemoteEvent.stdin f.payload) ∷ calls)

told-append :
    (id : Bytes) (r : Subscriber) (fs gs : List Frame) (calls : List Call)
    → told id r (fs ++ gs) calls ≡ told id r gs (told id r fs calls)
told-append id r [] gs calls = refl
told-append id r (f ∷ fs) gs calls = told-append id r fs gs _

module _ (w : World) where
  -- No receiver fails.
  abbrev pub Quiet : Type 0
  Quiet = (calls : List Call) (c : Call) → w.answer calls c ≡ none

  abbrev with_calls : Manager w → List Call → Manager w
  with_calls m calls = record m { calls = calls }

  deliver_stdin :
      (sess : RemoteSession) (r : Subscriber) (payload : Bytes) (m : Manager w)
      → Quiet
      → sess.receiver ≡ some r
      → deliver_remote_event w sess (Ty.RemoteEvent.stdin payload) m ≡ (
        with_calls m (deliver_remote sess.base.conn_id r (Ty.RemoteEvent.stdin payload) ∷ m.calls),
        none,
      )
  unfolding deliver_remote_event call
  deliver_stdin sess r payload m quiet e =
      rw (e, deliver_remote_event)
        (rw (quiet m.calls (deliver_remote sess.base.conn_id r (Ty.RemoteEvent.stdin payload)))
          refl)

  handle_stdin :
      (now : ℕ) (sess : RemoteSession) (r : Subscriber) (f : Frame) (m : Manager w)
      → Quiet
      → sess.receiver ≡ some r
      → IsStdin f
      → handle_remote_frame w now sess f.type f.payload m ≡ (
        with_calls m
            (deliver_remote sess.base.conn_id r (Ty.RemoteEvent.stdin f.payload) ∷ m.calls),
        none,
      )
  unfolding handle_remote_frame
  handle_stdin now sess r f m quiet e t =
      subst
        (λ x. handle_remote_frame w now sess x f.payload m ≡ (
          with_calls m
              (deliver_remote sess.base.conn_id r (Ty.RemoteEvent.stdin f.payload) ∷ m.calls),
          none,
        ))
        (sym t) (deliver_stdin sess r f.payload m quiet e)

  handle_remote_frames_step :
      (now : ℕ) (id : Bytes) (sess : RemoteSession) (f : Frame) (fs : List Frame) (m m' : Manager w)
      → lookup id m.remote_by_conn ≡ some sess
      → handle_remote_frame w now sess f.type f.payload m ≡ (m', none)
      → handle_remote_frames w now id (f ∷ fs) m ≡ handle_remote_frames w now id fs m'
  unfolding handle_remote_frames
  handle_remote_frames_step now id sess f fs m m' there h =
      rw (there, handle_remote_frames)
        (rw (h, handle_remote_frames)
          (ap (λ (r : Manager w × Option SessionError). handle_remote_frames w now id fs r.0) h))

  offer_remote_step :
      (now : ℕ) (id : Bytes) (sess : RemoteSession) (f : Frame) (fs : List Frame) (m m' : Manager w)
      → lookup id m.remote_by_conn ≡ some sess
      → (offer_at sess.base.rx f now).2 ≡ none
      → handle_remote_frames w now id (offer_at sess.base.rx f now).1.delivered (
          put_remote w
            (record sess { base = record sess.base { rx = (offer_at sess.base.rx f now).0 } })
            m)
        ≡ (m', none)
      → offer_remote w now id (f ∷ fs) m ≡ offer_remote w now id fs m'
  unfolding offer_remote
  offer_remote_step now id sess f fs m m' there ok h =
      rw (there, offer_remote)
        (rw (ok, offer_remote)
          (rw (h, offer_remote)
            (ap (λ (r : Manager w × Option SessionError). offer_remote w now id fs r.0) h)))

  handle_stdins :
      (now : ℕ) (sess : RemoteSession) (r : Subscriber) (fs : List Frame) (m : Manager w)
      → Quiet
      → lookup sess.base.conn_id m.remote_by_conn ≡ some sess
      → sess.receiver ≡ some r
      → All IsStdin fs
      → handle_remote_frames w now sess.base.conn_id fs m
        ≡ (with_calls m (told sess.base.conn_id r fs m.calls), none)
  unfolding handle_remote_frames
  handle_stdins now sess r [] m quiet there e t = refl
  handle_stdins now sess r (f ∷ fs) m quiet there e t =
      let h = handle_stdin now sess r f m quiet e t.0 in
      let m' =
        with_calls m
          (deliver_remote sess.base.conn_id r (Ty.RemoteEvent.stdin f.payload) ∷ m.calls) in
      let ih = handle_stdins now sess r fs m' quiet there e t.1 in
      handle_remote_frames_step now sess.base.conn_id sess f fs m m' there h ∙ ih

  -- What the offer of frames comes to.
  abbrev Streams :
      RemoteSession → Subscriber → List Frame → List Call → Manager w × Option SessionError → Type 0
  Streams sess r delivered calls out =
      (out.0.calls ≡ told sess.base.conn_id r delivered calls) × (out.1 ≡ none)

  offer_remote-Streams :
      (now : ℕ) (sess : RemoteSession) (r : Subscriber) (fs : List Frame) (m : Manager w)
      → Quiet
      → lookup sess.base.conn_id m.remote_by_conn ≡ some sess
      → sess.receiver ≡ some r
      → (run sess.base.rx (together now fs)).2 ≡ []
      → All IsStdin (run sess.base.rx (together now fs)).1
      → Streams sess r
          (run sess.base.rx (together now fs)).1
          m.calls
          (offer_remote w now sess.base.conn_id fs m)
  unfolding run offer_remote put_remote
  offer_remote-Streams now sess r [] m quiet there e ok t = (refl, refl)
  offer_remote-Streams now sess r (f ∷ fs) m quiet there e ok t =
      let id = sess.base.conn_id in
      let o = offer_at sess.base.rx f now in
      let rest = run o.0 (together now fs) in
      let (in_time, ok') = no_errors o.2 rest.2 ok in
      let sess' : RemoteSession = record sess { base = record sess.base { rx = o.0 } } in
      let m' = put_remote w sess' m in
      let here : lookup id m'.remote_by_conn ≡ some sess' =
        lookup-insert_self id sess' m.remote_by_conn in
      let now_told =
        handle_stdins now sess' r o.1.delivered m' quiet here e
          (All-append_left IsStdin o.1.delivered rest.1 t) in
      let m'' = with_calls m' (told id r o.1.delivered m'.calls) in
      let ih =
        offer_remote-Streams now sess' r fs m'' quiet here e ok'
          (All-append_right IsStdin o.1.delivered rest.1 t) in
      let step = offer_remote_step now id sess f fs m m'' there in_time now_told in
      subst (Streams sess r (o.1.delivered ++ rest.1) m.calls) (sym step)
        (ih.0 ∙ sym (told-append id r o.1.delivered rest.1 m.calls), ih.1)

  -- A message whose frames are offered to a session with a receiver that does not fail, where no gap times out
  -- and the window delivers nothing but input: the receiver is called with the payloads of exactly the
  -- frames that the window delivers, in that order, and there is no error.
  pub offer_remote_stream :
      (now : ℕ) (sess : RemoteSession) (r : Subscriber) (fs : List Frame) (m : Manager w)
      → Quiet
      → lookup sess.base.conn_id m.remote_by_conn ≡ some sess
      → sess.receiver ≡ some r
      → (run sess.base.rx (together now fs)).2 ≡ []
      → All IsStdin (run sess.base.rx (together now fs)).1
      → ((offer_remote w now sess.base.conn_id fs m).0.calls
          ≡ told sess.base.conn_id r (run sess.base.rx (together now fs)).1 m.calls)
        × ((offer_remote w now sess.base.conn_id fs m).1 ≡ none)
  offer_remote_stream now sess r fs m quiet there e ok t =
      offer_remote-Streams now sess r fs m quiet there e ok t
