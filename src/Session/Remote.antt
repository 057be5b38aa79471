-- ===== src/Session/Remote.antt =====
-- internal/session/session.go: what a remote session receives and sends.
use exec_over_lark.Prelude.{ℕ, Bool, true, false, Option, none, some, List, [], ◌∷◌, if◌then◌else◌}
use exec_over_lark.Prelude.Bytes.{Bytes, codes, is_blank, bytes_eq}
use exec_over_lark.Prelude.Dict.{lookup}
use exec_over_lark.Protocol.Frame.{
  Frame, FrameType, ProtocolError, stdin, resize, signal, heartbeat, close, error,
}
use exec_over_lark.Protocol.Window.{offer_at}
use exec_over_lark.Outbound.Types.{DropReason}
use exec_over_lark.Outbound.Manager.{ManagerError}
use exec_over_lark.Session.Types as Ty
use exec_over_lark.Session.Types.{
  SessionError, invalid_session, session_not_found, session_closed, unexpected_frame,
  no_outbound_manager, remote_session_limit, protocol_error, outbound_error, payload_error,
  outbound_drop, Subscriber, StartPayload, RemoteEvent, World, SessionState, RemoteSession, Manager,
  InboundMessage,
}
use exec_over_lark.Session.Base.{
  normalize_conn_id, ensure_peer, deliver_remote_event, close_remote, close_remote_conn,
}
use exec_over_lark.Session.Accept.{put_remote}

module _ (w : World) where
  -- `MarkCloseAfterDrained`, where the outbound manager may call `OnDrained` at once.
  unfoldable pub mark_remote : ℕ → Bytes → w.Outbound → Manager w → Manager w
  mark_remote now conn_id out m =
      let (out', drained) = w.mark_close now conn_id out in
      let m' : Manager w = record m { outbound = some out' } in
      if drained then close_remote_conn w now conn_id m' else m'

  -- The end of `sendRemoteFrame`: whether to close, and the error of `Enqueue`.
  unfoldable pub sent_remote :
      Bool
      → Option ManagerError
      → ℕ
      → Bytes
      → w.Outbound
      → Manager w
      → Manager w × Option SessionError
  sent_remote close_after (some e) now conn_id out m =
      (record m { outbound = some out }, some (outbound_error e))
  sent_remote true none now conn_id out m = (mark_remote now conn_id out m, none)
  sent_remote false none now conn_id out m = (record m { outbound = some out }, none)

  unfoldable pub enqueue_remote :
      ℕ → Bytes → FrameType → Bytes → Bool → Manager w → Manager w × Option SessionError
  unfolding sent_remote
  enqueue_remote now conn_id typ payload close_after m = elim m.outbound [
    | none ↦ (m, some no_outbound_manager)
    | some out ↦
        let (out', e) = w.enqueue now conn_id typ payload out in
        sent_remote close_after e now conn_id out' m
  ]

  -- `sendRemoteFrame`
  unfoldable pub send_remote_frame :
      ℕ → Bytes → FrameType → Bytes → Bool → Manager w → Manager w × Option SessionError
  send_remote_frame now conn_id typ payload close_after m = elim (lookup conn_id m.remote_by_conn) [
    | none ↦ (m, some session_not_found)
    | some sess ↦
        if sess.base.closed
        then (m, some session_not_found)
        else enqueue_remote now conn_id typ payload close_after m
  ]

  -- An event, and the end of the session.
  unfoldable pub finish_remote :
      ℕ → RemoteEvent → RemoteSession → Manager w → Manager w × Option SessionError
  finish_remote now event sess m =
      let (m', e) = deliver_remote_event w sess event m in (close_remote w now sess m', e)

  unfoldable pub deliver_decoded :
      Option RemoteEvent → RemoteSession → Manager w → Manager w × Option SessionError
  deliver_decoded none sess m = (m, some payload_error)
  deliver_decoded (some event) sess m = deliver_remote_event w sess event m

  -- A payload that does not decode leaves the session as it is.
  unfoldable pub finish_decoded :
      Option RemoteEvent → ℕ → RemoteSession → Manager w → Manager w × Option SessionError
  finish_decoded none now sess m = (m, some payload_error)
  finish_decoded (some event) now sess m = finish_remote now event sess m

  -- `handleRemoteFrameLocked`
  unfoldable pub handle_remote_frame :
      ℕ → RemoteSession → FrameType → Bytes → Manager w → Manager w × Option SessionError
  unfolding deliver_decoded finish_decoded
  handle_remote_frame now sess heartbeat payload m = (m, none)
  handle_remote_frame now sess stdin payload m =
      deliver_remote_event w sess (Ty.RemoteEvent.stdin payload) m
  handle_remote_frame now sess resize payload m =
      deliver_decoded
        (elim (w.decode_resize payload) [
          | none ↦ none
          | some (rows, cols) ↦ some (Ty.RemoteEvent.resize rows cols)
        ])
        sess m
  handle_remote_frame now sess signal payload m =
      deliver_decoded
        (elim (w.decode_signal payload) [
          | none ↦ none
          | some name ↦ some (Ty.RemoteEvent.signal name)
        ])
        sess m
  handle_remote_frame now sess close payload m =
      finish_decoded
        (elim (w.decode_reason payload) [
          | none ↦ none
          | some reason ↦ some (Ty.RemoteEvent.close reason)
        ])
        now sess m
  handle_remote_frame now sess error payload m =
      finish_decoded
        (elim (w.decode_error payload) [
          | none ↦ none
          | some (message, detail) ↦ some (Ty.RemoteEvent.error message detail)
        ])
        now sess m
  handle_remote_frame now sess _ payload m =
      let (m', e) = finish_remote now (Ty.RemoteEvent.failed unexpected_frame) sess m in
      (m', some unexpected_frame)

  -- The error frame of `handleRemoteSequenceErrorLocked`: the session ends once it is sent. An
  -- `OnDrained` that is called at once waits for the lock that is held.
  unfoldable pub report_gap :
      ℕ → RemoteSession → ProtocolError → Option w.Outbound → Manager w → Manager w
  report_gap now sess e none m = close_remote w now sess m
  report_gap now sess e (some out) m =
      let (out', _) =
        w.enqueue now sess.base.conn_id error
          (w.error_payload (codes "sequence gap timeout") (protocol_error e)) out in
      let (out'', drained) = w.mark_close now sess.base.conn_id out' in
      record m { outbound = some out''; deadlocked = if drained then true else m.deadlocked }

  -- `handleRemoteSequenceErrorLocked`
  unfoldable pub handle_remote_sequence_error :
      ℕ → RemoteSession → ProtocolError → Manager w → Manager w
  handle_remote_sequence_error now sess e m =
      let (m', _) = deliver_remote_event w sess (Ty.sequence_gap_timeout e) m in
      report_gap now sess e m'.outbound m'

  -- The inner loop of `ReceiveRemote`, which ends with an error and with the session.
  unfoldable pub handle_remote_frames :
      ℕ → Bytes → List Frame → Manager w → Manager w × Option SessionError
  handle_remote_frames now conn_id [] m = (m, none)
  handle_remote_frames now conn_id (frame ∷ frames) m = elim (lookup conn_id m.remote_by_conn) [
    | none ↦ (m, none)
    | some sess ↦
        let (m', e) = handle_remote_frame now sess frame.type frame.payload m in
        elim e [ some x ↦ (m', some x) | none ↦ handle_remote_frames now conn_id frames m' ]
  ]

  -- The loop of `ReceiveRemote` over the frames of a message.
  unfoldable pub offer_remote : ℕ → Bytes → List Frame → Manager w → Manager w × Option SessionError
  offer_remote now conn_id [] m = (m, none)
  offer_remote now conn_id (frame ∷ frames) m = elim (lookup conn_id m.remote_by_conn) [
    | none ↦ (m, none)
    | some sess₀ ↦
        let (rx, result, timed_out) = offer_at sess₀.base.rx frame now in
        let sess : RemoteSession = record sess₀ { base = record sess₀.base { rx = rx } } in
        let m' = put_remote w sess m in
        elim timed_out [
          | some e ↦ (handle_remote_sequence_error now sess e m', some (protocol_error e))
          | none ↦
              let (m'', e) = handle_remote_frames now conn_id result.delivered m' in
              elim e [ some x ↦ (m'', some x) | none ↦ offer_remote now conn_id frames m'' ]
        ]
  ]

  unfoldable pub receive_remote : ℕ → InboundMessage → Manager w → Manager w × Option SessionError
  receive_remote now msg m =
      let conn_id = normalize_conn_id msg in
      if is_blank conn_id
      then (m, some invalid_session)
      else elim (lookup conn_id m.remote_by_conn) [
        | none ↦ (m, some session_not_found)
        | some sess ↦
            if sess.base.closed
            then (m, some session_not_found)
            else elim (ensure_peer msg.chat_id msg.sender_open_id sess.base) [
              | some e ↦ (m, some e)
              | none ↦ offer_remote now conn_id msg.frames (
                  put_remote w
                    (record sess { base = record sess.base { last_peer_message_at = now } }) m)
            ]
      ]

  -- `handleRemoteOutboundDrop`
  unfoldable pub handle_remote_outbound_drop : ℕ → Bytes → DropReason → Manager w → Manager w
  handle_remote_outbound_drop now conn_id reason m = elim (lookup conn_id m.remote_by_conn) [
    | none ↦ m
    | some sess ↦
        if sess.base.closed
        then m
        else (finish_remote now (Ty.RemoteEvent.failed (outbound_drop reason)) sess m).0
  ]
