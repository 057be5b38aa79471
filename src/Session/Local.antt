-- ===== src/Session/Local.antt =====
-- internal/session/session.go: what a client's session receives and sends.
use exec_over_lark.Prelude.{ℕ, Bool, true, false, Option, none, some, List, [], ◌∷◌, if◌then◌else◌}
use exec_over_lark.Prelude.Bytes.{Bytes, is_blank, trim_space, bytes_eq}
use exec_over_lark.Prelude.Dict.{lookup}
use exec_over_lark.Protocol.Frame.{
  Frame, FrameType, start_ack, stdout, stderr, heartbeat, exit, close, error,
}
use exec_over_lark.Protocol.Window.{offer_at}
use exec_over_lark.Outbound.Types.{DropReason}
use exec_over_lark.Outbound.Manager.{ManagerError}
use exec_over_lark.Session.Types as Ty
use exec_over_lark.Session.Types.{
  SessionError, invalid_session, session_not_found, session_closed, unexpected_frame,
  no_outbound_manager, protocol_error, outbound_error, payload_error, outbound_drop, Subscriber,
  LocalEvent, World, SessionState, LocalSession, Manager, LocalStart, InboundMessage,
}
use exec_over_lark.Session.Duration.{parse_heartbeat_timeout}
use exec_over_lark.Session.Base.{
  normalize_conn_id, ensure_peer, deliver_local_event, close_local, close_local_conn,
}
use exec_over_lark.Session.Register.{put_local}

module _ (w : World) where
  -- `MarkCloseAfterDrained`, where the outbound manager may call `OnDrained` at once.
  unfoldable pub mark_local : ℕ → Bytes → w.Outbound → Manager w → Manager w
  mark_local now conn_id out m =
      let (out', drained) = w.mark_close now conn_id out in
      let m' : Manager w = record m { outbound = some out' } in
      if drained then close_local_conn w now conn_id m' else m'

  -- The end of `sendLocalFrame` and `sendLocalConnFrame`: whether to close, and the error of `Enqueue`.
  unfoldable pub sent_local :
      Bool
      → Option ManagerError
      → ℕ
      → Bytes
      → w.Outbound
      → Manager w
      → Manager w × Option SessionError
  sent_local close_after (some e) now conn_id out m =
      (record m { outbound = some out }, some (outbound_error e))
  sent_local true none now conn_id out m = (mark_local now conn_id out m, none)
  sent_local false none now conn_id out m = (record m { outbound = some out }, none)

  unfoldable pub enqueue_local :
      ℕ → Bytes → FrameType → Bytes → Bool → Manager w → Manager w × Option SessionError
  unfolding sent_local
  enqueue_local now conn_id typ payload close_after m = elim m.outbound [
    | none ↦ (m, some no_outbound_manager)
    | some out ↦
        let (out', e) = w.enqueue now conn_id typ payload out in
        sent_local close_after e now conn_id out' m
  ]

  -- `sendLocalFrame`
  unfoldable pub send_local_frame :
      ℕ → Bytes → FrameType → Bytes → Bool → Manager w → Manager w × Option SessionError
  send_local_frame now request_id typ payload close_after m =
      elim (lookup request_id m.local_by_request) [
        | none ↦ (m, some session_not_found)
        | some conn_id ↦ elim (lookup conn_id m.local_by_conn) [
          | none ↦ (m, some session_closed)
          | some sess ↦
              if sess.base.closed
              then (m, some session_closed)
              else enqueue_local now conn_id typ payload close_after m
        ]
      ]

  -- `sendLocalConnFrame`
  unfoldable pub send_local_conn_frame :
      ℕ → Bytes → FrameType → Bytes → Bool → Manager w → Manager w × Option SessionError
  send_local_conn_frame now id typ payload close_after m =
      let conn_id = trim_space id in
      elim (lookup conn_id m.local_by_conn) [
        | none ↦ (m, some session_not_found)
        | some sess ↦
            if sess.base.closed
            then (m, some session_closed)
            else enqueue_local now conn_id typ payload close_after m
      ]

  -- An error event, and the end of the session.
  unfoldable pub fail_local : ℕ → SessionError → LocalSession → Manager w → Manager w
  fail_local now e sess m =
      let (m', _) = deliver_local_event w sess (Ty.failed e) m in close_local w now sess m'

  -- A last event, and the end of the session.
  unfoldable pub finish_local :
      ℕ → LocalEvent → LocalSession → Manager w → Manager w × Option SessionError
  finish_local now event sess m =
      let (m', e) = deliver_local_event w sess event m in (close_local w now sess m', e)

  unfoldable pub ack_local :
      Option Bytes → ℕ → LocalSession → Manager w → Manager w × Option SessionError
  unfolding put_local
  ack_local none now sess m = (fail_local now payload_error sess m, some payload_error)
  ack_local (some timeout) now sess₀ m =
      let sess : LocalSession = record sess₀ {
        base = record sess₀.base {
          peer_heartbeat_timeout = parse_heartbeat_timeout w timeout m.heartbeat_timeout;
        };
      } in
      deliver_local_event w sess Ty.start_ack (put_local w sess m)

  unfoldable pub finish_decoded :
      Option LocalEvent → ℕ → LocalSession → Manager w → Manager w × Option SessionError
  finish_decoded none now sess m = (fail_local now payload_error sess m, some payload_error)
  finish_decoded (some event) now sess m = finish_local now event sess m

  -- `handleLocalFrameLocked`
  unfoldable pub handle_local_frame :
      ℕ → LocalSession → FrameType → Bytes → Manager w → Manager w × Option SessionError
  unfolding ack_local finish_decoded
  handle_local_frame now sess start_ack payload m =
      ack_local (w.decode_start_ack payload) now sess m
  handle_local_frame now sess heartbeat payload m = (m, none)
  handle_local_frame now sess stdout payload m = deliver_local_event w sess (Ty.stdout payload) m
  handle_local_frame now sess stderr payload m = deliver_local_event w sess (Ty.stderr payload) m
  handle_local_frame now sess exit payload m =
      finish_decoded
        (elim (w.decode_exit payload) [ none ↦ none | some code ↦ some (Ty.LocalEvent.exit code) ])
        now sess m
  handle_local_frame now sess error payload m =
      finish_decoded
        (elim (w.decode_error payload) [
          | none ↦ none
          | some (message, detail) ↦ some (Ty.LocalEvent.error message detail)
        ])
        now sess m
  handle_local_frame now sess close payload m =
      finish_decoded
        (elim (w.decode_reason payload) [
          | none ↦ none
          | some reason ↦ some (Ty.LocalEvent.close reason)
        ])
        now sess m
  handle_local_frame now sess _ payload m =
      (fail_local now unexpected_frame sess m, some unexpected_frame)

  -- The inner loop of `ReceiveLocal`, which ends with an error and with the session.
  unfoldable pub handle_local_frames :
      ℕ → Bytes → List Frame → Manager w → Manager w × Option SessionError
  handle_local_frames now conn_id [] m = (m, none)
  handle_local_frames now conn_id (frame ∷ frames) m = elim (lookup conn_id m.local_by_conn) [
    | none ↦ (m, none)
    | some sess ↦
        let (m', e) = handle_local_frame now sess frame.type frame.payload m in
        elim e [ some x ↦ (m', some x) | none ↦ handle_local_frames now conn_id frames m' ]
  ]

  -- The loop of `ReceiveLocal` over the frames of a message.
  unfoldable pub offer_local : ℕ → Bytes → List Frame → Manager w → Manager w × Option SessionError
  unfolding put_local
  offer_local now conn_id [] m = (m, none)
  offer_local now conn_id (frame ∷ frames) m = elim (lookup conn_id m.local_by_conn) [
    | none ↦ (m, none)
    | some sess₀ ↦
        let (rx, result, timed_out) = offer_at sess₀.base.rx frame now in
        let sess : LocalSession = record sess₀ { base = record sess₀.base { rx = rx } } in
        let m' = put_local w sess m in
        elim timed_out [
          | some e ↦ (fail_local now (protocol_error e) sess m', some (protocol_error e))
          | none ↦
              let (m'', e) = handle_local_frames now conn_id result.delivered m' in
              elim e [ some x ↦ (m'', some x) | none ↦ offer_local now conn_id frames m'' ]
        ]
  ]

  unfoldable pub receive_local : ℕ → InboundMessage → Manager w → Manager w × Option SessionError
  unfolding put_local
  receive_local now msg m =
      let conn_id = normalize_conn_id msg in
      if is_blank conn_id
      then (m, some invalid_session)
      else elim (lookup conn_id m.local_by_conn) [
        | none ↦ (m, some session_not_found)
        | some sess ↦
            if sess.base.closed
            then (m, some session_not_found)
            else elim (ensure_peer msg.chat_id [] sess.base) [
              | some e ↦ (m, some e)
              | none ↦ offer_local now conn_id msg.frames (
                  put_local w
                    (record sess { base = record sess.base { last_peer_message_at = now } }) m)
            ]
      ]

  -- `handleLocalOutboundDrop`
  unfoldable pub handle_local_outbound_drop : ℕ → Bytes → DropReason → Manager w → Manager w
  handle_local_outbound_drop now conn_id reason m = elim (lookup conn_id m.local_by_conn) [
    | none ↦ m
    | some sess ↦ if sess.base.closed then m else fail_local now (outbound_drop reason) sess m
  ]
