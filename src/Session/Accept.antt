-- ===== src/Session/Accept.antt =====
-- internal/session/session.go: the start of a remote session, and its refusal.
use exec_over_lark.Prelude.{
  ℕ, Bool, true, false, Option, none, some, List, [], ◌∷◌, ◌||◌, leb, if◌then◌else◌, is_empty,
  length,
}
use exec_over_lark.Prelude.Bytes.{Bytes, codes, is_blank, bytes_eq}
use exec_over_lark.Prelude.Dict.{lookup, insert}
use exec_over_lark.Prelude.Result.{Result, ok, err}
use exec_over_lark.Protocol.Frame.{Frame, start, start_ack, error}
use exec_over_lark.Protocol.Window.{RecvWindow, new_recv_window, offer_at}
use exec_over_lark.Outbound.Types.{remote}
use exec_over_lark.Outbound.Manager.{ManagerError, RegisterConnectionRequest}
use exec_over_lark.Session.Types as Ty
use exec_over_lark.Session.Types.{
  SessionError, invalid_session, session_not_found, session_closed, unexpected_frame,
  no_outbound_manager, remote_session_limit, protocol_error, outbound_error, payload_error,
  outbound_drop, Subscriber, StartPayload, RemoteEvent, World, SessionState, RemoteSession, Manager,
  InboundMessage,
}
use exec_over_lark.Session.Duration.{parse_heartbeat_timeout}
use exec_over_lark.Session.Base.{normalize_conn_id, deliver_remote_event}

module _ (w : World) where
  unfoldable pub put_remote : RemoteSession → Manager w → Manager w
  put_remote sess m = record m { remote_by_conn = insert sess.base.conn_id sess m.remote_by_conn }

  -- The connection that the outbound manager gets, with its interval and whether it has callbacks.
  unfoldable pub remote_request : Bytes → Bytes → Bytes → ℕ → Bool → RegisterConnectionRequest
  remote_request conn_id chat_id sender_open_id interval callbacks = record {
    conn_id = conn_id;
    role = remote;
    target = record {
      chat_id = chat_id;
      root_message_id = conn_id;
      mention_open_id = sender_open_id;
    };
    next_seq = 1;
    heartbeat_interval = interval;
    on_drop = callbacks;
    on_drained = callbacks;
  }

  -- `replyRemoteError` behind the registration.
  unfoldable pub settle_refusal :
      ℕ → Bytes → Option ManagerError → w.Outbound → Manager w → Manager w × Option SessionError
  settle_refusal now conn_id (some e) out m =
      (record m { outbound = some (w.drop now conn_id out) }, some (outbound_error e))
  settle_refusal now conn_id none out m =
      (record m { outbound = some (w.mark_close now conn_id out).0 }, none)

  unfoldable pub enqueue_refusal :
      ℕ → Bytes → w.Outbound → Manager w → Manager w × Option SessionError
  enqueue_refusal now conn_id out m =
      let (out', e) =
        w.enqueue now conn_id error
          (w.error_payload (codes "remote session limit reached") remote_session_limit) out in
      settle_refusal now conn_id e out' m

  unfoldable pub reply_remote_error :
      ℕ → Bytes → Bytes → Bytes → Manager w → Manager w × Option SessionError
  reply_remote_error now conn_id chat_id sender_open_id m = elim m.outbound [
    | none ↦ (m, some no_outbound_manager)
    | some out ↦ elim (w.register now (remote_request conn_id chat_id sender_open_id 0 false) out) [
      | err e ↦ (m, some (outbound_error e))
      | ok out' ↦ enqueue_refusal now conn_id out' m
    ]
  ]

  -- The inner loop over the frames of `AcceptRemoteStart`, with the payload so far.
  unfoldable pub take_start :
      Option StartPayload → List Frame → Result SessionError (Option StartPayload)
  take_start got [] = ok got
  take_start (some got) (frame ∷ frames) = err unexpected_frame
  take_start none (frame ∷ frames) = elim frame.type [
    | start ↦ elim (w.decode_start frame.payload) [
      | none ↦ err payload_error
      | some payload ↦ take_start (some payload) frames
    ]
    | _ ↦ err unexpected_frame
  ]

  -- The outer loop: the window and the payload.
  unfoldable pub collect_start :
      ℕ
      → RecvWindow
      → Option StartPayload
      → List Frame
      → Result SessionError (RecvWindow × Option StartPayload)
  unfolding take_start
  collect_start now rx got [] = ok (rx, got)
  collect_start now rx got (frame ∷ frames) =
      let (rx', result, timed_out) = offer_at rx frame now in
      elim timed_out [
        | some e ↦ err (protocol_error e)
        | none ↦ elim (take_start got result.delivered) [
          | err e ↦ err e
          | ok got' ↦ collect_start now rx' got' frames
        ]
      ]

  unfoldable pub new_remote_session :
      ℕ
      → Bytes
      → InboundMessage
      → StartPayload
      → Option Subscriber
      → RecvWindow
      → Manager w
      → RemoteSession
  new_remote_session now conn_id msg payload receiver rx m = record {
    base = record {
      conn_id = conn_id;
      root_message_id = conn_id;
      chat_id = msg.chat_id;
      peer_open_id = msg.sender_open_id;
      started_at = now;
      closed_at = 0;
      closed = false;
      last_local_send_at = now;
      last_peer_message_at = now;
      local_heartbeat_interval = m.heartbeat_interval;
      local_heartbeat_timeout = m.heartbeat_timeout;
      peer_heartbeat_timeout =
          parse_heartbeat_timeout w payload.heartbeat_timeout m.heartbeat_timeout;
      rx = rx;
    };
    start = payload;
    receiver = receiver;
  }

  -- `AcceptRemoteStart` from the answer to the start acknowledgement on.
  unfoldable pub acknowledged :
      ℕ
      → RemoteSession
      → Option ManagerError
      → w.Outbound
      → Manager w
      → Manager w × Result SessionError RemoteSession
  acknowledged now sess (some e) out m =
      (record m { outbound = some (w.drop now sess.base.conn_id out) }, err (outbound_error e))
  acknowledged now sess none out m =
      let (m', _) =
        deliver_remote_event w sess (Ty.RemoteEvent.start sess.start)
          (put_remote sess (record m { outbound = some out })) in
      (m', ok sess)

  unfoldable pub acknowledge :
      ℕ → RemoteSession → w.Outbound → Manager w → Manager w × Result SessionError RemoteSession
  acknowledge now sess out m =
      let (out', e) =
        w.enqueue now sess.base.conn_id start_ack
          (w.start_ack_payload m.heartbeat_interval m.heartbeat_timeout) out in
      acknowledged now sess e out' m

  -- `AcceptRemoteStart` from the registration on.
  unfoldable pub open_remote :
      ℕ → RemoteSession → Manager w → Manager w × Result SessionError RemoteSession
  open_remote now sess m = elim m.outbound [
    | none ↦ (m, err no_outbound_manager)
    | some out ↦
        elim (w.register now
          (remote_request sess.base.conn_id sess.base.chat_id sess.base.peer_open_id
            m.heartbeat_interval true)
          out) [ err e ↦ (m, err (outbound_error e)) | ok out' ↦ acknowledge now sess out' m ]
  ]

  -- `AcceptRemoteStart` behind its checks.
  unfoldable pub start_remote :
      ℕ
      → Bytes
      → InboundMessage
      → Option Subscriber
      → Manager w
      → Manager w × Result SessionError RemoteSession
  start_remote now conn_id msg receiver m =
      elim (collect_start now (new_recv_window m.sequence_gap_timeout) none msg.frames) [
        | err e ↦ (m, err e)
        | ok (rx, none) ↦ (m, err unexpected_frame)
        | ok (rx, some payload) ↦
            open_remote now (new_remote_session now conn_id msg payload receiver rx m) m
      ]

  -- The answer to a start beyond the limit.
  unfoldable pub refuse_remote :
      ℕ → Bytes → InboundMessage → Manager w → Manager w × Result SessionError RemoteSession
  refuse_remote now conn_id msg m =
      let (m', e) = reply_remote_error now conn_id msg.chat_id msg.sender_open_id m in
      (m', elim e [ some x ↦ err x | none ↦ err remote_session_limit ])

  -- `AcceptRemoteStart`: the session stands for its snapshot.
  unfoldable pub accept_remote_start :
      ℕ
      → InboundMessage
      → Option Subscriber
      → Manager w
      → Manager w × Result SessionError RemoteSession
  accept_remote_start now msg receiver m =
      let conn_id = normalize_conn_id msg in
      if is_blank conn_id
        || is_blank msg.chat_id
        || is_blank msg.sender_open_id
        || is_empty msg.frames
      then (m, err invalid_session)
      else elim (lookup conn_id m.remote_by_conn) [
        | some _ ↦ (m, err invalid_session)
        | none ↦
            if leb m.max_remote_sessions (length m.remote_by_conn)
            then refuse_remote now conn_id msg m
            else start_remote now conn_id msg receiver m
      ]
