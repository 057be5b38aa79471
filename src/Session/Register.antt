-- ===== src/Session/Register.antt =====
-- internal/session/session.go: the registration of client sessions and their subscribers.
use exec_over_lark.Prelude.{
  ℕ, Bool, true, false, not, Option, none, some, [], ◌||◌, ◌==◌, if◌then◌else◌,
}
use exec_over_lark.Prelude.Bytes.{Bytes, same, is_blank, first_non_empty, bytes_eq}
use exec_over_lark.Prelude.Dict.{lookup, insert, remove}
use exec_over_lark.Prelude.Result.{Result, ok, err}
use exec_over_lark.Protocol.Window.{new_recv_window}
use exec_over_lark.Outbound.Types.{local}
use exec_over_lark.Outbound.Manager.{RegisterConnectionRequest}
use exec_over_lark.Session.Types.{
  SessionError, invalid_session, session_not_found, session_closed, no_outbound_manager,
  outbound_error, Subscriber, World, LocalSession, Manager, LocalStart,
}
use exec_over_lark.Session.Base.{ensure_peer, close_subscriber_of}

module _ (w : World) where
  unfoldable pub put_local : LocalSession → Manager w → Manager w
  put_local sess m = record m { local_by_conn = insert sess.base.conn_id sess m.local_by_conn }

  unfoldable pub new_local_session : ℕ → Bytes → LocalStart → Manager w → LocalSession
  new_local_session now conn_id req m = record {
    base = record {
      conn_id = conn_id;
      root_message_id = conn_id;
      chat_id = req.chat_id;
      peer_open_id = req.peer_bot_open_id;
      started_at = now;
      closed_at = 0;
      closed = false;
      last_local_send_at = now;
      last_peer_message_at = now;
      local_heartbeat_interval = m.heartbeat_interval;
      local_heartbeat_timeout = m.heartbeat_timeout;
      peer_heartbeat_timeout =
          if req.heartbeat_timeout == 0 then m.heartbeat_timeout else req.heartbeat_timeout;
      rx = new_recv_window m.sequence_gap_timeout;
    };
    host = req.host;
    root_message_url = req.root_message_url;
    subscribers = [];
  }

  unfoldable pub local_request : Bytes → LocalStart → Manager w → RegisterConnectionRequest
  local_request conn_id req m = record {
    conn_id = conn_id;
    role = local;
    target = record {
      chat_id = req.chat_id;
      root_message_id = conn_id;
      mention_open_id = req.peer_bot_open_id;
    };
    next_seq = if req.next_send_seq == 0 then 2 else req.next_send_seq;
    heartbeat_interval = m.heartbeat_interval;
    on_drop = true;
    on_drained = true;
  }

  -- The session of a registration: the one that is there, or a new one that the outbound manager knows.
  unfoldable pub find_or_open_local :
      ℕ → Bytes → LocalStart → Manager w → Result SessionError (LocalSession × Manager w)
  find_or_open_local now conn_id req m = elim (lookup conn_id m.local_by_conn) [
    | some sess ↦ elim (ensure_peer req.chat_id req.peer_bot_open_id sess.base) [
      | some e ↦ err e
      | none ↦ ok (sess, m)
    ]
    | none ↦ elim m.outbound [
      | none ↦ err no_outbound_manager
      | some out ↦ elim (w.register now (local_request conn_id req m) out) [
        | err e ↦ err (outbound_error e)
        | ok out' ↦
            let sess = new_local_session now conn_id req m in
            ok (sess, put_local sess (record m { outbound = some out' }))
      ]
    ]
  ]

  -- The subscriber, if there is one, and the request's connection.
  unfoldable pub subscribe :
      Bytes → Bytes → Option Subscriber → LocalSession → Manager w → Manager w
  unfolding put_local
  subscribe conn_id request_id none sess m = record m {
    local_by_request = insert request_id conn_id m.local_by_request;
  }
  subscribe conn_id request_id (some sub) sess m =
      put_local (record sess { subscribers = insert request_id sub sess.subscribers })
        (record m { local_by_request = insert request_id conn_id m.local_by_request })

  -- The request is mapped to another connection.
  unfoldable pub mapped_elsewhere : Bytes → Bytes → Manager w → Bool
  mapped_elsewhere request_id conn_id m = elim (lookup request_id m.local_by_request) [
    | none ↦ false
    | some existing ↦ not (same existing conn_id)
  ]

  -- `RegisterLocal` behind its checks.
  unfoldable pub register_checked_local :
      ℕ → Bytes → LocalStart → Option Subscriber → Manager w → Manager w × Option SessionError
  register_checked_local now conn_id req subscriber m =
      elim (find_or_open_local now conn_id req m) [
        | err e ↦ (m, some e)
        | ok (sess, m') ↦
            if sess.base.closed
            then (m', some session_closed)
            else (subscribe conn_id req.request_id subscriber sess m', none)
      ]

  -- A request that is mapped to another connection is invalid too.
  unfoldable pub register_local :
      ℕ → LocalStart → Option Subscriber → Manager w → Manager w × Option SessionError
  unfolding mapped_elsewhere
  register_local now req subscriber m =
      let conn_id = first_non_empty req.conn_id req.root_message_id in
      if is_blank conn_id
        || is_blank req.request_id
        || is_blank req.chat_id
        || is_blank req.peer_bot_open_id
        || mapped_elsewhere req.request_id conn_id m
      then (m, some invalid_session)
      else register_checked_local now conn_id req subscriber m

  unfoldable pub subscribe_local :
      Bytes → Bytes → Option Subscriber → Manager w → Manager w × Option SessionError
  subscribe_local conn_id request_id subscriber m =
      if is_blank conn_id || is_blank request_id
      then (m, some invalid_session)
      else elim (lookup conn_id m.local_by_conn) [
        | none ↦ (m, some session_not_found)
        | some sess ↦
            if sess.base.closed
            then (m, some session_not_found)
            else (subscribe conn_id request_id subscriber sess m, none)
      ]

  -- `unsubscribeLocalLocked` behind the look-up of the request.
  unfoldable pub unsubscribe_from : Bytes → LocalSession → Manager w → Manager w
  unfolding put_local
  unsubscribe_from request_id sess m =
      put_local (record sess { subscribers = remove request_id sess.subscribers })
        (elim (lookup request_id sess.subscribers) [
          | none ↦ m
          | some sub ↦ close_subscriber_of w sub m
        ])

  unfoldable pub unsubscribe_local : Bytes → Manager w → Manager w
  unsubscribe_local request_id m = elim (lookup request_id m.local_by_request) [
    | none ↦ m
    | some conn_id ↦
        let m' = record m { local_by_request = remove request_id m.local_by_request } in
        elim (lookup conn_id m'.local_by_conn) [
          | none ↦ m'
          | some sess ↦ unsubscribe_from request_id sess m'
        ]
  ]
