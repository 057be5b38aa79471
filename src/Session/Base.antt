-- ===== src/Session/Base.antt =====
-- internal/session/session.go: the peer's check, deliveries and the end of a session.
use exec_over_lark.Prelude.{
  ℕ, ◌+◌, Bool, false, ◌&&◌, ◌||◌, not, Option, none, some, [], ◌∷◌, ◌==◌, ltb, if◌then◌else◌,
  is_empty,
}
use exec_over_lark.Prelude.Bytes.{bytes_le, Bytes, same, is_blank, first_non_empty, bytes_eq}
use exec_over_lark.Prelude.Dict.{Dict, lookup, remove}
use exec_over_lark.Session.Types.{
  SessionError, unauthorized_peer, delivery_error, Subscriber, LocalEvent, RemoteEvent, Call,
  deliver_local, deliver_remote, close_subscriber, World, SessionState, LocalSession, RemoteSession,
  Manager, InboundMessage,
}

unfoldable pub conn_id_of : Bytes → Bytes → Bytes
conn_id_of root_message_id message_id =
    if is_blank root_message_id then message_id else root_message_id

-- `normalizeConnID`
unfoldable pub normalize_conn_id : InboundMessage → Bytes
unfolding conn_id_of
normalize_conn_id msg =
    first_non_empty msg.conn_id
      (first_non_empty msg.root_message_id (conn_id_of msg.root_message_id msg.message_id))

-- `ensurePeer`: an empty chat or peer is not compared.
unfoldable pub ensure_peer : Bytes → Bytes → SessionState → Option SessionError
ensure_peer chat_id peer_open_id s =
    if not (is_empty chat_id) && not (same chat_id s.chat_id)
    then some unauthorized_peer
    else if not (is_empty peer_open_id) && not (same peer_open_id s.peer_open_id)
    then some unauthorized_peer
    else none

unfoldable pub peer_timed_out : ℕ → SessionState → Bool
peer_timed_out now s =
    if s.closed || s.peer_heartbeat_timeout == 0
    then false
    else ltb (s.last_peer_message_at + s.peer_heartbeat_timeout) now

unfoldable pub first_err : Option SessionError → Option SessionError → Option SessionError
first_err (some e) next = some e
first_err none next = next

-- `sort.Strings` on the keys of a map, by insertion of the entries.
module _ {A : Type 0} where
  pub insert_entry : Bytes → A → Dict Bytes A → Dict Bytes A
  unfolding bytes_le
  insert_entry k a [] = (k, a) ∷ []
  insert_entry k a ((j, b) ∷ m) =
      if bytes_le k j then (k, a) ∷ (j, b) ∷ m else (j, b) ∷ insert_entry k a m

  unfoldable pub sorted : Dict Bytes A → Dict Bytes A
  unfolding insert_entry
  sorted [] = []
  sorted ((k, a) ∷ m) = insert_entry k a (sorted m)

abbrev pub default_heartbeat_interval : ℕ
default_heartbeat_interval = 10000000000

abbrev pub default_heartbeat_timeout : ℕ
default_heartbeat_timeout = 30000000000

abbrev pub default_sequence_gap_timeout : ℕ
default_sequence_gap_timeout = 30000000000

abbrev pub default_max_remote_sessions : ℕ
default_max_remote_sessions = 8

module _ (w : World) where
  -- `New` with its options: a value that is not positive gives the default.
  unfoldable pub new_manager : Option w.Outbound → ℕ → ℕ → ℕ → ℕ → Manager w
  new_manager out interval timeout gap max = record {
    outbound = out;
    heartbeat_interval = if interval == 0 then default_heartbeat_interval else interval;
    heartbeat_timeout = if timeout == 0 then default_heartbeat_timeout else timeout;
    sequence_gap_timeout = if gap == 0 then default_sequence_gap_timeout else gap;
    max_remote_sessions = if max == 0 then default_max_remote_sessions else max;
    local_by_conn = [];
    local_by_request = [];
    remote_by_conn = [];
    calls = [];
    deadlocked = false;
  }

  -- A call of a subscriber or a receiver, and its error.
  unfoldable pub call : Call → Manager w → Manager w × Option SessionError
  call c m = (
    record m { calls = c ∷ m.calls },
    elim (w.answer m.calls c) [ none ↦ none | some e ↦ some (delivery_error e) ],
  )

  -- The loop of `deliverLocalLocked`, with the first error so far.
  unfoldable pub deliver_each :
      Bytes
      → LocalEvent
      → Option SessionError
      → Dict Bytes Subscriber
      → Manager w
      → Manager w × Option SessionError
  unfolding call
  deliver_each conn_id event e [] m = (m, e)
  deliver_each conn_id event e ((request_id, sub) ∷ subs) m =
      let (m', next) = call (deliver_local conn_id request_id sub event) m in
      deliver_each conn_id event (first_err e next) subs m'

  unfoldable pub deliver_local_event :
      LocalSession → LocalEvent → Manager w → Manager w × Option SessionError
  unfolding deliver_each
  deliver_local_event sess event m =
      deliver_each sess.base.conn_id event none (sorted sess.subscribers) m

  unfoldable pub deliver_remote_event :
      RemoteSession → RemoteEvent → Manager w → Manager w × Option SessionError
  deliver_remote_event sess event m = elim sess.receiver [
    | none ↦ (m, none)
    | some receiver ↦ call (deliver_remote sess.base.conn_id receiver event) m
  ]

  -- The method `Close`, where there is one; its error is not used.
  unfoldable pub close_subscriber_of : Subscriber → Manager w → Manager w
  close_subscriber_of sub m =
      if sub.closable then record m { calls = close_subscriber sub ∷ m.calls } else m

  -- The loop of `closeLocalLocked`.
  unfoldable pub close_subscribers : Dict Bytes Subscriber → Manager w → Manager w
  unfolding close_subscriber_of
  close_subscribers [] m = m
  close_subscribers ((request_id, sub) ∷ subs) m =
      let m' = close_subscriber_of sub m in
      close_subscribers subs
        (record m' { local_by_request = remove request_id m'.local_by_request })

  unfoldable pub drop_outbound : ℕ → Bytes → Option w.Outbound → Option w.Outbound
  drop_outbound now conn_id none = none
  drop_outbound now conn_id (some o) = some (w.drop now conn_id o)

  -- `closeLocalLocked`: a closed session is in no map any more, so only the manager is left.
  unfoldable pub close_local : ℕ → LocalSession → Manager w → Manager w
  close_local now sess m =
      if sess.base.closed
      then m
      else let m' = close_subscribers sess.subscribers m in
        record m' {
          local_by_conn = remove sess.base.conn_id m'.local_by_conn;
          outbound = drop_outbound now sess.base.conn_id m'.outbound;
        }

  unfoldable pub close_receiver : Option Subscriber → Manager w → Manager w
  close_receiver none m = m
  close_receiver (some receiver) m = close_subscriber_of receiver m

  -- `closeRemoteLocked`
  unfoldable pub close_remote : ℕ → RemoteSession → Manager w → Manager w
  close_remote now sess m =
      if sess.base.closed
      then m
      else let m' = close_receiver sess.receiver m in
        record m' {
          remote_by_conn = remove sess.base.conn_id m'.remote_by_conn;
          outbound = drop_outbound now sess.base.conn_id m'.outbound;
        }

  -- `CloseLocalConn` and `CloseRemoteConn`
  unfoldable pub close_local_conn : ℕ → Bytes → Manager w → Manager w
  close_local_conn now conn_id m = elim (lookup conn_id m.local_by_conn) [
    | none ↦ m
    | some sess ↦ close_local now sess m
  ]

  unfoldable pub close_remote_conn : ℕ → Bytes → Manager w → Manager w
  close_remote_conn now conn_id m = elim (lookup conn_id m.remote_by_conn) [
    | none ↦ m
    | some sess ↦ close_remote now sess m
  ]
