-- ===== src/Session/Tests.antt =====
-- The theorems on sessions at a manager with one remote session, over the outbound manager itself.
use exec_over_lark.Prelude.{
  ◌≡◌, ◌≢◌, refl, ap, not, true, false, none, some, List, [], ◌∷◌, length, is_empty, arith, All,
}
use exec_over_lark.Prelude.Bytes.{codes, same, bytes_eq, is_blank, first_non_empty}
use exec_over_lark.Prelude.Int.{pos}
use exec_over_lark.Prelude.Dict.{lookup, insert, remove}
use exec_over_lark.Protocol.Frame.{Frame, stdin}
use exec_over_lark.Protocol.Window.{new_recv_window, offer_at}
use exec_over_lark.Protocol.Window.Order.{run}
use exec_over_lark.Outbound.Manager as Out
use exec_over_lark.Session.Types.{
  World, Manager, Subscriber, StartPayload, RemoteSession, InboundMessage,
}
use exec_over_lark.Session.Base.{
  new_manager, normalize_conn_id, ensure_peer, deliver_remote_event, call,
}
use exec_over_lark.Session.Accept.{put_remote}
use exec_over_lark.Session.Remote.{
  receive_remote, offer_remote, handle_remote_frames, handle_remote_frame,
}
use exec_over_lark.Session.Peer.{Matches, receive_remote_authorized}
use exec_over_lark.Session.Stream.{together, told, offer_remote_stream}
use exec_over_lark.Session.Limit.{Limited}
use exec_over_lark.Session.Limit.Run.{
  Op, tick_all, accept, receive_from_local, run_ops, run_ops_within_limit,
}

abbrev no_start : StartPayload
no_start = record { heartbeat_timeout = []; rest = [] }

-- The outbound manager, receivers that never fail, and a codec that reads every text.
abbrev world : World
world = record {
  Outbound = Out.Manager;
  register = Out.register_connection;
  enqueue = Out.enqueue;
  mark_close = λ now id m.
      let (m', effects) = Out.mark_close_after_drained now id m in (m', not (is_empty effects));
  drop = Out.drop_connection;
  decode_start = λ s. some no_start;
  decode_start_ack = λ s. some s;
  decode_exit = λ s. some (pos 0);
  decode_error = λ s. some (s, s);
  decode_reason = λ s. some s;
  decode_resize = λ s. some (pos 24, pos 80);
  decode_signal = λ s. some s;
  error_payload = λ s e. s;
  start_ack_payload = λ a b. codes "{}";
  answer = λ calls c. none;
  scaled = λ s u. some u;
}

abbrev receiver : Subscriber
receiver = record { handle = 1; closable = true }

abbrev session : RemoteSession
session = record {
  base = record {
    conn_id = codes "om";
    root_message_id = codes "om";
    chat_id = codes "oc";
    peer_open_id = codes "ou";
    started_at = 5;
    closed_at = 0;
    closed = false;
    last_local_send_at = 5;
    last_peer_message_at = 5;
    local_heartbeat_interval = 10;
    local_heartbeat_timeout = 30;
    peer_heartbeat_timeout = 30;
    rx = new_recv_window 30;
  };
  start = no_start;
  receiver = some receiver;
}

abbrev empty_manager : Manager world
empty_manager = new_manager world none 10 30 30 2

abbrev manager : Manager world
manager = record {
  outbound = none;
  heartbeat_interval = 10;
  heartbeat_timeout = 30;
  sequence_gap_timeout = 30;
  max_remote_sessions = 2;
  local_by_conn = [];
  local_by_request = [];
  remote_by_conn = (codes "om", session) ∷ [];
  calls = [];
  deadlocked = false;
}

-- The second piece of the input comes first.
abbrev pieces : List Frame
pieces =
    record { seq = 2; type = stdin; payload = codes "b" }
    ∷ record { seq = 1; type = stdin; payload = codes "a" }
    ∷ []

abbrev message : InboundMessage
message = record {
  conn_id = codes "om";
  root_message_id = codes "om";
  message_id = codes "om2";
  chat_id = codes "oc";
  sender_open_id = codes "ou";
  frames = pieces;
}

abbrev ops : List Op
ops = accept 5 message (some receiver) ∷ receive_from_local 6 message ∷ tick_all 7 ∷ []

run_ops_within_limit_example :
    Limited world 2 (run_ops world (new_manager world none 10 30 30 2) ops)
unfolding new_manager
run_ops_within_limit_example = run_ops_within_limit world none 10 30 30 2 ops

session_there : lookup (codes "om") manager.remote_by_conn ≡ some session
unfolding lookup same
session_there = refl

pieces_in_time : (run session.base.rx (together 6 pieces)).2 ≡ []
unfolding run offer_at new_recv_window lookup insert remove
pieces_in_time = refl

pieces-IsStdin : All (λ (f : Frame). f.type ≡ stdin) (run session.base.rx (together 6 pieces)).1
unfolding run offer_at new_recv_window lookup insert remove
pieces-IsStdin = (refl, (refl, tt))

offer_remote_stream_example :
    ((offer_remote world 6 (codes "om") pieces manager).0.calls
      ≡ told (codes "om") receiver (run session.base.rx (together 6 pieces)).1 [])
    × ((offer_remote world 6 (codes "om") pieces manager).1 ≡ none)
offer_remote_stream_example =
    offer_remote_stream world 6 session receiver pieces manager (λ calls c. refl) session_there refl
      pieces_in_time pieces-IsStdin

message_calls : length (receive_remote world 6 message manager).0.calls ≡ 2
unfolding receive_remote is_blank normalize_conn_id first_non_empty lookup same ensure_peer
    offer_remote put_remote insert offer_at new_recv_window handle_remote_frames handle_remote_frame
    deliver_remote_event call
message_calls = refl

message_counts : (receive_remote world 6 message manager).0 ≢ manager
message_counts e =
    let n : length (receive_remote world 6 message manager).0.calls ≡ 0 =
      ap (λ (m : Manager world). length m.calls) e in
    omega (arith, n, message_calls)

receive_remote_authorized_example :
    (sess : RemoteSession) × (lookup (normalize_conn_id message) manager.remote_by_conn ≡ some sess)
    × Matches message.chat_id sess.base.chat_id
    × Matches message.sender_open_id sess.base.peer_open_id
receive_remote_authorized_example = receive_remote_authorized world 6 message manager message_counts
