-- ===== src/Daemon/Tests.antt =====
-- internal/daemon/remote.go: a daemon with one session, and a new one.
use exec_over_lark.Prelude.{
  ◌≡◌, ◌≢◌, refl, ap, true, false, none, some, Option, List, [], ◌∷◌, length, arith,
}
use exec_over_lark.Prelude.Bytes.{
  Bytes, codes, same, trim_space, bytes_eq, is_blank, first_non_empty,
}
use exec_over_lark.Prelude.Dict.{lookup, insert}
use exec_over_lark.Prelude.Result.{ok}
use exec_over_lark.Protocol.Frame.{stdin}
use exec_over_lark.Protocol.Window.{new_recv_window, offer_at}
use exec_over_lark.Prelude.Int.{pos}
use exec_over_lark.Lark.Event.{Identifier, RawMention, Json, Mention, MessageEvent}
use exec_over_lark.Session.Limit.{Limited}
use exec_over_lark.Daemon.Create.{RemoteOptions, remote_daemon, new_remote}
use exec_over_lark.Daemon.Create.Limit.{new_remote_limit}
use exec_over_lark.Daemon.Events.{MetaEnvelope, Line, consume_event_stream}
use exec_over_lark.Session.Types.{World, Manager, RemoteSession, StartPayload}
use exec_over_lark.Session.Base.{
  normalize_conn_id, conn_id_of, ensure_peer, deliver_remote_event, call,
}
use exec_over_lark.Session.Accept.{put_remote}
use exec_over_lark.Session.Remote.{
  receive_remote, offer_remote, handle_remote_frames, handle_remote_frame,
}
use exec_over_lark.Daemon.Remote.{
  normalize_remote_config, RemoteDaemon, string_set, add_strings, allowed_chat, mentions_contain,
  find_open_id, inbound_of, is_root, handle_reply, handle_message_event,
}
use exec_over_lark.Daemon.Remote.Authorized.{IsAuthorized, handle_message_event-IsAuthorized}

abbrev no_start : StartPayload
no_start = record { heartbeat_timeout = []; rest = [] }

-- An outbound manager that takes everything, and a codec that reads every text.
abbrev world : World
world = record {
  Outbound = Unit {0};
  register = λ now r o. ok o;
  enqueue = λ now id t p o. (o, none);
  mark_close = λ now id o. (o, true);
  drop = λ now id o. o;
  decode_start = λ s. some no_start;
  decode_start_ack = λ s. some s;
  decode_exit = λ s. some (pos 0);
  decode_error = λ s. some (s, s);
  decode_reason = λ s. some s;
  decode_resize = λ s. some (pos 24, pos 80);
  decode_signal = λ s. some s;
  error_payload = λ s e. s;
  start_ack_payload = λ a b. codes "{}";
  answer = λ calls c. none;
  scaled = λ s u. some u;
}

abbrev session : RemoteSession
session = record {
  base = record {
    conn_id = codes "om";
    root_message_id = codes "om";
    chat_id = codes "oc";
    peer_open_id = codes "ou";
    started_at = 5;
    closed_at = 0;
    closed = false;
    last_local_send_at = 5;
    last_peer_message_at = 5;
    local_heartbeat_interval = 10;
    local_heartbeat_timeout = 30;
    peer_heartbeat_timeout = 30;
    rx = new_recv_window 30;
  };
  start = no_start;
  receiver = some (record { handle = 1; closable = true });
}

abbrev manager : Manager world
manager = record {
  outbound = some tt;
  heartbeat_interval = 10;
  heartbeat_timeout = 30;
  sequence_gap_timeout = 30;
  max_remote_sessions = 2;
  local_by_conn = [];
  local_by_request = [];
  remote_by_conn = (codes "om", session) ∷ [];
  calls = [];
  deadlocked = false;
}

-- Blanks around a configured chat do not count.
abbrev ids : List Bytes
ids = codes " " ∷ codes " oc " ∷ []

abbrev daemon : RemoteDaemon world
daemon = record {
  exec_enabled = true;
  self_bot_open_id = codes "ou_bot";
  allowed_chats = string_set ids;
  manager = manager;
  tasks = [];
}

abbrev mention : Mention
mention = record {
  key = codes "@_1";
  name = codes "bot";
  open_id = codes "ou_bot";
  user_id = [];
  union_id = [];
}

abbrev event : MessageEvent
event = record {
  event_id = [];
  event_type = [];
  message_id = codes "om2";
  root_message_id = codes "om";
  chat_id = codes "oc";
  sender_open_id = codes "ou";
  sender_type = [];
  message_type = codes "text";
  text = [];
  mentions = mention ∷ [];
  frames = record { seq = 1; type = stdin; payload = codes "a" } ∷ [];
}

chats : string_set ids ≡ (codes "oc", tt) ∷ []
unfolding string_set add_strings insert trim_space
chats = refl

handled_calls : length (handle_message_event world 6 7 event daemon).0.manager.calls ≡ 1
unfolding handle_message_event mentions_contain find_open_id allowed_chat string_set add_strings
    trim_space is_root handle_reply inbound_of conn_id_of receive_remote is_blank normalize_conn_id
    first_non_empty lookup same ensure_peer offer_remote put_remote insert offer_at new_recv_window
    handle_remote_frames handle_remote_frame deliver_remote_event call
handled_calls = refl

handled : (handle_message_event world 6 7 event daemon).0 ≢ daemon
handled e =
    let n : length (handle_message_event world 6 7 event daemon).0.manager.calls ≡ 0 =
      ap (λ (d : RemoteDaemon world). length d.manager.calls) e in
    omega (arith, n, handled_calls)

handle_message_event-IsAuthorized_example : IsAuthorized world ids event daemon
handle_message_event-IsAuthorized_example =
    handle_message_event-IsAuthorized world 6 7 ids event daemon refl handled

abbrev options : RemoteOptions world
options = record {
  config = record {
    exec_enabled = true;
    default_shell = codes "/bin/sh";
    max_sessions = pos 1;
    stream_chunk_bytes = pos 0;
    allowed_chat_ids = ids;
    send_cooldown = pos 0;
    lark_text_request_limit_bytes = pos 0;
    heartbeat_interval = pos 10;
    heartbeat_timeout = pos 30;
    sequence_gap_timeout = pos 30;
  };
  event_stream = true;
  event_source = false;
  self_bot_open_id = codes "ou_bot";
  sender = true;
  executor = false;
  outbound = some tt;
}

-- A start, and the codecs that read it.
abbrev identifier : Identifier
identifier = record { open_id = codes "ou_bot"; user_id = []; union_id = [] }

abbrev raw_mention : RawMention
raw_mention = record {
  key = codes "@_1";
  name = codes "bot";
  id = identifier;
  open_id = [];
  user_id = [];
  union_id = [];
}

abbrev start_text : Bytes
start_text = codes "EOL1 1 start MQ=="

abbrev unmarshal : Bytes → Option MetaEnvelope
unmarshal payload = some (record {
  type = [];
  event_type = [];
  sender_id = identifier;
  chat_id = codes "oc";
  message_type = codes "text";
  mentions = raw_mention ∷ [];
})

abbrev json : Json
json = record {
  envelope = λ payload. some (record {
    type = [];
    event_id = [];
    event_type = [];
    sender_id = record { open_id = codes "ou"; user_id = []; union_id = [] };
    sender_type = [];
    message = record {
      message_id = payload;
      root_id = [];
      parent_id = [];
      chat_id = codes "oc";
      message_type = codes "text";
      content = start_text;
      mentions = raw_mention ∷ [];
    };
  });
  string = λ s. none;
  text = λ s. some s;
}

-- Two starts, where one session is allowed.
abbrev lines : List Line
lines =
    record { text = codes "om1"; context = none; now = 6; handle = 7 }
    ∷ record { text = codes "om2"; context = none; now = 7; handle = 8 }
    ∷ []

abbrev made : RemoteDaemon world
made = remote_daemon world (normalize_remote_config options.config) options.self_bot_open_id tt

options_good : new_remote world options ≡ ok made
unfolding new_remote normalize_remote_config is_blank trim_space
options_good = refl

new_remote_limit_example :
    Limited world 1 (consume_event_stream unmarshal json world true none lines made).0.manager
new_remote_limit_example =
    new_remote_limit unmarshal json world options true none lines {d = made} options_good
