-- ===== src/Daemon/Remote.antt =====
-- internal/daemon/remote.go: which messages reach the sessions.
pub mod Authorized
use exec_over_lark.Prelude.{
  ℕ, Bool, true, false, not, ◌&&◌, ◌||◌, Option, none, some, List, [], ◌∷◌, is_empty, if◌then◌else◌,
}
use exec_over_lark.Prelude.Bytes.{Bytes, codes, same, trim_space, is_blank, bytes_eq}
use exec_over_lark.Prelude.Dict.{Dict, lookup, insert, remove}
use exec_over_lark.Prelude.Int.{ℤ, pos, ltz}
use exec_over_lark.Prelude.Result.{Result, ok, err}
use exec_over_lark.Protocol.Frame.{Frame, FrameType, start}
use exec_over_lark.Lark.Event.{Mention, MessageEvent, EventError}
use exec_over_lark.RemoteExec.Types.{ContextError}
use exec_over_lark.Session.Types.{
  World, Manager, Subscriber, InboundMessage, SessionError, session_not_found, RemoteSession,
}
use exec_over_lark.Session.Base.{conn_id_of}
use exec_over_lark.Session.Accept.{accept_remote_start}
use exec_over_lark.Session.Remote.{receive_remote}
use exec_over_lark.Config.Types.{
  Config, default_max_sessions, default_stream_chunk_bytes, default_lark_text_request_limit_bytes,
  default_heartbeat_interval, default_heartbeat_timeout, default_sequence_gap_timeout,
}

pub record RemoteConfig : Type 0 where
  pub exec_enabled : Bool
  pub default_shell : Bytes
  pub max_sessions : ℤ
  pub stream_chunk_bytes : ℤ
  pub allowed_chat_ids : List Bytes
  pub send_cooldown : ℤ
  pub lark_text_request_limit_bytes : ℤ
  pub heartbeat_interval : ℤ
  pub heartbeat_timeout : ℤ
  pub sequence_gap_timeout : ℤ

-- What handling an event or a stream of events returns, where it returns an error.
pub data RemoteError : Type 0 where
  remote_exec_disabled ignored_event : RemoteError
  session_failed : SessionError → RemoteError
  event_failed : EventError → RemoteError
  context_failed : ContextError → RemoteError

abbrev pub or_positive : ℤ → ℤ → ℤ
or_positive z fallback = if ltz (pos 0) z then z else fallback

unfoldable pub normalize_remote_config : RemoteConfig → RemoteConfig
normalize_remote_config cfg = record cfg {
  max_sessions = or_positive cfg.max_sessions default_max_sessions;
  stream_chunk_bytes = or_positive cfg.stream_chunk_bytes default_stream_chunk_bytes;
  lark_text_request_limit_bytes =
      or_positive cfg.lark_text_request_limit_bytes default_lark_text_request_limit_bytes;
  heartbeat_interval = or_positive cfg.heartbeat_interval default_heartbeat_interval;
  heartbeat_timeout = or_positive cfg.heartbeat_timeout default_heartbeat_timeout;
  sequence_gap_timeout = or_positive cfg.sequence_gap_timeout default_sequence_gap_timeout;
}

-- `stringSet`: the loop, from the set so far.
unfoldable pub add_strings : List Bytes → Dict Bytes (Unit {0}) → Dict Bytes (Unit {0})
add_strings [] out = out
add_strings (v ∷ vs) out =
    let value = trim_space v in
    let with_value = add_strings vs (insert value tt out) in
    let without = add_strings vs out in if is_empty value then without else with_value

unfoldable pub string_set : List Bytes → Dict Bytes (Unit {0})
unfolding add_strings
string_set values = add_strings values []

unfoldable pub is_start : FrameType → Bool
is_start start = true
is_start _ = false

unfoldable pub has_start_frame : List Frame → Bool
unfolding is_start
has_start_frame [] = false
has_start_frame (frame ∷ frames) = is_start frame.type || has_start_frame frames

unfoldable pub find_open_id : Bytes → List Mention → Bool
find_open_id open_id [] = false
find_open_id open_id (m ∷ ms) = same (trim_space m.open_id) open_id || find_open_id open_id ms

unfoldable pub mentions_contain : List Mention → Bytes → Bool
unfolding find_open_id
mentions_contain ms open_id = find_open_id (trim_space open_id) ms

-- `RemoteDaemon`, less its collaborators; a task is the receiver that the manager knows.
pub record RemoteDaemon (w : World) : Type 0 where
  pub exec_enabled : Bool
  pub self_bot_open_id : Bytes
  pub allowed_chats : Dict Bytes (Unit {0})
  pub manager : Manager w
  pub tasks : Dict Bytes Subscriber

abbrev is_found : Option (Unit {0}) → Bool
is_found none = false
is_found (some _) = true

unfoldable pub allowed_chat : Dict Bytes (Unit {0}) → Bytes → Bool
allowed_chat allowed chat_id = is_empty allowed || is_found (lookup chat_id allowed)

unfoldable pub inbound_of : MessageEvent → InboundMessage
unfolding conn_id_of
inbound_of event = record {
  conn_id = conn_id_of event.root_message_id event.message_id;
  root_message_id = event.root_message_id;
  message_id = event.message_id;
  chat_id = event.chat_id;
  sender_open_id = event.sender_open_id;
  frames = event.frames;
}

unfoldable pub is_root : MessageEvent → Bool
is_root event = same event.message_id event.root_message_id

module _ (w : World) where
  unfoldable pub register_task : Bytes → Subscriber → RemoteDaemon w → RemoteDaemon w
  register_task conn_id task d = record d { tasks = insert conn_id task d.tasks }

  unfoldable pub unregister_task : Bytes → RemoteDaemon w → RemoteDaemon w
  unregister_task conn_id d = record d { tasks = remove conn_id d.tasks }

  -- A root message: `handle` tells the new task from others.
  unfoldable pub handle_root :
      ℕ → ℕ → InboundMessage → RemoteDaemon w → RemoteDaemon w × Option RemoteError
  unfolding register_task
  handle_root now handle inbound d =
      let task : Subscriber = record { handle = handle; closable = true } in
      let (manager, result) = accept_remote_start w now inbound (some task) d.manager in
      let d' = record d { manager = manager } in
      elim result [
        | err e ↦ (d', some (session_failed e))
        | ok _ ↦ (register_task inbound.conn_id task d', none)
      ]

  abbrev of_receive : Option SessionError → Option RemoteError
  of_receive none = none
  of_receive (some session_not_found) = some ignored_event
  of_receive (some e) = some (session_failed e)

  unfoldable pub handle_reply :
      ℕ → InboundMessage → RemoteDaemon w → RemoteDaemon w × Option RemoteError
  handle_reply now inbound d =
      let (manager, e) = receive_remote w now inbound d.manager in
      (record d { manager = manager }, of_receive e)

  -- `HandleMessageEvent`, up to the start of the new task's goroutine.
  unfoldable pub handle_message_event :
      ℕ → ℕ → MessageEvent → RemoteDaemon w → RemoteDaemon w × Option RemoteError
  unfolding inbound_of is_root handle_root handle_reply mentions_contain allowed_chat
      has_start_frame
  handle_message_event now handle event d =
      if not d.exec_enabled
      then (d, some remote_exec_disabled)
      else if not (mentions_contain event.mentions d.self_bot_open_id)
      then (d, some ignored_event)
      else if not (allowed_chat d.allowed_chats event.chat_id)
      then (d, some ignored_event)
      else if is_root event
      then (if has_start_frame event.frames
          then handle_root now handle (inbound_of event) d
          else (d, some ignored_event))
      else handle_reply now (inbound_of event) d
