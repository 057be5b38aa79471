-- ===== src/Daemon/Events.antt =====
-- internal/daemon/remote.go: HandleEventJSON, parseEventJSON and consumeEventStream.
pub mod Limit
use exec_over_lark.Prelude.{
  ℕ, Bool, true, false, not, ◌&&◌, ◌||◌, Option, none, some, List, [], ◌∷◌, is_empty, if◌then◌else◌,
}
use exec_over_lark.Prelude.Bytes.{Bytes, codes, same, trim_space, is_blank}
use exec_over_lark.Prelude.Result.{Result, ok, err, ◌>>=◌, ◌>>◌, ensure}
use exec_over_lark.Lark.Event as Ev
use exec_over_lark.Lark.Event.{
  Identifier, RawMention, Mention, MessageEvent, Json, EventError, decode_failed, stream_failed,
  frames_failed, normalize_mentions, message_receive_event_type, parse_message_receive_event,
}
use exec_over_lark.RemoteExec.Types.{ContextError}
use exec_over_lark.Session.Types.{World}
use exec_over_lark.Daemon.Remote.{
  RemoteDaemon, RemoteError, remote_exec_disabled, ignored_event, event_failed, context_failed,
  mentions_contain, allowed_chat, handle_message_event,
}

-- The envelope of `parseRemoteEventMeta`.
pub record MetaEnvelope : Type 0 where
  pub type : Bytes
  pub event_type : Bytes
  pub sender_id : Identifier
  pub chat_id : Bytes
  pub message_type : Bytes
  pub mentions : List RawMention

-- `remoteEventMeta` of an event that is not ignored
pub record EventMeta : Type 0 where
  pub chat_id : Bytes
  pub sender_open_id : Bytes
  pub mentions : List Mention

abbrev pub of_event_error : EventError → RemoteError
of_event_error Ev.ignored_event = ignored_event
of_event_error e = event_failed e

abbrev pub of_event : {A : Type 0} → Result EventError A → Result RemoteError A
of_event (ok a) = ok a
of_event (err e) = err (of_event_error e)

-- Whether the loop goes on behind a message.
abbrev pub goes_on : Option RemoteError → Bool
goes_on none = true
goes_on (some ignored_event) = true
goes_on (some e) = false

abbrev pub of_context : Option ContextError → Option RemoteError
of_context none = none
of_context (some e) = some (context_failed e)

-- A line of the stream: the context's error when it is read, the time, and the handle of a task that it may start.
pub record Line : Type 0 where
  pub text : Bytes
  pub context : Option ContextError
  pub now : ℕ
  pub handle : ℕ

-- `unmarshal` is encoding/json on the envelope of the metadata, `json` on what the client reads.
module _ (unmarshal : Bytes → Option MetaEnvelope) (json : Json) (w : World) where
  -- The metadata of an event, whose own checks ignore it or not.
  unfoldable pub accept_meta : MetaEnvelope → Result RemoteError EventMeta
  unfolding normalize_mentions
  accept_meta e = do
    ensure (not (same e.type (codes "url_verification") || same e.type (codes "challenge")))
        ignored_event
    ensure (is_empty e.event_type || same e.event_type message_receive_event_type) ignored_event
    ensure (same e.message_type (codes "text")) ignored_event
    ok (record {
      chat_id = e.chat_id;
      sender_open_id = e.sender_id.open_id;
      mentions = normalize_mentions e.mentions;
    })

  abbrev of_envelope : Option MetaEnvelope → Result RemoteError MetaEnvelope
  of_envelope none = err (event_failed decode_failed)
  of_envelope (some e) = ok e

  unfoldable pub parse_remote_event_meta : Bytes → Result RemoteError EventMeta
  unfolding accept_meta
  parse_remote_event_meta payload = of_envelope (unmarshal payload) >>= accept_meta

  unfoldable pub parse_event_json : Bytes → RemoteDaemon w → Result RemoteError MessageEvent
  unfolding parse_remote_event_meta mentions_contain allowed_chat parse_message_receive_event
  parse_event_json payload d = do
    ensure d.exec_enabled remote_exec_disabled
    meta ← parse_remote_event_meta payload
    ensure (mentions_contain meta.mentions d.self_bot_open_id) ignored_event
    ensure (allowed_chat d.allowed_chats meta.chat_id) ignored_event
    of_event (parse_message_receive_event json d.self_bot_open_id payload)

  unfoldable pub handle_event :
      ℕ → ℕ → Result RemoteError MessageEvent → RemoteDaemon w → RemoteDaemon w × Option RemoteError
  unfolding handle_message_event
  handle_event now handle (err e) d = (d, some e)
  handle_event now handle (ok event) d = handle_message_event w now handle event d

  -- `HandleEventJSON`
  unfoldable pub handle_event_json :
      ℕ → ℕ → Bytes → RemoteDaemon w → RemoteDaemon w × Option RemoteError
  unfolding parse_event_json handle_event
  handle_event_json now handle payload d = handle_event now handle (parse_event_json payload d) d

  -- `consumeEventStream` of the lines that the scanner finds, whether it ends without an error, and the
  -- context's error then.
  unfoldable pub consume_event_stream :
      Bool → Option ContextError → List Line → RemoteDaemon w → RemoteDaemon w × Option RemoteError
  unfolding handle_event_json
  consume_event_stream readable ctx [] d =
      (d, if readable then of_context ctx else some (event_failed stream_failed))
  consume_event_stream readable ctx (line ∷ lines) d =
      let (d', e) = handle_event_json line.now line.handle (trim_space line.text) d in
      let skip = consume_event_stream readable ctx lines d in
      let rest = consume_event_stream readable ctx lines d' in
      elim line.context [
        | some x ↦ (d, some (context_failed x))
        | none ↦ if is_blank line.text then skip else if goes_on e then rest else (d', e)
      ]
