-- ===== src/Lark/Event.antt =====
-- internal/lark/client.go: ParseMessageReceiveEvent, ParseMessageEventStream, and what they read.
pub mod Accepted
use exec_over_lark.Prelude.{
  ℕ, Bool, true, false, not, ◌&&◌, ◌||◌, Option, none, some, List, [], ◌∷◌, is_empty, if◌then◌else◌,
}
use exec_over_lark.Prelude.Bytes.{Bytes, codes, same, trim_space, is_blank}
use exec_over_lark.Prelude.Result.{Result, ok, err, ◌>>=◌, ◌>>◌, ensure}
use exec_over_lark.Protocol.Frame.{Frame, ProtocolError}
use exec_over_lark.Protocol.Wire.{decode_frames}
use exec_over_lark.Lark.Text.{extract_protocol_text}

pub record Identifier : Type 0 where
  pub open_id : Bytes
  pub user_id : Bytes
  pub union_id : Bytes

pub record RawMention : Type 0 where
  pub key : Bytes
  pub name : Bytes
  pub id : Identifier
  pub open_id : Bytes
  pub user_id : Bytes
  pub union_id : Bytes

pub record Mention : Type 0 where
  pub key : Bytes
  pub name : Bytes
  pub open_id : Bytes
  pub user_id : Bytes
  pub union_id : Bytes

pub record EventMessage : Type 0 where
  pub message_id : Bytes
  pub root_id : Bytes
  pub parent_id : Bytes
  pub chat_id : Bytes
  pub message_type : Bytes
  pub content : Bytes
  pub mentions : List RawMention

pub record EventEnvelope : Type 0 where
  pub type : Bytes
  pub event_id : Bytes
  pub event_type : Bytes
  pub sender_id : Identifier
  pub sender_type : Bytes
  pub message : EventMessage

pub record MessageEvent : Type 0 where
  pub event_id : Bytes
  pub event_type : Bytes
  pub message_id : Bytes
  pub root_message_id : Bytes
  pub chat_id : Bytes
  pub sender_open_id : Bytes
  pub sender_type : Bytes
  pub message_type : Bytes
  pub text : Bytes
  pub mentions : List Mention
  pub frames : List Frame

pub data EventError : Type 0 where
  ignored_event decode_failed stream_failed : EventError
  frames_failed : ProtocolError → EventError

-- encoding/json: the envelope of an event, a string, and the field `text` of an object.
pub record Json : Type 0 where
  pub envelope : Bytes → Option EventEnvelope
  pub string : Bytes → Option Bytes
  pub text : Bytes → Option Bytes

abbrev pub message_receive_event_type : Bytes
message_receive_event_type = codes "im.message.receive_v1"

-- `firstNonEmpty`, which returns the value as it is
unfoldable pub first_with_text : List Bytes → Bytes
first_with_text [] = []
first_with_text (v ∷ vs) = if is_blank v then first_with_text vs else v

unfoldable pub normalize_mentions : List RawMention → List Mention
unfolding first_with_text
normalize_mentions [] = []
normalize_mentions (m ∷ ms) =
    record {
      key = m.key;
      name = m.name;
      open_id = first_with_text (m.id.open_id ∷ m.open_id ∷ []);
      user_id = first_with_text (m.id.user_id ∷ m.user_id ∷ []);
      union_id = first_with_text (m.id.union_id ∷ m.union_id ∷ []);
    }
    ∷ normalize_mentions ms

unfoldable pub contains_open_id : List Mention → Bytes → Bool
contains_open_id [] open_id = false
contains_open_id (m ∷ ms) open_id = same m.open_id open_id || contains_open_id ms open_id

unfoldable pub mentions_contain_open_id : List Mention → Bytes → Bool
unfolding contains_open_id
mentions_contain_open_id ms open_id = contains_open_id ms (trim_space open_id)

abbrev pub or_raw : Bytes → Option Bytes → Bytes
or_raw raw none = raw
or_raw raw (some text) = text

module _ (json : Json) where
  unfoldable pub text_from_content_bytes : Bytes → Bytes
  text_from_content_bytes raw = or_raw raw (json.text raw)

  -- `textFromRawContent`, whose error is always nil
  unfoldable pub text_from_raw_content : Bytes → Bytes
  unfolding text_from_content_bytes
  text_from_raw_content [] = []
  text_from_raw_content (c ∷ s) = elim (json.string (c ∷ s)) [
    | none ↦ text_from_content_bytes (c ∷ s)
    | some encoded ↦ text_from_content_bytes encoded
  ]

  abbrev pub of_decode : Result ProtocolError (List Frame) → Result EventError (List Frame)
  of_decode (ok frames) = ok frames
  of_decode (err e) = err (frames_failed e)

  abbrev pub of_envelope : Option EventEnvelope → Result EventError EventEnvelope
  of_envelope none = err decode_failed
  of_envelope (some e) = ok e

  -- An event of another kind
  unfoldable pub is_challenge : EventEnvelope → Bool
  is_challenge e = same e.type (codes "url_verification") || same e.type (codes "challenge")

  unfoldable pub is_receive : EventEnvelope → Bool
  is_receive e = is_empty e.event_type || same e.event_type message_receive_event_type

  -- No bot is asked for, or it is mentioned.
  unfoldable pub is_addressed : Bytes → List Mention → Bool
  unfolding mentions_contain_open_id
  is_addressed self mentions = is_blank self || mentions_contain_open_id mentions self

  unfoldable pub message_event : EventEnvelope → List Mention → Bytes → List Frame → MessageEvent
  unfolding first_with_text
  message_event e mentions text frames = record {
    event_id = e.event_id;
    event_type = first_with_text (e.event_type ∷ message_receive_event_type ∷ []);
    message_id = e.message.message_id;
    root_message_id =
        first_with_text (e.message.root_id ∷ e.message.parent_id ∷ e.message.message_id ∷ []);
    chat_id = e.message.chat_id;
    sender_open_id = e.sender_id.open_id;
    sender_type = e.sender_type;
    message_type = e.message.message_type;
    text = text;
    mentions = mentions;
    frames = frames;
  }

  unfoldable pub accept_envelope : Bytes → EventEnvelope → Result EventError MessageEvent
  unfolding normalize_mentions is_challenge is_receive is_addressed text_from_raw_content
      message_event extract_protocol_text
  accept_envelope self e =
      let mentions = normalize_mentions e.message.mentions in
      let text = text_from_raw_content e.message.content in
      do
        ensure (not (is_challenge e)) ignored_event
        ensure (is_receive e) ignored_event
        ensure (same e.message.message_type (codes "text")) ignored_event
        ensure (is_addressed self mentions) ignored_event
        ensure (not (is_empty (extract_protocol_text text))) ignored_event
        frames ← of_decode (decode_frames (extract_protocol_text text))
        ok (message_event e mentions text frames)

  unfoldable pub parse_message_receive_event : Bytes → Bytes → Result EventError MessageEvent
  unfolding accept_envelope
  parse_message_receive_event self payload =
      of_envelope (json.envelope payload) >>= accept_envelope self

  abbrev pub add_event :
      Result EventError MessageEvent
      → Result EventError (List MessageEvent)
      → Result EventError (List MessageEvent)
  add_event (ok event) rest = rest >>= λ events. ok (event ∷ events)
  add_event (err ignored_event) rest = rest
  add_event (err decode_failed) rest = err decode_failed
  add_event (err stream_failed) rest = err stream_failed
  add_event (err (frames_failed e)) rest = err (frames_failed e)

  -- `ParseMessageEventStream` of the lines that the scanner finds, and whether it ends without an error.
  unfoldable pub parse_message_event_stream :
      Bytes → Bool → List Bytes → Result EventError (List MessageEvent)
  unfolding parse_message_receive_event
  parse_message_event_stream self readable [] = if readable then ok [] else err stream_failed
  parse_message_event_stream self readable (line ∷ lines) =
      let rest = parse_message_event_stream self readable lines in
      if is_blank line
      then rest
      else add_event (parse_message_receive_event self (trim_space line)) rest
