-- ===== src/Lark/Event/Accepted.antt =====
-- internal/lark/client.go: the events that ParseMessageReceiveEvent does not ignore.
use exec_over_lark.Prelude.{
  ◌≡◌, refl, ◌⊎◌, inl, inr, Bool, true, false, not, ◌||◌, Option, none, some, List, [], is_empty,
  is_empty_nil,
}
use mathlib.Core.Path.{subst}
use exec_over_lark.Prelude.Bytes.{Bytes, codes, same, same_iff, is_blank}
use exec_over_lark.Prelude.Result.{Result, ok, err, ensure, ensure_iff, >>_iff, >>=-eq-ok}
use exec_over_lark.Protocol.Frame.{Frame, ProtocolError}
use exec_over_lark.Protocol.Wire.{decode_frames}
use exec_over_lark.Lark.Text.{extract_protocol_text}
use exec_over_lark.Lark.Event.{
  EventEnvelope, MessageEvent, Json, normalize_mentions, mentions_contain_open_id, of_decode,
  of_envelope, is_challenge, is_receive, is_addressed, message_event, message_receive_event_type,
  text_from_raw_content, accept_envelope, parse_message_receive_event,
}

-- What an event is that is handed on.
pub record IsAccepted (json : Json) (self payload : Bytes) (event : MessageEvent) : Type 0 where
  pub envelope : EventEnvelope
  pub decoded : json.envelope payload ≡ some envelope
  pub kind : (envelope.event_type ≡ []) ⊎ (envelope.event_type ≡ message_receive_event_type)
  pub message_type : event.message_type ≡ codes "text"
  pub addressed : (is_blank self ≡ true) ⊎ (mentions_contain_open_id event.mentions self ≡ true)
  pub text : event.text ≡ text_from_raw_content json envelope.message.content
  pub frames : decode_frames (extract_protocol_text event.text) ≡ ok event.frames
  pub chat : event.chat_id ≡ envelope.message.chat_id
  pub sender : event.sender_open_id ≡ envelope.sender_id.open_id

of_envelope_ok :
    (json : Json) (o : Option EventEnvelope) {e : EventEnvelope}
    → of_envelope json o ≡ ok e
    → o ≡ some e
of_envelope_ok json none h = cc h
of_envelope_ok json (some e) h = cc h

of_decode_ok :
    (json : Json) (r : Result ProtocolError (List Frame)) {fs : List Frame}
    → of_decode json r ≡ ok fs
    → r ≡ ok fs
of_decode_ok json (ok fs) h = cc h
of_decode_ok json (err e) h = cc h

or_cases : (a b : Bool) → a || b ≡ true → (a ≡ true) ⊎ (b ≡ true)
or_cases true b h = inl refl
or_cases false b h = inr h

kind_of :
    (json : Json) (e : EventEnvelope)
    → is_receive json e ≡ true
    → (e.event_type ≡ []) ⊎ (e.event_type ≡ message_receive_event_type)
unfolding is_receive
kind_of json e h = elim (or_cases _ _ h) [
  | inl t ↦ inl (is_empty_nil e.event_type t)
  | inr t ↦ inr ((same_iff e.event_type message_receive_event_type).0 t)
]

-- An event that is not ignored is a text message of the receive event, or of an event without a type; where the
-- bot's own id is given, it mentions the bot; its frames are what the protocol text in the message decodes to,
-- and its chat and sender are the message's.
pub parse_message_receive_event-IsAccepted :
    (json : Json) (self payload : Bytes) {event : MessageEvent}
    → parse_message_receive_event json self payload ≡ ok event
    → IsAccepted json self payload event
unfolding parse_message_receive_event accept_envelope message_event is_addressed
parse_message_receive_event-IsAccepted json self payload {event} h =
    let (e, d, h0) = >>=-eq-ok (of_envelope json (json.envelope payload)) _ h in
    let mentions = normalize_mentions e.message.mentions in
    let content = text_from_raw_content json e.message.content in
    let (challenge, h1) = (>>_iff (ensure (not (is_challenge json e)) _) _ event).0 h0 in
    let (receive, h2) = (>>_iff (ensure (is_receive json e) _) _ event).0 h1 in
    let (text, h3) =
      (>>_iff (ensure (same e.message.message_type (codes "text")) _) _ event).0 h2 in
    let (addressed, h4) = (>>_iff (ensure (is_addressed json self mentions) _) _ event).0 h3 in
    let (found, h5) =
      (>>_iff (ensure (not (is_empty (extract_protocol_text content))) _) _ event).0 h4 in
    let (frames, f, h6) =
      >>=-eq-ok (of_decode json (decode_frames (extract_protocol_text content))) _ h5 in
    let q : message_event json e mentions content frames ≡ event = cc h6 in
    subst (IsAccepted json self payload) q (record {
      envelope = e;
      decoded = of_envelope_ok json (json.envelope payload) d;
      kind = kind_of json e ((ensure_iff (is_receive json e) _).0 receive);
      message_type =
          (same_iff e.message.message_type (codes "text")).0
            ((ensure_iff (same e.message.message_type (codes "text")) _).0 text);
      addressed = or_cases _ _ ((ensure_iff (is_addressed json self mentions) _).0 addressed);
      text = refl;
      frames = of_decode_ok json (decode_frames (extract_protocol_text content)) f;
      chat = refl;
      sender = refl;
    })
