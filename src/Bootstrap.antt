-- ===== src/Bootstrap.antt =====
-- internal/bootstrap/bootstrap.go: the message with which a bot introduces itself in a chat.
pub mod Introduced
mod Tests
use exec_over_lark.Prelude.{
  ℕ, Bool, true, false, not, ◌&&◌, ◌||◌, ◌≡◌, ◌≢◌, refl, ap, ◌⊎◌, inl, inr, Option, none, some,
  List, [], ◌∷◌, ◌++◌, Bool-cases, is_empty, if◌then◌else◌,
}
use mathlib.Core.Path.{subst}
use exec_over_lark.Prelude.Bytes.{Bytes, codes, same, same_iff, trim_space, is_blank}
use exec_over_lark.Prelude.Result.{
  Result, ok, err, ◌>>=◌, ◌>>◌, ensure, ensure_iff, Result-cases, >>_iff, >>=-eq-ok,
}

-- `send_failed` wraps the error of the sender.
pub data BootstrapError : Type 0 where
  ignored_event no_sender decode_failed chat_id_required bot_open_id_required missing_chat_id :
      BootstrapError
  send_failed : ℕ → BootstrapError

pub record AddedToChatEvent : Type 0 where
  pub event_id : Bytes
  pub event_type : Bytes
  pub chat_id : Bytes
  pub added_bot_open_id : Bytes

-- `rawEnvelope`; an identifier is its open id.
pub record RawEnvelope : Type 0 where
  pub type : Bytes
  pub event_id : Bytes
  pub event_type : Bytes
  pub chat_id : Bytes
  pub bot_id : Bytes
  pub member_id : Bytes
  pub open_id : Bytes

-- `rawIdentifier.UnmarshalJSON` of what encoding/json reads as a string, or else as the field of an object.
unfoldable pub read_identifier : Option Bytes → Option Bytes → Option Bytes
read_identifier (some value) object = some value
read_identifier none object = object

abbrev pub bot_added_event_type : Bytes
bot_added_event_type = codes "im.chat.member.bot.added_v1"

-- `firstNonEmpty`, which returns the value without its blanks
unfoldable pub first_trimmed : List Bytes → Bytes
first_trimmed [] = []
first_trimmed (v ∷ vs) = if is_blank v then first_trimmed vs else trim_space v

abbrev newline : Bytes
newline = 10 ∷ []

unfoldable pub message : Bytes → Bytes → Result BootstrapError Bytes
message chat_id bot_open_id =
    let chat = trim_space chat_id in
    let bot = trim_space bot_open_id in
    do
      ensure (not (is_empty chat)) chat_id_required
      ensure (not (is_empty bot)) bot_open_id_required
      ok (
          codes "exec-over-lark server ready"
          ++ (newline
              ++ (codes "chat_id: " ++ (chat ++ (newline ++ (codes "bot_openid: " ++ bot))))))

abbrev of_json : Option RawEnvelope → Result BootstrapError RawEnvelope
of_json none = err decode_failed
of_json (some e) = ok e

-- The bot that was added, as far as the event names it.
unfoldable pub added_bot : RawEnvelope → Bytes
unfolding first_trimmed
added_bot e = first_trimmed (e.bot_id ∷ e.member_id ∷ e.open_id ∷ [])

-- Nothing contradicts that the bot added is this one.
unfoldable pub is_self : Bytes → Bytes → Bool
is_self self added = let own = trim_space self in is_empty own || (is_empty added || same added own)

unfoldable pub accept_envelope : Bytes → RawEnvelope → Result BootstrapError AddedToChatEvent
unfolding added_bot is_self
accept_envelope self e =
    let chat = trim_space e.chat_id in
    do
      ensure (not (same e.type (codes "url_verification") || same e.type (codes "challenge")))
          ignored_event
      ensure (same e.event_type bot_added_event_type) ignored_event
      ensure (not (is_empty chat)) missing_chat_id
      ensure (is_self self (added_bot e)) ignored_event
      ok (record {
        event_id = e.event_id;
        event_type = e.event_type;
        chat_id = chat;
        added_bot_open_id = added_bot e;
      })

-- `unmarshal` is encoding/json on the envelope.
unfoldable pub parse_added_to_chat_event :
    (Bytes → Option RawEnvelope) → Bytes → Bytes → Result BootstrapError AddedToChatEvent
unfolding accept_envelope
parse_added_to_chat_event unmarshal payload self =
    of_json (unmarshal payload) >>= accept_envelope self

-- The error of the sender, if it has one.
abbrev pub of_send : Option ℕ → Result BootstrapError (Unit {0})
of_send none = ok tt
of_send (some n) = err (send_failed n)

-- The messages that are sent, to which chat and with which text, with the answer.
abbrev pub Sent : Type 0
Sent = Result BootstrapError (Unit {0}) × List (Bytes × Bytes)

unfoldable pub send_message :
    (Bytes → Bytes → Option ℕ) → Bytes → Result BootstrapError Bytes → Sent
send_message send chat (err e) = (err e, [])
send_message send chat (ok text) = (of_send (send chat text), (chat, text) ∷ [])

-- `HandleAddedToChatEvent`: `sender` is none if it is nil.
unfoldable pub handle_added_to_chat_event :
    Option (Bytes → Bytes → Option ℕ) → AddedToChatEvent → Bytes → Sent
unfolding message send_message
handle_added_to_chat_event none event bot_open_id = (err no_sender, [])
handle_added_to_chat_event (some send) event bot_open_id =
    let chat = trim_space event.chat_id in
    if is_empty chat
    then (err chat_id_required, [])
    else send_message send chat (message chat bot_open_id)

unfoldable pub handle_parsed :
    Option (Bytes → Bytes → Option ℕ) → Bytes → Result BootstrapError AddedToChatEvent → Sent
unfolding handle_added_to_chat_event
handle_parsed sender bot_open_id (err e) = (err e, [])
handle_parsed sender bot_open_id (ok event) = handle_added_to_chat_event sender event bot_open_id

unfoldable pub handle_event_json :
    (Bytes → Option RawEnvelope) → Option (Bytes → Bytes → Option ℕ) → Bytes → Bytes → Sent
unfolding parse_added_to_chat_event handle_parsed
handle_event_json unmarshal sender payload bot_open_id =
    handle_parsed sender bot_open_id (parse_added_to_chat_event unmarshal payload bot_open_id)
