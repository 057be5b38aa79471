-- ===== src/Bootstrap/Introduced.antt =====
-- internal/bootstrap/bootstrap.go: what HandleEventJSON sends.
use exec_over_lark.Prelude.{
  ℕ, true, not, ◌||◌, ◌≡◌, refl, ap, sym, inl, inr, Option, none, some, List, [], ◌∷◌, Bool-cases,
  is_empty,
}
use exec_over_lark.Prelude.Bytes.{Bytes, codes, same, same_iff, trim_space}
use exec_over_lark.Prelude.Result.{Result, ok, err, ensure, ensure_iff, >>_iff, >>=-eq-ok}
use exec_over_lark.Bootstrap.{
  BootstrapError, AddedToChatEvent, RawEnvelope, bot_added_event_type, message, added_bot, is_self,
  accept_envelope, of_json, parse_added_to_chat_event, send_message, handle_added_to_chat_event,
  handle_parsed, handle_event_json,
}

-- A message that is sent: the event tells that a bot was added to the chat, nothing in it tells that it was
-- another bot, and the text is the introduction of the bot for this chat.
pub record IsIntroduction (unmarshal : Bytes → Option RawEnvelope) (payload self : Bytes)
    (sent : Bytes × Bytes) : Type 0 where
  pub envelope : RawEnvelope
  pub decoded : unmarshal payload ≡ some envelope
  pub added : envelope.event_type ≡ bot_added_event_type
  pub own : is_self self (added_bot envelope) ≡ true
  pub chat : sent.0 ≡ trim_space (trim_space envelope.chat_id)
  pub text : message sent.0 self ≡ ok sent.1

-- At most one.
abbrev pub AtMostOne : {A : Type 0} → (A → Type 0) → List A → Type 0
AtMostOne P [] = Unit
AtMostOne P (a ∷ []) = P a
AtMostOne P (a ∷ b ∷ more) = ⊥

abbrev chat_or : Result BootstrapError AddedToChatEvent → Bytes
chat_or (err e) = []
chat_or (ok event) = event.chat_id

module _ (unmarshal : Bytes → Option RawEnvelope) (payload self : Bytes) where
  of_json_ok : (o : Option RawEnvelope) {e : RawEnvelope} → of_json o ≡ ok e → o ≡ some e
  of_json_ok none h = cc h
  of_json_ok (some e) h = cc h

  -- What an event that is accepted tells.
  Parsed : AddedToChatEvent → Type 0
  Parsed event =
      (e : RawEnvelope) × ((unmarshal payload ≡ some e)
        × ((e.event_type ≡ bot_added_event_type)
            × ((is_self self (added_bot e) ≡ true) × (event.chat_id ≡ trim_space e.chat_id))))

  parsed :
      {event : AddedToChatEvent}
      → parse_added_to_chat_event unmarshal payload self ≡ ok event
      → Parsed event
  unfolding parse_added_to_chat_event accept_envelope Parsed
  parsed {event} h =
      let (e, d, h0) = >>=-eq-ok (of_json (unmarshal payload)) _ h in
      let (c, h1) =
        (>>_iff
            (ensure
              (not (same e.type (codes "url_verification") || same e.type (codes "challenge"))) _)
            _ event).0
          h0 in
      let (t, h2) = (>>_iff (ensure (same e.event_type bot_added_event_type) _) _ event).0 h1 in
      let (n, h3) = (>>_iff (ensure (not (is_empty (trim_space e.chat_id))) _) _ event).0 h2 in
      let (s, h4) = (>>_iff (ensure (is_self self (added_bot e)) _) _ event).0 h3 in
      let q : trim_space e.chat_id ≡ event.chat_id = ap (λ r. chat_or r) h4 in
      (
        e,
        (
          of_json_ok (unmarshal payload) d,
          (
            (same_iff e.event_type bot_added_event_type).0
                ((ensure_iff (same e.event_type bot_added_event_type) _).0 t),
            ((ensure_iff (is_self self (added_bot e)) _).0 s, sym q),
          ),
        ),
      )

  sends :
      (send : Bytes → Bytes → Option ℕ) (event : AddedToChatEvent)
      → Parsed event
      → (text : Result BootstrapError Bytes) → message (trim_space event.chat_id) self ≡ text
      → AtMostOne
          (IsIntroduction unmarshal payload self)
          (send_message send (trim_space event.chat_id) text).1
  unfolding send_message Parsed
  sends send event p (err e) m = tt
  sends send event (e, (d, (t, (o, c)))) (ok text) m = record {
    envelope = e;
    decoded = d;
    added = t;
    own = o;
    chat = ap trim_space c;
    text = m;
  }

  handled :
      (sender : Option (Bytes → Bytes → Option ℕ)) (r : Result BootstrapError AddedToChatEvent)
      → parse_added_to_chat_event unmarshal payload self ≡ r
      → AtMostOne (IsIntroduction unmarshal payload self) (handle_parsed sender self r).1
  unfolding handle_parsed handle_added_to_chat_event
  handled sender (err e) q = tt
  handled none (ok event) q = tt
  handled (some send) (ok event) q = elim (Bool-cases (is_empty (trim_space event.chat_id))) [
    | inl t ↦ rw t tt
    | inr f ↦ rw f (sends send event (parsed q) (message (trim_space event.chat_id) self) refl)
  ]

  -- An event makes the bot send one message at most, and then the event tells that a bot was added to a chat,
  -- nothing in it tells that it was another bot, and the message is the introduction of this bot, sent to that chat.
  pub handle_event_json_introduces :
      (sender : Option (Bytes → Bytes → Option ℕ))
      → AtMostOne
          (IsIntroduction unmarshal payload self)
          (handle_event_json unmarshal sender payload self).1
  unfolding handle_event_json
  handle_event_json_introduces sender =
      handled sender (parse_added_to_chat_event unmarshal payload self) refl
