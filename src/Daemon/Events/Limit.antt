-- ===== src/Daemon/Events/Limit.antt =====
-- internal/daemon/remote.go: the number of sessions of a daemon that reads a stream of events.
use exec_over_lark.Prelude.{
  inl, inr, ℕ, Bool, true, false, not, Option, some, List, [], ◌∷◌, Bool-cases, Option-cases,
  if◌then◌else◌,
}
use exec_over_lark.Prelude.Bytes.{Bytes, is_blank, trim_space}
use exec_over_lark.Prelude.Result.{Result-cases}
use exec_over_lark.Lark.Event.{MessageEvent, Json}
use exec_over_lark.RemoteExec.Types.{ContextError}
use exec_over_lark.Session.Types.{World, InboundMessage, Subscriber}
use exec_over_lark.Session.Accept.{accept_remote_start}
use exec_over_lark.Session.Limit.{Limited}
use exec_over_lark.Session.Limit.Ops.{receive_remote-Limited, accept_remote_start-Limited}
use exec_over_lark.Daemon.Remote.{
  RemoteDaemon, RemoteError, has_start_frame, mentions_contain, allowed_chat, inbound_of, is_root,
  handle_root, handle_reply, handle_message_event,
}
use exec_over_lark.Daemon.Events.{
  MetaEnvelope, Line, parse_event_json, handle_event, handle_event_json, goes_on,
  consume_event_stream,
}

module _ (w : World) (cap : ℕ) where
  abbrev pub WithinLimit : RemoteDaemon w → Type 0
  WithinLimit d = Limited w cap d.manager

  handle_root-WithinLimit :
      (now handle : ℕ) (inbound : InboundMessage) (d : RemoteDaemon w)
      → WithinLimit d
      → WithinLimit (handle_root w now handle inbound d).0
  unfolding handle_root
  handle_root-WithinLimit now handle inbound d h =
      let task : Subscriber = record { handle = handle; closable = true } in
      let k = accept_remote_start-Limited w cap now inbound (some task) d.manager h in
      elim (Result-cases (accept_remote_start w now inbound (some task) d.manager).1) [
        | inl (e, q) ↦ rw (q, handle_root) k
        | inr (s, q) ↦ rw (q, handle_root) k
      ]

  guard-WithinLimit :
      (holds : Bool) (d : RemoteDaemon w) (e : RemoteError)
      (rest : RemoteDaemon w × Option RemoteError)
      → WithinLimit d
      → WithinLimit rest.0
      → WithinLimit (if not holds then (d, some e) else rest).0
  guard-WithinLimit true d e rest h k = k
  guard-WithinLimit false d e rest h k = h

  handle_message_event-WithinLimit :
      (now handle : ℕ) (event : MessageEvent) (d : RemoteDaemon w)
      → WithinLimit d
      → WithinLimit (handle_message_event w now handle event d).0
  unfolding handle_message_event handle_reply
  handle_message_event-WithinLimit now handle event d h =
      let root = handle_root-WithinLimit now handle (inbound_of event) d h in
      let reply = receive_remote-Limited w cap now (inbound_of event) d.manager h in
      guard-WithinLimit d.exec_enabled d _ _ h (
        guard-WithinLimit (mentions_contain event.mentions d.self_bot_open_id) d _ _ h (
          guard-WithinLimit (allowed_chat d.allowed_chats event.chat_id) d _ _ h
            (elim (Bool-cases (is_root event)) [
              | inl t ↦ elim (Bool-cases (has_start_frame event.frames)) [
                | inl s ↦ rw t (rw s root)
                | inr f ↦ rw t (rw f h)
              ]
              | inr f ↦ rw f reply
            ])))

  module _ (unmarshal : Bytes → Option MetaEnvelope) (json : Json) where
    handle_event_json-WithinLimit :
        (now handle : ℕ) (payload : Bytes) (d : RemoteDaemon w)
        → WithinLimit d
        → WithinLimit (handle_event_json unmarshal json w now handle payload d).0
    unfolding handle_event_json handle_event
    handle_event_json-WithinLimit now handle payload d h =
        elim (Result-cases (parse_event_json unmarshal json w payload d)) [
          | inl (e, q) ↦ rw (q, handle_event_json, handle_event) h
          | inr (event, q) ↦
              rw (q, handle_event_json, handle_event)
                (handle_message_event-WithinLimit now handle event d h)
        ]

    -- However many events a stream has, and however it ends, a daemon whose sessions are live and within their
    -- limit keeps them so.
    pub consume_event_stream-WithinLimit :
        (readable : Bool) (ctx : Option ContextError) (lines : List Line) (d : RemoteDaemon w)
        → WithinLimit d
        → WithinLimit (consume_event_stream unmarshal json w readable ctx lines d).0
    unfolding consume_event_stream
    consume_event_stream-WithinLimit readable ctx [] d h = h
    consume_event_stream-WithinLimit readable ctx (line ∷ lines) d h =
        let r = handle_event_json unmarshal json w line.now line.handle (trim_space line.text) d in
        let k = handle_event_json-WithinLimit line.now line.handle (trim_space line.text) d h in
        elim (Option-cases line.context) [
          | inr (x, q) ↦ rw (q, consume_event_stream) h
          | inl q ↦
              rw (q, consume_event_stream)
                (elim (Bool-cases (is_blank line.text)) [
                  | inl b ↦ rw b (consume_event_stream-WithinLimit readable ctx lines d h)
                  | inr f ↦ rw f (elim (Bool-cases (goes_on r.1)) [
                    | inl t ↦ rw t (consume_event_stream-WithinLimit readable ctx lines r.0 k)
                    | inr s ↦ rw s k
                  ])
                ])
        ]
