-- ===== src/Daemon/Remote/Authorized.antt =====
-- internal/daemon/remote.go: whose messages have an effect.
use exec_over_lark.Prelude.{
  ◌≡◌, ◌≢◌, refl, ap, ◌⊎◌, inl, inr, ℕ, Bool, true, false, not, some, List, [], ◌∷◌, is_empty,
  is_empty_nil, All, Bool-cases, Option-cases, if◌then◌else◌,
}
use mathlib.Core.Path.{subst}
use exec_over_lark.Prelude.Bytes.{Bytes, same, same_iff, trim_space, bytes_eq}
use exec_over_lark.Prelude.Dict.{Dict, lookup, insert, lookup-insert, insert-not_empty}
use exec_over_lark.Protocol.Frame.{Frame, FrameType, start}
use exec_over_lark.Lark.Event.{Mention, MessageEvent}
use exec_over_lark.Session.Types.{World, RemoteSession}
use exec_over_lark.Session.Base.{normalize_conn_id}
use exec_over_lark.Session.Peer.{Matches, receive_remote_authorized}
use exec_over_lark.Daemon.Remote.{
  RemoteDaemon, ignored_event, add_strings, string_set, is_start, has_start_frame, find_open_id,
  mentions_contain, allowed_chat, inbound_of, is_root, handle_root, handle_reply,
  handle_message_event,
}

pub data Any {A : Type 0} (P : A → Type 0) : List A → Type 0 where
  here : (x : A) (xs : List A) → P x → Any P (x ∷ xs)
  there : (x : A) (xs : List A) → Any P xs → Any P (x ∷ xs)

-- The list names no chat, or it names this one, up to blanks around it.
abbrev pub Allows : List Bytes → Bytes → Type 0
Allows ids chat = All (λ v. trim_space v ≡ []) ids ⊎ Any (λ v. trim_space v ≡ chat) ids

-- A root message with a start frame, or a message of a session that is there, from its chat and its peer.
abbrev pub HasTarget : (w : World) → MessageEvent → RemoteDaemon w → Type 0
HasTarget w event d =
    ((event.message_id ≡ event.root_message_id) × Any (λ (f : Frame). f.type ≡ start) event.frames)
    ⊎ ((sess : RemoteSession) × (lookup (normalize_conn_id (inbound_of event))
            d.manager.remote_by_conn
          ≡ some sess)
        × Matches event.chat_id sess.base.chat_id
        × Matches event.sender_open_id sess.base.peer_open_id)

pub record IsAuthorized (w : World) (ids : List Bytes) (event : MessageEvent) (d : RemoteDaemon w)
    : Type 0 where
  pub enabled : d.exec_enabled ≡ true
  pub mentioned :
      Any (λ (m : Mention). trim_space m.open_id ≡ trim_space d.self_bot_open_id) event.mentions
  pub chat : Allows ids event.chat_id
  pub target : HasTarget w event d

find_open_id-Any :
    (open_id : Bytes) (ms : List Mention)
    → find_open_id open_id ms ≡ true
    → Any (λ (m : Mention). trim_space m.open_id ≡ open_id) ms
unfolding find_open_id
find_open_id-Any open_id [] h = cc h
find_open_id-Any open_id (m ∷ ms) h = elim (Bool-cases (same (trim_space m.open_id) open_id)) [
  | inl t ↦ here m ms ((same_iff (trim_space m.open_id) open_id).0 t)
  | inr f ↦ there m ms (find_open_id-Any open_id ms (rw f at h))
]

is_start_start : (t : FrameType) → is_start t ≡ true → t ≡ start
unfolding is_start
is_start_start start h = refl
is_start_start _ h = cc h

has_start_frame-Any :
    (frames : List Frame)
    → has_start_frame frames ≡ true
    → Any (λ (f : Frame). f.type ≡ start) frames
unfolding has_start_frame
has_start_frame-Any [] h = cc h
has_start_frame-Any (f ∷ fs) h = elim (Bool-cases (is_start f.type)) [
  | inl t ↦ here f fs (is_start_start f.type t)
  | inr n ↦ there f fs (has_start_frame-Any fs (rw n at h))
]

-- What the set holds was in it before or is one of the strings.
add_strings-lookup :
    (vs : List Bytes) (out : Dict Bytes (Unit {0})) (chat : Bytes) {u : Unit {0}}
    → lookup chat (add_strings vs out) ≡ some u
    → (lookup chat out ≡ some u) ⊎ Any (λ v. trim_space v ≡ chat) vs
unfolding add_strings
add_strings-lookup [] out chat h = inl h
add_strings-lookup (v ∷ vs) out chat {u} h = elim (Bool-cases (is_empty (trim_space v))) [
  | inl e ↦ elim (add_strings-lookup vs out chat {u = u} (rw e at h)) [
    | inl old ↦ inl old
    | inr new ↦ inr (there v vs new)
  ]
  | inr n ↦ elim (add_strings-lookup vs (insert (trim_space v) tt out) chat {u = u} (rw n at h)) [
    | inl old ↦ elim (Bool-cases (same (trim_space v) chat)) [
      | inl t ↦ inr (here v vs ((same_iff (trim_space v) chat).0 t))
      | inr f ↦ inl (rw f at (rw (lookup-insert (trim_space v) chat tt out) at old))
    ]
    | inr new ↦ inr (there v vs new)
  ]
]

-- A set that stays empty had nothing in it, and no string to take.
add_strings-empty :
    (vs : List Bytes) (out : Dict Bytes (Unit {0}))
    → is_empty (add_strings vs out) ≡ true
    → (is_empty out ≡ true) × All (λ v. trim_space v ≡ []) vs
unfolding add_strings
add_strings-empty [] out h = (h, tt)
add_strings-empty (v ∷ vs) out h = elim (Bool-cases (is_empty (trim_space v))) [
  | inl e ↦
      let rest = add_strings-empty vs out (rw e at h) in
      (rest.0, (is_empty_nil (trim_space v) e, rest.1))
  | inr n ↦
      let rest = add_strings-empty vs (insert (trim_space v) tt out) (rw n at h) in
      absurd (cc (rest.0, insert-not_empty (trim_space v) tt out))
]

allowed_chat-Allows :
    (ids : List Bytes) (chat : Bytes) → allowed_chat (string_set ids) chat ≡ true → Allows ids chat
unfolding allowed_chat string_set lookup
allowed_chat-Allows ids chat h = elim (Bool-cases (is_empty (add_strings ids []))) [
  | inl e ↦ inl (add_strings-empty ids [] e).1
  | inr n ↦ elim (Option-cases (lookup chat (add_strings ids []))) [
    | inl missing ↦ cc (rw missing at (rw n at h))
    | inr (u, found) ↦ elim (add_strings-lookup ids [] chat {u = u} found) [
      | inl old ↦ absurd (cc old)
      | inr new ↦ inr new
    ]
  ]
]

-- Behind a guard that leaves the state as it is.
guarded :
    {S E : Type 0} (holds : Bool) (s : S) (e : E) (rest : S × E)
    → (if not holds then (s, e) else rest).0 ≢ s
    → (holds ≡ true) × (rest.0 ≢ s)
guarded true s e rest h = (refl, h)
guarded false s e rest h = absurd (h refl)

handle_reply-target :
    (w : World) (now : ℕ) (event : MessageEvent) (d : RemoteDaemon w)
    → (handle_reply w now (inbound_of event) d).0 ≢ d
    → HasTarget w event d
unfolding handle_reply inbound_of
handle_reply-target w now event d h = inr (
    receive_remote_authorized w now (inbound_of event) d.manager
      (λ q. h (ap (λ m. record d { manager = m }) q)))

root_same : (event : MessageEvent) → is_root event ≡ true → event.message_id ≡ event.root_message_id
unfolding is_root
root_same event h = (same_iff event.message_id event.root_message_id).0 h

-- Behind the guards.
target_of :
    (w : World) (now handle : ℕ) (event : MessageEvent) (d : RemoteDaemon w)
    → (if is_root event
        then (if has_start_frame event.frames
            then handle_root w now handle (inbound_of event) d
            else (d, some ignored_event))
        else handle_reply w now (inbound_of event) d).0
      ≢ d
    → HasTarget w event d
target_of w now handle event d h = elim (Bool-cases (is_root event)) [
  | inl t ↦ elim (Bool-cases (has_start_frame event.frames)) [
    | inl s ↦ inl (root_same event t, has_start_frame-Any event.frames s)
    | inr f ↦ absurd (h (rw t (rw f refl)))
  ]
  | inr f ↦ handle_reply-target w now event d (rw f at h)
]

-- The target.
-- A message that has any effect on the sessions or the tasks: exec is enabled, the message mentions the bot, and its
-- chat is one of those that the configuration allows, or that allows every chat. It is a root message with
-- a start frame, or belongs to a session that is there and comes from the session's chat and the session's peer, as
-- far as it names them. The daemon's set of chats is the one that is made of the configured list.
pub handle_message_event-IsAuthorized :
    (w : World) (now handle : ℕ) (ids : List Bytes) (event : MessageEvent) (d : RemoteDaemon w)
    → d.allowed_chats ≡ string_set ids
    → (handle_message_event w now handle event d).0 ≢ d
    → IsAuthorized w ids event d
unfolding handle_message_event mentions_contain
handle_message_event-IsAuthorized w now handle ids event d q h =
    let (enabled, h1) = guarded d.exec_enabled d _ _ h in
    let (mentioned, h2) = guarded (mentions_contain event.mentions d.self_bot_open_id) d _ _ h1 in
    let (allowed, h3) = guarded (allowed_chat d.allowed_chats event.chat_id) d _ _ h2 in
    record {
      enabled = enabled;
      mentioned = find_open_id-Any (trim_space d.self_bot_open_id) event.mentions mentioned;
      chat =
          allowed_chat-Allows ids event.chat_id
            (subst (λ s. allowed_chat s event.chat_id ≡ true) q allowed);
      target = target_of w now handle event d h3;
    }
