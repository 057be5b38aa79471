-- ===== src/Outbound/Manager.antt =====
-- internal/outbound/manager.go: `Manager`, the chats' queues and the registry of connections. Each
-- operation takes the clock's time and runs without interruption; what the code does under the lock
-- of a chat after that of the manager is one step here.
use exec_over_lark.Prelude.{
  ℕ, ◌+◌, Bool, true, false, not, ◌&&◌, Option, none, some, List, [], ◌∷◌, ◌++◌, ◌==◌,
  if◌then◌else◌, is_empty,
}
use exec_over_lark.Prelude.Bytes.{Bytes, bytes_eq, trim_space, is_blank}
use exec_over_lark.Prelude.Dict.{Dict, lookup, insert, remove}
use exec_over_lark.Prelude.Result.{Result, ok, err}
use exec_over_lark.Protocol.Frame.{FrameType, ProtocolError}
use exec_over_lark.Protocol.Sequencer.{Sequencer, new_sequencer_from, next_frame}
use exec_over_lark.Outbound.Types.{
  Role, Target, ConnQueue, RequestSizer, ChatQueue, Effect, call_on_drained,
}
use exec_over_lark.Outbound.Schedule.{replan, schedule_ready}

pub data ManagerError : Type 0 where
  invalid_target connection_exists connection_missing root_open_canceled : ManagerError
  frame_error : ProtocolError → ManagerError

-- `conns` holds the key of a connection's chat: chats are never taken out, so the key is the pointer.
pub record Manager : Type 0 where
  pub chats : Dict Bytes ChatQueue
  pub conns : Dict Bytes Bytes
  pub cooldown : ℕ
  pub limit : ℕ
  pub sizer : RequestSizer
  pub heartbeat_interval : ℕ

pub record RegisterConnectionRequest : Type 0 where
  pub conn_id : Bytes
  pub role : Role
  pub target : Target
  pub next_seq : ℕ
  pub heartbeat_interval : ℕ
  pub on_drop : Bool
  pub on_drained : Bool

abbrev pub default_send_cooldown : ℕ
default_send_cooldown = 500000000

abbrev pub default_lark_text_request_limit_bytes : ℕ
default_lark_text_request_limit_bytes = 153600

-- `NewManager`, whose options have a sender, a clock and a sizer.
unfoldable pub new_manager : ℕ → ℕ → RequestSizer → ℕ → Manager
new_manager cooldown limit sizer heartbeat_interval = record {
  chats = [];
  conns = [];
  cooldown = if cooldown == 0 then default_send_cooldown else cooldown;
  limit = if limit == 0 then default_lark_text_request_limit_bytes else limit;
  sizer = sizer;
  heartbeat_interval = heartbeat_interval;
}

-- `Target.validate`
unfoldable pub valid_target : Target → Bool
valid_target t = not (is_blank t.chat_id) && not (is_blank t.mention_open_id)

unfoldable pub new_chat : Manager → Bytes → ChatQueue
new_chat m chat_id = record {
  chat_id = chat_id;
  cooldown = m.cooldown;
  last_attempt_at = 0;
  has_last_attempt = false;
  next_flush_at = 0;
  has_next_flush = false;
  conns = [];
  root_seq = 0;
  root_jobs = [];
  sizer = m.sizer;
  limit = m.limit;
}

-- `getOrCreateChatLocked`: the key of the chat and the chat.
unfoldable pub get_or_create_chat : Bytes → Manager → Bytes × ChatQueue
get_or_create_chat id m =
    let key = trim_space id in
    (key, elim (lookup key m.chats) [ some c ↦ c | none ↦ new_chat m key ])

-- `chatForConn`: the key of the chat and the chat.
unfoldable pub chat_for_conn : Bytes → Manager → Option (Bytes × ChatQueue)
chat_for_conn conn_id m = elim (lookup conn_id m.conns) [
  | none ↦ none
  | some key ↦ elim (lookup key m.chats) [ none ↦ none | some c ↦ some (key, c) ]
]

unfoldable pub put_chat : Bytes → ChatQueue → Manager → Manager
put_chat key c m = record m { chats = insert key c m.chats }

-- The new connection in its chat.
unfoldable pub add_conn : ℕ → ConnQueue → ChatQueue → ChatQueue
add_conn now conn c = replan now (record c { conns = insert conn.conn_id conn c.conns })

unfoldable pub new_conn : ℕ → Bytes → Sequencer → ℕ → RegisterConnectionRequest → ConnQueue
new_conn now conn_id seq interval req = record {
  conn_id = conn_id;
  role = req.role;
  target = req.target;
  seq = seq;
  heartbeat_interval = interval;
  next_heartbeat_at = now + interval;
  frames = [];
  close_after_drained = false;
  dropped = false;
  in_flight = 0;
  on_drop = req.on_drop;
  on_drained = req.on_drained;
}

-- `RegisterConnection` behind its checks of the request.
unfoldable pub register_checked :
    ℕ → Bytes → RegisterConnectionRequest → Manager → Sequencer → Result ManagerError Manager
register_checked now conn_id req m seq =
    let interval =
      if req.heartbeat_interval == 0 then m.heartbeat_interval else req.heartbeat_interval in
    elim (lookup conn_id m.conns) [
      | some _ ↦ err connection_exists
      | none ↦
          let (key, chat) = get_or_create_chat req.target.chat_id m in
          let chat' = add_conn now (new_conn now conn_id seq interval req) chat in
          ok (put_chat key chat' (record m { conns = insert conn_id key m.conns }))
    ]

unfoldable pub register_connection :
    ℕ → RegisterConnectionRequest → Manager → Result ManagerError Manager
register_connection now req m =
    let conn_id = trim_space req.conn_id in
    if is_empty conn_id
    then err invalid_target
    else if valid_target req.target
    then elim (new_sequencer_from (if req.next_seq == 0 then 1 else req.next_seq)) [
      | err e ↦ err (frame_error e)
      | ok seq ↦ register_checked now conn_id req m seq
    ]
    else err invalid_target

-- `Enqueue` in the connection's chat. A number is used up also where the frame is refused.
unfoldable pub enqueue_in :
    ℕ → Bytes → FrameType → Bytes → ChatQueue → ChatQueue × Option ManagerError
enqueue_in now conn_id typ payload c = elim (lookup conn_id c.conns) [
  | none ↦ (c, some connection_missing)
  | some conn ↦
      if conn.dropped
      then (c, some connection_missing)
      else (let (seq, frame) = next_frame conn.seq typ payload in
          elim frame [
            | err e ↦ (
              record c { conns = insert conn_id (record conn { seq = seq }) c.conns },
              some (frame_error e),
            )
            | ok f ↦ (
              schedule_ready now (record c {
                conns =
                    insert conn_id
                      (record conn {
                        seq = seq;
                        frames = conn.frames ++ record { frame = f; created_at = now } ∷ [];
                      })
                      c.conns;
              }),
              none,
            )
          ])
]

unfoldable pub enqueue : ℕ → Bytes → FrameType → Bytes → Manager → Manager × Option ManagerError
enqueue now id typ payload m =
    let conn_id = trim_space id in
    elim (chat_for_conn conn_id m) [
      | none ↦ (m, some connection_missing)
      | some (key, c) ↦ let (c', e) = enqueue_in now conn_id typ payload c in (put_chat key c' m, e)
    ]

-- `MarkCloseAfterDrained` in a chat: whether the connection was taken out, and with what callback.
unfoldable pub mark_close_in : ℕ → Bytes → ChatQueue → ChatQueue × Option Bool
mark_close_in now conn_id c = elim (lookup conn_id c.conns) [
  | none ↦ (c, none)
  | some conn ↦
      if is_empty conn.frames && conn.in_flight == 0
      then (replan now (record c { conns = remove conn_id c.conns }), some conn.on_drained)
      else (
        record c { conns = insert conn_id (record conn { close_after_drained = true }) c.conns },
        none,
      )
]

-- `MarkCloseAfterDrained`: the chat is found by the trimmed id, the connection by the id as given.
unfoldable pub mark_close_after_drained : ℕ → Bytes → Manager → Manager × List Effect
mark_close_after_drained now conn_id m = elim (chat_for_conn (trim_space conn_id) m) [
  | none ↦ (m, [])
  | some (key, c) ↦
      let (c', removed) = mark_close_in now conn_id c in
      elim removed [
        | none ↦ (put_chat key c' m, [])
        | some callback ↦ (
          put_chat key c' (record m { conns = remove conn_id m.conns }),
          if callback then call_on_drained conn_id ∷ [] else [],
        )
      ]
]

unfoldable pub drop_connection : ℕ → Bytes → Manager → Manager
drop_connection now id m =
    let conn_id = trim_space id in
    elim (chat_for_conn conn_id m) [
      | none ↦ record m { conns = remove conn_id m.conns }
      | some (key, c) ↦
          put_chat key (replan now (record c { conns = remove conn_id c.conns }))
            (record m { conns = remove conn_id m.conns })
    ]
