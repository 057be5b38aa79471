-- ===== src/Outbound/RootOpen.antt =====
-- internal/outbound/manager.go: `OpenRoot`, which waits until its root message is sent or it is
-- canceled, in three steps: the start, the answer (an effect of the chat's queue) and the cancellation.
use exec_over_lark.Prelude.{
  ℕ, ◌+◌, Bool, false, none, some, List, [], ◌∷◌, ◌++◌, if◌then◌else◌, is_empty,
}
use exec_over_lark.Prelude.Bytes.{Bytes, codes, bytes_eq, trim_space, first_non_empty}
use exec_over_lark.Prelude.Dict.{lookup, insert, remove}
use exec_over_lark.Prelude.Result.{Result, ok, err}
use exec_over_lark.Protocol.Frame.{Frame, FrameType, new_frame, u64}
use exec_over_lark.Protocol.Decimal.{print_uint}
use exec_over_lark.Outbound.Types.{Role, Target, RootOpenJob, ChatQueue, Effect, forget_conn}
use exec_over_lark.Outbound.Schedule.{replan, schedule_ready}
use exec_over_lark.Outbound.Manager.{
  Manager, ManagerError, invalid_target, frame_error, root_open_canceled, get_or_create_chat,
  put_chat,
}

-- The payload is the JSON text that `MarshalJSONPayload` made.
pub record OpenRootRequest : Type 0 where
  pub chat_id : Bytes
  pub mention_open_id : Bytes
  pub role : Role
  pub request_id : Bytes
  pub initial_type : FrameType
  pub initial_payload : Bytes
  pub on_drop : Bool

-- `fmt.Sprintf("root:%s:%d", …)`
unfoldable pub job_id : Bytes → Bytes → ℕ → Bytes
job_id request_id chat_id n =
    codes "root:" ++ (first_non_empty request_id chat_id ++ (codes ":" ++ print_uint n))

-- The job in its chat, and its id.
unfoldable pub add_root_job :
    ℕ → OpenRootRequest → Bytes → Target → Frame → ChatQueue → ChatQueue × Bytes
add_root_job now req chat_id target frame c =
    let n = u64 (c.root_seq + 1) in
    let id = job_id req.request_id chat_id n in
    let job : RootOpenJob = record {
      id = id;
      role = req.role;
      target = target;
      frame = frame;
      created_at = now;
      in_flight = false;
      on_drop = req.on_drop;
    } in
    (schedule_ready now (record c { root_seq = n; root_jobs = insert id job c.root_jobs }), id)

-- The key of the chat and the id of the job that the caller waits for.
unfoldable pub open_root :
    ℕ → OpenRootRequest → Manager → Result ManagerError (Manager × Bytes × Bytes)
open_root now req m =
    let chat_id = trim_space req.chat_id in
    let mention = trim_space req.mention_open_id in
    if is_empty chat_id
    then err invalid_target
    else if is_empty mention
    then err invalid_target
    else elim (new_frame 1 req.initial_type req.initial_payload) [
      | err e ↦ err (frame_error e)
      | ok frame ↦
          let target : Target = record {
            chat_id = chat_id;
            root_message_id = [];
            mention_open_id = mention;
          } in
          let (key, chat) = get_or_create_chat chat_id m in
          let (chat', id) = add_root_job now req chat_id target frame chat in
          ok (put_chat key chat' m, key, id)
    ]

-- The job's end by `ctx.Done()`.
unfoldable pub cancel_root_in : ℕ → Bytes → ChatQueue → ChatQueue
cancel_root_in now id c = elim (lookup id c.root_jobs) [
  | none ↦ c
  | some job ↦ replan now (record c { root_jobs = remove id c.root_jobs })
]

unfoldable pub cancel_root : ℕ → Bytes → Bytes → Manager → Manager × ManagerError
cancel_root now key id m = elim (lookup key m.chats) [
  | none ↦ (m, root_open_canceled)
  | some c ↦ (put_chat key (cancel_root_in now id c) m, root_open_canceled)
]

-- What the effects of a chat's queue do to the registry: `forgetConn`.
unfoldable pub apply_effects : List Effect → Manager → Manager
apply_effects [] m = m
apply_effects (forget_conn id ∷ effects) m =
    apply_effects effects (record m { conns = remove id m.conns })
apply_effects (_ ∷ effects) m = apply_effects effects m
