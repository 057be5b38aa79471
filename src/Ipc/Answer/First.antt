-- ===== src/Ipc/Answer/First.antt =====
-- internal/ipc/ipc.go: the messages that Client.Status and Client.Sessions take for their answer.
use exec_over_lark.Prelude.{
  ◌≡◌, ◌≢◌, refl, ◌⊎◌, inl, inr, true, false, Option, none, some, List, [], ◌∷◌, is_empty,
  is_empty_nil, All, Bool-cases,
}
use exec_over_lark.Prelude.Bytes.{Bytes, same, same_iff}
use exec_over_lark.Prelude.Result.{Result, ok, err}
use exec_over_lark.Ipc.Types.{
  MessageType, status_result, sessions_result, error, Message, DaemonStatus, SessionInfo, IpcError,
}
use exec_over_lark.Ipc.Answer.{
  AnswerError, connection_failed, refused, missing_daemon_status, unexpected_type, as_error,
  or_missing, is_other, await_answer, status_answer, sessions_answer, receive_status,
  receive_sessions,
}

-- A message that names another request, and one that names this request or none.
abbrev pub ForOther : Bytes → Message → Type 0
ForOther id m = (m.fields.request_id ≢ []) × (m.fields.request_id ≢ id)

abbrev pub ForThis : Bytes → Message → Type 0
ForThis id m = (m.fields.request_id ≡ []) ⊎ (m.fields.request_id ≡ id)

-- What a message says to who asked for the status.
pub data SaysStatus (m : Message) : Result AnswerError DaemonStatus → Type 0 where
  given :
      (s : DaemonStatus)
      → m.fields.type ≡ status_result
      → m.fields.daemon_status ≡ some s
      → SaysStatus m (ok s)
  missing :
      m.fields.type ≡ status_result
      → m.fields.daemon_status ≡ none
      → SaysStatus m (err missing_daemon_status)
  failed : m.fields.type ≡ error → SaysStatus m (err (refused (as_error m)))
  unfit :
      (t : MessageType)
      → m.fields.type ≡ t
      → t ≢ status_result
      → t ≢ error
      → SaysStatus m (err (unexpected_type t))

-- What a message says to who asked for the sessions.
pub data SaysSessions (m : Message) : Result AnswerError (List SessionInfo) → Type 0 where
  given : m.fields.type ≡ sessions_result → SaysSessions m (ok m.fields.sessions)
  failed : m.fields.type ≡ error → SaysSessions m (err (refused (as_error m)))
  unfit :
      (t : MessageType)
      → m.fields.type ≡ t
      → t ≢ sessions_result
      → t ≢ error
      → SaysSessions m (err (unexpected_type t))

-- The first thing received that is no message for another request gives the outcome.
pub data FirstSays {A : Type 0} (Says : Message → Result AnswerError A → Type 0) (id : Bytes)
    : List (Result IpcError Message) → Result AnswerError A → Type 0 where
  broken :
      (e : IpcError) (rest : List (Result IpcError Message))
      → FirstSays Says id (err e ∷ rest) (err (connection_failed e))
  answered :
      (m : Message) (rest : List (Result IpcError Message)) (out : Result AnswerError A)
      → ForThis id m
      → Says m out
      → FirstSays Says id (ok m ∷ rest) out
  passed :
      (m : Message) (rest : List (Result IpcError Message)) (out : Result AnswerError A)
      → ForOther id m
      → FirstSays Says id rest out
      → FirstSays Says id (ok m ∷ rest) out

abbrev pub IsPassed : Bytes → Result IpcError Message → Type 0
IsPassed id (err e) = ⊥
IsPassed id (ok m) = ForOther id m

-- A request still waits exactly while all that came is for others, and else it has what the first other thing says.
abbrev pub Awaits :
    {A : Type 0}
    → (Message → Result AnswerError A → Type 0)
    → Bytes
    → List (Result IpcError Message)
    → Option (Result AnswerError A)
    → Type 0
Awaits Says id received none = All (IsPassed id) received
Awaits Says id received (some out) = FirstSays Says id received out

is_other-ForOther : (id : Bytes) (m : Message) → is_other id m ≡ true → ForOther id m
unfolding is_other
is_other-ForOther id m h = (
  λ q. cc (rw q at h),
  λ q. elim (Bool-cases (is_empty m.fields.request_id)) [
    | inl t ↦ cc (rw t at h)
    | inr f ↦ cc (simp (f, (same_iff m.fields.request_id id).1 q) at h)
  ],
)

is_other-ForThis : (id : Bytes) (m : Message) → is_other id m ≡ false → ForThis id m
unfolding is_other
is_other-ForThis id m h = elim (Bool-cases (is_empty m.fields.request_id)) [
  | inl t ↦ inl (is_empty_nil m.fields.request_id t)
  | inr f ↦ elim (Bool-cases (same m.fields.request_id id)) [
    | inl t ↦ inr ((same_iff m.fields.request_id id).0 t)
    | inr d ↦ cc (simp (f, d) at h)
  ]
]

module _ {A : Type 0} (answer : MessageType → Message → Result AnswerError A)
    (Says : Message → Result AnswerError A → Type 0)
    (says : (m : Message) → Says m (answer m.fields.type m)) (id : Bytes) where
  passed-Awaits :
      (m : Message) (rest : List (Result IpcError Message)) (out : Option (Result AnswerError A))
      → ForOther id m
      → Awaits Says id rest out
      → Awaits Says id (ok m ∷ rest) out
  passed-Awaits m rest none f a = (f, a)
  passed-Awaits m rest (some out) f a = passed m rest out f a

  await_answer-Awaits :
      (received : List (Result IpcError Message))
      → Awaits Says id received (await_answer answer id received)
  unfolding await_answer
  await_answer-Awaits [] = tt
  await_answer-Awaits (err e ∷ rest) = broken e rest
  await_answer-Awaits (ok m ∷ rest) = elim (Bool-cases (is_other id m)) [
    | inl t ↦ rw t (
        passed-Awaits m rest (await_answer answer id rest) (is_other-ForOther id m t)
          (await_answer-Awaits rest))
    | inr f ↦ rw f (answered m rest (answer m.fields.type m) (is_other-ForThis id m f) (says m))
  ]

says_result :
    (m : Message) (o : Option DaemonStatus)
    → m.fields.type ≡ status_result
    → m.fields.daemon_status ≡ o
    → SaysStatus m (or_missing o)
says_result m none q e = missing q e
says_result m (some s) q e = given s q e

says_status : (m : Message) (t : MessageType) → m.fields.type ≡ t → SaysStatus m (status_answer t m)
unfolding status_answer
says_status m status_result q = says_result m m.fields.daemon_status q refl
says_status m error q = failed q
says_status m t q = unfit t q (λ e. cc e) (λ e. cc e)

says_sessions :
    (m : Message) (t : MessageType) → m.fields.type ≡ t → SaysSessions m (sessions_answer t m)
unfolding sessions_answer
says_sessions m sessions_result q = given q
says_sessions m error q = failed q
says_sessions m t q = unfit t q (λ e. cc e) (λ e. cc e)

-- Status and Sessions wait exactly while all that was received is for other requests. Else the first message that is for
-- this request, or for none, gives the outcome, as an error of the connection does, and what comes behind it
-- is not looked at: the status or the sessions if the message has them, its error if it is one, and an error that names
-- its type if it is neither.
pub await_answer_first :
    (id : Bytes) (received : List (Result IpcError Message))
    → Awaits SaysStatus id received (receive_status id received)
      × Awaits SaysSessions id received (receive_sessions id received)
unfolding receive_status receive_sessions
await_answer_first id received = (
  await_answer-Awaits status_answer SaysStatus (λ m. says_status m m.fields.type refl) id received,
  await_answer-Awaits sessions_answer SaysSessions (λ m. says_sessions m m.fields.type refl) id
      received,
)
