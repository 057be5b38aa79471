-- ===== src/Ipc/Tests.antt =====
-- The theorems of Ipc at concrete inputs.
use exec_over_lark.Prelude.{
  ◌≡◌, ◌≢◌, refl, Option, none, some, List, [], ◌∷◌, ◌++◌, ◌==◌, if◌then◌else◌,
}
use mathlib.Core.Path.{subst}
use mathlib.Core.Option.{some-injective}
use exec_over_lark.Prelude.Bytes.{Bytes, codes, is_blank, same}
use exec_over_lark.Prelude.Result.{Result, ok, err}
use exec_over_lark.Ipc.Types.{Message, MessageHeader, IpcError, end_of_file, close}
use exec_over_lark.Ipc.Request.{
  ask_stdin, message_of, dispatch_request, stdin_message, close_message,
}
use exec_over_lark.Ipc.Request.Delivered.{request_delivered}
use exec_over_lark.Ipc.Wire.{Json, to_header, write, read}
use exec_over_lark.Ipc.Wire.RoundTrip.{ReadsBack, write_all, read_all, read_all-write_all}
use exec_over_lark.Ipc.Answer.{
  await_answer, status_answer, is_other, unexpected_type, receive_status, receive_sessions,
}
use exec_over_lark.Ipc.Answer.First.{Awaits, SaysStatus, SaysSessions, await_answer_first}

abbrev input : Message
input = message_of (ask_stdin (codes "a") (1 ∷ 2 ∷ []))

abbrev bye : Message
bye = close_message (codes "b") []

-- A codec for the headers of these two messages.
abbrev decode : Bytes → Option MessageHeader
decode [] = none
decode (c ∷ s) = if c == b'a' then some (to_header input) else some (to_header bye)

abbrev json : Json
json = record { marshal = λ h. some h.fields.request_id; unmarshal = decode }

input-ReadsBack : ReadsBack json input
unfolding to_header message_of stdin_message
input-ReadsBack raw e =
    subst (λ r. (decode r ≡ some (to_header input)) × (r ≢ [])) (some-injective (codes "a") raw e)
      (refl, λ q. cc q)

bye-ReadsBack : ReadsBack json bye
unfolding to_header close_message
bye-ReadsBack raw e =
    subst (λ r. (decode r ≡ some (to_header bye)) × (r ≢ [])) (some-injective (codes "b") raw e)
      (refl, λ q. cc q)

abbrev wire : Bytes
wire = 0 ∷ 0 ∷ 0 ∷ 1 ∷ b'a' ∷ 1 ∷ 2 ∷ 0 ∷ 0 ∷ 0 ∷ 1 ∷ b'b' ∷ []

two_written : write_all json (input ∷ bye ∷ []) ≡ ok wire
unfolding write_all write is_blank message_of close_message stdin_message to_header
two_written = refl

read_all-write_all_example : read_all json 2 wire ≡ ok (input ∷ bye ∷ [], [])
read_all-write_all_example =
    read_all-write_all json (input ∷ bye ∷ []) (input-ReadsBack, (bye-ReadsBack, tt)) two_written

input_written : write json input ≡ ok (0 ∷ 0 ∷ 0 ∷ 1 ∷ b'a' ∷ 1 ∷ 2 ∷ [])
unfolding write is_blank message_of stdin_message to_header
input_written = refl

request_delivered_example :
    (read json ((0 ∷ 0 ∷ 0 ∷ 1 ∷ b'a' ∷ 1 ∷ 2 ∷ []) ++ 9 ∷ []) ≡ ok (input, 9 ∷ []))
    × (dispatch_request input ≡ ok (ask_stdin (codes "a") (1 ∷ 2 ∷ [])))
request_delivered_example =
    request_delivered json (ask_stdin (codes "a") (1 ∷ 2 ∷ [])) (9 ∷ []) input-ReadsBack
      input_written

-- The first message is for another request, and the third comes too late.
abbrev received : List (Result IpcError Message)
received = ok input ∷ ok bye ∷ err end_of_file ∷ []

status_unfit : receive_status (codes "b") received ≡ some (err (unexpected_type close))
unfolding receive_status await_answer status_answer is_other message_of stdin_message close_message
    same
status_unfit = refl

await_answer_first_example :
    Awaits SaysStatus (codes "b") received (receive_status (codes "b") received)
    × Awaits SaysSessions (codes "b") received (receive_sessions (codes "b") received)
await_answer_first_example = await_answer_first (codes "b") received
