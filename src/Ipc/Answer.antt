-- ===== src/Ipc/Answer.antt =====
-- internal/ipc/ipc.go: RPCError, ErrorMessage, AsError, errorMessageFromError, and the loops of Client.Status and
-- Client.Sessions.
pub mod First
use exec_over_lark.Prelude.{
  Bool, true, false, not, ◌&&◌, Option, none, some, List, [], ◌∷◌, is_empty, if◌then◌else◌,
}
use exec_over_lark.Prelude.Bytes.{Bytes, codes, same}
use exec_over_lark.Prelude.Result.{Result, ok, err}
use exec_over_lark.Ipc.Types.{
  MessageType, start_session, stdin, resize, signal, close, close_conn, status, sessions, start_ack,
  stdout, stderr, exit, status_result, sessions_result, error, unknown, Message, DaemonStatus,
  SessionInfo, IpcError,
}
use exec_over_lark.Ipc.Request.{no_fields}

-- `RPCError`, less the error that it wraps
pub record RpcError : Type 0 where
  pub code : Bytes
  pub request_id : Bytes
  pub message : Bytes
  pub detail : Bytes

-- `firstNonEmpty` of two texts
abbrev pub first_set : Bytes → Bytes → Bytes
first_set [] b = b
first_set (c ∷ s) b = c ∷ s

unfoldable pub new_rpc_error : Bytes → Bytes → Bytes → RpcError
new_rpc_error code message detail = record {
  code = first_set code (codes "internal");
  request_id = [];
  message = first_set message (codes "ipc error");
  detail = detail;
}

unfoldable pub error_message : Bytes → Bytes → Bytes → Bytes → Message
unfolding new_rpc_error
error_message request_id code message detail =
    let e = new_rpc_error code message detail in
    record {
      fields = record (no_fields error request_id) {
        error_code = e.code;
        message = e.message;
        detail = e.detail;
      };
      bytes = [];
    }

-- What a handler returns, by what `errors.As` and `errors.Is` find in its chain, and its text.
pub data HandlerError : Type 0 where
  rpc : RpcError → HandlerError
  canceled failed : Bytes → HandlerError

unfoldable pub error_message_from_error : Bytes → HandlerError → Message
unfolding error_message
error_message_from_error request_id (rpc e) =
    error_message (first_set e.request_id request_id) e.code e.message e.detail
error_message_from_error request_id (canceled text) =
    error_message request_id (codes "canceled") (codes "request canceled") text
error_message_from_error request_id (failed text) =
    error_message request_id (codes "handler_error") (codes "handler returned error") text

-- `AsError` of an error message
unfoldable pub as_error : Message → RpcError
as_error m = record {
  code = first_set m.fields.error_code (codes "internal");
  request_id = m.fields.request_id;
  message = m.fields.message;
  detail = m.fields.detail;
}

-- The errors of a request: of the connection, of the daemon, or an answer that does not fit.
pub data AnswerError : Type 0 where
  connection_failed : IpcError → AnswerError
  refused : RpcError → AnswerError
  missing_daemon_status : AnswerError
  unexpected_type : MessageType → AnswerError

-- The message is for another request.
unfoldable pub is_other : Bytes → Message → Bool
is_other request_id m =
    not (is_empty m.fields.request_id) && not (same m.fields.request_id request_id)

abbrev pub or_missing : Option DaemonStatus → Result AnswerError DaemonStatus
or_missing none = err missing_daemon_status
or_missing (some s) = ok s

unfoldable pub status_answer : MessageType → Message → Result AnswerError DaemonStatus
unfolding as_error
status_answer status_result m = or_missing m.fields.daemon_status
status_answer error m = err (refused (as_error m))
status_answer t m = err (unexpected_type t)

unfoldable pub sessions_answer : MessageType → Message → Result AnswerError (List SessionInfo)
unfolding as_error
sessions_answer sessions_result m = ok m.fields.sessions
sessions_answer error m = err (refused (as_error m))
sessions_answer t m = err (unexpected_type t)

-- The loop of a request over what `Receive` returns; none while nothing more has arrived.
module _ {A : Type 0} (answer : MessageType → Message → Result AnswerError A) where
  unfoldable pub await_answer :
      Bytes → List (Result IpcError Message) → Option (Result AnswerError A)
  unfolding is_other
  await_answer request_id [] = none
  await_answer request_id (err e ∷ rest) = some (err (connection_failed e))
  await_answer request_id (ok m ∷ rest) =
      let later = await_answer request_id rest in
      if is_other request_id m then later else some (answer m.fields.type m)

-- `Status` and `Sessions` behind the write of the request
unfoldable pub receive_status :
    Bytes → List (Result IpcError Message) → Option (Result AnswerError DaemonStatus)
unfolding await_answer status_answer
receive_status = await_answer status_answer

unfoldable pub receive_sessions :
    Bytes → List (Result IpcError Message) → Option (Result AnswerError (List SessionInfo))
unfolding await_answer sessions_answer
receive_sessions = await_answer sessions_answer
