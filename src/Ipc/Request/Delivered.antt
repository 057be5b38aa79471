-- ===== src/Ipc/Request/Delivered.antt =====
-- internal/ipc/ipc.go: what a client asks is what the handler of the daemon is called with.
use exec_over_lark.Prelude.{zero, suc, ◌≡◌, refl, ap, [], ◌∷◌, ◌++◌}
use exec_over_lark.Prelude.Bytes.{Bytes}
use exec_over_lark.Prelude.Int.{ℤ, pos, negsuc}
use exec_over_lark.Prelude.Result.{ok}
use exec_over_lark.Ipc.Types.{HostConfig}
use exec_over_lark.Ipc.Wire.{Json, write, read}
use exec_over_lark.Ipc.Wire.RoundTrip.{ReadsBack, read_wire}
use exec_over_lark.Ipc.Request.{
  Request, ask_start_session, ask_stdin, ask_resize, ask_signal, ask_close, ask_close_conn,
  ask_status, ask_sessions, clone_host_config, clone_host_config_value, start_session_message,
  status_message, stdin_message, resize_message, signal_message, close_message, close_conn_message,
  sessions_message, message_of, dispatch_request,
}

-- A host config that is sent as nothing is the one without a value.
clone_fields :
    (chat peer shell : Bytes) (chunk : ℤ) (cwd : Bytes)
    → let c : HostConfig = record {
      chat_id = chat;
      peer_bot_open_id = peer;
      shell = shell;
      stream_chunk_bytes = chunk;
      default_cwd = cwd;
    } in
      clone_host_config_value (clone_host_config c) ≡ c
unfolding clone_host_config
clone_fields (x ∷ chat) peer shell chunk cwd = refl
clone_fields [] (x ∷ peer) shell chunk cwd = refl
clone_fields [] [] (x ∷ shell) chunk cwd = refl
clone_fields [] [] [] (negsuc n) cwd = refl
clone_fields [] [] [] (pos (suc n)) cwd = refl
clone_fields [] [] [] (pos zero) (x ∷ cwd) = refl
clone_fields [] [] [] (pos zero) [] = refl

dispatch_request-message_of : (r : Request) → dispatch_request (message_of r) ≡ ok r
unfolding dispatch_request message_of start_session_message status_message stdin_message
    resize_message signal_message close_message close_conn_message sessions_message
dispatch_request-message_of (ask_start_session r) =
    ap (λ c. ok (ask_start_session (record r { host_config = c })))
      (clone_fields r.host_config.chat_id r.host_config.peer_bot_open_id r.host_config.shell
        r.host_config.stream_chunk_bytes r.host_config.default_cwd)
dispatch_request-message_of (ask_stdin request_id bytes) = refl
dispatch_request-message_of (ask_resize request_id rows cols) = refl
dispatch_request-message_of (ask_signal request_id name) = refl
dispatch_request-message_of (ask_close request_id reason) = refl
dispatch_request-message_of (ask_close_conn conn_id reason) = refl
dispatch_request-message_of (ask_status r) = refl
dispatch_request-message_of (ask_sessions request_id) = refl

-- A request that the client can write reaches the daemon: the next message that is read is dispatched to the
-- handler of this request, with the values that the client gave, and what was written behind it is still to be
-- read, provided that encoding/json reads back the header that it writes.
pub request_delivered :
    (json : Json) (r : Request) (rest : Bytes) {wire : Bytes}
    → ReadsBack json (message_of r)
    → write json (message_of r) ≡ ok wire
    → (read json (wire ++ rest) ≡ ok (message_of r, rest))
      × (dispatch_request (message_of r) ≡ ok r)
request_delivered json r rest law h =
    (read_wire json (message_of r) rest law h, dispatch_request-message_of r)
