-- ===== src/Ipc/Validate.antt =====
-- internal/ipc/ipc.go: Message.validate.
use exec_over_lark.Prelude.{
  ℕ, Bool, true, false, not, ◌&&◌, Option, none, some, List, [], ◌∷◌, length, leb,
}
use exec_over_lark.Prelude.Bytes.{Bytes, is_blank}
use exec_over_lark.Prelude.Int.{ℤ, pos, negsuc, is_positive}
use exec_over_lark.Prelude.Result.{Result, ok, err, ◌>>◌, ensure}
use exec_over_lark.Ipc.Types.{
  MessageType, start_session, stdin, resize, signal, close, close_conn, status, sessions, start_ack,
  stdout, stderr, exit, status_result, sessions_result, error, unknown, SessionInfo, Fields,
  Message, InvalidReason, missing_type, unknown_type, request_id_required, host_required,
  negative_size, size_not_positive, name_required, conn_id_required, daemon_status_required,
  error_code_required, error_message_required, IpcError, invalid_message, payload_too_large,
}

abbrev pub not_negative : ℤ → Bool
not_negative (pos n) = true
not_negative (negsuc n) = false

abbrev pub is_set : {A : Type 0} → Option A → Bool
is_set none = false
is_set (some a) = true

abbrev pub require : Bytes → InvalidReason → Result IpcError (Unit {0})
require text reason = ensure (not (is_blank text)) (invalid_message reason)

unfoldable pub validate_sessions : List SessionInfo → Result IpcError (Unit {0})
validate_sessions [] = ok tt
validate_sessions (s ∷ ss) = require s.conn_id conn_id_required >> validate_sessions ss

-- The switch of `validate`, on the type.
unfoldable pub validate_type : MessageType → Fields → Result IpcError (Unit {0})
unfolding validate_sessions
validate_type start_session f = do
  require f.request_id request_id_required
  require f.host host_required
  ensure (not_negative f.rows && not_negative f.cols) (invalid_message negative_size)
validate_type stdin f = require f.request_id request_id_required
validate_type stdout f = require f.request_id request_id_required
validate_type stderr f = require f.request_id request_id_required
validate_type resize f = do
  require f.request_id request_id_required
  ensure (is_positive f.rows && is_positive f.cols) (invalid_message size_not_positive)
validate_type signal f = do require f.request_id request_id_required; require f.name name_required
validate_type close f = require f.request_id request_id_required
validate_type close_conn f = require f.conn_id conn_id_required
validate_type status f = require f.request_id request_id_required
validate_type sessions f = require f.request_id request_id_required
validate_type start_ack f = require f.request_id request_id_required
validate_type exit f = require f.request_id request_id_required
validate_type status_result f = do
  require f.request_id request_id_required
  ensure (is_set f.daemon_status) (invalid_message daemon_status_required)
validate_type sessions_result f = do
  require f.request_id request_id_required
  validate_sessions f.sessions
validate_type error f = do
  require f.error_code error_code_required
  require f.message error_message_required
validate_type (unknown []) f = err (invalid_message missing_type)
validate_type (unknown (c ∷ s)) f = err (invalid_message unknown_type)

unfoldable pub validate_message : ℕ → Message → Result IpcError (Unit {0})
unfolding validate_type
validate_message max_payload_bytes m = do
  validate_type m.fields.type m.fields
  ensure (leb (length m.bytes) max_payload_bytes) (payload_too_large (length m.bytes))
