-- ===== src/Ipc/Wire.antt =====
-- internal/ipc/ipc.go: Conn.Write and Conn.Read, toHeader and messageFromHeader. `Write` gives the bytes that
-- it puts on the connection, `Read` takes those that arrive until its end.
pub mod RoundTrip
use exec_over_lark.Prelude.{
  ℕ, zero, suc, ◌+◌, ◌*◌, ◌/◌, ◌%◌, ◌^◌, Bool, true, false, Option, none, some, List, [], ◌∷◌, ◌++◌,
  length, leb, ltb, ◌==◌, not, is_empty, if◌then◌else◌,
}
use exec_over_lark.Prelude.Bytes.{Bytes}
use exec_over_lark.Prelude.Int.{ℤ, pos, negsuc}
use exec_over_lark.Prelude.Result.{Result, ok, err, ◌>>=◌, ◌>>◌, ensure}
use exec_over_lark.Ipc.Types.{
  Message, MessageHeader, IpcError, invalid_message, payload_too_large, marshal_failed, end_of_file,
  unexpected_end, empty_header, bad_header, negative_bytes_len, default_max_header_bytes,
  default_max_payload_bytes,
}
use exec_over_lark.Ipc.Validate.{validate_message}

-- encoding/json on headers
pub record Json : Type 0 where
  pub marshal : MessageHeader → Option Bytes
  pub unmarshal : Bytes → Option MessageHeader

unfoldable pub to_header : Message → MessageHeader
to_header m = record { fields = m.fields; bytes_len = pos (length m.bytes) }

-- `binary.BigEndian.PutUint32`
unfoldable pub put_uint32 : ℕ → Bytes
put_uint32 n = n / 2 ^ 24 % 256 ∷ n / 2 ^ 16 % 256 ∷ n / 2 ^ 8 % 256 ∷ n % 256 ∷ []

-- `io.ReadFull` of n bytes: what is read, and the rest.
abbrev pub cons_read : ℕ → Result IpcError (Bytes × Bytes) → Result IpcError (Bytes × Bytes)
cons_read c (ok (read, rest)) = ok (c ∷ read, rest)
cons_read c (err e) = err unexpected_end

unfoldable pub read_full : ℕ → Bytes → Result IpcError (Bytes × Bytes)
read_full zero s = ok ([], s)
read_full (suc n) [] = err end_of_file
read_full (suc n) (c ∷ s) = cons_read c (read_full n s)

-- `binary.BigEndian.Uint32`
unfoldable pub uint32 : Bytes → ℕ
uint32 (a ∷ b ∷ c ∷ d ∷ s) = a * 2 ^ 24 + b * 2 ^ 16 + c * 2 ^ 8 + d
uint32 _ = 0

abbrev pub or_marshal_failed : Option Bytes → Result IpcError Bytes
or_marshal_failed none = err marshal_failed
or_marshal_failed (some raw) = ok raw

abbrev pub or_bad_header : Option MessageHeader → Result IpcError MessageHeader
or_bad_header none = err (invalid_message bad_header)
or_bad_header (some h) = ok h

-- The length of the payload that a header announces.
unfoldable pub payload_length : ℤ → Result IpcError ℕ
payload_length (negsuc n) = err (invalid_message negative_bytes_len)
payload_length (pos n) = if leb n default_max_payload_bytes then ok n else err (payload_too_large n)

module _ (json : Json) where
  -- `Write`
  unfoldable pub write : Message → Result IpcError Bytes
  unfolding validate_message to_header put_uint32
  write m = do
    validate_message default_max_payload_bytes m
    raw ← or_marshal_failed (json.marshal (to_header m))
    ensure (leb (length raw) default_max_header_bytes) (payload_too_large (length raw))
    ok (put_uint32 (length raw) ++ (raw ++ m.bytes))

  unfoldable pub read_payload : Bytes → MessageHeader → Result IpcError (Message × Bytes)
  unfolding read_full validate_message payload_length
  read_payload rest h = do
    n ← payload_length h.bytes_len
    (bytes, rest') ← read_full n rest
    validate_message default_max_payload_bytes (record { fields = h.fields; bytes = bytes })
    ok (record { fields = h.fields; bytes = bytes }, rest')

  -- `Read` behind the length of the header
  unfoldable pub read_body : ℕ → Bytes → Result IpcError (Message × Bytes)
  unfolding read_full read_payload
  read_body header_len s = do
    ensure (not (header_len == 0)) (invalid_message empty_header)
    ensure (leb header_len default_max_header_bytes) (payload_too_large header_len)
    (raw, rest) ← read_full header_len s
    h ← or_bad_header (json.unmarshal raw)
    read_payload rest h

  -- `Read`
  unfoldable pub read : Bytes → Result IpcError (Message × Bytes)
  unfolding read_full uint32 read_body
  read s = do (prefix, s') ← read_full 4 s; read_body (uint32 prefix) s'
