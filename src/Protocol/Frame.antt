-- ===== src/Protocol/Frame.antt =====
-- internal/protocol/frame.go: the types of frames, the payload structs and the checks on a frame.
use exec_over_lark.Prelude.{
  ℕ, ◌^◌, ◌-◌, ◌%◌, Bool, true, false, ◌||◌, List, [], ◌∷◌, ◌==◌, if◌then◌else◌,
}
use exec_over_lark.Prelude.Bytes.{Bytes, codes, same}
use exec_over_lark.Prelude.Result.{Result, ok, err}

-- A uint64 is a number below 2 ^ 64; its `++` wraps.
abbrev pub max_uint64 : ℕ
max_uint64 = 2 ^ 64 - 1

abbrev pub u64 : ℕ → ℕ
u64 n = n % 2 ^ 64

-- The named constants of the string type `FrameType`, and any other string.
pub data FrameType : Type 0 where
  start start_ack stdin stdout stderr resize signal heartbeat exit close error : FrameType
  other : Bytes → FrameType

-- The string that a frame type is.
unfoldable pub type_name : FrameType → Bytes
type_name start = codes "start"
type_name start_ack = codes "start_ack"
type_name stdin = codes "stdin"
type_name stdout = codes "stdout"
type_name stderr = codes "stderr"
type_name resize = codes "resize"
type_name signal = codes "signal"
type_name heartbeat = codes "heartbeat"
type_name exit = codes "exit"
type_name close = codes "close"
type_name error = codes "error"
type_name (other s) = s

-- The conversion `FrameType(s)`.
unfoldable pub to_frame_type : Bytes → FrameType
to_frame_type s =
    if same s (codes "start")
    then start
    else if same s (codes "start_ack")
    then start_ack
    else if same s (codes "stdin")
    then stdin
    else if same s (codes "stdout")
    then stdout
    else if same s (codes "stderr")
    then stderr
    else if same s (codes "resize")
    then resize
    else if same s (codes "signal")
    then signal
    else if same s (codes "heartbeat")
    then heartbeat
    else if same s (codes "exit")
    then exit
    else if same s (codes "close")
    then close
    else if same s (codes "error")
    then error
    else other s

-- The errors of the package; `at_line` wraps one with the number of its line.
pub data ProtocolError : Type 0 where
  invalid_frame invalid_frame_type invalid_base64 sequencer_exhausted : ProtocolError
  sequence_gap_timeout : ℕ → List ℕ → ProtocolError
  at_line : ℕ → ProtocolError → ProtocolError

pub record Frame : Type 0 where
  pub seq : ℕ  -- uint64
  pub type : FrameType
  pub payload : Bytes

unfoldable pub valid_frame_type : FrameType → Bool
valid_frame_type (other s) = false
valid_frame_type _ = true

-- `strings.ContainsAny(s, " \t\r\n")`
unfoldable pub has_blank : Bytes → Bool
has_blank [] = false
has_blank (c ∷ s) = (c == 32 || c == 9 || c == 13 || c == 10) || has_blank s

-- `validateFrame`: the frame, or the error.
unfoldable pub validate_frame : Frame → Result ProtocolError Frame
validate_frame frame =
    if frame.seq == 0
    then err invalid_frame
    else if valid_frame_type frame.type
    then (if has_blank (type_name frame.type) then err invalid_frame_type else ok frame)
    else err invalid_frame_type

-- `NewFrame`; the copy of the payload is the payload.
unfoldable pub new_frame : ℕ → FrameType → Bytes → Result ProtocolError Frame
new_frame seq typ payload = validate_frame (record { seq = seq; type = typ; payload = payload })
