-- ===== src/Protocol/Wire.antt =====
-- internal/protocol/frame.go: frames as lines of text.
pub mod Split
pub mod Line
pub mod RoundTrip
pub mod Decoded
use exec_over_lark.Prelude.{
  ℕ, zero, suc, ◌+◌, ◌≡◌, refl, Bool, true, false, Option, none, some, List, [], ◌∷◌, ◌++◌, ◌==◌,
  if◌then◌else◌, is_empty,
}
use exec_over_lark.Prelude.Bytes.{Bytes, codes, same, is_blank}
use exec_over_lark.Prelude.Result.{Result, ok, err, ◌>>=◌}
use exec_over_lark.Protocol.Frame.{
  Frame, FrameType, ProtocolError, invalid_frame, invalid_frame_type, invalid_base64, at_line,
  type_name, to_frame_type, valid_frame_type, validate_frame,
}
use exec_over_lark.Protocol.Base64.{encode, decode_base64_payload}
use exec_over_lark.Protocol.Decimal.{print_uint, parse_uint}

abbrev pub version : Bytes
version = codes "EOL1"

abbrev pub space : ℕ
space = 32

abbrev pub newline : ℕ
newline = 10

-- `fmt.Sprintf("%s %d %s %s", …)`
unfoldable pub frame_line : Frame → Bytes
frame_line frame =
    version
    ++ (space
        ∷ (print_uint frame.seq
            ++ (space ∷ (type_name frame.type ++ (space ∷ encode frame.payload)))))

-- `EncodeFrameLine`, which `EncodeFrame` is too.
unfoldable pub encode_frame_line : Frame → Result ProtocolError Bytes
encode_frame_line frame = validate_frame frame >>= λ f. ok (frame_line f)

-- The text before the first `c` and the text behind it, if there is one.
unfoldable pub cut : ℕ → Bytes → Option (Bytes × Bytes)
cut c [] = none
cut c (x ∷ s) =
    if x == c then some ([], s) else elim (cut c s) [ none ↦ none | some (a, b) ↦ some (x ∷ a, b) ]

-- `strings.SplitN(s, " ", n + 1)`: n cuts at most.
unfoldable pub split_n : ℕ → Bytes → List Bytes
split_n zero s = s ∷ []
split_n (suc n) s = elim (cut space s) [ none ↦ s ∷ [] | some (a, b) ↦ a ∷ split_n n b ]

-- `strings.TrimSuffix(line, "\r")`
unfoldable pub trim_cr : Bytes → Bytes
trim_cr [] = []
trim_cr (c ∷ []) = if c == 13 then [] else c ∷ []
trim_cr (c ∷ d ∷ s) = c ∷ trim_cr (d ∷ s)

-- The end of `DecodeFrameLine`: the payload.
unfoldable pub decode_payload : ℕ → FrameType → Option Bytes → Result ProtocolError Frame
decode_payload seq typ (some payload) = ok (record { seq = seq; type = typ; payload = payload })
decode_payload seq typ none = err invalid_base64

-- The checks on the sequence and the type; the sequence is `none` if it does not parse.
unfoldable pub decode_fields : Option ℕ → FrameType → Bytes → Result ProtocolError Frame
decode_fields none typ payload = err invalid_frame
decode_fields (some seq) typ payload =
    if seq == 0
    then err invalid_frame
    else if valid_frame_type typ
    then decode_payload seq typ (decode_base64_payload payload)
    else err invalid_frame_type

unfoldable pub decode_parts : List Bytes → Result ProtocolError Frame
decode_parts (v ∷ seq ∷ typ ∷ payload ∷ []) =
    if same v version
    then (if is_empty seq
        then err invalid_frame
        else decode_fields (parse_uint seq) (to_frame_type typ) payload)
    else err invalid_frame
decode_parts _ = err invalid_frame

-- `DecodeFrameLine`, which `DecodeFrame` is too.
unfoldable pub decode_frame_line : Bytes → Result ProtocolError Frame
decode_frame_line line = decode_parts (split_n 3 (trim_cr line))

-- The loop of `EncodeFrames`: the lines.
unfoldable pub encode_lines : List Frame → Result ProtocolError (List Bytes)
encode_lines [] = ok []
encode_lines (f ∷ fs) =
    encode_frame_line f >>= λ line. encode_lines fs >>= λ lines. ok (line ∷ lines)

-- `strings.Join(lines, "\n")`
unfoldable pub join_lines : List Bytes → Bytes
join_lines [] = []
join_lines (l ∷ []) = l
join_lines (l ∷ m ∷ ls) = l ++ (newline ∷ join_lines (m ∷ ls))

unfoldable pub encode_frames : List Frame → Result ProtocolError Bytes
encode_frames frames = encode_lines frames >>= λ lines. ok (join_lines lines)

-- Puts a character at the head of the first line.
unfoldable pub push : ℕ → List Bytes → List Bytes
push c [] = (c ∷ []) ∷ []
push c (l ∷ ls) = (c ∷ l) ∷ ls

-- `strings.Split(text, "\n")`
unfoldable pub split_lines : Bytes → List Bytes
split_lines [] = [] ∷ []
split_lines (c ∷ s) = if c == newline then [] ∷ split_lines s else push c (split_lines s)

unfoldable pub wrap_line : ℕ → Result ProtocolError Frame → Result ProtocolError Frame
wrap_line n (ok f) = ok f
wrap_line n (err e) = err (at_line n e)

-- The loop of `DecodeFrames`, whose next line has number `n`.
unfoldable pub decode_lines : ℕ → List Bytes → Result ProtocolError (List Frame)
decode_lines n [] = ok []
decode_lines n (l ∷ ls) =
    let rest = decode_lines (n + 1) ls in
    if is_blank l
    then rest
    else wrap_line n (decode_frame_line l) >>= λ f. rest >>= λ fs. ok (f ∷ fs)

unfoldable pub some_frames : List Frame → Result ProtocolError (List Frame)
some_frames [] = err invalid_frame
some_frames (f ∷ fs) = ok (f ∷ fs)

unfoldable pub decode_frames : Bytes → Result ProtocolError (List Frame)
decode_frames text = decode_lines 1 (split_lines text) >>= some_frames
