-- ===== src/Protocol/Wire/RoundTrip.antt =====
-- Messages of frames come back from their text (internal/protocol/frame.go).
use exec_over_lark.Prelude.{ℕ, ◌+◌, ◌≡◌, refl, false, List, [], ◌∷◌, All}
use mathlib.Core.List.{map}
use exec_over_lark.Prelude.Bytes.{is_blank}
use exec_over_lark.Prelude.Bytes.Blank.{is_blank-letter}
use exec_over_lark.Prelude.Result.{ok, ◌>>=◌}
use exec_over_lark.Protocol.Frame.{Frame}
use exec_over_lark.Protocol.Wire.{
  frame_line, encode_frame_line, decode_frame_line, encode_lines, encode_frames, join_lines,
  decode_lines, some_frames, wrap_line, decode_frames,
}
use exec_over_lark.Protocol.Wire.Split.{IsInline, split_lines-join_lines}
use exec_over_lark.Protocol.Wire.Line.{
  IsFrame, validate_frame-IsFrame, frame_line-IsInline, decode_frame_line-frame_line,
}

pub encode_frame_line-IsFrame : (f : Frame) → IsFrame f → encode_frame_line f ≡ ok (frame_line f)
encode_frame_line-IsFrame f v = unfold encode_frame_line in rw (validate_frame-IsFrame f v)

-- A frame whose sequence number is a positive uint64, whose type is one of the eleven and whose payload
-- is made of bytes is encoded, and decodes to itself.
pub frame_round_trip : (f : Frame) → IsFrame f → (encode_frame_line f >>= decode_frame_line) ≡ ok f
frame_round_trip f v = rw (encode_frame_line-IsFrame f v) (decode_frame_line-frame_line f v)

encode_lines-IsFrame : (fs : List Frame) → All IsFrame fs → encode_lines fs ≡ ok (map frame_line fs)
unfolding encode_lines
encode_lines-IsFrame [] v = refl
encode_lines-IsFrame (f ∷ fs) v = rw (encode_frame_line-IsFrame f v.0, encode_lines-IsFrame fs v.1)

pub lines-IsInline : (fs : List Frame) → All IsFrame fs → All (All IsInline) (map frame_line fs)
lines-IsInline [] v = tt
lines-IsInline (f ∷ fs) v = (frame_line-IsInline f v.0, lines-IsInline fs v.1)

pub encode_frames-IsFrame :
    (fs : List Frame) → All IsFrame fs → encode_frames fs ≡ ok (join_lines (map frame_line fs))
unfolding encode_frames
encode_frames-IsFrame fs v = rw (encode_lines-IsFrame fs v) refl

line_not_blank : (f : Frame) → is_blank (frame_line f) ≡ false
unfolding frame_line
line_not_blank f = is_blank-letter _

decode_lines-lines :
    (n : ℕ) (fs : List Frame) → All IsFrame fs → decode_lines n (map frame_line fs) ≡ ok fs
unfolding decode_lines wrap_line
decode_lines-lines n [] v = refl
decode_lines-lines n (f ∷ fs) v =
    rw (line_not_blank f, decode_frame_line-frame_line f v.0, decode_lines-lines (n + 1) fs v.1)

-- A message of one frame or more is encoded, one line to a frame, and decodes to the same frames.
pub message_round_trip :
    (f : Frame) (fs : List Frame)
    → All IsFrame (f ∷ fs)
    → (encode_frames (f ∷ fs) >>= decode_frames) ≡ ok (f ∷ fs)
message_round_trip f fs v =
    let lines = map frame_line (f ∷ fs) in
    let e = encode_lines-IsFrame (f ∷ fs) v in
    let s = split_lines-join_lines (frame_line f) (map frame_line fs) (lines-IsInline (f ∷ fs) v) in
    let d = decode_lines-lines 1 (f ∷ fs) v in
    unfold encode_frames in rw e (unfold decode_frames some_frames in rw s (rw d))
