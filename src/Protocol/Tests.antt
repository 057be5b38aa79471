-- ===== src/Protocol/Tests.antt =====
-- The theorems on frames and numbers at concrete values.
use exec_over_lark.Prelude.{◌+◌, ◌≡◌, refl, false, [], ◌∷◌, arith, leb, if◌then◌else◌}
use exec_over_lark.Prelude.Bytes.{Bytes, codes, same}
use exec_over_lark.Prelude.Result.{ok, err, ◌>>=◌}
use exec_over_lark.Protocol.Frame.{
  Frame, stdin, exit, max_uint64, valid_frame_type, validate_frame, has_blank, type_name,
  to_frame_type, sequencer_exhausted,
}
use exec_over_lark.Protocol.Sequencer.{Sequencer, new_sequencer_from, draw, draw_exact}
use exec_over_lark.Protocol.Base64.{
  encode, enc_char, dec_char, drop_newlines, decode_std, decode_base64_payload,
}
use exec_over_lark.Protocol.Decimal.{print_digits, print_uint, parse_uint}
use exec_over_lark.Protocol.Wire.{
  frame_line, encode_frame_line, decode_frame_line, decode_parts, decode_fields, decode_payload,
  split_n, cut, trim_cr, encode_frames, decode_frames,
}
use exec_over_lark.Protocol.Wire.Line.{IsFrame}
use exec_over_lark.Protocol.Wire.RoundTrip.{frame_round_trip, message_round_trip}
use exec_over_lark.Protocol.Wire.Decoded.{decode_frame_line-IsFrame, decoded_round_trip}

abbrev hello : Frame
hello = record { seq = 17; type = stdin; payload = codes "hello" }

abbrev bye : Frame
bye = record { seq = 18; type = exit; payload = [] }

abbrev hello_line : Bytes
hello_line = codes "EOL1 17 stdin aGVsbG8="

hello_encodes : encode_frame_line hello ≡ ok hello_line
unfolding encode_frame_line validate_frame valid_frame_type has_blank type_name frame_line
    print_uint print_digits encode enc_char
hello_encodes = refl

hello_decodes : decode_frame_line hello_line ≡ ok hello
unfolding decode_frame_line decode_parts split_n cut trim_cr same decode_fields parse_uint
    valid_frame_type to_frame_type decode_payload decode_base64_payload decode_std drop_newlines
    dec_char
hello_decodes = refl

hello-IsFrame : IsFrame hello
hello-IsFrame = record {
  positive = omega arith;
  bounded = omega arith;
  type = unfold valid_frame_type in refl;
  payload = omega arith;
}

bye-IsFrame : IsFrame bye
bye-IsFrame = record {
  positive = omega arith;
  bounded = omega arith;
  type = unfold valid_frame_type in refl;
  payload = tt;
}

frame_round_trip_example : (encode_frame_line hello >>= decode_frame_line) ≡ ok hello
frame_round_trip_example = frame_round_trip hello hello-IsFrame

message_round_trip_example :
    (encode_frames (hello ∷ bye ∷ []) >>= decode_frames) ≡ ok (hello ∷ bye ∷ [])
message_round_trip_example = message_round_trip hello (bye ∷ []) (hello-IsFrame, (bye-IsFrame, tt))

decode_frame_line-IsFrame_example : IsFrame hello
decode_frame_line-IsFrame_example = decode_frame_line-IsFrame hello_line {f = hello} hello_decodes

decoded_round_trip_example : (encode_frame_line hello >>= decode_frame_line) ≡ ok hello
decoded_round_trip_example = decoded_round_trip hello_line {f = hello} hello_decodes

abbrev from_seven : Sequencer
from_seven = record { next = 7; exhausted = false }

starts_at_seven : new_sequencer_from 7 ≡ ok from_seven
unfolding new_sequencer_from
starts_at_seven = refl

draw_exact_example :
    draw 3 from_seven ≡ (if leb (7 + 3) max_uint64 then ok (7 + 3) else err sequencer_exhausted)
draw_exact_example = draw_exact 3 7 {s = from_seven} (omega arith) starts_at_seven
