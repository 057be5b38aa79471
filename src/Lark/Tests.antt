-- ===== src/Lark/Tests.antt =====
-- The theorems of Lark at concrete inputs.
use exec_over_lark.Prelude.{ℕ, ◌≡◌, refl, none, some, [], ◌∷◌, arith}
use exec_over_lark.Prelude.Bytes.{Bytes, codes, same, is_blank, has_prefix, trim_space}
use exec_over_lark.Prelude.Int.{pos}
use exec_over_lark.Prelude.Result.{ok, ◌>>=◌}
use exec_over_lark.Protocol.Frame.{Frame, stdin, close, valid_frame_type, to_frame_type}
use exec_over_lark.Protocol.Wire.{
  encode_frames, decode_frames, split_lines, push, join_lines, decode_lines, wrap_line, split_n,
  cut, trim_cr, decode_fields, decode_frame_line, decode_parts, decode_payload, some_frames,
}
use exec_over_lark.Protocol.Base64.{decode_base64_payload, decode_std, drop_newlines}
use exec_over_lark.Protocol.Decimal.{parse_uint}
use exec_over_lark.Protocol.Wire.Line.{IsFrame}
use exec_over_lark.Lark.Mention.{build_mentioned_text}
use exec_over_lark.Lark.Text.{strip_leading_at_mentions, extract_protocol_text}
use exec_over_lark.Lark.Text.Strip.{IsStripped, strip_leading_at_mentions-IsStripped}
use exec_over_lark.Lark.RoundTrip.{mentioned_round_trip}
use exec_over_lark.Lark.Event.{
  EventEnvelope, MessageEvent, Json, message_receive_event_type, parse_message_receive_event,
}
use exec_over_lark.Lark.Event.Accepted.{IsAccepted, parse_message_receive_event-IsAccepted}
use exec_over_lark.Lark.Token.{no_token}
use exec_over_lark.Lark.Authorized.{Turn, do_authorized_json}
use exec_over_lark.Lark.Authorized.Attempts.{Attempts, do_authorized_json_attempts}

abbrev frame : Frame
frame = record { seq = 7; type = stdin; payload = 0 ∷ 255 ∷ [] }

frame-IsFrame : IsFrame frame
unfolding valid_frame_type
frame-IsFrame = record {
  positive = omega arith;
  bounded = omega arith;
  type = refl;
  payload = omega arith;
}

mentioned_round_trip_example :
    (encode_frames (frame ∷ []) >>= λ text.
    decode_frames (extract_protocol_text (build_mentioned_text (codes "ou_<x>") text)))
    ≡ ok (frame ∷ [])
mentioned_round_trip_example = mentioned_round_trip (codes "ou_<x>") frame [] (frame-IsFrame, tt)

abbrev mention : Bytes
mention = codes " <at user_id=\"ou\"></at> <at x></at>hi"

strip_runs : strip_leading_at_mentions mention ≡ codes "hi"
unfolding strip_leading_at_mentions
strip_runs = refl

strip_leading_at_mentions-IsStripped_example : IsStripped (strip_leading_at_mentions mention)
strip_leading_at_mentions-IsStripped_example = strip_leading_at_mentions-IsStripped mention

abbrev envelope : EventEnvelope
envelope = record {
  type = [];
  event_id = codes "e";
  event_type = message_receive_event_type;
  sender_id = record { open_id = codes "ou_s"; user_id = []; union_id = [] };
  sender_type = codes "app";
  message = record {
    message_id = codes "om_1";
    root_id = [];
    parent_id = [];
    chat_id = codes "oc_1";
    message_type = codes "text";
    content = codes "EOL1 1 close ";
    mentions = [];
  };
}

abbrev json : Json
json = record { envelope = λ b. some envelope; string = λ b. none; text = λ b. none }

abbrev event : MessageEvent
event = record {
  event_id = codes "e";
  event_type = message_receive_event_type;
  message_id = codes "om_1";
  root_message_id = codes "om_1";
  chat_id = codes "oc_1";
  sender_open_id = codes "ou_s";
  sender_type = codes "app";
  message_type = codes "text";
  text = codes "EOL1 1 close ";
  mentions = [];
  frames = record { seq = 1; type = close; payload = [] } ∷ [];
}

event_parsed : parse_message_receive_event json [] [] ≡ ok event
unfolding parse_message_receive_event same is_blank split_lines push has_prefix trim_space
    join_lines decode_frames decode_lines wrap_line decode_frame_line decode_parts split_n cut
    trim_cr decode_fields parse_uint valid_frame_type to_frame_type decode_payload
    decode_base64_payload decode_std drop_newlines some_frames
event_parsed = refl

parse_message_receive_event-IsAccepted_example : IsAccepted json [] [] event
parse_message_receive_event-IsAccepted_example =
    parse_message_receive_event-IsAccepted json [] [] event_parsed

-- The first token has expired.
abbrev first : Turn ℕ
first = record {
  now = 5;
  later = 6;
  token_answer = ok (codes "t1", 7200);
  response = λ token. ok (record { status = 401; envelope = none; value = none });
}

abbrev second : Turn ℕ
second = record {
  now = 7;
  later = 8;
  token_answer = ok (codes "t2", 7200);
  response = λ token. ok (record {
    status = 200;
    envelope = some (record { code = pos 0; msg = [] });
    value = some 3;
  });
}

do_authorized_json_attempts_example :
    Attempts 300 first second no_token
      (do_authorized_json 300 first second no_token).0
      (do_authorized_json 300 first second no_token).1.1
do_authorized_json_attempts_example = do_authorized_json_attempts 300 first second no_token
