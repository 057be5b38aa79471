-- ===== src/Lark/RoundTrip.antt =====
-- internal/lark/client.go: frames come back from the text of a message that mentions their receiver.
use exec_over_lark.Prelude.{
  ℕ, zero, suc, ◌≡◌, ◌≢◌, refl, sym, ap, ◌∙◌, inl, inr, true, false, some, List, [], ◌∷◌, ◌++◌, All,
  All-append, Bool-cases, arith, is_empty, drop, length,
}
use mathlib.Core.List.{map, append_assoc}
use exec_over_lark.Prelude.Bytes.{Bytes, codes, has_prefix, trim_left, trim_space}
use exec_over_lark.Prelude.Bytes.Blank.{is_blank-letter}
use exec_over_lark.Prelude.Bytes.Trim.{IsInk, trim_left_ink, trim_left_newline, trim_space_keeps}
use exec_over_lark.Prelude.Result.{ok, ◌>>=◌}
use exec_over_lark.Protocol.Frame.{Frame}
use exec_over_lark.Protocol.Decimal.{print_uint, print_uint-IsPrintable, print_uint_not_empty}
use exec_over_lark.Protocol.Base64.RoundTrip.{IsPrintable}
use exec_over_lark.Protocol.Wire.{
  frame_line, encode_frames, decode_frames, join_lines, split_lines, space, version,
}
use exec_over_lark.Protocol.Wire.Line.{IsFrame}
use exec_over_lark.Protocol.Wire.Split.{split_lines-join_lines}
use exec_over_lark.Protocol.Wire.RoundTrip.{
  encode_frames-IsFrame, lines-IsInline, message_round_trip,
}
use exec_over_lark.Lark.Mention.{
  escape_char, escape_string, build_at_mention, build_mentioned_text, at_close,
}
use exec_over_lark.Lark.Text.{
  at_open, after_close, strip_mentions, strip_leading_at_mentions, from_frame, frame_prefix,
  extract_protocol_text,
}

-- No "<", so no end of a mention.
abbrev IsEscaped : Bytes → Type 0
IsEscaped = All (λ c. c ≢ b'<')

escape_char-IsEscaped : (c : ℕ) → IsEscaped (escape_char c)
escape_char-IsEscaped c = ground arith

escape_string-IsEscaped : (s : Bytes) → IsEscaped (escape_string s)
unfolding escape_string
escape_string-IsEscaped [] = tt
escape_string-IsEscaped (c ∷ s) =
    All-append (λ c. c ≢ b'<') (escape_char c) (escape_string s) (escape_char-IsEscaped c)
      (escape_string-IsEscaped s)

after_close_skip : (a s : Bytes) → IsEscaped a → after_close (a ++ s) ≡ after_close s
unfolding after_close has_prefix
after_close_skip [] s h = refl
after_close_skip (c ∷ a) s h = ground (arith, after_close_skip a s h.1, h.0)

after_close_found : (s : Bytes) → after_close (at_close ++ s) ≡ some s
unfolding after_close has_prefix
after_close_found s = refl

strip_mentions_letter : (n : ℕ) (s : Bytes) → strip_mentions n (b'E' ∷ s) ≡ b'E' ∷ s
unfolding strip_mentions has_prefix
strip_mentions_letter zero s = refl
strip_mentions_letter (suc n) s = refl

seq_begins :
    (digits after : Bytes)
    → is_empty digits ≡ false
    → All IsPrintable digits
    → (d : ℕ) × ((rest : Bytes) × (IsInk d
          × (version ++ (space ∷ (digits ++ (space ∷ after))) ≡ codes "EOL1 " ++ d ∷ rest)))
seq_begins [] after e h = cc e
seq_begins (d ∷ ds) after e h = (d, (ds ++ (space ∷ after), (omega (arith, h.0), refl)))

-- A line begins with letters, a space and a digit.
line_begins :
    (f : Frame)
    → (d : ℕ) × ((rest : Bytes) × (IsInk d × (frame_line f ≡ codes "EOL1 " ++ d ∷ rest)))
unfolding frame_line
line_begins f =
    seq_begins (print_uint f.seq) _ (print_uint_not_empty f.seq) (print_uint-IsPrintable f.seq)

line_trimmed : (f : Frame) → has_prefix frame_prefix (trim_space (frame_line f)) ≡ true
unfolding has_prefix
line_trimmed f =
    let (d, begins) = line_begins f in
    let (rest, ink) = begins in
    let (t, e) = trim_space_keeps b'E' (codes "OL1 ") d rest (omega arith) ink.0 in
    ap (λ y. has_prefix frame_prefix (trim_space y)) ink.1 ∙ ap (has_prefix frame_prefix) e

from_frame_line : (f : Frame) (ls : List Bytes) → from_frame (frame_line f ∷ ls) ≡ frame_line f ∷ ls
unfolding from_frame
from_frame_line f ls = rw (line_trimmed f) refl

text_begins :
    (f : Frame) (ls : List Bytes) → (rest : Bytes) × (join_lines (frame_line f ∷ ls) ≡ b'E' ∷ rest)
unfolding join_lines frame_line
text_begins f [] = (_, refl)
text_begins f (l ∷ ls) = (_, refl)

strip_letter : (s : Bytes) → strip_leading_at_mentions (b'E' ∷ s) ≡ b'E' ∷ s
unfolding strip_leading_at_mentions
strip_letter s =
    ap (λ t. strip_mentions (length t) t) (trim_left_ink b'E' s (omega arith))
    ∙ strip_mentions_letter (length (b'E' ∷ s)) s

after_mention : (open_id s : Bytes) → after_close (build_at_mention open_id ++ s) ≡ some s
unfolding build_at_mention after_close has_prefix
after_mention open_id s =
    let escaped = escape_string (trim_space open_id) in
    ap after_close (append_assoc escaped (codes "\">" ++ at_close) s)
    ∙ after_close_skip escaped (codes "\">" ++ (at_close ++ s))
        (escape_string-IsEscaped (trim_space open_id))
    ∙ after_close_found s

strip_step :
    (n : ℕ) (text rest : Bytes)
    → has_prefix at_open text ≡ true
    → after_close text ≡ some rest
    → strip_mentions (suc n) text ≡ strip_mentions n (trim_left rest)
unfolding strip_mentions
strip_step n text rest h e = rw (h, e, strip_mentions) refl

strip_mention :
    (open_id s : Bytes)
    → strip_leading_at_mentions (build_at_mention open_id ++ (10 ∷ b'E' ∷ s)) ≡ b'E' ∷ s
unfolding strip_leading_at_mentions build_at_mention has_prefix
strip_mention open_id s =
    let text = build_at_mention open_id ++ (10 ∷ b'E' ∷ s) in
    let tail = drop 1 text in
    ap (λ t. strip_mentions (length t) t) (trim_left_ink b'<' tail (omega arith))
    ∙ strip_step (length tail) text (10 ∷ b'E' ∷ s) refl (after_mention open_id (10 ∷ b'E' ∷ s))
    ∙ ap (strip_mentions (length tail)) (trim_left_newline b'E' s (omega arith))
    ∙ strip_mentions_letter (length tail) s

strip_mentioned :
    (open_id s : Bytes)
    → strip_leading_at_mentions (build_mentioned_text open_id (b'E' ∷ s)) ≡ b'E' ∷ s
unfolding build_mentioned_text
strip_mentioned open_id s = elim (Bool-cases (is_empty (trim_space open_id))) [
  | inl t ↦ rw t (strip_letter s)
  | inr f ↦ rw (f, is_blank-letter s) (strip_mention (trim_space open_id) s)
]

extract_mentioned :
    (open_id : Bytes) (f : Frame) (fs : List Frame)
    → All IsFrame (f ∷ fs)
    → extract_protocol_text (build_mentioned_text open_id (join_lines (map frame_line (f ∷ fs))))
      ≡ join_lines (map frame_line (f ∷ fs))
unfolding extract_protocol_text
extract_mentioned open_id f fs v =
    let (rest, e) = text_begins f (map frame_line fs) in
    ap
      (λ t.
        join_lines
          (from_frame (split_lines (strip_leading_at_mentions (build_mentioned_text open_id t)))))
      e
    ∙ ap (λ t. join_lines (from_frame (split_lines t))) (strip_mentioned open_id rest ∙ sym e)
    ∙ ap (λ ls. join_lines (from_frame ls))
        (split_lines-join_lines (frame_line f) (map frame_line fs) (lines-IsInline (f ∷ fs) v))
    ∙ ap join_lines (from_frame_line f (map frame_line fs))

-- A message of one frame or more that the sender writes for a receiver, with a mention of any open id in front,
-- comes back to the receiver as the same frames: the mention is stripped, the lines of frames are
-- found, and they decode.
pub mentioned_round_trip :
    (open_id : Bytes) (f : Frame) (fs : List Frame)
    → All IsFrame (f ∷ fs)
    → (encode_frames (f ∷ fs) >>= λ text.
        decode_frames (extract_protocol_text (build_mentioned_text open_id text)))
      ≡ ok (f ∷ fs)
mentioned_round_trip open_id f fs v =
    let e = encode_frames-IsFrame (f ∷ fs) v in
    ap
      (λ r. r >>= λ text. decode_frames (extract_protocol_text (build_mentioned_text open_id text)))
      e
    ∙ ap decode_frames (extract_mentioned open_id f fs v)
    ∙ sym (ap (λ r. r >>= decode_frames) e)
    ∙ message_round_trip f fs v
