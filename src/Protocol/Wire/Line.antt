-- ===== src/Protocol/Wire/Line.antt =====
-- A frame comes back from its line (internal/protocol/frame.go).
use exec_over_lark.Prelude.{
  ℕ, ◌≤◌, ◌<◌, ◌≡◌, refl, true, false, [], ◌∷◌, ◌++◌, arith, ◌==◌, All, All-append, All-map,
}
use exec_over_lark.Prelude.Bytes.{Bytes, same}
use exec_over_lark.Prelude.Result.{ok}
use exec_over_lark.Protocol.Frame.{
  Frame, FrameType, start, start_ack, stdin, stdout, stderr, resize, signal, heartbeat, exit, close,
  error, other, type_name, to_frame_type, valid_frame_type, has_blank, validate_frame, max_uint64,
}
use exec_over_lark.Protocol.Base64.{encode}
use exec_over_lark.Protocol.Base64.RoundTrip.{
  IsByte, IsPrintable, encode-IsPrintable, decode_base64_payload-encode,
}
use exec_over_lark.Protocol.Decimal.{
  print_uint, print_uint-IsPrintable, parse_uint-print_uint, print_uint_not_empty,
}
use exec_over_lark.Protocol.Wire.{
  version, space, frame_line, decode_frame_line, split_n, decode_parts, decode_fields,
  decode_payload,
}
use exec_over_lark.Protocol.Wire.Split.{IsInline, cut-append, trim_cr_inline}

-- A frame that the protocol can carry.
pub record IsFrame (f : Frame) : Type 0 where
  pub positive : 0 < f.seq
  pub bounded : f.seq ≤ max_uint64
  pub type : valid_frame_type f.type ≡ true
  pub payload : All IsByte f.payload

type_name-IsPrintable : (t : FrameType) → valid_frame_type t ≡ true → All IsPrintable (type_name t)
unfolding type_name valid_frame_type
type_name-IsPrintable start h = omega arith
type_name-IsPrintable start_ack h = omega arith
type_name-IsPrintable stdin h = omega arith
type_name-IsPrintable stdout h = omega arith
type_name-IsPrintable stderr h = omega arith
type_name-IsPrintable resize h = omega arith
type_name-IsPrintable signal h = omega arith
type_name-IsPrintable heartbeat h = omega arith
type_name-IsPrintable exit h = omega arith
type_name-IsPrintable close h = omega arith
type_name-IsPrintable error h = omega arith
type_name-IsPrintable (other s) h = cc

to_frame_type-type_name :
    (t : FrameType) → valid_frame_type t ≡ true → to_frame_type (type_name t) ≡ t
unfolding to_frame_type type_name valid_frame_type same
to_frame_type-type_name start h = refl
to_frame_type-type_name start_ack h = refl
to_frame_type-type_name stdin h = refl
to_frame_type-type_name stdout h = refl
to_frame_type-type_name stderr h = refl
to_frame_type-type_name resize h = refl
to_frame_type-type_name signal h = refl
to_frame_type-type_name heartbeat h = refl
to_frame_type-type_name exit h = refl
to_frame_type-type_name close h = refl
to_frame_type-type_name error h = refl
to_frame_type-type_name (other s) h = cc

has_blank_printable : (s : Bytes) → All IsPrintable s → has_blank s ≡ false
unfolding has_blank
has_blank_printable [] h = refl
has_blank_printable (c ∷ s) h = ground (arith, has_blank_printable s h.1)

-- The last test of `validateFrame` fails no valid type.
pub validate_frame-IsFrame : (f : Frame) → IsFrame f → validate_frame f ≡ ok f
validate_frame-IsFrame f v =
    let e = has_blank_printable (type_name f.type) (type_name-IsPrintable f.type v.type) in
    unfold validate_frame in ground (arith, e, v.type)

split_n-line :
    (v s t p : Bytes)
    → All IsPrintable v
    → All IsPrintable s
    → All IsPrintable t
    → split_n 3 (v ++ (space ∷ (s ++ (space ∷ (t ++ (space ∷ p)))))) ≡ v ∷ s ∷ t ∷ p ∷ []
split_n-line v s t p hv hs ht =
    let a = cut-append v (s ++ (space ∷ (t ++ (space ∷ p)))) hv in
    let b = cut-append s (t ++ (space ∷ p)) hs in
    let c = cut-append t p ht in
    unfold split_n in rw (a, split_n) (rw (b, split_n) (rw (c, split_n)))

pub IsInline-of_printable : (s : Bytes) → All IsPrintable s → All IsInline s
IsInline-of_printable s h = All-map IsPrintable IsInline s (λ c p. omega arith) h

pub frame_line-IsInline : (f : Frame) → IsFrame f → All IsInline (frame_line f)
frame_line-IsInline f v =
    let field = λ (a b : Bytes) (h : All IsPrintable a) (k : All IsInline b).
      All-append IsInline a (space ∷ b) (IsInline-of_printable a h) (omega arith, k) in
    unfold frame_line in
    field version _ (omega arith) (
      field (print_uint f.seq) _ (print_uint-IsPrintable f.seq) (
        field (type_name f.type) _ (type_name-IsPrintable f.type v.type)
          (IsInline-of_printable (encode f.payload) (encode-IsPrintable f.payload v.payload))))

positive_test : (n : ℕ) → 0 < n → (n == 0) ≡ false
positive_test n h = ground arith

pub decode_frame_line-frame_line : (f : Frame) → IsFrame f → decode_frame_line (frame_line f) ≡ ok f
decode_frame_line-frame_line f v =
    let trim = trim_cr_inline (frame_line f) (frame_line-IsInline f v) in
    let split =
      split_n-line version (print_uint f.seq) (type_name f.type) (encode f.payload) (omega arith)
        (print_uint-IsPrintable f.seq) (type_name-IsPrintable f.type v.type) in
    let seq = parse_uint-print_uint f.seq v.bounded in
    let typ = to_frame_type-type_name f.type v.type in
    let payload = decode_base64_payload-encode f.payload v.payload in
    let nonzero : (f.seq == 0) ≡ false = positive_test f.seq v.positive in
    unfold decode_frame_line in
    rw trim (
      unfold frame_line in
      rw split (
        unfold decode_parts decode_fields decode_payload same in
        rw (print_uint_not_empty f.seq, seq, decode_fields)
          (rw (nonzero, typ, v.type) (rw (payload, decode_payload)))))
