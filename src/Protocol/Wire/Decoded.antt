-- ===== src/Protocol/Wire/Decoded.antt =====
-- What a decoded frame is like (internal/protocol/frame.go).
use exec_over_lark.Prelude.{
  ℕ, ◌≤◌, ◌<◌, ◌≡◌, true, some, List, [], ◌∷◌, arith, ◌==◌, Bool-cases, Option-cases, inl, inr,
}
use mathlib.Core.Path.{subst}
use exec_over_lark.Prelude.Bytes.{Bytes}
use exec_over_lark.Prelude.Result.{ok, ◌>>=◌}
use exec_over_lark.Protocol.Frame.{Frame, FrameType, valid_frame_type, max_uint64, to_frame_type}
use exec_over_lark.Protocol.Base64.{decode_base64_payload}
use exec_over_lark.Protocol.Base64.Decoded.{decode_base64_payload-Octets}
use exec_over_lark.Protocol.Decimal.{parse_uint, parse_uint-le}
use exec_over_lark.Protocol.Wire.{
  encode_frame_line, decode_frame_line, decode_parts, decode_fields, decode_payload, split_n,
  trim_cr,
}
use exec_over_lark.Protocol.Wire.Line.{IsFrame}
use exec_over_lark.Protocol.Wire.RoundTrip.{frame_round_trip}

decode_payload-IsFrame :
    (seq : ℕ) (typ : FrameType) (payload : Bytes) {f : Frame}
    → 0 < seq
    → seq ≤ max_uint64
    → valid_frame_type typ ≡ true
    → decode_payload seq typ (decode_base64_payload payload) ≡ ok f
    → IsFrame f
unfolding decode_payload
decode_payload-IsFrame seq typ payload {f} pos le v h =
    elim (Option-cases (decode_base64_payload payload)) [
      | inl e ↦ cc (rw (e, decode_payload) at h)
      | inr (bytes, e) ↦
          let decoded : Frame = record { seq = seq; type = typ; payload = bytes } in
          let out : ok decoded ≡ ok f = rw (e, decode_payload) at h in
          let same_frame : decoded ≡ f = cc in
          subst IsFrame same_frame (record {
            positive = pos;
            bounded = le;
            type = v;
            payload = decode_base64_payload-Octets payload bytes e;
          })
    ]

decode_fields-IsFrame :
    (seq : Bytes) (typ : FrameType) (payload : Bytes) {f : Frame}
    → decode_fields (parse_uint seq) typ payload ≡ ok f
    → IsFrame f
unfolding decode_fields
decode_fields-IsFrame seq typ payload {f} h = elim (Option-cases (parse_uint seq)) [
  | inl e ↦ cc (rw (e, decode_fields) at h)
  | inr (n, e) ↦
      let out : decode_fields (some n) typ payload ≡ ok f = rw (e, decode_fields) at h in
      elim (Bool-cases (n == 0)) [
        | inl z ↦ cc (simp z at out)
        | inr p ↦ elim (Bool-cases (valid_frame_type typ)) [
          | inl v ↦
              decode_payload-IsFrame n typ payload {f = f} (ground arith) (parse_uint-le seq e) v
                (simp (p, v) at out)
          | inr w ↦ cc (simp (p, w) at out)
        ]
      ]
]

decode_parts-IsFrame : (parts : List Bytes) {f : Frame} → decode_parts parts ≡ ok f → IsFrame f
unfolding decode_parts
decode_parts-IsFrame [] h = cc
decode_parts-IsFrame (a ∷ []) h = cc
decode_parts-IsFrame (a ∷ b ∷ []) h = cc
decode_parts-IsFrame (a ∷ b ∷ c ∷ []) h = cc
decode_parts-IsFrame (v ∷ seq ∷ typ ∷ payload ∷ []) {f} h =
    decode_fields-IsFrame seq (to_frame_type typ) payload {f = f} (ground arith)
decode_parts-IsFrame (a ∷ b ∷ c ∷ d ∷ e ∷ r) h = cc

-- A line that decodes gives a frame with a positive uint64 for its number, one of the eleven types and bytes.
pub decode_frame_line-IsFrame :
    (line : Bytes) {f : Frame} → decode_frame_line line ≡ ok f → IsFrame f
unfolding decode_frame_line
decode_frame_line-IsFrame line h = decode_parts-IsFrame (split_n 3 (trim_cr line)) h

-- What decodes, from whatever line, can be encoded again, and then decodes to the same frame.
pub decoded_round_trip :
    (line : Bytes) {f : Frame}
    → decode_frame_line line ≡ ok f
    → (encode_frame_line f >>= decode_frame_line) ≡ ok f
decoded_round_trip line {f} h = frame_round_trip f (decode_frame_line-IsFrame line h)
