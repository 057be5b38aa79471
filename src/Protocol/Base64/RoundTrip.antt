-- ===== src/Protocol/Base64/RoundTrip.antt =====
-- Base64 decodes what it encodes (internal/protocol/frame.go).
use exec_over_lark.Prelude.{
  ℕ, ◌+◌, ◌*◌, ◌/◌, ◌%◌, ◌≤◌, ◌<◌, ◌≡◌, ◌≢◌, refl, false, some, [], ◌∷◌, ◌==◌, All, arith,
}
use exec_over_lark.Prelude.Bytes.{Bytes}
use exec_over_lark.Protocol.Base64.{
  enc_char, dec_char, pad, encode, drop_newlines, decode_std, decode_base64_payload,
}

abbrev pub IsByte : ℕ → Type 0
IsByte c = c < 256

-- Neither a blank nor a control character, and ASCII.
abbrev pub IsPrintable : ℕ → Type 0
IsPrintable c = (33 ≤ c) × (c < 127)

pub dec_char-enc_char : (n : ℕ) → n < 64 → dec_char (enc_char n) ≡ some n
unfolding dec_char enc_char
dec_char-enc_char n h = ground arith

pub enc_char_bounds : (n : ℕ) → n < 64 → IsPrintable (enc_char n) × (enc_char n ≢ pad)
unfolding enc_char
enc_char_bounds n h = ground arith

sextet-IsPrintable : (n : ℕ) → n < 64 → IsPrintable (enc_char n)
sextet-IsPrintable n h = (enc_char_bounds n h).0

-- The text of a payload is made of printable characters.
pub encode-IsPrintable : (s : Bytes) → All IsByte s → All IsPrintable (encode s)
unfolding encode
encode-IsPrintable [] h = tt
encode-IsPrintable (a ∷ []) h = (
  sextet-IsPrintable (a / 4) (omega arith),
  (
    sextet-IsPrintable (a % 4 * 16) (omega arith),
    ((omega arith, omega arith), ((omega arith, omega arith), tt)),
  ),
)
encode-IsPrintable (a ∷ b ∷ []) h = (
  sextet-IsPrintable (a / 4) (omega arith),
  (
    sextet-IsPrintable (a % 4 * 16 + b / 16) (omega arith),
    (sextet-IsPrintable (b % 16 * 4) (omega arith), ((omega arith, omega arith), tt)),
  ),
)
encode-IsPrintable (a ∷ b ∷ c ∷ rest) h = (
  sextet-IsPrintable (a / 4) (omega arith),
  (
    sextet-IsPrintable (a % 4 * 16 + b / 16) (omega arith),
    (
      sextet-IsPrintable (b % 16 * 4 + c / 64) (omega arith),
      (sextet-IsPrintable (c % 64) (omega arith), encode-IsPrintable rest h.1.1.1),
    ),
  ),
)

-- No printable text holds a line end.
pub drop_newlines_printable : (s : Bytes) → All IsPrintable s → drop_newlines s ≡ s
unfolding drop_newlines
drop_newlines_printable [] h = refl
drop_newlines_printable (c ∷ s) h = ground (arith, drop_newlines_printable s h.1)

==_false : {a b : ℕ} → a ≢ b → (a == b) ≡ false
==_false h = ground arith

decode_std-encode : (s : Bytes) → All IsByte s → decode_std (encode s) ≡ some s
unfolding encode decode_std
decode_std-encode [] h = refl
decode_std-encode (a ∷ []) h =
    let a₁ = dec_char-enc_char (a / 4) (omega arith) in
    let a₂ = dec_char-enc_char (a % 4 * 16) (omega arith) in rw (a₁, a₂) (ground arith)
decode_std-encode (a ∷ b ∷ []) h =
    let b₁ = dec_char-enc_char (a / 4) (omega arith) in
    let b₂ = dec_char-enc_char (a % 4 * 16 + b / 16) (omega arith) in
    let b₃ = dec_char-enc_char (b % 16 * 4) (omega arith) in
    let not_pad = ==_false (enc_char_bounds (b % 16 * 4) (omega arith)).1 in
    rw (not_pad, b₁, b₂, b₃) (ground arith)
decode_std-encode (a ∷ b ∷ c ∷ rest) h =
    let c₁ = dec_char-enc_char (a / 4) (omega arith) in
    let c₂ = dec_char-enc_char (a % 4 * 16 + b / 16) (omega arith) in
    let c₃ = dec_char-enc_char (b % 16 * 4 + c / 64) (omega arith) in
    let c₄ = dec_char-enc_char (c % 64) (omega arith) in
    let not_pad = ==_false (enc_char_bounds (c % 64) (omega arith)).1 in
    rw (not_pad, c₁, c₂, c₃, c₄, decode_std-encode rest h.1.1.1) (ground arith)

-- Bytes come back from their text.
pub decode_base64_payload-encode :
    (s : Bytes) → All IsByte s → decode_base64_payload (encode s) ≡ some s
decode_base64_payload-encode s h =
    let e : drop_newlines (encode s) ≡ encode s =
      drop_newlines_printable (encode s) (encode-IsPrintable s h) in
    unfold decode_base64_payload in
    rw (e, decode_base64_payload) (rw (decode_std-encode s h, decode_base64_payload))
