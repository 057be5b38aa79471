-- ===== src/Protocol/Base64.antt =====
-- encoding/base64 as internal/protocol/frame.go uses it: `StdEncoding`, and the strict decoders of
-- `StdEncoding` and `RawStdEncoding`.
pub mod RoundTrip
pub mod Decoded
use exec_over_lark.Prelude.{
  ℕ, ◌+◌, ◌-◌, ◌*◌, ◌/◌, ◌%◌, ◌≡◌, refl, Bool, true, false, ◌&&◌, ◌||◌, Option, none, some, List,
  [], ◌∷◌, ◌++◌, ◌==◌, ltb, leb, if◌then◌else◌, is_empty,
}
use exec_over_lark.Prelude.Bytes.{Bytes, codes}

-- The character for six bits.
unfoldable pub enc_char : ℕ → ℕ
enc_char n =
    if ltb n 26
    then b'A' + n
    else if ltb n 52
    then b'a' + (n - 26)
    else if ltb n 62
    then b'0' + (n - 52)
    else if n == 62
    then b'+'
    else b'/'

-- The six bits of a character.
unfoldable pub dec_char : ℕ → Option ℕ
dec_char c =
    if leb b'A' c && leb c b'Z'
    then some (c - b'A')
    else if leb b'a' c && leb c b'z'
    then some (c - b'a' + 26)
    else if leb b'0' c && leb c b'9'
    then some (c - b'0' + 52)
    else if c == b'+'
    then some 62
    else if c == b'/'
    then some 63
    else none

abbrev pub pad : ℕ
pad = b'='

-- `EncodeToString`
unfoldable pub encode : Bytes → Bytes
encode [] = []
encode (a ∷ []) = enc_char (a / 4) ∷ enc_char (a % 4 * 16) ∷ pad ∷ pad ∷ []
encode (a ∷ b ∷ []) =
    enc_char (a / 4) ∷ enc_char (a % 4 * 16 + b / 16) ∷ enc_char (b % 16 * 4) ∷ pad ∷ []
encode (a ∷ b ∷ c ∷ rest) =
    enc_char (a / 4)
    ∷ enc_char (a % 4 * 16 + b / 16)
    ∷ enc_char (b % 16 * 4 + c / 64)
    ∷ enc_char (c % 64)
    ∷ encode rest

-- The decoders pass over line ends.
unfoldable pub drop_newlines : Bytes → Bytes
drop_newlines [] = []
drop_newlines (c ∷ s) = let rest = drop_newlines s in if c == 10 || c == 13 then rest else c ∷ rest

-- Two characters at the end: one byte, whose unused bits are 0.
pub last_two : Option ℕ → Option ℕ → Option Bytes
last_two (some a) (some b) = if b % 16 == 0 then some ((a * 4 + b / 16) ∷ []) else none
last_two (some a) none = none
last_two none _ = none

-- Three characters at the end: two bytes, whose unused bits are 0.
pub last_three : Option ℕ → Option ℕ → Option ℕ → Option Bytes
last_three (some a) (some b) (some c) =
    if c % 4 == 0 then some ((a * 4 + b / 16) ∷ (b % 16 * 16 + c / 4) ∷ []) else none
last_three (some a) (some b) none = none
last_three (some a) none _ = none
last_three none _ _ = none

-- Four characters, and what follows.
pub four : Option ℕ → Option ℕ → Option ℕ → Option ℕ → Option Bytes → Option Bytes
four (some a) (some b) (some c) (some d) (some rest) =
    some ((a * 4 + b / 16) ∷ (b % 16 * 16 + c / 4) ∷ (c % 4 * 64 + d) ∷ rest)
four (some a) (some b) (some c) (some d) none = none
four (some a) (some b) (some c) none _ = none
four (some a) (some b) none _ _ = none
four (some a) none _ _ _ = none
four none _ _ _ _ = none

-- `StdEncoding.Strict()` behind the line ends.
unfoldable pub decode_std : Bytes → Option Bytes
unfolding last_two last_three four
decode_std [] = some []
decode_std (a ∷ []) = none
decode_std (a ∷ b ∷ []) = none
decode_std (a ∷ b ∷ c ∷ []) = none
decode_std (a ∷ b ∷ c ∷ d ∷ rest) =
    let more = four (dec_char a) (dec_char b) (dec_char c) (dec_char d) (decode_std rest) in
    if d == pad && is_empty rest
    then (if c == pad
        then last_two (dec_char a) (dec_char b)
        else last_three (dec_char a) (dec_char b) (dec_char c))
    else more

-- `RawStdEncoding.Strict()` behind the line ends.
pub decode_raw : Bytes → Option Bytes
unfolding last_two last_three four
decode_raw [] = some []
decode_raw (a ∷ []) = none
decode_raw (a ∷ b ∷ []) = last_two (dec_char a) (dec_char b)
decode_raw (a ∷ b ∷ c ∷ []) = last_three (dec_char a) (dec_char b) (dec_char c)
decode_raw (a ∷ b ∷ c ∷ d ∷ rest) =
    four (dec_char a) (dec_char b) (dec_char c) (dec_char d) (decode_raw rest)

-- `decodeBase64Payload`
unfoldable pub decode_base64_payload : Bytes → Option Bytes
decode_base64_payload payload = elim (decode_std (drop_newlines payload)) [
  | some decoded ↦ some decoded
  | none ↦ if is_empty payload then some [] else decode_raw (drop_newlines payload)
]

decode_base64_payload_runs :
    (decode_base64_payload (codes "aGk=") ≡ some (codes "hi"))
    × (decode_base64_payload (codes "aGk") ≡ some (codes "hi"))
    × (decode_base64_payload (codes "aGl=") ≡ none)
    × (decode_base64_payload (codes "a=k=") ≡ none)
    × (decode_base64_payload [] ≡ some [])
unfolding decode_base64_payload decode_std decode_raw drop_newlines dec_char
decode_base64_payload_runs = (refl, refl, refl, refl, refl)
