-- ===== src/Protocol/Base64/Decoded.antt =====
-- What base64 decodes to is made of bytes (internal/protocol/frame.go).
use mathlib.Core.Path.{subst}
use exec_over_lark.Prelude.{
  ℕ, ◌%◌, ◌<◌, ◌≡◌, refl, Option, none, some, [], ◌∷◌, arith, ◌==◌, All, Bool-cases, Option-cases,
  inl, inr, is_empty, ◌&&◌,
}
use exec_over_lark.Prelude.Bytes.{Bytes}
use exec_over_lark.Protocol.Base64.{
  dec_char, four, last_two, last_three, pad, decode_std, decode_raw, drop_newlines,
  decode_base64_payload,
}
use exec_over_lark.Protocol.Base64.RoundTrip.{IsByte}

-- Six bits, if any.
abbrev Sextet : Option ℕ → Type 0
Sextet o = (n : ℕ) → o ≡ some n → n < 64

-- Bytes, if any.
abbrev pub Octets : Option Bytes → Type 0
Octets o = (s : Bytes) → o ≡ some s → All IsByte s

dec_char-Sextet : (c : ℕ) → Sextet (dec_char c)
unfolding dec_char
dec_char-Sextet c n h = ground arith

octets : {r s : Bytes} → All IsByte r → some r ≡ some s → All IsByte s
octets {r} {s} h e = let same_bytes : r ≡ s = cc in subst (All IsByte) same_bytes h

last_two-Octets : (a b : Option ℕ) → Sextet a → Sextet b → Octets (last_two a b)
unfolding last_two
last_two-Octets (some a) (some b) ha hb s e = elim (Bool-cases (b % 16 == 0)) [
  | inl z ↦ octets (omega (arith, ha a refl, hb b refl), tt) (rw z at e)
  | inr z ↦ cc (rw z at e)
]
last_two-Octets (some a) none ha hb s e = cc
last_two-Octets none b ha hb s e = cc

last_three-Octets : (a b c : Option ℕ) → Sextet a → Sextet b → Sextet c → Octets (last_three a b c)
unfolding last_three
last_three-Octets (some a) (some b) (some c) ha hb hc s e = elim (Bool-cases (c % 4 == 0)) [
  | inl z ↦
      octets (omega (arith, ha a refl, hb b refl), (omega (arith, hb b refl, hc c refl), tt))
        (rw z at e)
  | inr z ↦ cc (rw z at e)
]
last_three-Octets (some a) (some b) none ha hb hc s e = cc
last_three-Octets (some a) none c ha hb hc s e = cc
last_three-Octets none b c ha hb hc s e = cc

four-Octets :
    (a b c d : Option ℕ) (r : Option Bytes)
    → Sextet a
    → Sextet b
    → Sextet c
    → Sextet d
    → Octets r
    → Octets (four a b c d r)
unfolding four
four-Octets (some a) (some b) (some c) (some d) (some r) ha hb hc hd hr s e =
    octets
      (
        omega (arith, ha a refl, hb b refl),
        (omega (arith, hb b refl, hc c refl), (omega (arith, hc c refl, hd d refl), hr r refl)),
      )
      e
four-Octets (some a) (some b) (some c) (some d) none ha hb hc hd hr s e = cc
four-Octets (some a) (some b) (some c) none r ha hb hc hd hr s e = cc
four-Octets (some a) (some b) none d r ha hb hc hd hr s e = cc
four-Octets (some a) none c d r ha hb hc hd hr s e = cc
four-Octets none b c d r ha hb hc hd hr s e = cc

decode_std-Octets : (t : Bytes) → Octets (decode_std t)
unfolding decode_std
decode_std-Octets [] s e = octets tt e
decode_std-Octets (a ∷ []) s e = cc
decode_std-Octets (a ∷ b ∷ []) s e = cc
decode_std-Octets (a ∷ b ∷ c ∷ []) s e = cc
decode_std-Octets (a ∷ b ∷ c ∷ d ∷ rest) s e =
    let ha = dec_char-Sextet a in
    let hb = dec_char-Sextet b in
    let hc = dec_char-Sextet c in
    let more =
      four-Octets (dec_char a) (dec_char b) (dec_char c) (dec_char d) (decode_std rest) ha hb hc
        (dec_char-Sextet d) (decode_std-Octets rest) in
    elim (Bool-cases (d == pad && is_empty rest)) [
      | inl end ↦ elim (Bool-cases (c == pad)) [
        | inl two ↦ last_two-Octets (dec_char a) (dec_char b) ha hb s (simp (end, two) at e)
        | inr three ↦
            last_three-Octets (dec_char a) (dec_char b) (dec_char c) ha hb hc s
              (simp (end, three) at e)
      ]
      | inr inside ↦ more s (simp inside at e)
    ]

decode_raw-Octets : (t : Bytes) → Octets (decode_raw t)
unfolding decode_raw
decode_raw-Octets [] s e = octets tt e
decode_raw-Octets (a ∷ []) s e = cc
decode_raw-Octets (a ∷ b ∷ []) s e =
    last_two-Octets (dec_char a) (dec_char b) (dec_char-Sextet a) (dec_char-Sextet b) s e
decode_raw-Octets (a ∷ b ∷ c ∷ []) s e =
    last_three-Octets (dec_char a) (dec_char b) (dec_char c) (dec_char-Sextet a) (dec_char-Sextet b)
      (dec_char-Sextet c) s e
decode_raw-Octets (a ∷ b ∷ c ∷ d ∷ rest) s e =
    four-Octets (dec_char a) (dec_char b) (dec_char c) (dec_char d) (decode_raw rest)
      (dec_char-Sextet a) (dec_char-Sextet b) (dec_char-Sextet c) (dec_char-Sextet d)
      (decode_raw-Octets rest) s e

-- What a text decodes to is made of bytes.
pub decode_base64_payload-Octets : (t : Bytes) → Octets (decode_base64_payload t)
unfolding decode_base64_payload
decode_base64_payload-Octets t s e = elim (Option-cases (decode_std (drop_newlines t))) [
  | inr (r, std) ↦
      octets (decode_std-Octets (drop_newlines t) r std) (rw (std, decode_base64_payload) at e)
  | inl no_std ↦ elim (Bool-cases (is_empty t)) [
    | inl empty ↦ octets {r = []} tt (simp empty at (rw (no_std, decode_base64_payload) at e))
    | inr full ↦
        decode_raw-Octets (drop_newlines t) s
          (simp full at (rw (no_std, decode_base64_payload) at e))
  ]
]
