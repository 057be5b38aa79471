-- ===== src/Ipc/Wire/RoundTrip.antt =====
-- internal/ipc/ipc.go: messages come back from the bytes of a connection, one after the other.
use exec_over_lark.Prelude.{
  ℕ, zero, suc, ◌≤◌, ◌≡◌, ◌≢◌, refl, ap, sym, ◌∙◌, true, false, Option, none, some, List, [], ◌∷◌,
  ◌++◌, length, All, leb, leb→le, ◌==◌, false, arith,
}
use mathlib.Core.List.{append_assoc}
use mathlib.Core.Path.{subst}
use exec_over_lark.Prelude.Bytes.{Bytes}
use exec_over_lark.Prelude.Result.{Result, ok, ◌>>=◌, ensure, ensure_iff, >>_iff, >>=-eq-ok}
use exec_over_lark.Ipc.Types.{
  Message, IpcError, default_max_header_bytes, default_max_payload_bytes,
}
use exec_over_lark.Ipc.Validate.{validate_message, validate_type}
use exec_over_lark.Ipc.Wire.{
  Json, to_header, put_uint32, read_full, uint32, or_marshal_failed, payload_length, write,
  read_payload, read_body, read,
}

-- What the code relies on in encoding/json: the header of a message, if it is marshaled, is not empty and
-- unmarshals to itself.
abbrev pub ReadsBack : Json → Message → Type 0
ReadsBack json m =
    (raw : Bytes)
    → json.marshal (to_header m) ≡ some raw
    → (json.unmarshal raw ≡ some (to_header m)) × (raw ≢ [])

read_full-append : (a b : Bytes) → read_full (length a) (a ++ b) ≡ ok (a, b)
unfolding read_full
read_full-append [] b = refl
read_full-append (c ∷ a) b = rw (read_full-append a b) refl

uint32-put_uint32 : (n : ℕ) → n ≤ default_max_header_bytes → uint32 (put_uint32 n) ≡ n
unfolding uint32 put_uint32
uint32-put_uint32 n h = omega (arith, h)

or_marshal_failed_ok :
    (o : Option Bytes) {raw : Bytes} → or_marshal_failed o ≡ ok raw → o ≡ some raw
or_marshal_failed_ok none h = cc h
or_marshal_failed_ok (some raw) h = cc h

bytes_within :
    (m : Message)
    → validate_message default_max_payload_bytes m ≡ ok tt
    → leb (length m.bytes) default_max_payload_bytes ≡ true
unfolding validate_message
bytes_within m v =
    (ensure_iff (leb (length m.bytes) default_max_payload_bytes) _).0
      ((>>_iff (validate_type m.fields.type m.fields) _ tt).0 v).1

not_zero : (n : ℕ) → (suc n == 0) ≡ false
not_zero n = ground arith

module _ (json : Json) where
  payload_read :
      (m : Message) (rest : Bytes)
      → validate_message default_max_payload_bytes m ≡ ok tt
      → read_payload json (m.bytes ++ rest) (to_header m) ≡ ok (m, rest)
  unfolding read_payload payload_length to_header
  payload_read m rest v = rw (bytes_within m v, read_full-append m.bytes rest, v) refl

  body_read :
      (m : Message) (raw rest : Bytes)
      → validate_message default_max_payload_bytes m ≡ ok tt
      → ReadsBack json m
      → json.marshal (to_header m) ≡ some raw
      → leb (length raw) default_max_header_bytes ≡ true
      → read_body json (length raw) (raw ++ (m.bytes ++ rest)) ≡ ok (m, rest)
  unfolding read_body
  body_read m [] rest v law j b = absurd ((law [] j).1 refl)
  body_read m (c ∷ raw) rest v law j b =
      rw
        (
          not_zero (length raw),
          b,
          read_full-append (c ∷ raw) (m.bytes ++ rest),
          (law (c ∷ raw) j).0,
        )
        (payload_read m rest v)

  -- What a message that is written looks like.
  written :
      (m : Message) {wire : Bytes}
      → write json m ≡ ok wire
      → (raw : Bytes) × ((validate_message default_max_payload_bytes m ≡ ok tt)
          × ((json.marshal (to_header m) ≡ some raw)
              × ((leb (length raw) default_max_header_bytes ≡ true)
                  × (wire ≡ put_uint32 (length raw) ++ (raw ++ m.bytes)))))
  unfolding write
  written m {wire} h =
      let (v, h1) = (>>_iff (validate_message default_max_payload_bytes m) _ wire).0 h in
      let (raw, j, h2) = >>=-eq-ok (or_marshal_failed (json.marshal (to_header m))) _ h1 in
      let (b, e) = (>>_iff (ensure (leb (length raw) default_max_header_bytes) _) _ wire).0 h2 in
      (
        raw,
        (
          v,
          (
            or_marshal_failed_ok (json.marshal (to_header m)) j,
            ((ensure_iff (leb (length raw) default_max_header_bytes) _).0 b, cc e),
          ),
        ),
      )

  pub read_wire :
      (m : Message) (rest : Bytes) {wire : Bytes}
      → ReadsBack json m
      → write json m ≡ ok wire
      → read json (wire ++ rest) ≡ ok (m, rest)
  unfolding read read_full put_uint32
  read_wire m rest {wire} law h =
      let (raw, w) = written m h in
      let (v, (j, (b, e))) = w in
      ap (λ t. read json (t ++ rest)) e
      ∙ ap (λ n. read_body json n ((raw ++ m.bytes) ++ rest))
          (uint32-put_uint32 (length raw) (leb→le _ _ b))
      ∙ ap (read_body json (length raw)) (append_assoc raw m.bytes rest)
      ∙ body_read m raw rest v law j b

  -- Messages written one after the other.
  unfoldable pub write_all : List Message → Result IpcError Bytes
  unfolding write
  write_all [] = ok []
  write_all (m ∷ ms) = write json m >>= λ wire. write_all ms >>= λ rest. ok (wire ++ rest)

  -- As many reads as `n`.
  unfoldable pub read_all : ℕ → Bytes → Result IpcError (List Message × Bytes)
  unfolding read
  read_all zero s = ok ([], s)
  read_all (suc n) s = do (m, s') ← read json s; (ms, rest) ← read_all n s'; ok (m ∷ ms, rest)

  -- Whatever messages are written on a connection, as many reads on its other end give the same messages, in the same
  -- order, and nothing is left over, provided that encoding/json reads back the headers that it writes.
  pub read_all-write_all :
      (ms : List Message) {wire : Bytes}
      → All (ReadsBack json) ms
      → write_all ms ≡ ok wire
      → read_all (length ms) wire ≡ ok (ms, [])
  unfolding write_all read_all
  read_all-write_all [] {wire} law h = let q : [] ≡ wire = cc h in ap (λ w. ok ([], w)) (sym q)
  read_all-write_all (m ∷ ms) {wire} law h =
      let (first, e, h1) = >>=-eq-ok (write json m) _ h in
      let (rest, e', h2) = >>=-eq-ok (write_all ms) _ h1 in
      let q : first ++ rest ≡ wire = cc h2 in
      subst (λ w. read_all (suc (length ms)) w ≡ ok (m ∷ ms, [])) q
        (rw (read_wire m rest law.0 e, read_all-write_all ms law.1 e') refl)
