-- ===== src/Lark/Token.antt =====
-- internal/lark/client.go: the tenant token, its use by doAuthorizedJSON, and TokenExpired.

use exec_over_lark.Prelude.{
  ℕ, zero, suc, ◌+◌, ◌-◌, ◌*◌, ◌%◌, ◌^◌, Bool, true, false, not, ◌&&◌, ◌||◌, Option, none, some,
  List, [], ◌∷◌, ◌==◌, ltb, leb, is_empty, if◌then◌else◌,
}
use exec_over_lark.Prelude.Bytes.{Bytes, codes, same, has_prefix}
use exec_over_lark.Prelude.Int.{ℤ, pos, negsuc, is_zero}
use exec_over_lark.Prelude.Result.{Result, ok, err, ◌>>=◌, ◌>>◌, ensure}
use exec_over_lark.Lark.Event.{first_with_text}

-- `APIError`, less its path
pub record ApiFailure : Type 0 where
  pub status : ℕ
  pub code : ℤ
  pub msg : Bytes

-- `transport_failed` is any error of doRawJSON.
pub data ClientError : Type 0 where
  api_failed : ApiFailure → ClientError
  transport_failed : ℕ → ClientError
  decode_failed missing_token : ClientError

abbrev pub lower : ℕ → ℕ
lower c = if leb b'A' c && leb c b'Z' then c + 32 else c

-- `strings.ToLower`, as far as the words looked for can tell: beyond ASCII only U+0130 and U+212A have
-- lower cases in ASCII, "i" and "k"; the other characters are left as they are. `skip` bytes are passed over.
unfoldable pub to_lower : ℕ → Bytes → Bytes
unfolding has_prefix
to_lower skip [] = []
to_lower (suc skip) (c ∷ s) = to_lower skip s
to_lower zero (c ∷ s) = elim (has_prefix (0xc4 ∷ 0xb0 ∷ []) (c ∷ s)) [
  | true ↦ b'i' ∷ to_lower 1 s
  | false ↦ elim (has_prefix (0xe2 ∷ 0x84 ∷ 0xaa ∷ []) (c ∷ s)) [
    | true ↦ b'k' ∷ to_lower 2 s
    | false ↦ lower c ∷ to_lower 0 s
  ]
]

-- `strings.Contains`
unfoldable pub contains : Bytes → Bytes → Bool
unfolding has_prefix
contains s [] = is_empty s
contains s (c ∷ t) = has_prefix s (c ∷ t) || contains s t

unfoldable pub expired_code : ℤ → Bool
expired_code (pos n) =
    n == 99991661 || n == 99991663 || n == 99991664 || n == 99991665 || n == 99991668
expired_code (negsuc n) = false

-- `TokenExpired`
unfoldable pub token_expired : ApiFailure → Bool
unfolding to_lower contains expired_code
token_expired e =
    let msg = to_lower 0 e.msg in
    e.status == 401
    || expired_code e.code
    || (contains (codes "token") msg
        && (contains (codes "expire") msg || contains (codes "invalid") msg))

pub record ClientState : Type 0 where
  pub tenant_token : Bytes
  pub token_expires_at : ℕ
  pub token_refresh_at : ℕ

-- An HTTP response: its status, and its body as encoding/json reads it.
pub record TokenResponse : Type 0 where
  pub code : ℤ
  pub msg : Bytes
  pub tenant_access_token : Bytes
  pub expire : ℤ
  pub data_tenant_access_token : Bytes
  pub data_expire : ℤ

-- `firstPositive` of the two numbers and 7200
unfoldable pub first_positive : ℤ → ℤ → ℕ
first_positive (pos (suc n)) b = suc n
first_positive (pos zero) (pos (suc n)) = suc n
first_positive (pos zero) (pos zero) = 7200
first_positive (pos zero) (negsuc n) = 7200
first_positive (negsuc m) (pos (suc n)) = suc n
first_positive (negsuc m) (pos zero) = 7200
first_positive (negsuc m) (negsuc n) = 7200

abbrev pub is_success : ℕ → Bool
is_success status = leb 200 status && ltb status 300

abbrev pub of_json : {A : Type 0} → Option A → Result ClientError A
of_json none = err decode_failed
of_json (some a) = ok a

abbrev pub no_msg : Bytes
no_msg = []

unfoldable pub token_of : TokenResponse → Result ClientError (Bytes × ℕ)
unfolding first_with_text first_positive
token_of out =
    let token = first_with_text (out.tenant_access_token ∷ out.data_tenant_access_token ∷ []) in
    do
      ensure (is_zero out.code) (api_failed (record { status = 0; code = out.code; msg = out.msg }))
      ensure (not (is_empty token)) missing_token
      ok (token, first_positive out.expire out.data_expire)

-- `fetchTenantAccessToken`, of the answer of doRawJSON
unfoldable pub fetch_tenant_access_token :
    Result ℕ (ℕ × Option TokenResponse) → Result ClientError (Bytes × ℕ)
unfolding token_of
fetch_tenant_access_token (err n) = err (transport_failed n)
fetch_tenant_access_token (ok (status, body)) =
    ensure (is_success status) (api_failed (record { status = status; code = pos 0; msg = no_msg }))
    >> (of_json body >>= token_of)

-- `time.Time.Add` of a number of seconds as an int64 of nanoseconds
unfoldable pub add_seconds : ℕ → ℕ → ℕ
add_seconds now seconds =
    let d = (seconds * 1000000000) % 2 ^ 64 in
    if ltb d (2 ^ 63) then now + d else now - (2 ^ 64 - d)

-- What `tenantAccessToken` keeps of a new token.
unfoldable pub keep_token : ℕ → ℕ → Bytes → ℕ → ClientState
unfolding add_seconds
keep_token skew now token expire =
    let expires_at = add_seconds now expire in
    let refresh_at = expires_at - skew in
    record {
      tenant_token = token;
      token_expires_at = expires_at;
      token_refresh_at = if leb refresh_at now then expires_at else refresh_at;
    }

-- What the client did: fetched a token, or sent the request with one.
pub data Exchange : Type 0 where
  fetched : Exchange
  sent_with : Bytes → Exchange

abbrev pub no_token : ClientState
no_token = record { tenant_token = []; token_expires_at = 0; token_refresh_at = 0 }

unfoldable pub invalidate_tenant_token : Bytes → ClientState → ClientState
invalidate_tenant_token token s = if same s.tenant_token token then no_token else s

-- `skew` is `tokenRefreshSkew`.
module _ (skew : ℕ) where
  unfoldable pub is_fresh : ℕ → ClientState → Bool
  is_fresh now s = not (is_empty s.tenant_token) && ltb now s.token_refresh_at

  unfoldable pub fetch_token :
      ℕ
      → Result ClientError (Bytes × ℕ)
      → ClientState
      → Result ClientError Bytes × (ClientState × List Exchange)
  unfolding keep_token
  fetch_token now (err e) s = (err e, (s, fetched ∷ []))
  fetch_token now (ok (token, expire)) s =
      (ok token, (keep_token skew now token expire, fetched ∷ []))

  -- `tenantAccessToken`: `answer` is what fetchTenantAccessToken returns if it is called, at the time `later`.
  unfoldable pub tenant_access_token :
      Bool
      → ℕ
      → ℕ
      → Result ClientError (Bytes × ℕ)
      → ClientState
      → Result ClientError Bytes × (ClientState × List Exchange)
  unfolding is_fresh fetch_token
  tenant_access_token force now later answer s =
      if not force && is_fresh now s
      then (ok s.tenant_token, (s, []))
      else fetch_token later answer s
