-- ===== src/Lark/Authorized.antt =====
-- internal/lark/client.go: doJSONWithToken and doAuthorizedJSON.
pub mod Attempts
use exec_over_lark.Prelude.{
  ℕ, Bool, true, false, Option, none, some, List, [], ◌∷◌, ◌++◌, if◌then◌else◌,
}
use exec_over_lark.Prelude.Bytes.{Bytes}
use exec_over_lark.Prelude.Int.{ℤ, pos, is_zero}
use exec_over_lark.Prelude.Result.{Result, ok, err, ◌>>=◌, ◌>>◌, ensure}
use exec_over_lark.Lark.Token.{
  ApiFailure, ClientError, api_failed, transport_failed, decode_failed, missing_token,
  token_expired, ClientState, Exchange, fetched, sent_with, invalidate_tenant_token,
  tenant_access_token, is_success, of_json,
}

-- `larkEnvelope`, less its data
pub record Envelope : Type 0 where
  pub code : ℤ
  pub msg : Bytes

-- A response: its status, and its body as an envelope and as the value asked for.
pub record Reply (A : Type 0) : Type 0 where
  pub status : ℕ
  pub envelope : Option Envelope
  pub value : Option A

-- `apiErrorFromResponse`
unfoldable pub api_error_from_response : ℕ → Option Envelope → ApiFailure
api_error_from_response status none = record { status = status; code = pos 0; msg = [] }
api_error_from_response status (some e) = record { status = status; code = e.code; msg = e.msg }

unfoldable pub check_envelope : Envelope → Result ClientError (Unit {0})
check_envelope e =
    ensure (is_zero e.code) (api_failed (record { status = 0; code = e.code; msg = e.msg }))

-- What a request may be answered at one attempt: the times at which the token is looked at and kept, what
-- fetching a token gives, and the response to the request with a token.
pub record Turn (A : Type 0) : Type 0 where
  pub now : ℕ
  pub later : ℕ
  pub token_answer : Result ClientError (Bytes × ℕ)
  pub response : Bytes → Result ℕ (Reply A)

-- The answer, with the state and the exchanges.
abbrev pub Exchanged : Type 0 → Type 0
Exchanged A = Result ClientError A × (ClientState × List Exchange)

abbrev pub is_expired : ClientError → Bool
is_expired (api_failed e) = token_expired e
is_expired (transport_failed n) = false
is_expired decode_failed = false
is_expired missing_token = false

module _ {A : Type 0} where
  unfoldable pub read_reply : Reply A → Result ClientError A
  unfolding api_error_from_response check_envelope
  read_reply r = do
    ensure (is_success r.status) (api_failed (api_error_from_response r.status r.envelope))
    envelope ← of_json r.envelope
    check_envelope envelope
    of_json r.value

  -- `doJSONWithToken`, of the answer of doRawJSON
  unfoldable pub do_json_with_token : Result ℕ (Reply A) → Result ClientError A
  unfolding read_reply
  do_json_with_token (err n) = err (transport_failed n)
  do_json_with_token (ok r) = read_reply r

  -- The second attempt: the request once more, with the token that is fetched.
  unfoldable pub send_again :
      Turn A
      → List Exchange
      → Result ClientError Bytes × (ClientState × List Exchange)
      → Exchanged A
  unfolding do_json_with_token
  send_again turn es (err e, (s, fs)) = (err e, (s, es ++ fs))
  send_again turn es (ok token, (s, fs)) =
      (do_json_with_token (turn.response token), (s, es ++ fs ++ sent_with token ∷ []))

  module _ (skew : ℕ) where
    unfoldable pub after_first :
        Turn A → Bytes → ClientState → List Exchange → Result ClientError A → Exchanged A
    unfolding send_again
    after_first second token s es (ok value) = (ok value, (s, es))
    after_first second token s es (err e) =
        if is_expired e
        then send_again second es (
            tenant_access_token skew true second.now second.later second.token_answer
              (invalidate_tenant_token token s))
        else (err e, (s, es))

    unfoldable pub send_first :
        Turn A → Turn A → Result ClientError Bytes × (ClientState × List Exchange) → Exchanged A
    unfolding after_first
    send_first first second (err e, (s, es)) = (err e, (s, es))
    send_first first second (ok token, (s, es)) =
        after_first second token s (es ++ sent_with token ∷ [])
          (do_json_with_token (first.response token))

    -- `doAuthorizedJSON`
    unfoldable pub do_authorized_json : Turn A → Turn A → ClientState → Exchanged A
    unfolding send_first
    do_authorized_json first second s =
        send_first first second
          (tenant_access_token skew false first.now first.later first.token_answer s)
