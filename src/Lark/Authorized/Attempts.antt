-- ===== src/Lark/Authorized/Attempts.antt =====
-- internal/lark/client.go: the attempts of doAuthorizedJSON.
use exec_over_lark.Prelude.{
  ℕ, ◌<◌, ◌≡◌, ◌≢◌, ◌↔◌, not, ◌&&◌, is_empty, ltb, ltb→lt, arith, refl, inl, inr, Bool, true, false,
  List, [], ◌∷◌, ◌++◌, Bool-cases,
}
use exec_over_lark.Prelude.Bytes.{Bytes}
use exec_over_lark.Prelude.Result.{Result, ok, err}
use exec_over_lark.Lark.Token.{
  ClientError, ClientState, Exchange, fetched, sent_with, invalidate_tenant_token, fetch_token,
  tenant_access_token, is_fresh,
}
use exec_over_lark.Lark.Authorized.{
  Turn, do_json_with_token, is_expired, send_again, after_first, send_first, do_authorized_json,
}

-- The cached token is there and is not to be renewed yet.
abbrev pub IsFresh : ℕ → ClientState → Type 0
IsFresh now s = (s.tenant_token ≢ []) × (now < s.token_refresh_at)

-- A token is the cached one if that is fresh, and was fetched if it is not.
pub data TokenFrom (skew : ℕ) {A : Type 0} (turn : Turn A) (s : ClientState)
    : Bytes → List Exchange → Type 0 where
  cached : IsFresh turn.now s → TokenFrom skew turn s s.tenant_token []
  fresh :
      (token : Bytes) (expire : ℕ)
      → ¬ IsFresh turn.now s
      → turn.token_answer ≡ ok (token, expire)
      → TokenFrom skew turn s token (fetched ∷ [])

-- The ways that a request goes.
pub data Attempts (skew : ℕ) {A : Type 0} (first second : Turn A) (s : ClientState)
    : Result ClientError A → List Exchange → Type 0 where
  no_token :
      (e : ClientError)
      → ¬ IsFresh first.now s
      → first.token_answer ≡ err e
      → Attempts skew first second s (err e) (fetched ∷ [])
  answered :
      (token : Bytes) (es : List Exchange)
      → TokenFrom skew first s token es
      → (value : A) → do_json_with_token (first.response token) ≡ ok value
      → Attempts skew first second s (ok value) (es ++ sent_with token ∷ [])
  refused :
      (token : Bytes) (es : List Exchange)
      → TokenFrom skew first s token es
      → (e : ClientError) → do_json_with_token (first.response token) ≡ err e
      → is_expired e ≡ false
      → Attempts skew first second s (err e) (es ++ sent_with token ∷ [])
  not_renewed :
      (token : Bytes) (es : List Exchange)
      → TokenFrom skew first s token es
      → (e : ClientError) → do_json_with_token (first.response token) ≡ err e
      → is_expired e ≡ true
      → (e' : ClientError) → second.token_answer ≡ err e'
      → Attempts skew first second s (err e') ((es ++ sent_with token ∷ []) ++ fetched ∷ [])
  renewed :
      (token : Bytes) (es : List Exchange)
      → TokenFrom skew first s token es
      → (e : ClientError) → do_json_with_token (first.response token) ≡ err e
      → is_expired e ≡ true
      → (token' : Bytes) (expire : ℕ) → second.token_answer ≡ ok (token', expire)
      → Attempts skew first second s
          (do_json_with_token (second.response token'))
          ((es ++ sent_with token ∷ []) ++ fetched ∷ [] ++ sent_with token' ∷ [])

both : (a b : Bool) → a && b ≡ true → (a ≡ true) × (b ≡ true)
both true b h = (refl, h)
both false b h = cc h

filled_iff : (s : Bytes) → (is_empty s ≡ false) ↔ (s ≢ [])
filled_iff [] = (λ h. cc h, λ h. absurd (h refl))
filled_iff (c ∷ s) = (λ h q. cc q, λ h. refl)

is_fresh_iff : (skew now : ℕ) (s : ClientState) → (is_fresh skew now s ≡ true) ↔ IsFresh now s
unfolding is_fresh
is_fresh_iff skew now s =
    let filled = filled_iff s.tenant_token in
    (
      λ h.
          let (there, lt) = both (not (is_empty s.tenant_token)) (ltb now s.token_refresh_at) h in
          (filled.0 (ground arith), ltb→lt now s.token_refresh_at lt),
      λ p. rw (filled.1 p.0) (ground (arith, p.1)),
    )

module _ (skew : ℕ) {A : Type 0} (first second : Turn A) (s : ClientState) where
  Goal : Result ClientError A × (ClientState × List Exchange) → Type 0
  Goal (r, (t, es)) = Attempts skew first second s r es

  renew :
      (token : Bytes) (es : List Exchange) (t : ClientState)
      → TokenFrom skew first s token es
      → (e : ClientError) → do_json_with_token (first.response token) ≡ err e
      → is_expired e ≡ true
      → (answer : Result ClientError (Bytes × ℕ)) → second.token_answer ≡ answer
      → Goal
          (send_again second (es ++ sent_with token ∷ []) (fetch_token skew second.later answer t))
  unfolding Goal send_again fetch_token
  renew token es t from e q x (err e') a = not_renewed token es from e q x e' a
  renew token es t from e q x (ok (token', expire)) a = renewed token es from e q x token' expire a

  after :
      (token : Bytes) (es : List Exchange) (t : ClientState)
      → TokenFrom skew first s token es
      → (r : Result ClientError A) → do_json_with_token (first.response token) ≡ r
      → Goal (after_first skew second token t (es ++ sent_with token ∷ []) r)
  unfolding Goal after_first tenant_access_token
  after token es t from (ok value) q = answered token es from value q
  after token es t from (err e) q = elim (Bool-cases (is_expired e)) [
    | inl x ↦
        rw x (renew token es (invalidate_tenant_token token t) from e q x second.token_answer refl)
    | inr x ↦ rw x (refused token es from e q x)
  ]

  first_fetched :
      ¬ IsFresh first.now s
      → (answer : Result ClientError (Bytes × ℕ)) → first.token_answer ≡ answer
      → Goal (send_first skew first second (fetch_token skew first.later answer s))
  unfolding Goal send_first fetch_token
  first_fetched n (err e) a = no_token e n a
  first_fetched n (ok (token, expire)) a =
      after token (fetched ∷ []) _ (fresh token expire n a)
        (do_json_with_token (first.response token)) refl

  -- A request is sent at most twice. It is sent with the cached token if that is fresh, and else with one that is
  -- fetched; only if the answer says that the token has expired, a token is fetched and the request sent once
  -- more, with the new token, and the second answer counts whatever it is. Without a token nothing is sent.
  pub do_authorized_json_attempts :
      let done = do_authorized_json skew first second s in
      Attempts skew first second s done.0 done.1.1
  unfolding Goal do_authorized_json tenant_access_token
  do_authorized_json_attempts = elim (Bool-cases (is_fresh skew first.now s)) [
    | inl t ↦ rw t (
        after s.tenant_token [] s (cached ((is_fresh_iff skew first.now s).0 t))
          (do_json_with_token (first.response s.tenant_token)) refl)
    | inr f ↦
        rw f
          (first_fetched (λ p. cc (f, (is_fresh_iff skew first.now s).1 p)) first.token_answer refl)
  ]
