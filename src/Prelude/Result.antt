-- ===== src/Prelude/Result.antt =====
-- Go's `(value, error)` where the value is used only without an error, and its chains.
use mathlib.Core.Path.{◌≡◌, refl}
use mathlib.Core.Logic.{◌⊎◌, ◌↔◌, inl, inr}
use mathlib.Core.Bool.{Bool, true, false}

pub data Result (E A : Type 0) : Type 0 where
  err : E → Result E A
  ok : A → Result E A

infixl 5 ◌>>=◌
abbrev pub ◌>>=◌ : {E A B : Type 0} → Result E A → (A → Result E B) → Result E B
err failure >>= next = err failure
ok value >>= next = next value

-- What a chain that succeeds went through.
pub >>=-eq-ok :
    {E A B : Type 0} (r : Result E A) (next : A → Result E B) {out : B}
    → (r >>= next) ≡ ok out
    → (mid : A) × (r ≡ ok mid) × (next mid ≡ ok out)
>>=-eq-ok (err failure) next eq = cc
>>=-eq-ok (ok mid) next eq = (mid, refl, eq)

pub Result-cases :
    {E A : Type 0} (r : Result E A) → ((e : E) × (r ≡ err e)) ⊎ ((a : A) × (r ≡ ok a))
Result-cases (ok a) = inr (a, refl)
Result-cases (err e) = inl (e, refl)

-- `if !holds { return failure }`
abbrev pub ensure : {E : Type 0} → Bool → E → Result E (Unit {0})
ensure true failure = ok tt
ensure false failure = err failure

infixl 5 ◌>>◌
abbrev pub ◌>>◌ : {E B : Type 0} → Result E (Unit {0}) → Result E B → Result E B
err failure >> next = err failure
ok done >> next = next

pub ensure_iff :
    {E : Type 0} (holds : Bool) (failure : E) → (ensure holds failure ≡ ok tt) ↔ (holds ≡ true)
ensure_iff true failure = (λ h. refl, λ h. refl)
ensure_iff false failure = (λ h. cc, λ h. cc)

pub >>_iff :
    {E B : Type 0} (m : Result E (Unit {0})) (next : Result E B) (out : B)
    → ((m >> next) ≡ ok out) ↔ ((m ≡ ok tt) × (next ≡ ok out))
>>_iff (err failure) next out = (λ h. cc, λ h. cc)
>>_iff (ok done) next out = (λ h. (refl, h), λ h. h.1)

-- A check that stands for P, and a chain of checks.
pub ensures {ℓ} :
    {E : Type 0} {P : Type ℓ} (holds : Bool) (failure : E)
    → (holds ≡ true) ↔ P
    → (ensure holds failure ≡ ok tt) ↔ P
ensures true failure i = (λ h. i.0 refl, λ p. refl)
ensures false failure i = (λ h. cc, λ p. absurd (cc (i.1 p)))

pub chain {ℓ κ} :
    {E B : Type 0} {P : Type ℓ} {Q : Type κ} (m : Result E (Unit {0})) (next : Result E B) {out : B}
    → (m ≡ ok tt) ↔ P
    → (next ≡ ok out) ↔ Q
    → ((m >> next) ≡ ok out) ↔ (P × Q)
chain (err failure) next i j = (λ h. cc, λ p. absurd (cc (i.1 p.0)))
chain (ok done) next i j = (λ h. (i.0 refl, j.0 h), λ p. j.1 p.1)
