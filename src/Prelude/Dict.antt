-- ===== src/Prelude/Dict.antt =====
-- Go's maps as association lists. The list is also the order in which a `range` loop visits the
-- map, which Go leaves open: a theorem about every list speaks of every order.
use Prim.Native.Nat.{◌+◌, ◌<◌, ◌≤◌}
use mathlib.Core.Path.{◌≡◌, refl, ◌∙◌, subst₂}
use mathlib.Core.Bool.{true, false, not}
use mathlib.Core.Option.{Option, none, some}
use mathlib.Core.List.{List, [], ◌∷◌}
use native.Mathlib.Omega.{arith}
use mathlib.Core.Logic.{inl, inr}
use exec_over_lark.Prelude.Tests.{Eq, beq, if◌then◌else◌, Bool-cases}
use exec_over_lark.Prelude.Lists.{length, is_empty}

abbrev pub Dict : Type 0 → Type 0 → Type 0
Dict K V = List (K × V)

module _ {K V : Type 0} where
  abbrev pub keys : Dict K V → List K
  keys [] = []
  keys ((k, v) ∷ m) = k ∷ keys m

  abbrev pub values : Dict K V → List V
  values [] = []
  values ((k, v) ∷ m) = v ∷ values m

module _ {K V : Type 0} ⦃e : Eq K⦄ where
  unfoldable pub lookup : K → Dict K V → Option V
  lookup k [] = none
  lookup k ((j, v) ∷ m) = if beq j k then some v else lookup k m

  unfoldable pub insert : K → V → Dict K V → Dict K V
  insert k v [] = (k, v) ∷ []
  insert k v ((j, w) ∷ m) = if beq j k then (k, v) ∷ m else (j, w) ∷ insert k v m

  -- `delete(m, k)`
  unfoldable pub remove : K → Dict K V → Dict K V
  remove k [] = []
  remove k ((j, w) ∷ m) = let rest = remove k m in if beq j k then rest else (j, w) ∷ rest

  pub lookup-insert :
      (k j : K) (v : V) (m : Dict K V)
      → lookup j (insert k v m) ≡ (if beq k j then some v else lookup j m)
  unfolding lookup insert
  lookup-insert k j v [] = refl
  lookup-insert k j v ((i, w) ∷ m) =
      ground (arith, e.beq_iff k j, e.beq_iff i k, e.beq_iff i j, lookup-insert k j v m)

  pub lookup-insert_self : (k : K) (v : V) (m : Dict K V) → lookup k (insert k v m) ≡ some v
  lookup-insert_self k v m =
      let own : beq k k ≡ true = (e.beq_iff k k).1 refl in lookup-insert k k v m ∙ rw own refl

  pub lookup-remove :
      (k j : K) (m : Dict K V) → lookup j (remove k m) ≡ (if beq k j then none else lookup j m)
  unfolding lookup remove
  lookup-remove k j [] = ground arith
  lookup-remove k j ((i, w) ∷ m) =
      ground (arith, e.beq_iff k j, e.beq_iff i k, e.beq_iff i j, lookup-remove k j m)

  pub insert-not_empty : (k : K) (v : V) (m : Dict K V) → not (is_empty (insert k v m)) ≡ true
  unfolding insert
  insert-not_empty k v [] = refl
  insert-not_empty k v ((j, w) ∷ m) = ground arith

  pub length-insert_le : (k : K) (v : V) (m : Dict K V) → length (insert k v m) ≤ length m + 1
  unfolding insert
  length-insert_le k v [] = omega arith
  length-insert_le k v ((j, w) ∷ m) = ground (arith, length-insert_le k v m)

  -- Setting a key that is there keeps the size.
  pub length-insert_old :
      (k : K) (v : V) (m : Dict K V) {old : V}
      → lookup k m ≡ some old
      → length (insert k v m) ≡ length m
  unfolding lookup insert
  length-insert_old k v [] h = cc
  length-insert_old k v ((j, w) ∷ m) {old} h = elim (Bool-cases (beq j k)) [
    | inl t ↦ rw t refl
    | inr f ↦ rw f (omega (arith, length-insert_old k v m {old = old} (ground arith)))
  ]

  pub lookup_empty : (k : K) (m : Dict K V) → length m ≤ 0 → lookup k m ≡ none
  unfolding lookup
  lookup_empty k [] h = refl
  lookup_empty k ((j, w) ∷ m) h = absurd (omega arith)

  pub length-remove_le : (k : K) (m : Dict K V) → length (remove k m) ≤ length m
  unfolding remove
  length-remove_le k [] = omega arith
  length-remove_le k ((j, w) ∷ m) = ground (arith, length-remove_le k m)

  -- Deleting a key that is there makes the map smaller.
  pub length-remove_lt :
      (k : K) (m : Dict K V) {v : V} → lookup k m ≡ some v → length (remove k m) < length m
  unfolding lookup remove
  length-remove_lt k [] h = cc
  length-remove_lt k ((j, w) ∷ m) {v} h = elim (Bool-cases (beq j k)) [
    | inl t ↦ rw t (omega (arith, length-remove_le k m))
    | inr f ↦ rw f (omega (arith, length-remove_lt k m {v = v} (ground arith)))
  ]

  -- The values of a map satisfy P, key by key.
  abbrev pub Every {ℓ} : (K → V → Type ℓ) → Dict K V → Type ℓ
  Every P [] = Unit
  Every P ((k, v) ∷ m) = P k v × Every P m

  pub Every-insert {ℓ} :
      (P : K → V → Type ℓ) (k : K) (v : V) (m : Dict K V)
      → P k v
      → Every P m
      → Every P (insert k v m)
  unfolding insert
  Every-insert P k v [] p h = (p, tt)
  Every-insert P k v ((j, w) ∷ m) p h = elim (Bool-cases (beq j k)) [
    | inl t ↦ rw t (p, h.1)
    | inr f ↦ rw f (h.0, Every-insert P k v m p h.1)
  ]

  pub Every-remove {ℓ} :
      (P : K → V → Type ℓ) (k : K) (m : Dict K V) → Every P m → Every P (remove k m)
  unfolding remove
  Every-remove P k [] h = tt
  Every-remove P k ((j, w) ∷ m) h = elim (Bool-cases (beq j k)) [
    | inl t ↦ rw t (Every-remove P k m h.1)
    | inr f ↦ rw f (h.0, Every-remove P k m h.1)
  ]

  pub Every-lookup {ℓ} :
      (P : K → V → Type ℓ) (k : K) (m : Dict K V) {v : V} → Every P m → lookup k m ≡ some v → P k v
  unfolding lookup
  Every-lookup P k [] h q = absurd (cc)
  Every-lookup P k ((j, w) ∷ m) {v} h q = elim (Bool-cases (beq j k)) [
    | inl t ↦ subst₂ P ((e.beq_iff j k).0 t) (ground arith) h.0
    | inr f ↦ Every-lookup P k m h.1 (ground arith)
  ]

  -- What is left after a deletion has other keys.
  pub Every-remove_ne {ℓ κ} :
      (P : K → V → Type ℓ) (Q : K → V → Type κ) (k : K) (m : Dict K V)
      → ((j : K) (v : V) → P j v → beq j k ≡ false → Q j v)
      → Every P m
      → Every Q (remove k m)
  unfolding remove
  Every-remove_ne P Q k [] step h = tt
  Every-remove_ne P Q k ((j, w) ∷ m) step h = elim (Bool-cases (beq j k)) [
    | inl t ↦ rw t (Every-remove_ne P Q k m step h.1)
    | inr f ↦ rw f (step j w h.0 f, Every-remove_ne P Q k m step h.1)
  ]

  -- A key that is not there differs from those that are.
  pub Every-lookup-none {ℓ κ} :
      (P : K → V → Type ℓ) (Q : K → V → Type κ) (k : K) (m : Dict K V)
      → ((j : K) (v : V) → P j v → beq j k ≡ false → Q j v)
      → lookup k m ≡ none
      → Every P m
      → Every Q m
  unfolding lookup
  Every-lookup-none P Q k [] step q h = tt
  Every-lookup-none P Q k ((j, w) ∷ m) step q h = elim (Bool-cases (beq j k)) [
    | inl t ↦ absurd (ground arith)
    | inr f ↦ (step j w h.0 f, Every-lookup-none P Q k m step (ground arith) h.1)
  ]

  pub Every-map {ℓ κ} :
      (P : K → V → Type ℓ) (Q : K → V → Type κ) (m : Dict K V)
      → ((j : K) (v : V) → P j v → Q j v)
      → Every P m
      → Every Q m
  Every-map P Q [] step h = tt
  Every-map P Q ((j, w) ∷ m) step h = (step j w h.0, Every-map P Q m step h.1)
