-- ===== src/RemoteExec/Env/Value.antt =====
-- internal/remoteexec/exec.go: what a variable is in the environment that mergeEnv makes.
use exec_over_lark.Prelude.{
  Bool, true, false, ◌||◌, Option, none, some, List, [], ◌∷◌, ◌++◌, ◌≡◌, ◌≢◌, refl, sym, ◌∙◌, inl,
  inr, ◌==◌, ==_iff, if◌then◌else◌, All, arith, Bool-cases, Option-cases,
}
use mathlib.Core.Path.{subst}
use exec_over_lark.Prelude.Bytes.{bytes_le, Bytes, bytes_eq, same, same_iff}
use exec_over_lark.Prelude.Dict.{Dict, keys, lookup, insert, lookup-insert}
use exec_over_lark.Protocol.Wire.{cut}
use exec_over_lark.RemoteExec.Env.{
  set_cut, add_base, add_overrides, insert_key, sort_keys, or_empty, render, merge_env,
}

abbrev pub or_else : Option Bytes → Option Bytes → Option Bytes
or_else none b = b
or_else (some v) b = some v

abbrev when_key : Bytes → Option (Bytes × Bytes) → Option Bytes
when_key k none = none
when_key k (some (key, value)) = if same key k then some value else none

-- The value that a list of entries `key=value` gives a variable: the last one counts.
unfoldable pub value_of : Bytes → List Bytes → Option Bytes
value_of k [] = none
value_of k (item ∷ items) = or_else (value_of k items) (when_key k (cut b'=' item))

or_else_assoc : (a b c : Option Bytes) → or_else (or_else a b) c ≡ or_else a (or_else b c)
or_else_assoc none b c = refl
or_else_assoc (some v) b c = refl

lookup-set_cut :
    (k : Bytes) (o : Option (Bytes × Bytes)) (env : Dict Bytes Bytes)
    → lookup k (set_cut o env) ≡ or_else (when_key k o) (lookup k env)
lookup-set_cut k none env = refl
lookup-set_cut k (some (key, value)) env = elim (Bool-cases (same key k)) [
  | inl t ↦ lookup-insert key k value env ∙ rw t refl
  | inr f ↦ lookup-insert key k value env ∙ rw f refl
]

lookup-add_base :
    (k : Bytes) (base : List Bytes) (env : Dict Bytes Bytes)
    → lookup k (add_base base env) ≡ or_else (value_of k base) (lookup k env)
unfolding add_base value_of
lookup-add_base k [] env = refl
lookup-add_base k (item ∷ items) env =
    lookup-add_base k items (set_cut (cut b'=' item) env)
    ∙ rw lookup-set_cut
        (sym (or_else_assoc (value_of k items) (when_key k (cut b'=' item)) (lookup k env)))

-- No key twice.
abbrev pub IsMap : Dict Bytes Bytes → Type 0
IsMap [] = Unit
IsMap ((k, v) ∷ m) = (lookup k m ≡ none) × IsMap m

lookup-add_overrides :
    (k : Bytes) (m env : Dict Bytes Bytes)
    → IsMap m
    → lookup k (add_overrides m env) ≡ or_else (lookup k m) (lookup k env)
unfolding add_overrides lookup
lookup-add_overrides k [] env d = refl
lookup-add_overrides k ((j, v) ∷ m) env d = elim (Bool-cases (same j k)) [
  | inl t ↦
      let other : lookup k m ≡ none = subst (λ x. lookup x m ≡ none) ((same_iff j k).0 t) d.0 in
      lookup-add_overrides k m (insert j v env) d.1 ∙ rw (other, lookup-insert j k v env, t) refl
  | inr f ↦ lookup-add_overrides k m (insert j v env) d.1 ∙ rw (lookup-insert j k v env, f) refl
]

-- A name of a variable has no equals sign.
abbrev pub IsName : Bytes → Type 0
IsName = All (λ c. c ≢ b'=')

cut_name : (name v : Bytes) → IsName name → cut b'=' (name ++ (b'=' ∷ v)) ≡ some (name, v)
unfolding cut
cut_name [] v h = refl
cut_name (c ∷ name) v h = ground (arith, cut_name name v h.1, h.0)

has : Bytes → List Bytes → Bool
has k [] = false
has k (j ∷ js) = same j k || has k js

has-insert_key : (k j : Bytes) (js : List Bytes) → has k (insert_key j js) ≡ same j k || has k js
unfolding has insert_key
has-insert_key k j [] = refl
has-insert_key k j (i ∷ js) = ground (arith, has-insert_key k j js)

has-sort_keys : (k : Bytes) (ks : List Bytes) → has k (sort_keys ks) ≡ has k ks
unfolding has sort_keys
has-sort_keys k [] = refl
has-sort_keys k (j ∷ ks) = has-insert_key k j (sort_keys ks) ∙ rw (has-sort_keys k ks) refl

or_else_self : (b : Bool) (x : Bytes) → or_else (if b then some x else none) (some x) ≡ some x
or_else_self true x = refl
or_else_self false x = refl

or_else-none : (a : Option Bytes) → or_else a none ≡ a
or_else-none none = refl
or_else-none (some v) = refl

value_of-render :
    (k : Bytes) (env : Dict Bytes Bytes) (ks : List Bytes)
    → All IsName ks
    → value_of k (render env ks) ≡ (if has k ks then some (or_empty (lookup k env)) else none)
unfolding value_of render has
value_of-render k env [] h = refl
value_of-render k env (j ∷ ks) h = elim (Bool-cases (same j k)) [
  | inl t ↦
      rw
        (
          cut_name j (or_empty (lookup j env)) h.0,
          value_of-render k env ks h.1,
          t,
          (same_iff j k).0 t,
        )
        (or_else_self (has k ks) (or_empty (lookup k env)))
  | inr f ↦
      rw (cut_name j (or_empty (lookup j env)) h.0, value_of-render k env ks h.1, f)
        (or_else-none (if has k ks then some (or_empty (lookup k env)) else none))
]

lookup-has :
    (k : Bytes) (env : Dict Bytes Bytes)
    → (if has k (keys env) then some (or_empty (lookup k env)) else none) ≡ lookup k env
unfolding has lookup
lookup-has k [] = refl
lookup-has k ((j, v) ∷ env) = elim (Bool-cases (same j k)) [
  | inl t ↦ rw t refl
  | inr f ↦ rw f (lookup-has k env)
]

names-insert :
    (j v : Bytes) (env : Dict Bytes Bytes)
    → IsName j
    → All IsName (keys env)
    → All IsName (keys (insert j v env))
unfolding insert
names-insert j v [] n h = (n, tt)
names-insert j v ((i, w) ∷ env) n h = elim (Bool-cases (same i j)) [
  | inl t ↦ rw t (n, h.1)
  | inr f ↦ rw f (h.0, names-insert j v env n h.1)
]

abbrev NameOf : Option (Bytes × Bytes) → Type 0
NameOf none = Unit
NameOf (some (a, b)) = IsName a

cut-NameOf : (s : Bytes) → NameOf (cut b'=' s)
unfolding cut
cut-NameOf [] = tt
cut-NameOf (c ∷ s) = elim (Bool-cases (c == b'=')) [
  | inl t ↦ rw t tt
  | inr f ↦ elim (Option-cases (cut b'=' s)) [
    | inl q ↦ rw (f, q) tt
    | inr (ab, q) ↦ rw (f, q) (λ e. cc (f, (==_iff c b'=').1 e), subst NameOf q (cut-NameOf s))
  ]
]

names-set_cut :
    (o : Option (Bytes × Bytes)) (env : Dict Bytes Bytes)
    → NameOf o
    → All IsName (keys env)
    → All IsName (keys (set_cut o env))
names-set_cut none env n h = h
names-set_cut (some (a, b)) env n h = names-insert a b env n h

names-add_base :
    (base : List Bytes) (env : Dict Bytes Bytes)
    → All IsName (keys env)
    → All IsName (keys (add_base base env))
unfolding add_base
names-add_base [] env h = h
names-add_base (item ∷ items) env h =
    names-add_base items (set_cut (cut b'=' item) env)
      (names-set_cut (cut b'=' item) env (cut-NameOf item) h)

names-add_overrides :
    (m env : Dict Bytes Bytes)
    → All IsName (keys m)
    → All IsName (keys env)
    → All IsName (keys (add_overrides m env))
unfolding add_overrides
names-add_overrides [] env n h = h
names-add_overrides ((j, v) ∷ m) env n h =
    names-add_overrides m (insert j v env) n.1 (names-insert j v env n.0 h)

names-insert_key :
    (k : Bytes) (ks : List Bytes) → IsName k → All IsName ks → All IsName (insert_key k ks)
unfolding insert_key
names-insert_key k [] n h = (n, tt)
names-insert_key k (j ∷ ks) n h = elim (Bool-cases (bytes_le k j)) [
  | inl t ↦ rw t (n, h)
  | inr f ↦ rw f (h.0, names-insert_key k ks n h.1)
]

names-sort_keys : (ks : List Bytes) → All IsName ks → All IsName (sort_keys ks)
unfolding sort_keys
names-sort_keys [] h = tt
names-sort_keys (k ∷ ks) h = names-insert_key k (sort_keys ks) h.0 (names-sort_keys ks h.1)

-- In the environment that mergeEnv makes, a variable is what the overrides say, and what the base
-- says where they say nothing; in the base the last entry for a name counts. The names in the
-- overrides are distinct and have no equals sign.
pub merge_env_value :
    (base : List Bytes) (overrides : Dict Bytes Bytes) (k : Bytes)
    → IsMap overrides
    → All IsName (keys overrides)
    → value_of k (merge_env base overrides) ≡ or_else (lookup k overrides) (value_of k base)
unfolding merge_env lookup
merge_env_value base [] k d n = refl
merge_env_value base (o ∷ m) k d n =
    let env = add_overrides (o ∷ m) (add_base base []) in
    let names = names-add_overrides (o ∷ m) (add_base base []) n (names-add_base base [] tt) in
    value_of-render k env (sort_keys (keys env)) (names-sort_keys (keys env) names)
    ∙ rw
        (
          has-sort_keys k (keys env),
          lookup-has k env,
          lookup-add_overrides k (o ∷ m) (add_base base []) d,
          lookup-add_base k base [],
          or_else-none (value_of k base),
        )
        refl
