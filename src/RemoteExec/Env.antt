-- ===== src/RemoteExec/Env.antt =====
-- internal/remoteexec/exec.go: mergeEnv.
pub mod Value
use exec_over_lark.Prelude.{Bool, Option, none, some, List, [], ◌∷◌, ◌++◌, if◌then◌else◌, is_empty}
use exec_over_lark.Prelude.Bytes.{bytes_le, Bytes, bytes_eq}
use exec_over_lark.Prelude.Dict.{Dict, keys, lookup, insert}
use exec_over_lark.Protocol.Wire.{cut}

-- An entry of the environment, where it has an equals sign.
abbrev pub set_cut : Option (Bytes × Bytes) → Dict Bytes Bytes → Dict Bytes Bytes
set_cut none env = env
set_cut (some (key, value)) env = insert key value env

unfoldable pub add_base : List Bytes → Dict Bytes Bytes → Dict Bytes Bytes
unfolding cut
add_base [] env = env
add_base (item ∷ items) env = add_base items (set_cut (cut b'=' item) env)

unfoldable pub add_overrides : Dict Bytes Bytes → Dict Bytes Bytes → Dict Bytes Bytes
add_overrides [] env = env
add_overrides ((key, value) ∷ overrides) env = add_overrides overrides (insert key value env)

-- `sort.Strings`
unfoldable pub insert_key : Bytes → List Bytes → List Bytes
insert_key k [] = k ∷ []
insert_key k (j ∷ js) = if bytes_le k j then k ∷ j ∷ js else j ∷ insert_key k js

unfoldable pub sort_keys : List Bytes → List Bytes
unfolding insert_key
sort_keys [] = []
sort_keys (k ∷ ks) = insert_key k (sort_keys ks)

-- `env[key]`
abbrev pub or_empty : Option Bytes → Bytes
or_empty none = []
or_empty (some value) = value

unfoldable pub render : Dict Bytes Bytes → List Bytes → List Bytes
render env [] = []
render env (key ∷ ks) = (key ++ (b'=' ∷ or_empty (lookup key env))) ∷ render env ks

unfoldable pub merge_env : List Bytes → Dict Bytes Bytes → List Bytes
unfolding add_base add_overrides sort_keys render
merge_env base [] = base
merge_env base (override ∷ overrides) =
    let env = add_overrides (override ∷ overrides) (add_base base []) in
    render env (sort_keys (keys env))
