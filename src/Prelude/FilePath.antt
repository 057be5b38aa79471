-- ===== src/Prelude/FilePath.antt =====
-- The functions of package path/filepath on Unix: Clean, Dir, Base, Join and IsAbs.
use Prim.Native.Nat.{ℕ}
use mathlib.Core.Path.{◌≡◌, refl}
use mathlib.Core.Bool.{Bool}
use mathlib.Core.List.{List, [], ◌∷◌, ◌++◌, reverse}
use exec_over_lark.Prelude.Tests.{◌==◌, if◌then◌else◌}
use exec_over_lark.Prelude.Lists.{is_empty}
use exec_over_lark.Prelude.Bytes.{Bytes, codes, same, has_prefix}

abbrev pub slash : ℕ
slash = b'/'

-- A byte in front of the first element.
abbrev push : ℕ → List Bytes → List Bytes
push c [] = (c ∷ []) ∷ []
push c (e ∷ es) = (c ∷ e) ∷ es

-- The elements between the slashes.
elements : Bytes → List Bytes
elements [] = [] ∷ []
elements (c ∷ s) = let es = elements s in if c == slash then [] ∷ es else push c es

-- One element after those in `back`, the last one first: "." stays, ".." takes one back.
go_up : Bool → List Bytes → List Bytes
unfolding same
go_up rooted [] = if rooted then [] else codes ".." ∷ []
go_up rooted (e ∷ back) = if same e (codes "..") then codes ".." ∷ e ∷ back else back

walk : Bool → List Bytes → List Bytes → List Bytes
unfolding go_up
walk rooted back [] = reverse back
walk rooted back (e ∷ es) =
    let up = walk rooted (go_up rooted back) es in
    let stay = walk rooted back es in
    let down = walk rooted (e ∷ back) es in
    if is_empty e
    then stay
    else if same e (codes ".")
    then stay
    else if same e (codes "..")
    then up
    else down

join_elements : List Bytes → Bytes
join_elements [] = []
join_elements (e ∷ []) = e
join_elements (e ∷ f ∷ es) = e ++ (slash ∷ join_elements (f ∷ es))

abbrev or_dot : Bytes → Bytes
or_dot [] = codes "."
or_dot (c ∷ s) = c ∷ s

-- `filepath.IsAbs`
unfoldable pub is_abs : Bytes → Bool
unfolding has_prefix
is_abs s = has_prefix (slash ∷ []) s

-- `filepath.Clean`
unfoldable pub clean : Bytes → Bytes
unfolding is_abs elements walk join_elements
clean s =
    let path = join_elements (walk (is_abs s) [] (elements s)) in
    if is_abs s then slash ∷ path else or_dot path

-- The text up to the last slash, and what follows it.
abbrev cons_pair : ℕ → Bytes × Bytes → Bytes × Bytes
cons_pair c (d, b) = (c ∷ d, b)

split_last : Bytes → Bytes × Bytes
split_last [] = ([], [])
split_last (c ∷ s) =
    let (d, b) = split_last s in
    if is_empty d then (if c == slash then (c ∷ [], b) else ([], c ∷ b)) else (c ∷ d, b)

-- `filepath.Dir`
unfoldable pub dir : Bytes → Bytes
unfolding split_last clean
dir s = let (d, b) = split_last s in clean d

-- Without the slashes at the end.
trim_slashes : Bytes → Bytes
trim_slashes [] = []
trim_slashes (c ∷ s) =
    let rest = trim_slashes s in
    if c == slash then (if is_empty rest then [] else c ∷ rest) else c ∷ rest

-- `filepath.Base`
unfoldable pub base : Bytes → Bytes
unfolding split_last trim_slashes
base [] = codes "."
base (c ∷ s) =
    let (d, b) = split_last (trim_slashes (c ∷ s)) in if is_empty b then slash ∷ [] else b

-- `filepath.Join` of two elements
unfoldable pub join : Bytes → Bytes → Bytes
unfolding clean
join [] [] = []
join [] (c ∷ s) = clean (c ∷ s)
join (c ∷ s) t = clean (c ∷ (s ++ (slash ∷ t)))

clean_runs : clean (codes "/a/./b//../../../c/") ≡ codes "/c"
unfolding clean is_abs has_prefix elements walk go_up same join_elements
clean_runs = refl

clean_runs_up : clean (codes "a/../../b") ≡ codes "../b"
unfolding clean is_abs has_prefix elements walk go_up same join_elements
clean_runs_up = refl

dir_runs : dir (codes "/run/elarkd.sock") ≡ codes "/run"
unfolding dir split_last clean is_abs has_prefix elements walk go_up same join_elements
dir_runs = refl

base_runs : base (codes "/bin/zsh/") ≡ codes "zsh"
unfolding base split_last trim_slashes
base_runs = refl
