-- ===== src/Pty/Signals.antt =====
-- internal/pty/pty.go: SignalByName.
pub mod Named
use exec_over_lark.Prelude.{
  ℕ, ◌-◌, ◌≡◌, refl, ap, ◌∙◌, inl, inr, Bool-cases, ◌↔◌, ◌&&◌, Option, none, some, List, [], ◌∷◌,
  drop, leb, ◌==◌, if◌then◌else◌,
}
use mathlib.Core.Path.{subst}
use exec_over_lark.Prelude.Bytes.{Bytes, codes, same, same_iff, has_prefix, trim_space}

pub data Signal : Type 0 where
  hup int quit kill term usr1 usr2 winch cont stop tstp : Signal

abbrev upper : ℕ → ℕ
upper c = if leb b'a' c && leb c b'z' then c - 32 else c

-- `strings.ToUpper`, as far as the names can tell: of the characters beyond ASCII, U+0131 and U+017F have the
-- upper cases "I" and "S", and no other has one in ASCII; those are left as they are.
unfoldable pub to_upper : Bytes → Bytes
to_upper [] = []
to_upper (c ∷ []) = upper c ∷ []
to_upper (c ∷ d ∷ s) =
    let skip = to_upper s in
    let next = to_upper (d ∷ s) in
    if c == 0xc4 && d == 0xb1
    then b'I' ∷ skip
    else if c == 0xc5 && d == 0xbf
    then b'S' ∷ skip
    else upper c ∷ next

-- `strings.TrimPrefix`
unfoldable pub trim_sig : Bytes → Bytes
trim_sig s = if has_prefix (codes "SIG") s then drop 3 s else s

unfoldable pub normalize_name : Bytes → Bytes
unfolding to_upper trim_sig
normalize_name name = trim_sig (to_upper (trim_space name))

-- The cases of the switch.
abbrev pub signal_cases : List (Bytes × Signal)
signal_cases =
    (codes "HUP", hup)
    ∷ (codes "INT", int)
    ∷ (codes "QUIT", quit)
    ∷ (codes "KILL", kill)
    ∷ (codes "TERM", term)
    ∷ (codes "USR1", usr1)
    ∷ (codes "USR2", usr2)
    ∷ (codes "WINCH", winch)
    ∷ (codes "CONT", cont)
    ∷ (codes "STOP", stop)
    ∷ (codes "TSTP", tstp)
    ∷ []

-- The switch: the signal of the first case that is the name.
unfoldable pub find_signal : Bytes → List (Bytes × Signal) → Option Signal
find_signal name [] = none
find_signal name ((label, s) ∷ rest) =
    let later = find_signal name rest in if same name label then some s else later

unfoldable pub signal_by_name : Bytes → Option Signal
unfolding normalize_name find_signal
signal_by_name name = find_signal (normalize_name name) signal_cases
