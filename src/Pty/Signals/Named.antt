-- ===== src/Pty/Signals/Named.antt =====
-- internal/pty/pty.go: the names that SignalByName understands.
use exec_over_lark.Prelude.{
  ◌≡◌, refl, ap, ◌∙◌, ◌⊎◌, ◌↔◌, inl, inr, true, some, List, [], ◌∷◌, ◌++◌, length, drop, arith,
  Bool-cases, All, if◌then◌else◌,
}
use mathlib.Core.Path.{subst}
use exec_over_lark.Prelude.Bytes.{Bytes, codes, same, same_iff, has_prefix, trim_space}
use exec_over_lark.Pty.Signals.{
  Signal, hup, int, quit, kill, term, usr1, usr2, winch, cont, stop, tstp, to_upper, trim_sig,
  normalize_name, signal_cases, find_signal, signal_by_name,
}

-- The name of a signal in POSIX, less its SIG.
abbrev pub posix_name : Signal → Bytes
posix_name hup = codes "HUP"
posix_name int = codes "INT"
posix_name quit = codes "QUIT"
posix_name kill = codes "KILL"
posix_name term = codes "TERM"
posix_name usr1 = codes "USR1"
posix_name usr2 = codes "USR2"
posix_name winch = codes "WINCH"
posix_name cont = codes "CONT"
posix_name stop = codes "STOP"
posix_name tstp = codes "TSTP"

-- A name in capitals and without blanks around it is the signal's, with SIG or without.
abbrev pub Names : Bytes → Signal → Type 0
Names capitals s = (capitals ≡ posix_name s) ⊎ (capitals ≡ codes "SIG" ++ posix_name s)

find_signal_sound :
    (name : Bytes) (cases : List (Bytes × Signal)) (s : Signal)
    → All (λ c. c.0 ≡ posix_name c.1) cases
    → find_signal name cases ≡ some s
    → name ≡ posix_name s
unfolding find_signal
find_signal_sound name [] s a h = cc h
find_signal_sound name ((label, r) ∷ rest) s a h = elim (Bool-cases (same name label)) [
  | inl t ↦
      let q : r ≡ s =
        cc (subst (λ b. (if b then some r else find_signal name rest) ≡ some s) t h) in
      (same_iff name label).0 t ∙ a.0 ∙ ap posix_name q
  | inr f ↦
      find_signal_sound name rest s a.1
        (subst (λ b. (if b then some r else find_signal name rest) ≡ some s) f h)
]

has_prefix-drop : (p s : Bytes) → has_prefix p s ≡ true → s ≡ p ++ drop (length p) s
unfolding has_prefix
has_prefix-drop [] s h = refl
has_prefix-drop (c ∷ p) [] h = cc h
has_prefix-drop (c ∷ p) (d ∷ s) h =
    let first : c ≡ d = ground arith in cc (first, has_prefix-drop p s (ground arith))

trim_sig-Names : (u : Bytes) (s : Signal) → trim_sig u ≡ posix_name s → Names u s
unfolding trim_sig
trim_sig-Names u s h = elim (Bool-cases (has_prefix (codes "SIG") u)) [
  | inl t ↦ inr (has_prefix-drop (codes "SIG") u t ∙ ap (λ r. codes "SIG" ++ r) (rw t at h))
  | inr f ↦ inl (rw f at h)
]

find_posix : (s : Signal) → find_signal (trim_sig (posix_name s)) signal_cases ≡ some s
unfolding find_signal trim_sig has_prefix same
find_posix hup = refl
find_posix int = refl
find_posix quit = refl
find_posix kill = refl
find_posix term = refl
find_posix usr1 = refl
find_posix usr2 = refl
find_posix winch = refl
find_posix cont = refl
find_posix stop = refl
find_posix tstp = refl

trim_sig_posix : (s : Signal) → trim_sig (codes "SIG" ++ posix_name s) ≡ trim_sig (posix_name s)
unfolding trim_sig has_prefix
trim_sig_posix hup = refl
trim_sig_posix int = refl
trim_sig_posix quit = refl
trim_sig_posix kill = refl
trim_sig_posix term = refl
trim_sig_posix usr1 = refl
trim_sig_posix usr2 = refl
trim_sig_posix winch = refl
trim_sig_posix cont = refl
trim_sig_posix stop = refl
trim_sig_posix tstp = refl

Names-find : (u : Bytes) (s : Signal) → Names u s → find_signal (trim_sig u) signal_cases ≡ some s
Names-find u s (inl q) = rw q (find_posix s)
Names-find u s (inr q) = rw q (rw (trim_sig_posix s) (find_posix s))

cases_posix : All (λ (c : Bytes × Signal). c.0 ≡ posix_name c.1) signal_cases
cases_posix =
    (refl, (refl, (refl, (refl, (refl, (refl, (refl, (refl, (refl, (refl, (refl, tt)))))))))))

-- A name stands for a signal exactly if, without the blanks around it and in capitals, it is the name that POSIX
-- gives the signal, with SIG in front or without.
pub signal_by_name_iff :
    (name : Bytes) (s : Signal)
    → (signal_by_name name ≡ some s) ↔ Names (to_upper (trim_space name)) s
unfolding signal_by_name normalize_name
signal_by_name_iff name s =
    (λ h. trim_sig-Names _ s (find_signal_sound _ signal_cases s cases_posix h), Names-find _ s)
