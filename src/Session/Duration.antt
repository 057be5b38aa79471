-- ===== src/Session/Duration.antt =====
-- internal/session/session.go: `parseDuration` and `parseHeartbeatTimeout`.
use exec_over_lark.Prelude.{
  ℕ, zero, suc, ◌+◌, ◌*◌, ◌^◌, Bool, ◌&&◌, ◌||◌, not, Option, none, some, [], ◌∷◌, ◌++◌, ◌==◌, leb,
  if◌then◌else◌, is_empty, length,
}
use exec_over_lark.Prelude.Bytes.{Bytes, trim_space, is_blank}
use exec_over_lark.Protocol.Frame.{u64}
use exec_over_lark.Session.Types.{World}

abbrev pub is_digit : ℕ → Bool
is_digit c = leb b'0' c && leb c b'9'

-- `[0-9]*` at the head: the digits, and what follows.
pub digits : Bytes → Bytes × Bytes
digits [] = ([], [])
digits (c ∷ s) = let (ds, rest) = digits s in if is_digit c then (c ∷ ds, rest) else ([], c ∷ s)

-- `(?:\.[0-9]+)?`
pub fraction : Bytes → Bytes × Bytes
unfolding digits
fraction [] = ([], [])
fraction (c ∷ s) =
    let (ds, rest) = digits s in
    if c == b'.' && not (is_empty ds) then (c ∷ ds, rest) else ([], c ∷ s)

abbrev pub second : ℕ
second = 1000000000

-- `(ms|s|m|h|d)`: the unit in nanoseconds, and what follows.
pub unit : Bytes → Option (ℕ × Bytes)
unit [] = none
unit (c ∷ s) =
    if c == b'm'
    then elim s [
      | [] ↦ some (60 * second, [])
      | d ∷ rest ↦ if d == b's' then some (1000000, rest) else some (60 * second, d ∷ rest)
    ]
    else if c == b's'
    then some (second, s)
    else if c == b'h'
    then some (3600 * second, s)
    else if c == b'd'
    then some (86400 * second, s)
    else none

-- A match of `durationTokenRE` at the head: the number, the unit, and what follows.
pub token : Bytes → Option (Bytes × ℕ × Bytes)
unfolding digits fraction unit
token s =
    let (whole, rest) = digits s in
    let (part, rest') = fraction rest in
    if is_empty whole
    then none
    else elim (unit rest') [ none ↦ none | some (u, rest'') ↦ some (whole ++ part, u, rest'') ]

module _ (w : World) where
  -- The loop of `parseDuration`. The matches have to follow each other from the start to the end, so
  -- each round takes a token at the head; their number is at most the length of the text.
  unfoldable pub parse_tokens : ℕ → ℕ → Bytes → Option ℕ
  unfolding token
  parse_tokens zero total s = if is_empty s then some total else none
  parse_tokens (suc fuel) total [] = some total
  parse_tokens (suc fuel) total (c ∷ s) = elim (token (c ∷ s)) [
    | none ↦ none
    | some (number, u, rest) ↦ elim (w.scaled number u) [
      | none ↦ none
      | some amount ↦ parse_tokens fuel (u64 (total + amount)) rest
    ]
  ]

  -- `parseDuration`: an int64 as a number below 2 ^ 64.
  unfoldable pub parse_duration : Bytes → Option ℕ
  unfolding parse_tokens
  parse_duration text =
      let s = trim_space text in if is_empty s then none else parse_tokens (length s) 0 s

  -- `parseHeartbeatTimeout`
  unfoldable pub parse_heartbeat_timeout : Bytes → ℕ → ℕ
  unfolding parse_duration
  parse_heartbeat_timeout text fallback =
      if is_blank text then fallback else elim (parse_duration text) [
        | none ↦ fallback
        | some parsed ↦ if parsed == 0 || leb (2 ^ 63) parsed then fallback else parsed
      ]
