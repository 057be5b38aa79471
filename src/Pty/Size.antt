-- ===== src/Pty/Size.antt =====
-- internal/pty/pty.go: Size, normalizeSize, validateSize and the sizes that the terminal gets.
use exec_over_lark.Prelude.{
  ℕ, zero, suc, ◌-◌, ◌%◌, ◌^◌, ◌≤◌, ◌<◌, ◌≡◌, Bool, not, ◌||◌, Option, none, some, arith,
  if◌then◌else◌,
}
use exec_over_lark.Prelude.Int.{ℤ, pos, negsuc, is_positive}
use exec_over_lark.Prelude.Result.{Result, ok, err}

pub record Size : Type 0 where
  pub rows : ℤ
  pub cols : ℤ

abbrev pub default_rows : ℤ
default_rows = pos 24

abbrev pub default_cols : ℤ
default_cols = pos 80

abbrev positive_or : ℤ → ℤ → ℤ
positive_or z fallback = if is_positive z then z else fallback

unfoldable pub normalize_size : Size → Size
normalize_size size = record {
  rows = positive_or size.rows default_rows;
  cols = positive_or size.cols default_cols;
}

pub data SizeError : Type 0 where
  invalid_size not_open set_failed : SizeError

unfoldable pub validate_size : Size → Result SizeError Size
validate_size size =
    if not (is_positive size.rows) || not (is_positive size.cols) then err invalid_size else ok size

-- `uint16(z)`
abbrev pub u16 : ℤ → ℕ
u16 (pos n) = n % 2 ^ 16
u16 (negsuc n) = 2 ^ 16 - 1 - n % 2 ^ 16

-- `creackpty.Winsize`
pub record Winsize : Type 0 where
  pub rows : ℕ
  pub cols : ℕ

unfoldable pub winsize : Size → Winsize
winsize size = record { rows = u16 size.rows; cols = u16 size.cols }

-- `Session.Resize`: `setsize` of the package creack/pty, none for a session without a terminal.
unfoldable pub resize : Option (Winsize → Bool) → ℤ → ℤ → Result SizeError Winsize
unfolding validate_size winsize
resize none rows cols = err not_open
resize (some setsize) rows cols = elim (validate_size (record { rows = rows; cols = cols })) [
  | err e ↦ err e
  | ok size ↦ if setsize (winsize size) then ok (winsize size) else err set_failed
]

-- What a number of rows or columns that is asked for gives: itself if it is positive, and else the default.
abbrev pub Gives : ℤ → ℕ → ℕ → Type 0
Gives (pos zero) default n = n ≡ default
Gives (pos (suc asked)) default n = n ≡ suc asked
Gives (negsuc asked) default n = n ≡ default

-- Not positive, so that the default is taken, or a size that fits.
abbrev pub IsAsked : ℤ → Type 0
IsAsked (pos n) = n < 2 ^ 16
IsAsked (negsuc n) = Unit

abbrev pub Fits : ℕ → Type 0
Fits n = (1 ≤ n) × (n < 2 ^ 16)

u16-Gives :
    (z : ℤ) (default : ℕ)
    → IsAsked z
    → Fits default
    → Gives z default (u16 (positive_or z (pos default))) × Fits (u16 (positive_or z (pos default)))
u16-Gives (pos zero) default a f = (omega (arith, f.1), (omega (arith, f), omega (arith, f)))
u16-Gives (pos (suc n)) default a f = (omega (arith, a), (omega (arith, a), omega (arith, a)))
u16-Gives (negsuc n) default a f = (omega (arith, f.1), (omega (arith, f), omega (arith, f)))

-- The terminal of a command gets the size that was asked for, and 24 rows or 80 columns where the
-- number asked for is not positive: never 0, and below 2 ^ 16. The numbers asked for are below 2 ^ 16.
pub winsize-Fits :
    (size : Size)
    → IsAsked size.rows
    → IsAsked size.cols
    → let win = winsize (normalize_size size) in
      (Gives size.rows 24 win.rows × Gives size.cols 80 win.cols) × (Fits win.rows × Fits win.cols)
unfolding normalize_size winsize
winsize-Fits size r c =
    let rows = u16-Gives size.rows 24 r (omega arith, omega arith) in
    let cols = u16-Gives size.cols 80 c (omega arith, omega arith) in
    ((rows.0, cols.0), (rows.1, cols.1))
