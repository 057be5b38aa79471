-- ===== src/Pty/Tests.antt =====
-- The theorems of Pty at concrete inputs.
use exec_over_lark.Prelude.{◌≡◌, refl, ◌↔◌, some, arith}
use exec_over_lark.Prelude.Bytes.{codes, same, has_prefix, trim_space}
use exec_over_lark.Prelude.Int.{pos}
use exec_over_lark.Pty.Size.{Size, normalize_size, winsize, winsize-Fits, Gives, Fits}
use exec_over_lark.Pty.Signals.{int, signal_by_name, to_upper}
use exec_over_lark.Pty.Signals.Named.{Names, signal_by_name_iff}

signal_by_name_runs : signal_by_name (codes " sigInt") ≡ some int
unfolding signal_by_name same has_prefix trim_space
signal_by_name_runs = refl

signal_by_name_iff_example :
    (signal_by_name (codes " sigInt") ≡ some int)
    ↔ Names (to_upper (trim_space (codes " sigInt"))) int
signal_by_name_iff_example = signal_by_name_iff (codes " sigInt") int

abbrev asked : Size
asked = record { rows = pos 0; cols = pos 120 }

winsize-Fits_example :
    (Gives asked.rows 24 (winsize (normalize_size asked)).rows
      × Gives asked.cols 80 (winsize (normalize_size asked)).cols)
    × (Fits (winsize (normalize_size asked)).rows × Fits (winsize (normalize_size asked)).cols)
winsize-Fits_example = winsize-Fits asked (omega arith) (omega arith)
