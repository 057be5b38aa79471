-- ===== src/Lark/Text.antt =====
-- internal/lark/client.go: stripLeadingAtMentions and ExtractProtocolText.
pub mod Strip
use exec_over_lark.Prelude.{
  ℕ, zero, suc, Bool, Option, none, some, List, [], ◌∷◌, drop, length, if◌then◌else◌,
}
use exec_over_lark.Prelude.Bytes.{Bytes, codes, has_prefix, trim_left, trim_space}
use exec_over_lark.Protocol.Wire.{split_lines, join_lines}
use exec_over_lark.Lark.Mention.{at_close}

abbrev pub at_open : Bytes
at_open = codes "<at "

-- What follows the first "</at>", if there is one.
unfoldable pub after_close : Bytes → Option Bytes
unfolding has_prefix
after_close [] = none
after_close (c ∷ s) = if has_prefix at_close (c ∷ s) then some (drop 5 (c ∷ s)) else after_close s

-- The loop of `stripLeadingAtMentions`: each round takes some text away.
unfoldable pub strip_mentions : ℕ → Bytes → Bytes
unfolding after_close trim_left
strip_mentions zero text = text
strip_mentions (suc fuel) text =
    if has_prefix at_open text
    then elim (after_close text) [ none ↦ text | some rest ↦ strip_mentions fuel (trim_left rest) ]
    else text

unfoldable pub strip_leading_at_mentions : Bytes → Bytes
unfolding strip_mentions
strip_leading_at_mentions text =
    let trimmed = trim_left text in strip_mentions (length trimmed) trimmed

abbrev pub frame_prefix : Bytes
frame_prefix = codes "EOL1 "

-- The lines from the first that is a frame.
unfoldable pub from_frame : List Bytes → List Bytes
unfolding trim_space has_prefix
from_frame [] = []
from_frame (l ∷ ls) = if has_prefix frame_prefix (trim_space l) then l ∷ ls else from_frame ls

unfoldable pub extract_protocol_text : Bytes → Bytes
unfolding strip_leading_at_mentions from_frame join_lines
extract_protocol_text text = join_lines (from_frame (split_lines (strip_leading_at_mentions text)))
