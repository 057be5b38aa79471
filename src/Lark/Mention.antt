-- ===== src/Lark/Mention.antt =====
-- internal/lark/client.go: BuildAtMention and BuildMentionedText.
use exec_over_lark.Prelude.{ℕ, [], ◌∷◌, ◌++◌, ◌==◌, is_empty, if◌then◌else◌}
use exec_over_lark.Prelude.Bytes.{Bytes, codes, trim_space, is_blank}

-- `html.EscapeString`
abbrev pub escape_char : ℕ → Bytes
escape_char c =
    if c == b'&'
    then codes "&amp;"
    else if c == b'\''
    then codes "&#39;"
    else if c == b'<'
    then codes "&lt;"
    else if c == b'>'
    then codes "&gt;"
    else if c == b'"'
    then codes "&#34;"
    else c ∷ []

unfoldable pub escape_string : Bytes → Bytes
escape_string [] = []
escape_string (c ∷ s) = escape_char c ++ escape_string s

abbrev pub at_close : Bytes
at_close = codes "</at>"

unfoldable pub build_at_mention : Bytes → Bytes
unfolding escape_string
build_at_mention open_id =
    codes "<at user_id=\"" ++ (escape_string (trim_space open_id) ++ (codes "\">" ++ at_close))

unfoldable pub build_mentioned_text : Bytes → Bytes → Bytes
unfolding build_at_mention
build_mentioned_text open_id text =
    if is_empty (trim_space open_id)
    then text
    else if is_blank text
    then build_at_mention (trim_space open_id)
    else build_at_mention (trim_space open_id) ++ (10 ∷ text)
