-- ===== src/Incident.antt =====
-- The bodies of incident updates as HTML: src/services/incident-render.ts.
pub mod Rendered
pub mod Tags
use oo_workers.Prelude.{
  ℕ, zero, suc, ◌+◌, ◌-◌, Bool, true, false, not, ◌&&◌, ◌||◌, List, [], ◌∷◌, ◌++◌, map, ltb, ◌==◌,
  length, drop, if◌then◌else◌,
}
use oo_workers.Text.{Text, codes, starts_with, whitespace}

unfoldable pub escape_char : ℕ → Text
escape_char c =
    if c == b'&'
    then codes "&amp;"
    else if c == b'<'
    then codes "&lt;"
    else if c == b'>'
    then codes "&gt;"
    else if c == b'"'
    then codes "&quot;"
    else if c == 39
    then codes "&#39;"
    else c ∷ []

unfoldable pub escape_html : Text → Text
escape_html [] = []
escape_html (c ∷ s) = escape_char c ++ escape_html s

-- The longest start of the text that passes the test.
unfoldable pub run : (ℕ → Bool) → Text → Text
run p [] = []
run p (c ∷ s) = let rest = run p s in if p c then c ∷ rest else []

-- What a pattern puts in place of a character, and how many characters after it belong to the match.
abbrev pub Step : Type 0
Step = ℕ → Text → Text × ℕ

-- `replaceAll`: matches from left to right that do not overlap. The number is what is left of the
-- last match.
unfoldable pub replace_all : Step → ℕ → Text → Text
replace_all step k [] = []
replace_all step (suc k) (c ∷ s) = replace_all step k s
replace_all step zero (c ∷ s) = (step c s).0 ++ replace_all step (step c s).1 s

-- `\r\n` to `\n`.
unfoldable pub crlf : Step
crlf c s = if c == 13 && starts_with (10 ∷ []) s then (10 ∷ [], 1) else (c ∷ [], 0)

-- The length of what `\n[ \t]*\n+` matches here, or zero.
unfoldable pub blank_line : Text → ℕ
blank_line [] = 0
blank_line (c ∷ s) =
    let blanks = length (run (λ d. d == 32 || d == 9) s) in
    let ends = length (run (λ d. d == 10) (drop blanks s)) in
    if c == 10 && ltb 0 ends then suc (blanks + ends) else 0

abbrev push : ℕ → List Text → List Text
push c [] = (c ∷ []) ∷ []
push c (b ∷ bs) = (c ∷ b) ∷ bs

-- `split`.
unfoldable pub split_blocks : ℕ → Text → List Text
split_blocks k [] = [] ∷ []
split_blocks (suc k) (c ∷ s) = split_blocks k s
split_blocks zero (c ∷ s) =
    let n = blank_line (c ∷ s) in
    let rest = split_blocks (n - 1) s in if n == 0 then push c rest else [] ∷ rest

abbrev is_code_char : ℕ → Bool
is_code_char d = not (d == b'`' || d == 10)

-- `` `([^`\n]+)` ``.
unfoldable pub code_span : Step
code_span c s =
    let text = run is_code_char s in
    if c == b'`' && (ltb 0 (length text) && starts_with (codes "`") (drop (length text) s))
    then (codes "<code>" ++ (text ++ codes "</code>"), length text + 1)
    else (c ∷ [], 0)

abbrev is_bold_char : ℕ → Bool
is_bold_char d = not (d == b'*' || d == 10)

-- `\*\*([^*\n]+)\*\*`.
unfoldable pub bold : Step
bold c s =
    let text = run is_bold_char (drop 1 s) in
    if c == b'*'
      && (starts_with (codes "*") s
          && (ltb 0 (length text) && starts_with (codes "**") (drop (1 + length text) s)))
    then (codes "<strong>" ++ (text ++ codes "</strong>"), length text + 3)
    else (c ∷ [], 0)

unfoldable pub line_break : Step
line_break c s = if c == 10 then (codes "<br>", 0) else (c ∷ [], 0)

unfoldable pub trim_start : Text → Text
trim_start [] = []
trim_start (c ∷ s) = let rest = trim_start s in if whitespace c then rest else c ∷ s

unfoldable pub trim_end : Text → Text
trim_end [] = []
trim_end (c ∷ s) =
    let rest = trim_end s in if whitespace c && length rest == 0 then [] else c ∷ rest

unfoldable pub render_block : Text → Text
render_block block =
    let inline = replace_all line_break 0 (replace_all bold 0 (replace_all code_span 0 block)) in
    let text = trim_end (trim_start inline) in
    if length text == 0 then [] else codes "<p>" ++ (text ++ codes "</p>")

unfoldable pub join : List Text → Text
join [] = []
join (b ∷ bs) = b ++ join bs

unfoldable pub render_incident_markdown : Text → Text
render_incident_markdown raw =
    join (map render_block (split_blocks 0 (replace_all crlf 0 (escape_html raw))))
