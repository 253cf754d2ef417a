-- ===== src/Persistence.antt =====
-- configuration/config_persistence.go: the edits of config.yaml, line by line. Reading and writing the
-- file is left to Settings.
pub mod Settings
pub mod Values
pub mod Sections
pub mod Whole
pub mod BlankEnd
pub mod Rendered
pub mod Repeated
pub mod Upstream
pub mod Rules
mod Tests
use http_stack_lens.Base.{
  ℕ, zero, suc, ◌+◌, Bool, true, false, not, ◌&&◌, ◌||◌, Option, none, some, List, [], ◌∷◌, ◌++◌,
  Bytes, codes, equal, take, leb, ◌==◌, replicate, if◌then◌else◌, trim_space, cut, has_prefix,
  extend, Call, Result, ok, err,
}
use http_stack_lens.Parsing.Http.{trim_end}

abbrev pub Lines : Type 0
Lines = List Bytes

-- strings.SplitAfter at line breaks: each line keeps its own.
unfoldable pub split_after : Bytes → Lines
split_after [] = [] ∷ []
split_after (c ∷ s) = if c == 10 then (c ∷ []) ∷ split_after s else extend c (split_after s)

-- strings.Join with nothing in between.
unfoldable pub join : Lines → Bytes
join [] = []
join (line ∷ lines) = line ++ join lines

unfoldable pub leading_spaces : Bytes → ℕ
leading_spaces [] = 0
leading_spaces (c ∷ s) = let more = leading_spaces s in if c == 32 then suc more else 0

-- strings.TrimLeft(line, " ")
unfoldable pub trim_spaces : Bytes → Bytes
trim_spaces [] = []
trim_spaces (c ∷ s) = let rest = trim_spaces s in if c == 32 then rest else c ∷ s

-- A blank line or a comment, which the loops pass over.
unfoldable pub is_ignored : Bytes → Bool
is_ignored line =
    let trimmed = trim_space line in equal trimmed [] || has_prefix trimmed (codes "#")

abbrev pub spaces : ℕ → Bytes
spaces n = replicate n 32

-- A key and what stands behind its colon.
abbrev pub trimmed_key : Option (Bytes × Bytes) → Option (Bytes × Bytes)
trimmed_key none = none
trimmed_key (some (key, rest)) = some (trim_space key, rest)

unfoldable pub entry : Bytes → Option (Bytes × Bytes)
entry line = trimmed_key (cut b':' (trim_spaces line))

-- What stands behind the colon of the key, if the line has that key.
abbrev pub rest_of_key : Bytes → Option (Bytes × Bytes) → Option Bytes
rest_of_key name none = none
rest_of_key name (some (key, rest)) = if equal key name then some rest else none

unfoldable pub value_of : Bytes → Bytes → Option Bytes
value_of name line = rest_of_key name (entry line)

-- From the first '#' on.
unfoldable pub comment_of : Bytes → Bytes
comment_of [] = []
comment_of (c ∷ s) = if c == b'#' then c ∷ s else comment_of s

abbrev pub line_end : Bytes
line_end = 10 ∷ []

unfoldable pub ends_line : Bytes → Bool
ends_line [] = false
ends_line (c ∷ []) = c == 10
ends_line (c ∷ d ∷ s) = ends_line (d ∷ s)

abbrev pub with_comment : Bytes → Bytes
with_comment [] = []
with_comment (c ∷ s) = 32 ∷ c ∷ s

-- The line with the new value, its indent, its comment and its line break.
unfoldable pub edited : Bytes → Bytes → Bytes → Bytes → Bytes
edited name value rest line =
    take (leading_spaces line) line
    ++ (name
        ++ (codes ": "
            ++ (value
                ++ (with_comment (trim_end (13 ∷ 10 ∷ []) (comment_of rest))
                    ++ (if ends_line line then line_end else [])))))

-- Whether the loop is in the section, and the indent of the section's title.
abbrev pub Place : Type 0
Place = Option ℕ

abbrev pub before_line : Bytes → Option Lines → Option Lines
before_line line none = none
before_line line (some lines) = some (line ∷ lines)

abbrev pub leaves : Place → Bytes → Bool
leaves none line = false
leaves (some indent) line = leb (leading_spaces line) indent

-- `exact` is the test of persistDecryptHttpsEnabled that a key stands two spaces in.
abbrev pub may_hold : Bool → Place → Bytes → Bool
may_hold exact none line = false
may_hold exact (some indent) line = not exact || leading_spaces line == indent + 2

abbrev pub edit_here : Bytes → Bytes → Bytes → Lines → Option Bytes → Option Lines → Option Lines
edit_here name value line lines none further = before_line line further
edit_here name value line lines (some rest) further = some (edited name value rest line ∷ lines)

abbrev pub opened : Bytes → Place → Bytes → Place
opened title none line = if equal (trim_space line) title then some (leading_spaces line) else none
opened title (some indent) line = some indent

-- The loop of persistStorageEnabled and of persistDecryptHttpsEnabled; `none` is that the key is not
-- found.
unfoldable pub edit_lines : Bool → Bytes → Bytes → Bytes → Place → Lines → Option Lines
edit_lines exact title name value place [] = none
edit_lines exact title name value place (line ∷ lines) =
    let same = edit_lines exact title name value place lines in
    let further = edit_lines exact title name value (opened title place line) lines in
    if is_ignored line
    then before_line line same
    else if leaves place line
    then none
    else if may_hold exact place line
    then edit_here name value line lines (value_of name line) further
    else before_line line further

abbrev pub truth : Bool → Bytes
truth true = codes "true"
truth false = codes "false"

abbrev pub joined : Option Lines → Option Bytes
joined none = none
joined (some lines) = some (join lines)

-- The lines of a section: up to its title, inside, and behind it.
pub record Section : Type 0 where
  pub before : Lines
  pub indent : ℕ
  pub inside : Lines
  pub after : Lines

-- The loop that looks for a section, with the lines behind it: none of them yet, or those of the
-- section so far. A line that is the title opens the section again.
pub data Search : Type 0 where
  seeking : Lines → Search
  found : Lines → ℕ → Lines → Search

abbrev pub seen : Search → Lines
seen (seeking lines) = lines
seen (found before indent inside) = before ++ inside

abbrev pub push : Search → Bytes → Search
push (seeking lines) line = seeking (lines ++ line ∷ [])
push (found before indent inside) line = found before indent (inside ++ line ∷ [])

abbrev pub closes : Search → Bytes → Bool
closes (seeking lines) line = false
closes (found before indent inside) line = leb (leading_spaces line) indent

abbrev pub finish : Search → Lines → Option Section
finish (seeking lines) after = none
finish (found before indent inside) after =
    some (record { before = before; indent = indent; inside = inside; after = after })

unfoldable pub find_section : Bytes → Search → Lines → Option Section
find_section title place [] = finish place []
find_section title place (line ∷ lines) =
    let on = find_section title (push place line) lines in
    let again =
      find_section title (found (seen place ++ line ∷ []) (leading_spaces line) []) lines in
    if is_ignored line
    then on
    else if equal (trim_space line) title
    then again
    else if closes place line
    then finish place (line ∷ lines)
    else on

abbrev pub is_one_of : List Bytes → Option (Bytes × Bytes) → Bool
is_one_of names none = false
is_one_of [] (some (key, rest)) = false
is_one_of (name ∷ names) (some (key, rest)) = equal key name || is_one_of names (some (key, rest))

-- shouldRemoveCaptureRuleLine, shouldRemoveUpstreamLine and shouldRemoveAccessControlLine, with their
-- keys.
unfoldable pub is_removed : List Bytes → ℕ → Bytes → Bool
is_removed names parent_indent line =
    if is_ignored line
    then false
    else if leading_spaces line == parent_indent + 2
    then is_one_of names (entry line)
    else false

-- The loop over the section: `some indent` while skipYamlBlock passes the lines of a block by.
unfoldable pub keep_lines : List Bytes → ℕ → Option ℕ → Lines → Lines
keep_lines names indent skipping [] = []
keep_lines names indent none (line ∷ lines) =
    let skipped = keep_lines names indent (some (leading_spaces line)) lines in
    let kept = keep_lines names indent none lines in
    if is_removed names indent line then skipped else line ∷ kept
keep_lines names indent (some block) (line ∷ lines) =
    let passed = keep_lines names indent (some block) lines in
    let skipped = keep_lines names indent (some (leading_spaces line)) lines in
    let kept = keep_lines names indent none lines in
    if is_ignored line || not (leb (leading_spaces line) block)
    then passed
    else if is_removed names indent line
    then skipped
    else line ∷ kept

abbrev pub rebuilt : List Bytes → (ℕ → Lines) → Option Section → Option Lines
rebuilt names rendered none = none
rebuilt names rendered (some s) =
    some (
      s.before ++ (keep_lines names s.indent none s.inside ++ (rendered (s.indent + 2) ++ s.after)))

-- The part that the three edits share; `none` is that the section is not found.
unfoldable pub replace_section : Bytes → List Bytes → (ℕ → Lines) → Lines → Option Lines
replace_section title names rendered lines =
    rebuilt names rendered (find_section title (seeking []) lines)
