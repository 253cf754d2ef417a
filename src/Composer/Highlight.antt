-- ===== src/Composer/Highlight.antt =====
-- composer/highlight.go. `none` is a run of the scanner that its rounds do not suffice for, or a slice
-- out of range.
pub mod Tokens
pub mod Rendering
pub mod Bounds
pub mod Markup
use http_stack_lens.Base.{
  ℕ, zero, suc, ◌+◌, ◌-◌, Bool, true, false, not, ◌&&◌, ◌||◌, Option, none, some, List, [], ◌∷◌,
  ◌++◌, Bytes, codes, length, take, drop, equal, leb, ltb, ◌==◌, if◌then◌else◌, Result, ok, err,
  ◌>>=◌,
}
use http_stack_lens.Parsing.{ParsingContext, Library}
use http_stack_lens.Parsing.Http.{is_letter, is_digit}
use http_stack_lens.Composer.{
  PositionedText, is_empty_span, CommentLine, PositionedHeader, PositionedHttpRequestLine,
  FileVariable, HttpRequestFileItem, ParseIssue, HttpFile,
}
use http_stack_lens.Composer.Grammar.{
  separator as block_mark, file_variable_parser, header_comments_parser, comment_line_parser,
  http_request_line_parser, positioned_header_parser,
}
use http_stack_lens.Composer.Scan.{parse_http_file}

pub data TokenKind : Type 0 where
  separator comment variable method target version header value body placeholder : TokenKind

-- The constants are the suffixes of the CSS classes.
unfoldable pub kind_text : TokenKind → Bytes
kind_text TokenKind.separator = codes "separator"
kind_text TokenKind.comment = codes "comment"
kind_text TokenKind.variable = codes "variable"
kind_text TokenKind.method = codes "method"
kind_text TokenKind.target = codes "target"
kind_text TokenKind.version = codes "version"
kind_text TokenKind.header = codes "header"
kind_text TokenKind.value = codes "value"
kind_text TokenKind.body = codes "body"
kind_text TokenKind.placeholder = codes "placeholder"

pub record Token : Type 0 where
  pub kind : TokenKind
  pub start : ℕ
  pub end : ℕ

abbrev pub token : TokenKind → ℕ → ℕ → Token
token kind start end = record { kind = kind; start = start; end = end }

unfoldable pub hosts_placeholder : TokenKind → Bool
hosts_placeholder TokenKind.target = true
hosts_placeholder TokenKind.value = true
hosts_placeholder TokenKind.body = true
hosts_placeholder _ = false

abbrev pub span_token : {A : Type 0} → TokenKind → PositionedText A → Token
span_token kind span = token kind span.start.offset span.end.offset

unfoldable pub append_span : {A : Type 0} → List Token → TokenKind → PositionedText A → List Token
append_span tokens kind span =
    if is_empty_span span then tokens else tokens ++ span_token kind span ∷ []

unfoldable pub comment_kind : Bytes → CommentLine → TokenKind
comment_kind runes note =
    let start = note.start.offset in
    if leb (start + 3) (length runes) && equal (take 3 (drop start runes)) block_mark
    then TokenKind.separator
    else TokenKind.comment

unfoldable pub drop_overlaps : ℕ → List Token → List Token
drop_overlaps end [] = []
drop_overlaps end (t ∷ tokens) =
    let without = drop_overlaps end tokens in
    let behind = drop_overlaps t.end tokens in
    if ltb t.start end || leb t.end t.start then without else t ∷ behind

-- The first place from `i` on, of the `n` that are left, where the two runes stand.
unfoldable pub index_from : ℕ → Bytes → ℕ → Bytes → Option ℕ
index_from zero runes i needle = none
index_from (suc n) runes i needle =
    let further = index_from n runes (i + 1) needle in
    if equal (take (length needle) (drop i runes)) needle then some i else further

-- `none` is the code's -1.
unfoldable pub index_runes : Bytes → ℕ → ℕ → Bytes → Option ℕ
index_runes runes from to needle =
    if leb (from + length needle) to
    then index_from (suc (to - (from + length needle))) runes from needle
    else none

abbrev pub rest_of : Token → ℕ → List Token
rest_of t cursor = if ltb cursor t.end then token t.kind cursor t.end ∷ [] else []

abbrev pub before_placeholder : Token → ℕ → ℕ → List Token
before_placeholder t cursor opening =
    if ltb cursor opening then token t.kind cursor opening ∷ [] else []

abbrev pub closed_at : ℕ → Option ℕ → Option (ℕ × ℕ)
closed_at opening none = none
closed_at opening (some closing) = some (opening, closing)

-- Where the next placeholder opens and closes.
abbrev pub closing_of : Bytes → ℕ → Option ℕ → Option (ℕ × ℕ)
closing_of runes end none = none
closing_of runes end (some opening) =
    closed_at opening (index_runes runes (opening + 2) end (codes "}}"))

unfoldable pub next_placeholder : Bytes → ℕ → ℕ → Option (ℕ × ℕ)
next_placeholder runes cursor end = closing_of runes end (index_runes runes cursor end (codes "{{"))

-- The loop in a token, with a round for each rune of it.
unfoldable pub split_token : ℕ → Bytes → Token → ℕ → List Token
split_token zero runes t cursor = rest_of t cursor
split_token (suc rounds) runes t cursor = elim (next_placeholder runes cursor t.end) [
  | none ↦ rest_of t cursor
  | some (opening, closing) ↦
      before_placeholder t cursor opening
      ++ token TokenKind.placeholder opening (closing + 2)
        ∷ split_token rounds runes t (closing + 2)
]

abbrev pub split_one : Bytes → Token → List Token
split_one runes t =
    if hosts_placeholder t.kind then split_token (t.end - t.start) runes t t.start else t ∷ []

unfoldable pub split_placeholders : Bytes → List Token → List Token
split_placeholders runes [] = []
split_placeholders runes (t ∷ tokens) = split_one runes t ++ split_placeholders runes tokens

-- sort.SliceStable by the start.
unfoldable pub insert_token : Token → List Token → List Token
insert_token t [] = t ∷ []
insert_token t (u ∷ tokens) =
    let further = insert_token t tokens in
    if leb t.start u.start then t ∷ u ∷ tokens else u ∷ further

unfoldable pub sort_tokens : List Token → List Token
sort_tokens [] = []
sort_tokens (t ∷ tokens) = insert_token t (sort_tokens tokens)

unfoldable pub is_name_rune : ℕ → Bool
is_name_rune c = is_letter c || is_digit c || c == b'-' || c == b'_'

unfoldable pub all_name_runes : Bytes → Bool
all_name_runes [] = true
all_name_runes (c ∷ s) = if not (is_name_rune c) then false else all_name_runes s

unfoldable pub is_header_name : Bytes → Bool
is_header_name name = not (equal name []) && all_name_runes name

-- `runes[from:to]`
abbrev pub slice_of : Bytes → ℕ → ℕ → Bytes
slice_of runes from to = take (to - from) (drop from runes)

unfoldable pub line_context_at : Bytes → ℕ → ℕ → ParsingContext
line_context_at runes start end = record {
  remaining = slice_of runes start end ++ 10 ∷ [];
  position = record { offset = start; line = 1; column = 1 };
}

abbrev pub variable_tokens : FileVariable → List Token
variable_tokens v = span_token TokenKind.variable v.name ∷ span_token TokenKind.value v.value ∷ []

abbrev pub comment_tokens : TokenKind → CommentLine → List Token
comment_tokens kind c = span_token kind c ∷ []

abbrev pub header_tokens : PositionedHeader → List Token
header_tokens h = span_token TokenKind.header h.name ∷ span_token TokenKind.value h.value ∷ []

abbrev pub line_tokens : PositionedHttpRequestLine → List Token
line_tokens r =
    span_token TokenKind.method r.http_method
    ∷ span_token TokenKind.target r.target
    ∷ span_token TokenKind.version r.version
    ∷ []

abbrev pub painted :
    {A : Type 0} → (A → List Token) → Result Bytes (A × ParsingContext) → List Token → List Token
painted paint (ok (found, after)) others = paint found
painted paint (err message) others = others

abbrev pub header_line : PositionedHeader → List Token
header_line h = if is_header_name h.name.text then header_tokens h else []

-- The end of the line that starts at `start`, of `n` runes that are left.
unfoldable pub line_end : ℕ → Bytes → ℕ → ℕ
line_end zero runes end = end
line_end (suc n) runes end =
    let further = line_end n runes (end + 1) in
    if equal (slice_of runes end (end + 1)) (10 ∷ []) then end else further

unfoldable pub variables_spans : List Token → List FileVariable → List Token
variables_spans tokens [] = tokens
variables_spans tokens (v ∷ variables) =
    variables_spans
      (append_span (append_span tokens TokenKind.variable v.name) TokenKind.value v.value) variables

unfoldable pub comments_spans : Bytes → List Token → List CommentLine → List Token
comments_spans runes tokens [] = tokens
comments_spans runes tokens (c ∷ comments) =
    comments_spans runes (append_span tokens (comment_kind runes c) c) comments

unfoldable pub headers_spans : List Token → List PositionedHeader → List Token
headers_spans tokens [] = tokens
headers_spans tokens (h ∷ headers) =
    headers_spans (append_span (append_span tokens TokenKind.header h.name) TokenKind.value h.value)
      headers

unfoldable pub line_spans : List Token → PositionedHttpRequestLine → List Token
line_spans tokens line =
    append_span
      (append_span (append_span tokens TokenKind.method line.http_method) TokenKind.target
        line.target)
      TokenKind.version line.version

unfoldable pub requests_spans : Bytes → List Token → List HttpRequestFileItem → List Token
requests_spans runes tokens [] = tokens
requests_spans runes tokens (r ∷ requests) =
    requests_spans runes
      (append_span
        (headers_spans
          (line_spans (comments_spans runes tokens r.header_comments) r.http_request_line)
          r.headers)
        TokenKind.body r.body)
      requests

module _ (lib : Library) where
  unfoldable pub lex_line : Bytes → ℕ → ℕ → List Token
  lex_line runes start end =
      let context = line_context_at runes start end in
      painted variable_tokens (file_variable_parser lib context) (
        painted (comment_tokens TokenKind.separator) (header_comments_parser lib context) (
          painted (comment_tokens TokenKind.comment) (comment_line_parser lib context) (
            painted line_tokens (http_request_line_parser lib context)
              (painted header_line (positioned_header_parser lib context) []))))

  unfoldable pub lex_lines : ℕ → Bytes → ℕ → ℕ → List Token
  lex_lines zero runes start to = []
  lex_lines (suc rounds) runes start to =
      let end = line_end (to - start) runes start in
      let further = lex_lines rounds runes (end + 1) to in
      if ltb start to then lex_line runes start end ++ further else []

  unfoldable pub lex_unreadable : Bytes → ℕ → ℕ → List Token
  lex_unreadable runes from to = lex_lines (suc (to - from)) runes from to

  unfoldable pub issues_spans : Bytes → List Token → List ParseIssue → List Token
  issues_spans runes tokens [] = tokens
  issues_spans runes tokens (i ∷ issues) =
      issues_spans runes (tokens ++ lex_unreadable runes i.start.offset i.end.offset) issues

  unfoldable pub file_tokens : Bytes → HttpFile → List Token
  file_tokens runes file =
      issues_spans runes (requests_spans runes (variables_spans [] file.variables) file.requests)
        file.issues

  unfoldable pub painted_tokens : Bytes → HttpFile → List Token
  painted_tokens runes file =
      split_placeholders runes (drop_overlaps 0 (sort_tokens (file_tokens runes file)))

  unfoldable pub tokenize : ℕ → Bytes → Option (List Token)
  tokenize rounds source = elim (parse_http_file lib rounds source) [
    | none ↦ none
    | some file ↦ some (painted_tokens source file)
  ]

unfoldable pub write_escaped : Bytes → Bytes
write_escaped [] = []
write_escaped (c ∷ runes) =
    (if c == b'&'
      then codes "&amp;"
      else if c == b'<'
      then codes "&lt;"
      else if c == b'>'
      then codes "&gt;"
      else c ∷ [])
    ++ write_escaped runes

-- `runes[from:to]`, where the code panics out of range.
unfoldable pub slice : Bytes → ℕ → ℕ → Option Bytes
slice runes from to =
    if leb from to && leb to (length runes) then some (slice_of runes from to) else none

abbrev pub gap : Bytes → ℕ → ℕ → Option Bytes
gap runes cursor start = if ltb cursor start then slice runes cursor start else some []

abbrev pub marked : TokenKind → Bytes → Bytes
marked kind text =
    codes "<span class=\"hl-"
    ++ (kind_text kind ++ (codes "\">" ++ (write_escaped text ++ codes "</span>")))

abbrev pub joined : Token → Option Bytes → Option Bytes → Option Bytes → Option Bytes
joined t (some before) (some text) (some rest) =
    some (write_escaped before ++ (marked t.kind text ++ rest))
joined t _ _ _ = none

-- The loop over the tokens, and the rest of the source behind them.
unfoldable pub render : Bytes → ℕ → List Token → Option Bytes
render runes cursor [] = elim (slice runes cursor (length runes)) [
  | none ↦ none
  | some text ↦ some (write_escaped text ++ 10 ∷ [])
]
render runes cursor (t ∷ tokens) =
    joined t (gap runes cursor t.start) (slice runes t.start t.end) (render runes t.end tokens)

module _ (lib : Library) where
  unfoldable pub highlight_html : ℕ → Bytes → Option Bytes
  highlight_html rounds source = elim (tokenize lib rounds source) [
    | none ↦ none
    | some tokens ↦ render source 0 tokens
  ]
