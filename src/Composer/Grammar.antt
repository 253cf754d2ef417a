-- ===== src/Composer/Grammar.antt =====
-- composer/http_file_parser.go. A loop over the lines of a context has a round for each code point
-- that is left and one more; the loop over the headers of a block counts its rounds from outside,
-- and is `none` when they do not suffice.
use http_stack_lens.Base.{
  ℕ, zero, suc, ◌+◌, ◌-◌, Bool, true, false, not, ◌&&◌, ◌||◌, Option, none, some, List, [], ◌∷◌,
  ◌++◌, Bytes, codes, length, take, drop, equal, contains, leb, ◌==◌, if◌then◌else◌, Result, ok,
  err, ◌>>=◌, pos,
}
use http_stack_lens.Http.Messages.{ResourceEndpoint, Version}
use http_stack_lens.Parsing.{TextPosition, ParsingContext, Parser, Library}
use http_stack_lens.Parsing.Http.{
  is_letter, is_digit, in_line, trim_end, cut_space, unwrap_or, spaces_parser, new_line_parser,
  enriched_url_parser, http_method_parser, version_parser,
}
use http_stack_lens.Composer.{
  PositionedText, CommentLine, PositionedHeader, FileVariable, PositionedHttpRequestLine,
  HttpRequestFileItem,
}

abbrev pub separator : Bytes
separator = codes "###"

-- How much blank space opens a text.
unfoldable pub lead : Bytes → ℕ
lead [] = 0
lead (c ∷ s) = let more = lead s in if c == 32 || c == 9 then suc more else 0

-- Where a text ends that loses the characters of `cut_right` on its right, down to `from`.
unfoldable pub tail_end : Bytes → ℕ → Bytes → ℕ
tail_end consumed from cut_right = from + length (trim_end cut_right (drop from consumed))

pub record Span : Type 0 where
  pub start : TextPosition
  pub end : TextPosition
  pub text : Bytes

-- The length of the current line, its line break left out.
unfoldable pub line_length : Bytes → ℕ
line_length [] = 0
line_length (c ∷ s) = let more = line_length s in if c == 10 then 0 else suc more

unfoldable pub line_context : ParsingContext → ParsingContext
line_context context = record context {
  remaining = take (line_length context.remaining) context.remaining;
}

unfoldable pub blank_text : Bytes → Bool
blank_text [] = true
blank_text (c ∷ s) =
    let more = blank_text s in
    if c == 10 then true else if not (c == 32) && not (c == 9) && not (c == 13) then false else more

unfoldable pub is_blank_line : ParsingContext → Bool
is_blank_line context = blank_text context.remaining

unfoldable pub starts_with : ParsingContext → Bytes → Bool
starts_with context prefix =
    if leb (length prefix) (length context.remaining)
    then equal (take (length prefix) context.remaining) prefix
    else false

-- The length of the current line, its line break included.
unfoldable pub full_line_length : Bytes → ℕ
full_line_length s = let n = line_length s in if leb (suc n) (length s) then suc n else n

unfoldable pub is_name_char : ℕ → Bool
is_name_char c = is_letter c || is_digit c || c == b'_' || c == b'-' || c == b'.'

abbrev pub no_name : Bytes
no_name = codes "a file variable needs a name"

abbrev pub default_version : Version
default_version = record { major = pos 1; minor = pos 1 }

abbrev pub no_endpoint : ResourceEndpoint
no_endpoint = record { scheme = []; host = []; port = pos 0; path_and_query = [] }

pub record RequestTarget : Type 0 where
  pub endpoint : ResourceEndpoint
  pub resolved : Bool

module _ (lib : Library) where
  -- The code slices `before.Remaining` to what was consumed.
  unfoldable pub span_of : ParsingContext → ParsingContext → Bytes → Span
  span_of before after cut_right =
      let consumed = take (after.position.offset - before.position.offset) before.remaining in
      let from = lead consumed in
      let to = tail_end consumed from cut_right in
      record {
        start = lib.move before.position (take from consumed);
        end = lib.move before.position (take to consumed);
        text = take (to - from) (drop from consumed);
      }

  unfoldable pub positioned :
      {A : Type 0} → ParsingContext → ParsingContext → Bytes → A → PositionedText A
  positioned before after cut_right value =
      let s = span_of before after cut_right in
      record { text = value; start = s.start; end = s.end }

  unfoldable pub positioned_source : ParsingContext → ParsingContext → Bytes → PositionedText Bytes
  positioned_source before after cut_right =
      let s = span_of before after cut_right in
      record { text = s.text; start = s.start; end = s.end }

  abbrev pub length_or : ℕ → Option ℕ → ℕ
  length_or n none = n
  length_or n (some index) = index

  unfoldable pub template_length : Bytes → ℕ
  template_length line = length_or (length line) (lib.index_of line (codes " HTTP/"))

  unfoldable pub template_target_parser : Parser RequestTarget
  template_target_parser context =
      let line = (line_context context).remaining in
      let n = template_length line in
      let text = trim_end cut_space (take n line) in
      if not (contains text (codes "{{"))
      then err (codes "unusable request target " ++ lib.quote text)
      else ok (record { endpoint = no_endpoint; resolved = false }, lib.forward context n)

  abbrev pub resolve_target :
      ParsingContext
      → Result Bytes (ResourceEndpoint × ParsingContext)
      → Result Bytes (RequestTarget × ParsingContext)
  resolve_target context (ok (endpoint, after)) = ok (
    record { endpoint = endpoint; resolved = true },
    lib.forward context (after.position.offset - context.position.offset),
  )
  resolve_target context (err message) = template_target_parser context

  unfoldable pub request_target_parser : Parser RequestTarget
  request_target_parser context =
      resolve_target context (enriched_url_parser lib (line_context context))

  unfoldable pub http_request_line_parser : Parser PositionedHttpRequestLine
  http_request_line_parser context = do
    (verb, afterMethod) ← http_method_parser lib context
    (target, afterTarget) ← request_target_parser afterMethod
    (version, rest) ← lib.optional (version_parser lib) afterTarget
    ok (
      record {
        http_method = positioned context afterMethod cut_space verb;
        target = positioned_source afterMethod afterTarget cut_space;
        endpoint = positioned afterMethod afterTarget cut_space target.endpoint;
        resolved = target.resolved;
        version = positioned afterTarget rest cut_space (unwrap_or default_version version);
      },
      rest,
    )

  abbrev pub named : Result Bytes (Bytes × ParsingContext) → Result Bytes (Bytes × ParsingContext)
  named (err message) = err no_name
  named (ok ([], after)) = err no_name
  named (ok (c ∷ name, after)) = ok (c ∷ name, after)

  unfoldable pub file_variable_parser : Parser FileVariable
  file_variable_parser context = do
    (at, afterMarker) ← lib.string_match (codes "@") context
    (name, afterName) ← named (lib.many_satisfy is_name_char afterMarker)
    (equals, afterAssign) ← lib.right (spaces_parser lib) (lib.string_match (codes "=")) afterName
    (value, rest) ← lib.many_satisfy in_line afterAssign
    ok (
      record {
        name = record { text = name; start = context.position; end = afterName.position };
        value = positioned_source afterAssign rest cut_space;
      },
      rest,
    )

  unfoldable pub comment_line_parser_of : Bytes → Parser CommentLine
  comment_line_parser_of prefix context = do
    (marker, afterPrefix) ← lib.string_match prefix context
    (note, rest) ← lib.until_text (lib.many_satisfy (λ r. true)) (10 ∷ []) false afterPrefix
    ok (positioned context rest (13 ∷ []) note, rest)

  abbrev pub comment_line_parser : Parser CommentLine
  comment_line_parser = comment_line_parser_of (codes "#")

  abbrev pub header_comments_parser : Parser CommentLine
  header_comments_parser = comment_line_parser_of separator

  -- Where the new line parser fails the context stays.
  abbrev pub after_line : ParsingContext → Result Bytes (Bytes × ParsingContext) → ParsingContext
  after_line context (err message) = context
  after_line context (ok (text, after)) = after

  unfoldable pub consume_end_of_line : ParsingContext → ParsingContext
  consume_end_of_line context = after_line context (new_line_parser lib context)

  unfoldable pub read_line : ParsingContext → Bytes × ParsingContext
  read_line context =
      let n = full_line_length context.remaining in
      (take n context.remaining, lib.forward context n)

  unfoldable pub skip_blanks : ℕ → ParsingContext → ParsingContext
  skip_blanks zero next = next
  skip_blanks (suc rounds) next =
      let further = skip_blanks rounds (read_line next).1 in
      if not (lib.at_end next) && is_blank_line next then further else next

  unfoldable pub skip_blank_lines : ParsingContext → ParsingContext
  skip_blank_lines context = skip_blanks (suc (length context.remaining)) context

  unfoldable pub positioned_header_parser : Parser PositionedHeader
  positioned_header_parser context = do
    (name, afterName) ←
        lib.until_text (lib.many_satisfy (λ c. not (c == b':') && not (c == 10))) (codes ":") true
          context
    (value, rest) ← lib.many_satisfy in_line afterName
    ok (
      record {
        name = positioned_source context afterName (cut_space ++ codes ":");
        value = positioned_source afterName rest cut_space;
      },
      rest,
    )

  unfoldable pub comment_parser : Parser CommentLine
  comment_parser = lib.or_else header_comments_parser comment_line_parser

  unfoldable pub comment_lines :
      ℕ → ParsingContext → List CommentLine → List CommentLine × ParsingContext
  comment_lines zero next comments = (comments, next)
  comment_lines (suc rounds) next comments = elim (comment_parser next) [
    | err message ↦ (comments, next)
    | ok (comment, after) ↦
        comment_lines rounds (consume_end_of_line after) (comments ++ comment ∷ [])
  ]

  unfoldable pub parse_comment_lines :
      ParsingContext → List CommentLine → List CommentLine × ParsingContext
  parse_comment_lines context comments =
      comment_lines (suc (length context.remaining)) context comments

  unfoldable pub body_lines : ℕ → ParsingContext → Bytes × ParsingContext
  body_lines zero next = ([], next)
  body_lines (suc rounds) next =
      let line = read_line next in
      let further = body_lines rounds line.1 in
      if not (lib.at_end next) && not (starts_with next separator)
      then (line.0 ++ further.0, further.1)
      else ([], next)

  -- Behind the empty line that opens a body.
  unfoldable pub opening_line : ParsingContext → ParsingContext
  opening_line context =
      if not (lib.at_end context) && is_blank_line context then (read_line context).1 else context

  unfoldable pub parse_body : ParsingContext → PositionedText Bytes × ParsingContext
  parse_body context =
      let next = opening_line context in
      let body = body_lines (suc (length next.remaining)) next in
      let text = trim_end (13 ∷ 10 ∷ []) body.0 in
      (record { text = text; start = next.position; end = lib.move next.position text }, body.1)

  abbrev pub is_header_end : ParsingContext → Bool
  is_header_end next = lib.at_end next || is_blank_line next || starts_with next separator

  abbrev pub with_comments :
      HttpRequestFileItem → List CommentLine × ParsingContext → HttpRequestFileItem
  with_comments item found = record item { header_comments = found.0 }

  -- The loop over the comments and the headers above the body.
  unfoldable pub header_lines :
      ℕ → ParsingContext → HttpRequestFileItem → Option (HttpRequestFileItem × ParsingContext)
  header_lines zero next item = none
  header_lines (suc rounds) next item =
      let comments = parse_comment_lines next item.header_comments in
      let commented = header_lines rounds comments.1 (with_comments item comments) in
      let headed : Option (HttpRequestFileItem × ParsingContext) =
        elim (positioned_header_parser next) [
          | err message ↦ some (item, next)
          | ok (header, after) ↦
              header_lines rounds (consume_end_of_line after)
                (record item { headers = item.headers ++ header ∷ [] })
        ] in
      if is_header_end next
      then some (item, next)
      else if starts_with next (codes "#")
      then commented
      else headed

  abbrev pub with_body : HttpRequestFileItem × ParsingContext → HttpRequestFileItem × ParsingContext
  with_body (item, next) = let body = parse_body next in (record item { body = body.0 }, body.1)

  abbrev pub finish_item :
      Option (HttpRequestFileItem × ParsingContext)
      → Option (Result Bytes (HttpRequestFileItem × ParsingContext))
  finish_item none = none
  finish_item (some found) = some (ok (with_body found))

  abbrev pub no_body : TextPosition → PositionedText Bytes
  no_body p = record { text = []; start = p; end = p }

  abbrev pub origin : TextPosition
  origin = record { offset = 0; line = 0; column = 0 }

  abbrev pub opened_item : List CommentLine → PositionedHttpRequestLine → HttpRequestFileItem
  opened_item comments line = record {
    header_comments = comments;
    http_request_line = line;
    headers = [];
    inner_comments = [];
    body = no_body origin;
  }

  abbrev pub item_after :
      ℕ
      → List CommentLine
      → Result Bytes (PositionedHttpRequestLine × ParsingContext)
      → Option (Result Bytes (HttpRequestFileItem × ParsingContext))
  item_after rounds comments (err message) = some (err message)
  item_after rounds comments (ok (line, after)) =
      finish_item (header_lines rounds (consume_end_of_line after) (opened_item comments line))

  unfoldable pub http_request_file_item_parser :
      ℕ → ParsingContext → Option (Result Bytes (HttpRequestFileItem × ParsingContext))
  http_request_file_item_parser rounds context =
      let comments = parse_comment_lines (skip_blank_lines context) [] in
      item_after rounds comments.0 (http_request_line_parser comments.1)
