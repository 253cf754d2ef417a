-- ===== src/Composer/Scan.antt =====
-- composer/http_file_scan.go. A count of rounds bounds the loop over the blocks, and the one over the
-- headers of each block; `none` is a run that they do not suffice for.
use http_stack_lens.Base.{
  ℕ, zero, suc, not, ◌&&◌, Option, none, some, [], ◌∷◌, ◌++◌, Bytes, codes, length, ltb,
  if◌then◌else◌, Result, ok, err,
}
use http_stack_lens.Parsing.{ParsingContext, Library}
use http_stack_lens.Parsing.Http.{cut_space}
use http_stack_lens.Composer.{FileVariable, HttpRequestFileItem, ParseIssue, HttpFile}
use http_stack_lens.Composer.Grammar.{
  separator, starts_with, span_of, read_line, skip_blank_lines, consume_end_of_line,
  file_variable_parser, http_request_file_item_parser,
}

abbrev pub new_file : HttpFile
new_file = record { variables = []; requests = []; issues = [] }

abbrev pub no_progress : Bytes
no_progress = codes "unreadable request block"

module _ (lib : Library) where
  unfoldable pub skip_lines : ℕ → ParsingContext → ParsingContext
  skip_lines zero next = next
  skip_lines (suc rounds) next =
      let further = skip_lines rounds (read_line lib next).1 in
      if not (lib.at_end next) && not (starts_with next separator) then further else next

  unfoldable pub skip_unreadable_block : ParsingContext → Bytes → ParseIssue × ParsingContext
  skip_unreadable_block context message =
      let second = (read_line lib context).1 in
      let next = skip_lines (suc (length second.remaining)) second in
      let span = span_of lib context next (cut_space ++ 10 ∷ []) in
      (record { message = message; start = span.start; end = span.end }, next)

  abbrev pub with_issue : HttpFile → ParseIssue × ParsingContext → HttpFile × ParsingContext
  with_issue file (issue, next) = (record file { issues = file.issues ++ issue ∷ [] }, next)

  abbrev pub unreadable : HttpFile → ParsingContext → Bytes → HttpFile × ParsingContext
  unreadable file context message = with_issue file (skip_unreadable_block context message)

  abbrev pub with_item :
      HttpFile → ParsingContext → HttpRequestFileItem → ParsingContext → HttpFile × ParsingContext
  with_item file context item after =
      if ltb context.position.offset after.position.offset
      then (record file { requests = file.requests ++ item ∷ [] }, after)
      else unreadable file context no_progress

  abbrev pub item_round :
      HttpFile
      → ParsingContext
      → Option (Result Bytes (HttpRequestFileItem × ParsingContext))
      → Option (HttpFile × ParsingContext)
  item_round file context none = none
  item_round file context (some (ok (item, after))) = some (with_item file context item after)
  item_round file context (some (err message)) = some (unreadable file context message)

  abbrev pub variable_round :
      ℕ
      → HttpFile
      → ParsingContext
      → Result Bytes (FileVariable × ParsingContext)
      → Option (HttpFile × ParsingContext)
  variable_round rounds file context (ok (variable, after)) =
      some
        (record file { variables = file.variables ++ variable ∷ [] }, consume_end_of_line lib after)
  variable_round rounds file context (err message) =
      item_round file context (http_request_file_item_parser lib rounds context)

  -- One round of the loop, behind the blank lines.
  unfoldable pub scan_round : ℕ → HttpFile → ParsingContext → Option (HttpFile × ParsingContext)
  scan_round rounds file context =
      variable_round rounds file context (file_variable_parser lib context)

  unfoldable pub scan : ℕ → ℕ → HttpFile → ParsingContext → Option HttpFile
  scan rounds zero file context = none
  scan rounds (suc left) file context =
      let next = skip_blank_lines lib context in
      let further : Option HttpFile = elim (scan_round rounds file next) [
        | none ↦ none
        | some (file', after) ↦ scan rounds left file' after
      ] in
      if lib.at_end next then some file else further

  unfoldable pub parse_http_file : ℕ → Bytes → Option HttpFile
  parse_http_file rounds source = scan rounds rounds new_file (lib.new_parsing_context source)
