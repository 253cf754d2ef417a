-- ===== src/Composer/Tests.antt =====
-- Runs of the package composer on small files, and its theorems at concrete inputs.
use http_stack_lens.Base.{
  ◌≡◌, refl, arith, false, none, equal, has_prefix, contains, some, List, [], ◌∷◌, ◌++◌, Bytes,
  codes, length,
}
use http_stack_lens.Parsing.{TextPosition, ParsingContext}
use http_stack_lens.Parsing.Simple.{simple}
use http_stack_lens.Parsing.Lawful.{simple-IsLibrary}
use http_stack_lens.Composer.{PositionedText, HttpRequestFileItem, HttpFile}
use http_stack_lens.Composer.Grammar.{starts_with, no_endpoint, default_version, header_lines}
use http_stack_lens.Composer.Scan.{parse_http_file}
use http_stack_lens.Composer.Positions.{ends_line}
use http_stack_lens.Composer.Files.{IsFile, parse_http_file-IsFile}
use http_stack_lens.Composer.Termination.{parse_http_file_ends}
use http_stack_lens.Composer.Hang.{header_lines_hangs}
use http_stack_lens.Composer.Highlight.{Token, tokenize, highlight_html}
use http_stack_lens.Composer.Highlight.Tokens.{IsOrdered}
use http_stack_lens.Composer.Highlight.Rendering.{in_text, shown}
use http_stack_lens.Composer.Highlight.Markup.{tokenize-IsOrdered, shown-highlight_html}

abbrev line_break : Bytes
line_break = 10 ∷ []

abbrev source : Bytes
source =
    codes "@a = 1"
    ++ (10 ∷ codes "### One"
        ++ (10 ∷ codes "GET http://x/{{a}} HTTP/1.1"
            ++ (10 ∷ codes "A: b" ++ (10 ∷ 10 ∷ codes "<&>" ++ (10 ∷ [])))))

-- A block whose headers run into a note without a line break.
abbrev noted : ParsingContext
noted = simple.new_parsing_context (codes "# note")

abbrev any_item : HttpRequestFileItem
any_item = record {
  header_comments = [];
  http_request_line = record {
    http_method = no_text;
    target = no_text;
    endpoint = record { text = no_endpoint; start = start_of; end = start_of };
    resolved = false;
    version = record { text = default_version; start = start_of; end = start_of };
  };
  headers = [];
  inner_comments = [];
  body = no_text;
}
  where
    start_of : TextPosition
    start_of = record { offset = 0; line = 1; column = 1 }

    no_text : PositionedText Bytes
    no_text = record { text = []; start = start_of; end = start_of }

parse_http_file_ends_example : (file : HttpFile) × (parse_http_file simple 60 source ≡ some file)
unfolding ends_line
parse_http_file_ends_example =
    parse_http_file_ends simple simple-IsLibrary source 60 refl (omega arith)

parse_http_file-IsFile_example :
    IsFile simple simple-IsLibrary source parse_http_file_ends_example.0
parse_http_file-IsFile_example =
    parse_http_file-IsFile simple simple-IsLibrary source 60 parse_http_file_ends_example.0
      parse_http_file_ends_example.1

tokenize-IsOrdered_example :
    (tokens : List Token) × (tokenize simple 60 source ≡ some tokens)
    × IsOrdered 0 (length source) tokens
unfolding ends_line
tokenize-IsOrdered_example = tokenize-IsOrdered simple simple-IsLibrary source 60 refl (omega arith)

shown-highlight_html_example :
    (html : Bytes) × (highlight_html simple 60 source ≡ some html)
    × (shown in_text html ≡ source ++ 10 ∷ [])
unfolding ends_line
shown-highlight_html_example =
    shown-highlight_html simple simple-IsLibrary source 60 refl (omega arith)

header_lines_hangs_example : header_lines simple 100 noted any_item ≡ none
unfolding starts_with contains equal has_prefix
header_lines_hangs_example =
    header_lines_hangs simple simple-IsLibrary noted refl refl refl 100 any_item
