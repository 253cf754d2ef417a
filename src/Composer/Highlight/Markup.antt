-- ===== src/Composer/Highlight/Markup.antt =====
-- composer/highlight.go: the token stream and the markup of a whole source.
use http_stack_lens.Base.{ℕ, ◌<◌, ◌≡◌, refl, arith, true, some, List, [], ◌∷◌, ◌++◌, Bytes, length}
use http_stack_lens.Parsing.{Library, IsLibrary}
use http_stack_lens.Composer.Positions.{ends_line}
use http_stack_lens.Composer.Files.{parse_http_file-IsFile}
use http_stack_lens.Composer.Termination.{parse_http_file_ends}
use http_stack_lens.Composer.Highlight.{
  Token, file_tokens, painted_tokens, tokenize, highlight_html,
}
use http_stack_lens.Composer.Highlight.Tokens.{
  IsOrdered, AllEnd-sort_tokens, drop_overlaps-IsOrdered, split_placeholders-IsOrdered,
}
use http_stack_lens.Composer.Highlight.Bounds.{file_tokens-AllEnd}
use http_stack_lens.Composer.Highlight.Rendering.{in_text, shown, shown-render}

module _ (lib : Library) (laws : IsLibrary lib) (source : Bytes) (rounds : ℕ) where
  -- With more rounds than code points and a source that is empty or ends with a line break,
  -- Tokenize comes to its end, and its tokens are not empty, follow one another without overlap
  -- and end in the source.
  pub tokenize-IsOrdered :
      ends_line source ≡ true
      → length source < rounds
      → (tokens : List Token) × (tokenize lib rounds source ≡ some tokens)
        × IsOrdered 0 (length source) tokens
  unfolding tokenize painted_tokens
  tokenize-IsOrdered e h =
      let (file, scanned) = parse_http_file_ends lib laws source rounds e h in
      let inside =
        file_tokens-AllEnd lib laws source file e
          (parse_http_file-IsFile lib laws source rounds file scanned) in
      (
        painted_tokens lib source file,
        rw (scanned, tokenize) refl,
        split_placeholders-IsOrdered source 0 (length source) _ (
            drop_overlaps-IsOrdered 0 (length source) _ (omega arith)
              (AllEnd-sort_tokens (length source) (file_tokens lib source file) inside)),
      )

  -- With more rounds than code points and a source that is empty or ends with a line break,
  -- HighlightHTML comes to its end and slices in range, and its markup, with the tags taken out
  -- and the entities decoded, is the source and one line break.
  pub shown-highlight_html :
      ends_line source ≡ true
      → length source < rounds
      → (html : Bytes) × (highlight_html lib rounds source ≡ some html)
        × (shown in_text html ≡ source ++ 10 ∷ [])
  unfolding highlight_html
  shown-highlight_html e h =
      let (tokens, tokenized, ordered) = tokenize-IsOrdered e h in
      let (html, rendered, shows) = shown-render source 0 tokens ordered in
      (html, rw (tokenized, highlight_html) rendered, shows)
