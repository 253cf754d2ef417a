-- ===== src/Composer/Hang.antt =====
-- composer/http_file_parser.go: a block whose headers run into a note that has no line break.
use http_stack_lens.Base.{
  ℕ, zero, suc, ◌≡◌, refl, ap, ◌∙◌, arith, List, [], ◌∷◌, Bytes, codes, length, take, drop, true,
  false, leb, equal, has_prefix, contains, none, err,
}
use http_stack_lens.Parsing.{ParsingContext, Library, IsLibrary, fallback, is_empty}
use http_stack_lens.Parsing.Advance.{length-le_prefix}
use http_stack_lens.Composer.{CommentLine, HttpRequestFileItem}
use http_stack_lens.Composer.Grammar.{
  separator, starts_with, is_blank_line, blank_text, comment_parser, comment_lines,
  parse_comment_lines, comment_line_parser_of, header_lines, is_header_end,
}
use http_stack_lens.Composer.Termination.{starts_with-has_prefix}

-- The other way of starts_with-has_prefix.
take_of_has_prefix :
    (s p : Bytes)
    → has_prefix s p ≡ true
    → (leb (length p) (length s) ≡ true) × (equal (take (length p) s) p ≡ true)
unfolding has_prefix equal
take_of_has_prefix s [] h = (ground arith, refl)
take_of_has_prefix [] (d ∷ p) h = absurd cc
take_of_has_prefix (c ∷ s) (d ∷ p) h = ground (arith, take_of_has_prefix s p)

has_prefix-starts_with :
    (c : ParsingContext) (p : Bytes) → starts_with c p ≡ false → has_prefix c.remaining p ≡ false
unfolding starts_with
has_prefix-starts_with c p h = ground (arith, take_of_has_prefix c.remaining p)

marked_text :
    (s : Bytes) → has_prefix s (codes "#") ≡ true → (is_empty s ≡ false) × (blank_text s ≡ false)
unfolding has_prefix blank_text
marked_text [] h = absurd cc
marked_text (c ∷ s) h = ground arith

contains-drop :
    (s : Bytes) (c : ℕ) → contains s (c ∷ []) ≡ false → contains (drop 1 s) (c ∷ []) ≡ false
unfolding contains
contains-drop [] c h = h
contains-drop (d ∷ s) c h = ground arith

module _ (lib : Library) (laws : IsLibrary lib) where
  -- No comment parser takes a note whose line has no break.
  comment_missing :
      (c : ParsingContext)
      → starts_with c (codes "#") ≡ true
      → starts_with c separator ≡ false
      → contains c.remaining (10 ∷ []) ≡ false
      → (m : Bytes) × (comment_parser lib c ≡ err m)
  unfolding comment_parser comment_line_parser_of
  comment_missing c h k b =
      let (m, fails) =
        laws.string_match_missing separator c (has_prefix-starts_with c separator k) in
      let starts = starts_with-has_prefix c (codes "#") h in
      let marked = laws.string_match_found (codes "#") c starts in
      let on = lib.forward c 1 in
      let left = (laws.forward-Ahead c 1 (length-le_prefix c.remaining (codes "#") starts)).rest in
      let unbroken : contains on.remaining (10 ∷ []) ≡ false =
        ap (λ (s : Bytes). contains s (10 ∷ [])) left ∙ contains-drop c.remaining 10 b in
      let (m', missing) =
        laws.until_text_missing (lib.many_satisfy (λ r. true)) (10 ∷ []) false on unbroken in
      (m', laws.or_else-fallback _ _ c ∙ rw (fails, marked, missing, fallback) refl)

  module _ (c : ParsingContext) (noted : starts_with c (codes "#") ≡ true)
      (apart : starts_with c separator ≡ false)
      (unbroken : contains c.remaining (10 ∷ []) ≡ false) where
    no_comments : (comments : List CommentLine) → parse_comment_lines lib c comments ≡ (comments, c)
    unfolding parse_comment_lines comment_lines
    no_comments comments =
        let (m, e) = comment_missing c noted apart unbroken in rw (e, comment_lines) refl

    no_end : is_header_end lib c ≡ false
    unfolding is_blank_line
    no_end =
        let (left, inked) = marked_text c.remaining (starts_with-has_prefix c (codes "#") noted) in
        let open' : lib.at_end c ≡ false = laws.at_end-is_empty c ∙ left in ground arith

    -- At a text that starts with # and not with ###, and has no line break, the loop over the
    -- headers of a block comes to no end, however many rounds it has.
    pub header_lines_hangs :
        (rounds : ℕ) (item : HttpRequestFileItem) → header_lines lib rounds c item ≡ none
    unfolding header_lines
    header_lines_hangs zero item = refl
    header_lines_hangs (suc rounds) item =
        rw (no_end, noted, no_comments item.header_comments) (header_lines_hangs rounds item)
