-- ===== src/Composer/Termination.antt =====
-- composer/http_file_scan.go: the scanner comes to the end of a source whose last line is broken.
use http_stack_lens.Base.{
  ℕ, zero, suc, ◌+◌, ◌≤◌, ◌<◌, ◌≡◌, refl, ap, ◌∙◌, arith, inl, inr, Bool-cases, Result-cases, List,
  [], ◌∷◌, ◌++◌, Bytes, codes, length, take, drop, true, false, equal, has_prefix, contains, Option,
  none, some, Result, ok, err, length-drop,
}
use http_stack_lens.Parsing.{ParsingContext, Library, Advances, IsLibrary, fallback}
use http_stack_lens.Parsing.Advance.{Advances-weaken, Advances-refl, length-le_prefix}
use http_stack_lens.Composer.{
  CommentLine, PositionedHttpRequestLine, FileVariable, HttpRequestFileItem, HttpFile,
}
use http_stack_lens.Composer.Grammar.{
  starts_with, skip_blank_lines, comment_parser, comment_lines, parse_comment_lines,
  header_comments_parser, comment_line_parser, comment_line_parser_of, positioned, opened_item,
  header_lines, is_header_end, with_comments, finish_item, item_after, positioned_header_parser,
  http_request_file_item_parser, file_variable_parser,
}
use http_stack_lens.Composer.Scan.{
  new_file, item_round, variable_round, scan_round, scan, parse_http_file,
}
use http_stack_lens.Composer.Positions.{IsAt, Advances-IsAt, ends_line, ends_line-drop}
use http_stack_lens.Composer.Reading.{
  Gives, Moves, Gives-weaken, Gives-ok, then_on, length-at_end, consume_end_of_line-Advances,
  ReadsComment, ReadsHeader, ReadsLine, positioned_header_parser-Gives,
  http_request_line_parser-Gives,
}
use http_stack_lens.Composer.Blocks.{
  skip_blank_lines-Advances, parse_comment_lines_lem, comment_parser-Gives,
}
use http_stack_lens.Composer.Files.{IsFile, OnSome-at, Round, scan_round_lem, new_context-IsAt}

has_prefix_of_take : (s p : Bytes) → equal (take (length p) s) p ≡ true → has_prefix s p ≡ true
unfolding has_prefix equal
has_prefix_of_take s [] h = refl
has_prefix_of_take [] (d ∷ p) h = absurd cc
has_prefix_of_take (c ∷ s) (d ∷ p) h = ground (arith, has_prefix_of_take s p)

pub starts_with-has_prefix :
    (c : ParsingContext) (p : Bytes) → starts_with c p ≡ true → has_prefix c.remaining p ≡ true
unfolding starts_with
starts_with-has_prefix c p h = has_prefix_of_take c.remaining p (ground arith)

-- Behind its first character a text that does not end there still has its line break.
contains_break :
    (c : ℕ) (s : Bytes) → ends_line (c ∷ s) ≡ true → 0 < length s → contains s (10 ∷ []) ≡ true
unfolding ends_line contains has_prefix
contains_break c [] h k = absurd (omega arith)
contains_break c (d ∷ []) h k = ground arith
contains_break c (d ∷ e ∷ s) h k = ground (arith, contains_break d (e ∷ s) h (omega arith))

-- A note's line has its break.
note_break :
    (s : Bytes)
    → has_prefix s (codes "#") ≡ true
    → ends_line s ≡ true
    → contains (drop 1 s) (10 ∷ []) ≡ true
unfolding has_prefix ends_line
note_break [] h e = absurd cc
note_break (c ∷ []) h e = ground arith
note_break (c ∷ d ∷ s) h e = contains_break c (d ∷ s) e (omega arith)

module _ (lib : Library) (laws : IsLibrary lib) where
  comment_line_found :
      (c : ParsingContext)
      → starts_with c (codes "#") ≡ true
      → ends_line c.remaining ≡ true
      → (r : CommentLine × ParsingContext) × (comment_line_parser lib c ≡ ok r)
  unfolding comment_line_parser_of has_prefix
  comment_line_found c h e =
      let starts = starts_with-has_prefix c (codes "#") h in
      let marked = laws.string_match_found (codes "#") c starts in
      let on = lib.forward c 1 in
      let left = (laws.forward-Ahead c 1 (length-le_prefix c.remaining (codes "#") starts)).rest in
      let broken : contains on.remaining (10 ∷ []) ≡ true =
        ap (λ (s : Bytes). contains s (10 ∷ [])) left ∙ note_break c.remaining starts e in
      let (r, found) = laws.until_text_found (10 ∷ []) false on broken in
      ((positioned lib c r.1 (13 ∷ []) r.0, r.1), rw (marked, found) refl)

  comment_found :
      (c : ParsingContext)
      → starts_with c (codes "#") ≡ true
      → ends_line c.remaining ≡ true
      → (r : CommentLine × ParsingContext) × (comment_parser lib c ≡ ok r)
  unfolding comment_parser
  comment_found c h e = elim (Result-cases (header_comments_parser lib c)) [
    | inl (r, f) ↦ (
      r,
      laws.or_else-fallback _ _ c
          ∙ ap
              (λ (q : Result Bytes (CommentLine × ParsingContext)).
                fallback q (comment_line_parser lib) c)
              f,
    )
    | inr (m, f) ↦
        let (r, g) = comment_line_found c h e in
        (
          r,
          laws.or_else-fallback _ _ c
              ∙ ap
                  (λ (q : Result Bytes (CommentLine × ParsingContext)).
                    fallback q (comment_line_parser lib) c)
                  f
              ∙ g,
        )
  ]

  module _ (source : Bytes) where
    lines_on :
        (rounds : ℕ) (c : ParsingContext) (comments : List CommentLine)
        → IsAt source c
        → Advances 0 c (comment_lines lib rounds c comments).1
    unfolding comment_lines
    lines_on zero c comments at = Advances-refl c
    lines_on (suc rounds) c comments at = elim (Result-cases (comment_parser lib c)) [
      | inl ((t, d), e) ↦
          let (a, b) =
            Gives-ok (ReadsComment lib laws source 1 c) _ (t, d)
              (comment_parser-Gives lib laws source c at) e in
          let on =
            then_on (Advances-weaken (omega arith) a) (consume_end_of_line-Advances lib laws d) in
          rw (e, comment_lines)
            (then_on on (lines_on rounds _ (comments ++ t ∷ []) (Advances-IsAt on at)))
      | inr (m, e) ↦ rw (e, comment_lines) (Advances-refl c)
    ]

    -- The comments of a block that starts with one.
    comments_progress :
        (c : ParsingContext) (comments : List CommentLine)
        → IsAt source c
        → starts_with c (codes "#") ≡ true
        → ends_line c.remaining ≡ true
        → Advances 1 c (parse_comment_lines lib c comments).1
    unfolding parse_comment_lines comment_lines
    comments_progress c comments at h e =
        let ((t, d), f) = comment_found c h e in
        let (a, b) =
          Gives-ok (ReadsComment lib laws source 1 c) _ (t, d)
            (comment_parser-Gives lib laws source c at) f in
        let on = then_on a (consume_end_of_line-Advances lib laws d) in
        let further = lines_on (length c.remaining) _ (comments ++ t ∷ []) (Advances-IsAt on at) in
        rw (f, comment_lines) (then_on on further)

    ends_on :
        {n : ℕ} {c d : ParsingContext}
        → Advances n c d
        → ends_line c.remaining ≡ true
        → ends_line d.remaining ≡ true
    ends_on a e = ap ends_line a.ahead.rest ∙ ends_line-drop a.count _ e

    shorter :
        {n : ℕ} {c d : ParsingContext}
        → Advances n c d
        → length d.remaining + n ≤ length c.remaining
    shorter {n} {c} {d} a =
        omega (
          arith,
          ap length a.ahead.rest,
          length-drop a.count c.remaining,
          a.at_least,
          a.ahead.within,
        )

    header_lines_ends :
        (rounds : ℕ) (c : ParsingContext) (item : HttpRequestFileItem)
        → IsAt source c
        → ends_line c.remaining ≡ true
        → length c.remaining < rounds
        → (r : HttpRequestFileItem × ParsingContext) × (header_lines lib rounds c item ≡ some r)
    unfolding header_lines
    header_lines_ends zero c item at e h = absurd (omega arith)
    header_lines_ends (suc rounds) c item at e h = elim (Bool-cases (is_header_end lib c)) [
      | inl f ↦ ((item, c), rw f refl)
      | inr f ↦ elim (Bool-cases (starts_with c (codes "#"))) [
        | inl g ↦
            let a = comments_progress c item.header_comments at g e in
            let (r, k) =
              header_lines_ends rounds _
                (with_comments lib item (parse_comment_lines lib c item.header_comments))
                (Advances-IsAt a at) (ends_on a e) (omega (arith, shorter a)) in
            (r, rw (f, g) k)
        | inr g ↦ elim (Result-cases (positioned_header_parser lib c)) [
          | inl ((head, d), k) ↦
              let (b, named, valued) =
                Gives-ok (ReadsHeader lib laws source c) _ (head, d)
                  (positioned_header_parser-Gives lib laws source c at) k in
              let a = then_on b (consume_end_of_line-Advances lib laws d) in
              let (r, l) =
                header_lines_ends rounds _ (record item { headers = item.headers ++ head ∷ [] })
                  (Advances-IsAt a at) (ends_on a e) (omega (arith, shorter a)) in
              (r, rw (f, g, k) l)
          | inr (m, k) ↦ ((item, c), rw (f, g, k) refl)
        ]
      ]
    ]

    finish_item_ends :
        (o : Option (HttpRequestFileItem × ParsingContext))
        → (r : HttpRequestFileItem × ParsingContext) × (o ≡ some r)
        → (q : Result Bytes (HttpRequestFileItem × ParsingContext)) × (finish_item lib o ≡ some q)
    finish_item_ends none (r, e) = absurd cc
    finish_item_ends (some r) h = (_, refl)

    item_after_ends :
        (rounds : ℕ) (c : ParsingContext) (comments : List CommentLine)
        (r : Result Bytes (PositionedHttpRequestLine × ParsingContext))
        → IsAt source c
        → ends_line c.remaining ≡ true
        → length c.remaining < rounds
        → Gives (Moves 0 c) r
        → (q : Result Bytes (HttpRequestFileItem × ParsingContext)) × (item_after lib rounds
              comments r
            ≡ some q)
    item_after_ends rounds c comments (err m) at e h a = (err m, refl)
    item_after_ends rounds c comments (ok (line, d)) at e h b =
        let a = then_on b (consume_end_of_line-Advances lib laws d) in
        finish_item_ends _ (
          header_lines_ends rounds _ (opened_item lib comments line) (Advances-IsAt a at)
            (ends_on a e) (omega (arith, shorter a)))

    item_parser_ends :
        (rounds : ℕ) (c : ParsingContext)
        → IsAt source c
        → ends_line c.remaining ≡ true
        → length c.remaining < rounds
        → (q : Result Bytes (HttpRequestFileItem × ParsingContext)) × (http_request_file_item_parser
              lib rounds c
            ≡ some q)
    unfolding http_request_file_item_parser
    item_parser_ends rounds c at e h =
        let blank = skip_blank_lines-Advances lib laws c in
        let next = skip_blank_lines lib c in
        let a =
          then_on blank
            (parse_comment_lines_lem lib laws source next [] (Advances-IsAt blank at) tt).0 in
        let comments = parse_comment_lines lib next [] in
        item_after_ends rounds c comments.0 _ at e h (
          Gives-weaken (ReadsLine lib laws source comments.1) (Moves 0 c) _ (λ r p. then_on a p.0)
            (http_request_line_parser-Gives lib laws source comments.1 (Advances-IsAt a at)))

    item_round_ends :
        (file : HttpFile) (c : ParsingContext)
        (o : Option (Result Bytes (HttpRequestFileItem × ParsingContext)))
        → (q : Result Bytes (HttpRequestFileItem × ParsingContext)) × (o ≡ some q)
        → (r : HttpFile × ParsingContext) × (item_round lib file c o ≡ some r)
    item_round_ends file c none (q, e) = absurd cc
    item_round_ends file c (some (ok (item, d))) h = (_, refl)
    item_round_ends file c (some (err m)) h = (_, refl)

    variable_round_ends :
        (rounds : ℕ) (file : HttpFile) (c : ParsingContext)
        (r : Result Bytes (FileVariable × ParsingContext))
        → IsAt source c
        → ends_line c.remaining ≡ true
        → length c.remaining < rounds
        → (q : HttpFile × ParsingContext) × (variable_round lib rounds file c r ≡ some q)
    variable_round_ends rounds file c (ok (v, d)) at e h = (_, refl)
    variable_round_ends rounds file c (err m) at e h =
        item_round_ends file c _ (item_parser_ends rounds c at e h)

    scan_ends :
        (rounds left : ℕ) (file : HttpFile) (c : ParsingContext)
        → IsAt source c
        → IsFile lib laws source file
        → ends_line c.remaining ≡ true
        → length c.remaining < left
        → length c.remaining < rounds
        → (file' : HttpFile) × (scan lib rounds left file c ≡ some file')
    unfolding scan scan_round
    scan_ends rounds zero file c at f e h k = absurd (omega arith)
    scan_ends rounds (suc left) file c at f e h k =
        let next = skip_blank_lines lib c in
        let blank = skip_blank_lines-Advances lib laws c in
        let at' = Advances-IsAt blank at in
        let short : length next.remaining ≤ length c.remaining = omega (arith, shorter blank) in
        elim (Bool-cases (lib.at_end next)) [
          | inl g ↦ (file, rw g refl)
          | inr g ↦
              let ((file', d), i) =
                variable_round_ends rounds file next (file_variable_parser lib next) at'
                  (ends_on blank e) (omega arith) in
              let (f', a) = OnSome-at (Round lib laws source next) i (
                scan_round_lem lib laws source rounds file next at' (length-at_end lib laws next g)
                  f) in
              let (last, j) =
                scan_ends rounds left file' d (Advances-IsAt a at') f' (ends_on a (ends_on blank e))
                  (omega (arith, shorter a)) (omega (arith, shorter a)) in
              (last, rw (g, i) j)
        ]

    -- The scan of a source that is empty or ends with a line break comes to its end in more rounds
    -- than it has code points.
    pub parse_http_file_ends :
        (rounds : ℕ)
        → ends_line source ≡ true
        → length source < rounds
        → (file : HttpFile) × (parse_http_file lib rounds source ≡ some file)
    unfolding parse_http_file
    parse_http_file_ends rounds e h =
        let c = lib.new_parsing_context source in
        let size : length c.remaining ≡ length source = ap length (laws.new_remaining source) in
        scan_ends rounds rounds new_file c (new_context-IsAt lib laws source)
          (record { variables = tt; requests = tt; issues = tt })
          (ap ends_line (laws.new_remaining source) ∙ e) (omega arith) (omega arith)
