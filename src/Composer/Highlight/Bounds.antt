-- ===== src/Composer/Highlight/Bounds.antt =====
-- composer/highlight.go: every token of a file ends in its source.
use http_stack_lens.Base.{
  ℕ, zero, suc, ◌+◌, ◌-◌, ◌≤◌, ◌<◌, ◌≡◌, refl, sym, ap, ◌∙◌, arith, inl, inr, Bool-cases, List, [],
  ◌∷◌, ◌++◌, Bytes, length, take, drop, true, ltb, ltb→lt, ltb-false, codes, Result, ok, err,
  length-append, length-take, drop-take,
}
use http_stack_lens.Parsing.{ParsingContext, Library, IsLibrary}
use http_stack_lens.Composer.{
  PositionedText, is_empty_span, CommentLine, FileVariable, PositionedHeader,
  PositionedHttpRequestLine, HttpRequestFileItem, ParseIssue, HttpFile,
}
use http_stack_lens.Composer.Grammar.{separator as block_mark}
use http_stack_lens.Composer.Positions.{IsAt, ends_line, final_break}
use http_stack_lens.Composer.Reading.{
  Gives, Gives-weaken, ReadsComment, ReadsVariable, ReadsHeader, IsLine, ReadsLine,
  comment_line_parser_of-Gives, file_variable_parser-Gives, positioned_header_parser-Gives,
  http_request_line_parser-Gives,
}
use http_stack_lens.Composer.Blocks.{All, EndsInside, IsVariable, IsHeader, IsItem, IsIssue}
use http_stack_lens.Composer.Files.{IsFile}
use http_stack_lens.Composer.Highlight.{
  Token, TokenKind, span_token, append_span, comment_kind, line_context_at, variable_tokens,
  comment_tokens, line_tokens, painted, header_line, is_header_name, lex_line, line_end, lex_lines,
  lex_unreadable, variables_spans, comments_spans, headers_spans, line_spans, requests_spans,
  issues_spans, file_tokens,
}
use http_stack_lens.Composer.Highlight.Tokens.{AllEnd, AllEnd-append}

AllEnd-append_span :
    {A : Type 0} (n : ℕ) (tokens : List Token) (kind : TokenKind) (span : PositionedText A)
    → AllEnd n tokens
    → span.end.offset ≤ n
    → AllEnd n (append_span tokens kind span)
unfolding append_span
AllEnd-append_span n tokens kind span h k = elim (Bool-cases (is_empty_span span)) [
  | inl e ↦ rw (e, AllEnd) h
  | inr e ↦ rw (e, AllEnd) (AllEnd-append n tokens (span_token kind span ∷ []) h (k, tt))
]

AllEnd-painted :
    {A : Type 0} (n : ℕ) (paint : A → List Token) (r : Result Bytes (A × ParsingContext))
    (others : List Token)
    → Gives (λ q. AllEnd n (paint q.0)) r
    → AllEnd n others
    → AllEnd n (painted paint r others)
AllEnd-painted n paint (ok (a, d)) others h k = h
AllEnd-painted n paint (err m) others h k = k

line_end_bounds :
    (n : ℕ) (runes : Bytes) (end : ℕ)
    → (end ≤ line_end n runes end) × (line_end n runes end ≤ end + n)
unfolding line_end
line_end_bounds zero runes end = omega arith
line_end_bounds (suc n) runes end = ground (arith, line_end_bounds n runes (end + 1))

drop-append {ℓ} :
    {A : Type ℓ} (n : ℕ) (xs ys : List A) → n ≤ length xs → drop n (xs ++ ys) ≡ drop n xs ++ ys
drop-append zero xs ys h = refl
drop-append (suc n) [] ys h = absurd (omega arith)
drop-append (suc n) (x ∷ xs) ys h = drop-append n xs ys (omega arith)

-- The line on its own is the end of a text that stops behind it.
line_context_at-IsAt :
    (runes : Bytes) (start end : ℕ)
    → start ≤ end
    → end ≤ length runes
    → IsAt (take end runes ++ 10 ∷ []) (line_context_at runes start end)
unfolding line_context_at
line_context_at-IsAt runes start end h k = record {
  inside = omega (arith, length-append (take end runes) (10 ∷ []), length-take end runes);
  ahead = sym (
      drop-append start (take end runes) (10 ∷ []) (omega (arith, length-take end runes))
      ∙ ap (λ (s : Bytes). s ++ 10 ∷ []) (drop-take start end runes h));
}

nothing : (n : ℕ) → AllEnd n []
nothing n = tt

header_line-AllEnd :
    (n : ℕ) (h : PositionedHeader)
    → h.name.end.offset ≤ n
    → h.value.end.offset ≤ n
    → AllEnd n (header_line h)
header_line-AllEnd n h a b = elim (Bool-cases (is_header_name h.name.text)) [
  | inl e ↦ rw (e, AllEnd) (a, (b, tt))
  | inr e ↦ rw (e, AllEnd) tt
]

module _ (lib : Library) (laws : IsLibrary lib) where
  lex_line-AllEnd :
      (runes : Bytes) (start end n : ℕ)
      → start ≤ end
      → end < n
      → n ≤ length runes
      → AllEnd n (lex_line lib runes start end)
  unfolding lex_line
  lex_line-AllEnd runes start end n h k b =
      let line = take end runes ++ 10 ∷ [] in
      let size : length line ≤ n =
        omega (arith, length-append (take end runes) (10 ∷ []), length-take end runes) in
      let at = line_context_at-IsAt runes start end h (omega arith) in
      let c = line_context_at runes start end in
      AllEnd-painted n variable_tokens _ _
        (Gives-weaken (ReadsVariable lib laws line c) _ _
          (λ r p. (omega (arith, p.1), (omega (arith, p.2.inside), tt)))
          (file_variable_parser-Gives lib laws line c at))
        (AllEnd-painted n (comment_tokens TokenKind.separator) _ _
          (Gives-weaken (ReadsComment lib laws line 3 c)
            (λ q. AllEnd n (comment_tokens TokenKind.separator q.0)) _
            (λ r p. (omega (arith, p.1), tt))
            (comment_line_parser_of-Gives lib laws line block_mark c at))
          (AllEnd-painted n (comment_tokens TokenKind.comment) _ _
            (Gives-weaken (ReadsComment lib laws line 1 c)
              (λ q. AllEnd n (comment_tokens TokenKind.comment q.0)) _
              (λ r p. (omega (arith, p.1), tt))
              (comment_line_parser_of-Gives lib laws line (codes "#") c at))
            (AllEnd-painted n line_tokens _ _
              (Gives-weaken (ReadsLine lib laws line c) _ _
                (λ r p.
                  (omega (arith, p.1.0), (omega (arith, p.1.1.inside), (omega (arith, p.1.2), tt))))
                (http_request_line_parser-Gives lib laws line c at))
              (AllEnd-painted n header_line _ _
                (Gives-weaken (ReadsHeader lib laws line c) _ _
                  (λ r p.
                    header_line-AllEnd n r.0 (omega (arith, p.1.inside))
                      (omega (arith, p.2.inside)))
                  (positioned_header_parser-Gives lib laws line c at))
                (nothing n)))))

  lex_lines-AllEnd :
      (rounds : ℕ) (runes : Bytes) (start to n : ℕ)
      → to < n
      → n ≤ length runes
      → AllEnd n (lex_lines lib rounds runes start to)
  unfolding lex_lines
  lex_lines-AllEnd zero runes start to n h k = tt
  lex_lines-AllEnd (suc rounds) runes start to n h k = elim (Bool-cases (ltb start to)) [
    | inl e ↦
        let end = line_end (to - start) runes start in
        let b = line_end_bounds (to - start) runes start in
        rw (e, AllEnd)
          (AllEnd-append n (lex_line lib runes start end) _
            (lex_line-AllEnd runes start end n b.0 (omega (arith, ltb→lt _ _ e)) k)
            (lex_lines-AllEnd rounds runes (end + 1) to n h k))
    | inr e ↦ rw (e, AllEnd) tt
  ]

  lex_unreadable-AllEnd :
      (runes : Bytes) (from to : ℕ)
      → to < length runes
      → AllEnd (length runes) (lex_unreadable lib runes from to)
  unfolding lex_unreadable
  lex_unreadable-AllEnd runes from to h =
      lex_lines-AllEnd (suc (to - from)) runes from to (length runes) h (omega arith)

  -- An issue leaves the last line break out, so its last line ends before it.
  issue-AllEnd :
      (source : Bytes) (from to : ℕ)
      → ends_line source ≡ true
      → to + final_break source ≤ length source
      → AllEnd (length source) (lex_unreadable lib source from to)
  unfolding lex_unreadable lex_lines
  issue-AllEnd [] from to e h = rw (ltb-false to from (omega arith), AllEnd) tt
  issue-AllEnd (c ∷ s) from to e h =
      lex_unreadable-AllEnd (c ∷ s) from to
        (let one : final_break (c ∷ s) ≡ 1 = rw e refl in omega arith)

  module _ (source : Bytes) where
    variables_spans-AllEnd :
        (variables : List FileVariable) (tokens : List Token)
        → AllEnd (length source) tokens
        → All (IsVariable lib laws source) variables
        → AllEnd (length source) (variables_spans tokens variables)
    unfolding variables_spans
    variables_spans-AllEnd [] tokens h k = h
    variables_spans-AllEnd (v ∷ vs) tokens h (i, k) =
        variables_spans-AllEnd vs _
          (AllEnd-append_span (length source) _ TokenKind.value v.value
            (AllEnd-append_span (length source) _ TokenKind.variable v.name h i.0) i.1.inside)
          k

    comments_spans-AllEnd :
        (comments : List CommentLine) (tokens : List Token)
        → AllEnd (length source) tokens
        → All (EndsInside lib laws source) comments
        → AllEnd (length source) (comments_spans source tokens comments)
    unfolding comments_spans
    comments_spans-AllEnd [] tokens h k = h
    comments_spans-AllEnd (c ∷ cs) tokens h (i, k) =
        comments_spans-AllEnd cs _
          (AllEnd-append_span (length source) tokens (comment_kind source c) c h i) k

    headers_spans-AllEnd :
        (headers : List PositionedHeader) (tokens : List Token)
        → AllEnd (length source) tokens
        → All (IsHeader lib laws source) headers
        → AllEnd (length source) (headers_spans tokens headers)
    unfolding headers_spans
    headers_spans-AllEnd [] tokens h k = h
    headers_spans-AllEnd (v ∷ vs) tokens h (i, k) =
        headers_spans-AllEnd vs _
          (AllEnd-append_span (length source) _ TokenKind.value v.value
            (AllEnd-append_span (length source) _ TokenKind.header v.name h i.0.inside) i.1.inside)
          k

    line_spans-AllEnd :
        (tokens : List Token) (line : PositionedHttpRequestLine)
        → AllEnd (length source) tokens
        → IsLine lib laws source line
        → AllEnd (length source) (line_spans tokens line)
    unfolding line_spans
    line_spans-AllEnd tokens line h (a, b, c) =
        AllEnd-append_span (length source) _ TokenKind.version line.version
          (AllEnd-append_span (length source) _ TokenKind.target line.target
            (AllEnd-append_span (length source) tokens TokenKind.method line.http_method h a)
            b.inside)
          c

    requests_spans-AllEnd :
        (requests : List HttpRequestFileItem) (tokens : List Token)
        → AllEnd (length source) tokens
        → All (IsItem lib laws source) requests
        → AllEnd (length source) (requests_spans source tokens requests)
    unfolding requests_spans
    requests_spans-AllEnd [] tokens h k = h
    requests_spans-AllEnd (r ∷ rs) tokens h (i, k) =
        requests_spans-AllEnd rs _
          (AllEnd-append_span (length source) _ TokenKind.body r.body
            (headers_spans-AllEnd r.headers _
              (line_spans-AllEnd _ r.http_request_line
                (comments_spans-AllEnd r.header_comments tokens h i.comments) i.line)
              i.heads)
            i.copied.inside)
          k

    issues_spans-AllEnd :
        (issues : List ParseIssue) (tokens : List Token)
        → ends_line source ≡ true
        → AllEnd (length source) tokens
        → All (IsIssue lib laws source) issues
        → AllEnd (length source) (issues_spans lib source tokens issues)
    unfolding issues_spans
    issues_spans-AllEnd [] tokens b h k = h
    issues_spans-AllEnd (i ∷ is) tokens b h (e, k) =
        issues_spans-AllEnd is _ b
          (AllEnd-append (length source) tokens _ h
            (issue-AllEnd source i.start.offset i.end.offset b e))
          k

    pub file_tokens-AllEnd :
        (file : HttpFile)
        → ends_line source ≡ true
        → IsFile lib laws source file
        → AllEnd (length source) (file_tokens lib source file)
    unfolding file_tokens
    file_tokens-AllEnd file b f =
        issues_spans-AllEnd file.issues _ b
          (requests_spans-AllEnd file.requests _
            (variables_spans-AllEnd file.variables [] tt f.variables) f.requests)
          f.issues
