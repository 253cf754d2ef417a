-- ===== src/Composer/Blocks.antt =====
-- composer/http_file_parser.go and http_file_scan.go: where the spans of a whole file lie.
use http_stack_lens.Base.{
  ℕ, zero, suc, ◌+◌, ◌-◌, ◌≤◌, ◌≡◌, refl, sym, ap, ◌∙◌, arith, inl, inr, Bool-cases, Result-cases,
  List, [], ◌∷◌, ◌++◌, Bytes, length, take, drop, not, ◌&&◌, codes, Option, none, some, Result, ok,
  err, take-add, take-take, length-take, length-drop,
}
use http_stack_lens.Parsing.{
  TextPosition, ParsingContext, Library, Ahead, Advances, IsLibrary, fallback,
}
use http_stack_lens.Parsing.Advance.{Ahead-trans, Ahead-refl, Advances-weaken, Advances-refl}
use http_stack_lens.Parsing.Http.{trim_end}
use http_stack_lens.Composer.{
  PositionedText, CommentLine, FileVariable, PositionedHeader, PositionedHttpRequestLine,
  HttpRequestFileItem, ParseIssue,
}
use http_stack_lens.Composer.Grammar.{
  separator, starts_with, is_blank_line, full_line_length, read_line, skip_blanks, skip_blank_lines,
  comment_parser, comment_lines, parse_comment_lines, header_comments_parser, comment_line_parser,
  body_lines, opening_line, parse_body, header_lines, is_header_end, with_comments, finish_item,
  opened_item, item_after, consume_end_of_line, positioned_header_parser,
  http_request_file_item_parser,
}
use http_stack_lens.Composer.Positions.{
  IsAt, Copies, Advances-IsAt, final_break, length-trim_end, take-trim_end,
}
use http_stack_lens.Composer.Reading.{
  Gives, Gives-ok, then_on, full_line_length-le, read_line-Advances, consume_end_of_line-Advances,
  ReadsComment, ReadsHeader, IsLine, ReadsLine, comment_line_parser_of-Gives,
  positioned_header_parser-Gives, http_request_line_parser-Gives,
}

abbrev pub All {ℓ} : {A : Type ℓ} → (A → Type 0) → List A → Type 0
All P [] = Unit
All P (x ∷ xs) = P x × All P xs

pub All-snoc {ℓ} :
    {A : Type ℓ} (P : A → Type 0) (xs : List A) (x : A) → All P xs → P x → All P (xs ++ x ∷ [])
All-snoc P [] x h k = (k, tt)
All-snoc P (y ∷ xs) x (e, h) k = (e, All-snoc P xs x h k)

-- What holds of a loop that ends.
abbrev pub OnSome {ℓ} : {A : Type ℓ} → (A → Type 0) → Option A → Type 0
OnSome P none = Unit
OnSome P (some a) = P a

module _ (lib : Library) (laws : IsLibrary lib) where
  skip_blanks-Advances : (rounds : ℕ) (c : ParsingContext) → Advances 0 c (skip_blanks lib rounds c)
  unfolding skip_blanks
  skip_blanks-Advances zero c = Advances-refl c
  skip_blanks-Advances (suc rounds) c = elim (Bool-cases (not (lib.at_end c) && is_blank_line c)) [
    | inl e ↦
        rw e (
          then_on (read_line-Advances lib laws c) (skip_blanks-Advances rounds (read_line lib c).1))
    | inr e ↦ rw e (Advances-refl c)
  ]

  pub skip_blank_lines-Advances : (c : ParsingContext) → Advances 0 c (skip_blank_lines lib c)
  unfolding skip_blank_lines
  skip_blank_lines-Advances c = skip_blanks-Advances (suc (length c.remaining)) c

  -- The lines that are collected are a stretch of what was left.
  body_lines_taken :
      (rounds : ℕ) (c : ParsingContext)
      → (n : ℕ) × Ahead n c (body_lines lib rounds c).1
        × ((body_lines lib rounds c).0 ≡ take n c.remaining)
  unfolding body_lines read_line
  body_lines_taken zero c = (0, (Ahead-refl c), refl)
  body_lines_taken (suc rounds) c =
      elim (Bool-cases (not (lib.at_end c) && not (starts_with c separator))) [
        | inl e ↦
            let n = full_line_length c.remaining in
            let first = laws.forward-Ahead c n (full_line_length-le c.remaining) in
            let (m, later, text) = body_lines_taken rounds (lib.forward c n) in
            (
              n + m,
              rw e (Ahead-trans first later),
              rw e (
                  ap (λ (t : Bytes). take n c.remaining ++ t) (text ∙ ap (take m) first.rest)
                  ∙ sym (take-add n m c.remaining)),
            )
        | inr e ↦ (0, rw e (Ahead-refl c), rw e refl)
      ]

  module _ (source : Bytes) where
    abbrev pub EndsInside : CommentLine → Type 0
    EndsInside t = t.end.offset ≤ length source

    abbrev pub IsVariable : FileVariable → Type 0
    IsVariable v = (v.name.end.offset ≤ length source) × Copies source v.value

    abbrev pub IsHeader : PositionedHeader → Type 0
    IsHeader h = Copies source h.name × Copies source h.value

    pub record IsItem (item : HttpRequestFileItem) : Type 0 where
      pub comments : All EndsInside item.header_comments
      pub line : IsLine lib laws source item.http_request_line
      pub heads : All IsHeader item.headers
      pub copied : Copies source item.body

    -- An issue leaves the last line break of the source out.
    abbrev pub IsIssue : ParseIssue → Type 0
    IsIssue i = i.end.offset + final_break source ≤ length source

    pub comment_parser-Gives :
        (c : ParsingContext)
        → IsAt source c
        → Gives (ReadsComment lib laws source 1 c) (comment_parser lib c)
    unfolding comment_parser
    comment_parser-Gives c at =
        rw (laws.or_else-fallback (header_comments_parser lib) (comment_line_parser lib) c) (
          first (header_comments_parser lib c)
            (comment_line_parser_of-Gives lib laws source separator c at))
      where
        first :
            (r : Result Bytes (CommentLine × ParsingContext))
            → Gives (ReadsComment lib laws source 3 c) r
            → Gives (ReadsComment lib laws source 1 c) (fallback r (comment_line_parser lib) c)
        first (ok (t, d)) (a, b) = (Advances-weaken (omega arith) a, b)
        first (err m) h = comment_line_parser_of-Gives lib laws source (codes "#") c at

    abbrev pub ReadsComments : ParsingContext → List CommentLine × ParsingContext → Type 0
    ReadsComments c r = Advances 0 c r.1 × All EndsInside r.0

    pub comment_lines_lem :
        (rounds : ℕ) (c : ParsingContext) (comments : List CommentLine)
        → IsAt source c
        → All EndsInside comments
        → ReadsComments c (comment_lines lib rounds c comments)
    unfolding comment_lines
    comment_lines_lem zero c comments at h = (Advances-refl c, h)
    comment_lines_lem (suc rounds) c comments at h = elim (Result-cases (comment_parser lib c)) [
      | inl ((t, d), e) ↦
          let (a, b) =
            Gives-ok (ReadsComment lib laws source 1 c) (comment_parser lib c) (t, d)
              (comment_parser-Gives c at) e in
          let on =
            then_on (Advances-weaken (omega arith) a) (consume_end_of_line-Advances lib laws d) in
          let (further, listed) =
            comment_lines_lem rounds (consume_end_of_line lib d) (comments ++ t ∷ [])
              (Advances-IsAt on at) (All-snoc EndsInside comments t h b) in
          rw (e, comment_lines) (then_on on further, listed)
      | inr (m, e) ↦ rw (e, comment_lines) (Advances-refl c, h)
    ]

    pub parse_comment_lines_lem :
        (c : ParsingContext) (comments : List CommentLine)
        → IsAt source c
        → All EndsInside comments
        → ReadsComments c (parse_comment_lines lib c comments)
    unfolding parse_comment_lines
    parse_comment_lines_lem c comments = comment_lines_lem (suc (length c.remaining)) c comments

    body_at : (c : ParsingContext) → Advances 0 c (opening_line lib c)
    unfolding opening_line
    body_at c = elim (Bool-cases (not (lib.at_end c) && is_blank_line c)) [
      | inl e ↦ rw e (read_line-Advances lib laws c)
      | inr e ↦ rw e (Advances-refl c)
    ]

    abbrev ReadsBody : ParsingContext → PositionedText Bytes × ParsingContext → Type 0
    ReadsBody c r = Advances 0 c r.1 × Copies source r.0

    -- A trimmed stretch of the source, where a context stands.
    trimmed-Copies :
        (c : ParsingContext) (n : ℕ) (cutset : Bytes) (end : TextPosition)
        → IsAt source c
        → n ≤ length c.remaining
        → end.offset ≡ c.position.offset + length (trim_end cutset (take n c.remaining))
        → Copies source
            (record { text = trim_end cutset (take n c.remaining); start = c.position; end = end })
    trimmed-Copies c n cutset end at h e =
        let text = trim_end cutset (take n c.remaining) in
        let size : length text ≤ n =
          omega (arith, length-trim_end cutset (take n c.remaining), length-take n c.remaining) in
        let same : end.offset - c.position.offset ≡ length text = omega arith in
        record {
          inside =
              omega (arith, ap length at.ahead, length-drop c.position.offset source, at.inside);
          copied =
              sym (take-trim_end cutset (take n c.remaining))
              ∙ take-take (length text) n c.remaining size
              ∙ ap (take (length text)) at.ahead
              ∙ ap (λ (k : ℕ). take k (drop c.position.offset source)) (sym same);
        }

    parse_body_lem : (c : ParsingContext) → IsAt source c → ReadsBody c (parse_body lib c)
    unfolding parse_body
    parse_body_lem c at =
        let next = opening_line lib c in
        let on = body_at c in
        let (n, a, text) = body_lines_taken (suc (length next.remaining)) next in
        let body = body_lines lib (suc (length next.remaining)) next in
        (
          then_on on (record { count = n; at_least = omega arith; ahead = a }),
          rw text (
              trimmed-Copies next n (13 ∷ 10 ∷ []) _ (Advances-IsAt on at) a.within
                (laws.offset-move next.position _)),
        )

    abbrev pub ReadsItem : ParsingContext → HttpRequestFileItem × ParsingContext → Type 0
    ReadsItem c r = Advances 0 c r.1 × IsItem r.0

    -- A header more.
    IsItem-headed :
        (item : HttpRequestFileItem) (h : PositionedHeader)
        → IsItem item
        → IsHeader h
        → IsItem (record item { headers = item.headers ++ h ∷ [] })
    IsItem-headed item h i k = record {
      comments = i.comments;
      line = i.line;
      heads = All-snoc IsHeader item.headers h i.heads k;
      copied = i.copied;
    }

    OnSome-from :
        {c d : ParsingContext} (o : Option (HttpRequestFileItem × ParsingContext))
        → Advances 0 c d
        → OnSome (ReadsItem d) o
        → OnSome (ReadsItem c) o
    OnSome-from none a h = tt
    OnSome-from (some r) a (b, i) = (then_on a b, i)

    header_lines_lem :
        (rounds : ℕ) (c : ParsingContext) (item : HttpRequestFileItem)
        → IsAt source c
        → IsItem item
        → OnSome (ReadsItem c) (header_lines lib rounds c item)
    unfolding header_lines
    header_lines_lem zero c item at i = tt
    header_lines_lem (suc rounds) c item at i = elim (Bool-cases (is_header_end lib c)) [
      | inl e ↦ rw (e, OnSome) (Advances-refl c, i)
      | inr e ↦ elim (Bool-cases (starts_with c (codes "#"))) [
        | inl f ↦
            let (on, noted) = parse_comment_lines_lem c item.header_comments at i.comments in
            let i' : IsItem
                (with_comments lib item (parse_comment_lines lib c item.header_comments)) =
              record { comments = noted; line = i.line; heads = i.heads; copied = i.copied } in
            rw (e, f, OnSome)
              (OnSome-from _ on (header_lines_lem rounds _ _ (Advances-IsAt on at) i'))
        | inr f ↦ elim (Result-cases (positioned_header_parser lib c)) [
          | inl ((h, d), g) ↦
              let (a, named, valued) =
                Gives-ok (ReadsHeader lib laws source c) _ (h, d)
                  (positioned_header_parser-Gives lib laws source c at) g in
              let on =
                then_on (Advances-weaken (omega arith) a)
                  (consume_end_of_line-Advances lib laws d) in
              rw (e, f, g, OnSome)
                (OnSome-from _ on (
                  header_lines_lem rounds _ _ (Advances-IsAt on at)
                    (IsItem-headed item h i (named, valued))))
          | inr (m, g) ↦ rw (e, f, g, OnSome) (Advances-refl c, i)
        ]
      ]
    ]

    abbrev pub ReadsBlock :
        ParsingContext → Option (Result Bytes (HttpRequestFileItem × ParsingContext)) → Type 0
    ReadsBlock c o = OnSome (Gives (ReadsItem c)) o

    finish_item_lem :
        (c : ParsingContext) (o : Option (HttpRequestFileItem × ParsingContext))
        → IsAt source c
        → OnSome (ReadsItem c) o
        → ReadsBlock c (finish_item lib o)
    finish_item_lem c none at h = tt
    finish_item_lem c (some (item, d)) at (a, i) =
        let (b, copied) = parse_body_lem d (Advances-IsAt a at) in
        (
          then_on a b,
          record { comments = i.comments; line = i.line; heads = i.heads; copied = copied },
        )

    item_after_lem :
        (rounds : ℕ) (c d : ParsingContext) (comments : List CommentLine)
        (r : Result Bytes (PositionedHttpRequestLine × ParsingContext))
        → IsAt source c
        → Advances 0 c d
        → All EndsInside comments
        → Gives (ReadsLine lib laws source d) r
        → ReadsBlock c (item_after lib rounds comments r)
    item_after_lem rounds c d comments (err m) at a h k = tt
    item_after_lem rounds c d comments (ok (line, e)) at a h (b, l) =
        let on = then_on (then_on a b) (consume_end_of_line-Advances lib laws e) in
        let i : IsItem (opened_item lib comments line) = record {
          comments = h;
          line = l;
          heads = tt;
          copied = record { inside = omega arith; copied = refl };
        } in
        finish_item_lem c _ at
          (OnSome-from _ on (header_lines_lem rounds _ _ (Advances-IsAt on at) i))

    pub item_parser_lem :
        (rounds : ℕ) (c : ParsingContext)
        → IsAt source c
        → ReadsBlock c (http_request_file_item_parser lib rounds c)
    unfolding http_request_file_item_parser
    item_parser_lem rounds c at =
        let blank = skip_blank_lines-Advances c in
        let (on, noted) =
          parse_comment_lines_lem (skip_blank_lines lib c) [] (Advances-IsAt blank at) tt in
        let there' = then_on blank on in
        item_after_lem rounds c _ _ _ at there' noted
          (http_request_line_parser-Gives lib laws source _ (Advances-IsAt there' at))
