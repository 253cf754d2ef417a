-- ===== src/Composer/Reading.antt =====
-- composer/http_file_parser.go: what each parser consumes, and where the spans of its result lie.

use mathlib.Core.Path.{subst}
use http_stack_lens.Base.{
  ℕ, ◌-◌, ◌≤◌, ◌<◌, ◌≡◌, refl, sym, ◌∙◌, arith, inl, inr, Bool-cases, [], ◌∷◌, ◌++◌, Bytes, length,
  take, Bool, true, false, codes, Option, none, some, Result, ok, err, ◌>>=◌, length-take, contains,
}
use http_stack_lens.Http.Messages.{ResourceEndpoint}
use http_stack_lens.Parsing.{
  ParsingContext, Parser, Library, Advances, Consumes, IsLibrary, is_empty,
}
use http_stack_lens.Parsing.Advance.{
  Advances-trans, Advances-weaken, Advances-refl, forward-Advances, string_match-Consumes,
}
use http_stack_lens.Parsing.Consumption.{
  new_line_parser-Consumes, version_parser-Consumes, http_method_parser-Consumes,
  enriched_url_parser-Consumes,
}
use http_stack_lens.Parsing.Http.{
  in_line, trim_end, cut_space, spaces_parser, version_parser, http_method_parser,
  enriched_url_parser, new_line_parser,
}
use http_stack_lens.Composer.{
  CommentLine, FileVariable, PositionedHeader, PositionedHttpRequestLine,
}
use http_stack_lens.Composer.Grammar.{
  line_length, full_line_length, line_context, is_name_char, named, positioned, span_of,
  template_length, length_or, template_target_parser, resolve_target, request_target_parser,
  http_request_line_parser, file_variable_parser, comment_line_parser_of, positioned_header_parser,
  read_line, after_line, consume_end_of_line,
}
use http_stack_lens.Composer.Positions.{
  IsAt, Copies, Advances-IsAt, positioned_source-Copies, span_of_bounds,
}

-- What a parser that succeeds gives.
abbrev pub Gives :
    {A : Type 0} → (A × ParsingContext → Type 0) → Result Bytes (A × ParsingContext) → Type 0
Gives P (ok r) = P r
Gives P (err m) = Unit

pub Gives-bind :
    {A B : Type 0} (P : A × ParsingContext → Type 0) (Q : B × ParsingContext → Type 0)
    (r : Result Bytes (A × ParsingContext))
    (f : A × ParsingContext → Result Bytes (B × ParsingContext))
    → Gives P r
    → ((a : A × ParsingContext) → P a → Gives Q (f a))
    → Gives Q (r >>= f)
Gives-bind P Q (ok a) f h k = k a h
Gives-bind P Q (err m) f h k = tt

pub Gives-ok :
    {A : Type 0} (P : A × ParsingContext → Type 0) (r : Result Bytes (A × ParsingContext))
    (a : A × ParsingContext)
    → Gives P r
    → r ≡ ok a
    → P a
Gives-ok P (ok b) a h e = let same : b ≡ a = cc in subst P same h
Gives-ok P (err m) a h e = absurd cc

pub Gives-weaken :
    {A : Type 0} (P Q : A × ParsingContext → Type 0) (r : Result Bytes (A × ParsingContext))
    → ((a : A × ParsingContext) → P a → Q a)
    → Gives P r
    → Gives Q r
Gives-weaken P Q (ok a) f h = f a h
Gives-weaken P Q (err m) f h = tt

-- A step that may stay where it is.
pub then_on : {n : ℕ} {c d e : ParsingContext} → Advances n c d → Advances 0 d e → Advances n c e
then_on a b = Advances-weaken (omega arith) (Advances-trans a b)

-- A parser moves its context.
abbrev pub Moves : {A : Type 0} → ℕ → ParsingContext → A × ParsingContext → Type 0
Moves n c r = Advances n c r.1

pub Consumes-Gives :
    {A : Type 0} (n : ℕ) (p : Parser A) (c : ParsingContext)
    → Consumes n p
    → Gives (Moves n c) (p c)
Consumes-Gives {A} n p c h = of_result (p c) (h c)
  where
    of_result :
        (r : Result Bytes (A × ParsingContext))
        → ((v : A) (d : ParsingContext) → r ≡ ok (v, d) → Advances n c d)
        → Gives (Moves n c) r
    of_result (ok (v, d)) k = k v d refl
    of_result (err m) k = tt

pub line_length-le : (s : Bytes) → line_length s ≤ length s
unfolding line_length
line_length-le [] = omega arith
line_length-le (c ∷ s) = ground (arith, line_length-le s)

pub full_line_length-le : (s : Bytes) → full_line_length s ≤ length s
unfolding full_line_length
full_line_length-le s = ground (arith, line_length-le s)

full_line_length-pos : (s : Bytes) → 0 < length s → 0 < full_line_length s
unfolding full_line_length line_length
full_line_length-pos [] h = absurd (omega arith)
full_line_length-pos (c ∷ s) h = ground arith

module _ (lib : Library) (laws : IsLibrary lib) where
  pub read_line-Advances : (c : ParsingContext) → Advances 0 c (read_line lib c).1
  unfolding read_line
  read_line-Advances c =
      Advances-weaken (omega arith) (
        forward-Advances lib laws c (full_line_length c.remaining)
          (full_line_length-le c.remaining))

  pub read_line-Advances_more :
      (c : ParsingContext) → 0 < length c.remaining → Advances 1 c (read_line lib c).1
  unfolding read_line
  read_line-Advances_more c h =
      Advances-weaken (omega (arith, full_line_length-pos c.remaining h)) (
        forward-Advances lib laws c (full_line_length c.remaining)
          (full_line_length-le c.remaining))

  pub length-at_end : (c : ParsingContext) → lib.at_end c ≡ false → 0 < length c.remaining
  length-at_end c h = some_left c.remaining (sym (laws.at_end-is_empty c) ∙ h)
    where
      some_left : (s : Bytes) → is_empty s ≡ false → 0 < length s
      some_left [] e = absurd cc
      some_left (x ∷ s) e = omega arith

  pub consume_end_of_line-Advances : (c : ParsingContext) → Advances 0 c (consume_end_of_line lib c)
  unfolding consume_end_of_line
  consume_end_of_line-Advances c =
      after (new_line_parser lib c)
        (Consumes-Gives 0 (new_line_parser lib) c (new_line_parser-Consumes lib laws))
    where
      after :
          (r : Result Bytes (Bytes × ParsingContext))
          → Gives (Moves 0 c) r
          → Advances 0 c (after_line lib c r)
      after (ok (t, d)) h = h
      after (err m) h = Advances-refl c

  matched : (t : Bytes) (c : ParsingContext) → Gives (Moves (length t) c) (lib.string_match t c)
  matched t c = Consumes-Gives (length t) (lib.string_match t) c (string_match-Consumes lib laws t)

  many_of : (f : ℕ → Bool) (c : ParsingContext) → Gives (Moves 0 c) (lib.many_satisfy f c)
  many_of f c = Consumes-Gives 0 (lib.many_satisfy f) c (laws.many_satisfy-Consumes f)

  until_break :
      (c : ParsingContext)
      → Gives (Moves 0 c) (lib.until_text (lib.many_satisfy (λ x. true)) (10 ∷ []) false c)
  until_break c =
      Consumes-Gives 0 (lib.until_text (lib.many_satisfy (λ x. true)) (10 ∷ []) false) c
        (laws.until_text-Consumes _ _ (laws.many_satisfy-Consumes (λ x. true)))

  until_colon :
      (f : ℕ → Bool) (c : ParsingContext)
      → Gives (Moves 1 c) (lib.until_text (lib.many_satisfy f) (codes ":") true c)
  until_colon f c =
      Consumes-Gives 1 (lib.until_text (lib.many_satisfy f) (codes ":") true) c
        (laws.until_text-Consumes_delimiter _ _ (laws.many_satisfy-Consumes f))

  assigned :
      (c : ParsingContext)
      → Gives (Moves 0 c) (lib.right (spaces_parser lib) (lib.string_match (codes "=")) c)
  unfolding spaces_parser
  assigned c = Consumes-Gives 0 (lib.right (spaces_parser lib) (lib.string_match (codes "="))) c (
      laws.right-Consumes _ _ laws.spaces-Consumes (λ d v e h.
        Advances-weaken (omega arith) (string_match-Consumes lib laws (codes "=") d v e h)))

  named-Gives :
      (c : ParsingContext) (r : Result Bytes (Bytes × ParsingContext))
      → Gives (Moves 0 c) r
      → Gives (Moves 0 c) (named lib r)
  named-Gives c (err m) h = tt
  named-Gives c (ok ([], d)) h = tt
  named-Gives c (ok (x ∷ name, d)) h = h

  line_context-length :
      (c : ParsingContext) → length (line_context c).remaining ≤ length c.remaining
  unfolding line_context
  line_context-length c = omega (arith, length-take (line_length c.remaining) c.remaining)

  template_length-le : (line : Bytes) → template_length lib line ≤ length line
  unfolding template_length
  template_length-le line =
      found (lib.index_of line (codes " HTTP/")) (laws.index_of-le line (codes " HTTP/"))
    where
      found :
          (o : Option ℕ)
          → ((i : ℕ) → o ≡ some i → i ≤ length line)
          → length_or lib (length line) o ≤ length line
      found none h = omega arith
      found (some i) h = h i refl

  template_target_parser-Gives :
      (c : ParsingContext) → Gives (Moves 0 c) (template_target_parser lib c)
  unfolding template_target_parser
  template_target_parser-Gives c =
      let line = (line_context c).remaining in
      let n = template_length lib line in
      elim (Bool-cases (contains (trim_end cut_space (take n line)) (codes "{{"))) [
        | inl e ↦
            rw (e, Gives)
              (Advances-weaken (omega arith) (
                forward-Advances lib laws c n
                  (omega (arith, template_length-le line, line_context-length c))))
        | inr e ↦ rw (e, Gives) tt
      ]

  -- What is consumed of a line is consumed of the context.
  moved_in_line :
      (c d : ParsingContext)
      → Advances 0 (line_context c) d
      → d.position.offset - c.position.offset ≤ length c.remaining
  unfolding line_context
  moved_in_line c d a =
      omega
        (arith, a.ahead.moved, a.ahead.within, length-take (line_length c.remaining) c.remaining)

  request_target_parser-Gives :
      (c : ParsingContext) → Gives (Moves 0 c) (request_target_parser lib c)
  unfolding request_target_parser
  request_target_parser-Gives c = resolved (enriched_url_parser lib (line_context c)) (
      Consumes-Gives 0 (enriched_url_parser lib) (line_context c)
        (enriched_url_parser-Consumes lib laws))
    where
      resolved :
          (r : Result Bytes (ResourceEndpoint × ParsingContext))
          → Gives (Moves 0 (line_context c)) r
          → Gives (Moves 0 c) (resolve_target lib c r)
      resolved (ok (e, d)) h = Advances-weaken (omega arith) (
          forward-Advances lib laws c (d.position.offset - c.position.offset)
            (omega (arith, moved_in_line c d h)))
      resolved (err m) h = template_target_parser-Gives c

  module _ (source : Bytes) where
    abbrev pub ReadsComment : ℕ → ParsingContext → CommentLine × ParsingContext → Type 0
    ReadsComment n c r = Advances n c r.1 × (r.0.end.offset ≤ length source)

    abbrev pub ReadsVariable : ParsingContext → FileVariable × ParsingContext → Type 0
    ReadsVariable c r =
        Advances 1 c r.1 × (r.0.name.end.offset ≤ length source) × Copies source r.0.value

    abbrev pub ReadsHeader : ParsingContext → PositionedHeader × ParsingContext → Type 0
    ReadsHeader c r = Advances 1 c r.1 × Copies source r.0.name × Copies source r.0.value

    abbrev pub IsLine : PositionedHttpRequestLine → Type 0
    IsLine l =
        (l.http_method.end.offset ≤ length source)
        × Copies source l.target
        × (l.version.end.offset ≤ length source)

    abbrev pub ReadsLine : ParsingContext → PositionedHttpRequestLine × ParsingContext → Type 0
    ReadsLine c r = Advances 0 c r.1 × IsLine r.0

    -- A span of a stretch of the source ends in it.
    positioned_inside :
        {n : ℕ} (c d : ParsingContext) (cut_right : Bytes)
        → IsAt source c
        → Advances n c d
        → (span_of lib c d cut_right).end.offset ≤ length source
    positioned_inside c d cut_right at a =
        omega (arith, (span_of_bounds lib laws c d cut_right a).1, (Advances-IsAt a at).inside)

    pub comment_line_parser_of-Gives :
        (prefix : Bytes) (c : ParsingContext)
        → IsAt source c
        → Gives (ReadsComment (length prefix) c) (comment_line_parser_of lib prefix c)
    unfolding comment_line_parser_of positioned
    comment_line_parser_of-Gives prefix c at =
        Gives-bind (Moves (length prefix) c) (ReadsComment (length prefix) c) _ _ (matched prefix c)
          λ r a.
            Gives-bind (Moves 0 r.1) (ReadsComment (length prefix) c) _ _ (until_break r.1)
              λ q b. (then_on a b, positioned_inside c q.1 (13 ∷ []) at (then_on a b))

    pub file_variable_parser-Gives :
        (c : ParsingContext) → IsAt source c → Gives (ReadsVariable c) (file_variable_parser lib c)
    unfolding file_variable_parser
    file_variable_parser-Gives c at =
        Gives-bind (Moves 1 c) (ReadsVariable c) _ _ (matched (codes "@") c) λ r a.
          Gives-bind (Moves 0 r.1) (ReadsVariable c) _ _
            (named-Gives r.1 _ (many_of is_name_char r.1))
            λ q b. Gives-bind (Moves 0 q.1) (ReadsVariable c) _ _ (assigned q.1) λ p d.
              Gives-bind (Moves 0 p.1) (ReadsVariable c) _ _ (many_of in_line p.1) λ o e.
                let named_at = Advances-IsAt (then_on a b) at in
                let assigned_at = Advances-IsAt d named_at in
                (
                  then_on (then_on (then_on a b) d) e,
                  named_at.inside,
                  positioned_source-Copies lib laws source p.1 o.1 cut_space assigned_at e,
                )

    pub positioned_header_parser-Gives :
        (c : ParsingContext)
        → IsAt source c
        → Gives (ReadsHeader c) (positioned_header_parser lib c)
    unfolding positioned_header_parser
    positioned_header_parser-Gives c at =
        Gives-bind (Moves 1 c) (ReadsHeader c) _ _ (until_colon _ c) λ r a.
          Gives-bind (Moves 0 r.1) (ReadsHeader c) _ _ (many_of in_line r.1) λ q b. (
            then_on a b,
            positioned_source-Copies lib laws source c r.1 (cut_space ++ codes ":") at a,
            positioned_source-Copies lib laws source r.1 q.1 cut_space (Advances-IsAt a at) b,
          )

    pub http_request_line_parser-Gives :
        (c : ParsingContext) → IsAt source c → Gives (ReadsLine c) (http_request_line_parser lib c)
    unfolding http_request_line_parser positioned
    http_request_line_parser-Gives c at =
        Gives-bind (Moves 0 c) (ReadsLine c) _ _
          (Consumes-Gives 0 (http_method_parser lib) c (http_method_parser-Consumes lib laws))
          λ r a. Gives-bind (Moves 0 r.1) (ReadsLine c) _ _ (request_target_parser-Gives r.1) λ q b.
            Gives-bind (Moves 0 q.1) (ReadsLine c) _ _
              (Consumes-Gives 0 (lib.optional (version_parser lib)) q.1
                (laws.optional-Consumes _ (version_parser-Consumes lib laws)))
              λ p d. (
                then_on (then_on a b) d,
                (
                  positioned_inside c r.1 cut_space at a,
                  positioned_source-Copies lib laws source r.1 q.1 cut_space (Advances-IsAt a at) b,
                  positioned_inside q.1 p.1 cut_space (Advances-IsAt (then_on a b) at) d,
                ),
              )
