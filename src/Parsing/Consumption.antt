-- ===== src/Parsing/Consumption.antt =====
-- What the parsers of http/parser and helpers consume.
use http_stack_lens.Base.{
  ℕ, ◌≤◌, ◌≡◌, arith, Option, none, some, Bytes, codes, length, take, contains, Bool-cases, inl,
  inr, ◌==◌, sym, refl, Result, ok, err, ok≢err,
}
use http_stack_lens.Http.Messages.{parse_http_method}
use http_stack_lens.Parsing.{ParsingContext, Url, Library, Advances, Consumes, IsLibrary}
use http_stack_lens.Parsing.Advance.{
  arrive, forward-Advances, Advances-weaken, or_else-Consumes, string_match-Consumes,
}
use http_stack_lens.Parsing.Http.{
  new_line_parser, url_text_length, index_or, trim_end, cut_space, url_parser, version_parser,
  enriched_url_parser, http_method_parser, parsed_url, known_method, method_of, spaces_parser,
}

module _ (lib : Library) (laws : IsLibrary lib) where
  weak_match : (t : Bytes) → Consumes 0 (lib.string_match t)
  weak_match t c v d h = Advances-weaken (omega arith) (string_match-Consumes lib laws t c v d h)

  pub new_line_parser-Consumes : Consumes 0 (new_line_parser lib)
  unfolding new_line_parser
  new_line_parser-Consumes = or_else-Consumes lib laws 0 _ _ (weak_match _) (weak_match _)

  pub version_parser-Consumes : Consumes 0 (version_parser lib)
  unfolding version_parser
  version_parser-Consumes = laws.map-Consumes 0 _ _ (
      laws.right-Consumes _ _ laws.spaces-Consumes (
        laws.right-Consumes _ _ (weak_match _) (
          laws.combine-Consumes _ _ laws.integer-Consumes
            (laws.right-Consumes _ _ (laws.one_char-Consumes _) laws.integer-Consumes))))

  index_or-le :
      (n k : ℕ) (o : Option ℕ) → ((i : ℕ) → o ≡ some i → i ≤ n) → k ≤ n → index_or lib k o ≤ n
  index_or-le n k none h b = b
  index_or-le n k (some i) h b = h i refl

  pub url_text_length-le : (s : Bytes) → url_text_length lib s ≤ length s
  unfolding url_text_length
  url_text_length-le s =
      index_or-le (length s) _ _ (laws.index_of-le s _)
        (index_or-le (length s) _ _ (laws.index_of-le s _) (omega arith))

  url_tail :
      (n : ℕ) (c : ParsingContext) (r : Result Bytes Url) (v : Url) (d : ParsingContext)
      → n ≤ length c.remaining
      → parsed_url lib n c r ≡ ok (v, d)
      → Advances n c d
  url_tail n c (err m) v d b h = ok≢err (sym h)
  url_tail n c (ok u) v d b h = arrive h (forward-Advances lib laws c n b)

  pub url_parser-Consumes : Consumes 0 (url_parser lib)
  unfolding url_parser
  url_parser-Consumes c v d h =
      let n = url_text_length lib c.remaining in
      let t = trim_end cut_space (take n c.remaining) in
      elim (Bool-cases (n == 0)) [
        | inl e ↦ ok≢err (sym (rw e at h))
        | inr e ↦ elim (Bool-cases (contains t (codes "://"))) [
          | inl f ↦
              Advances-weaken (omega arith) (
                url_tail n c (lib.parse_url t) v d (url_text_length-le c.remaining)
                  (rw (e, f) at h))
          | inr f ↦ ok≢err (sym (rw (e, f) at h))
        ]
      ]

  method_tail :
      (c d e : ParsingContext) (input v : Bytes) (o : Option Bytes)
      → Advances 0 c e
      → known_method lib input e o ≡ ok (v, d)
      → Advances 0 c d
  method_tail c d e input v none a h = ok≢err (sym h)
  method_tail c d e input v (some verb) a h = arrive h a

  method_end :
      (c d : ParsingContext) (v : Bytes) (r : Result Bytes (Bytes × ParsingContext))
      → ((w : Bytes) (e : ParsingContext) → r ≡ ok (w, e) → Advances 0 c e)
      → method_of lib r ≡ ok (v, d)
      → Advances 0 c d
  method_end c d v (err m) a h = ok≢err (sym h)
  method_end c d v (ok (w, e)) a h = method_tail c d e w v (parse_http_method w) (a w e refl) h

  pub http_method_parser-Consumes : Consumes 0 (http_method_parser lib)
  unfolding http_method_parser spaces_parser
  http_method_parser-Consumes c v d h =
      method_end c d v _
        (laws.left-Consumes _ _ (laws.map-Consumes 0 _ _ laws.many_alphanumeric-Consumes)
          laws.spaces-Consumes c)
        h

  pub enriched_url_parser-Consumes : Consumes 0 (enriched_url_parser lib)
  unfolding enriched_url_parser
  enriched_url_parser-Consumes = laws.map-Consumes 0 _ _ url_parser-Consumes
