-- ===== src/Composer/Files.antt =====
-- composer/http_file_scan.go: where the spans of a whole file lie in its source.
use mathlib.Core.Path.{subst}
use http_stack_lens.Base.{
  ℕ, zero, suc, ◌<◌, ◌≡◌, refl, arith, inl, inr, Bool-cases, Option-cases, [], ◌∷◌, ◌++◌, Bytes,
  length, not, ◌&&◌, ltb, Option, none, some, Result, ok, err, ltb→lt,
}
use http_stack_lens.Parsing.{ParsingContext, Library, Advances, IsLibrary}
use http_stack_lens.Parsing.Advance.{Advances-refl}
use http_stack_lens.Parsing.Http.{cut_space}
use http_stack_lens.Composer.{FileVariable, HttpRequestFileItem, HttpFile}
use http_stack_lens.Composer.Grammar.{separator, starts_with, read_line, skip_blank_lines}
use http_stack_lens.Composer.Scan.{
  new_file, no_progress, skip_lines, skip_unreadable_block, unreadable, with_item, item_round,
  variable_round, scan_round, scan, parse_http_file,
}
use http_stack_lens.Composer.Positions.{IsAt, Advances-IsAt, span_of_final}
use http_stack_lens.Composer.Reading.{
  Gives, then_on, read_line-Advances, read_line-Advances_more, length-at_end,
  consume_end_of_line-Advances, ReadsVariable, file_variable_parser-Gives,
}
use http_stack_lens.Composer.Blocks.{
  All, All-snoc, OnSome, IsVariable, IsItem, IsIssue, ReadsItem, ReadsBlock,
  skip_blank_lines-Advances, item_parser_lem,
}

pub OnSome-at : {A : Type 0} (P : A → Type 0) {o : Option A} {a : A} → o ≡ some a → OnSome P o → P a
OnSome-at P {o} {a} e h = subst (OnSome P) e h

module _ (lib : Library) (laws : IsLibrary lib) where
  pub new_context-IsAt : (source : Bytes) → IsAt source (lib.new_parsing_context source)
  new_context-IsAt source = record {
    inside = omega (arith, laws.new_offset source);
    ahead = rw (laws.new_offset source) (laws.new_remaining source);
  }

  skip_lines-Advances : (rounds : ℕ) (c : ParsingContext) → Advances 0 c (skip_lines lib rounds c)
  unfolding skip_lines
  skip_lines-Advances zero c = Advances-refl c
  skip_lines-Advances (suc rounds) c =
      elim (Bool-cases (not (lib.at_end c) && not (starts_with c separator))) [
        | inl e ↦ rw e (
            then_on (read_line-Advances lib laws c)
              (skip_lines-Advances rounds (read_line lib c).1))
        | inr e ↦ rw e (Advances-refl c)
      ]

  skip_unreadable_block-Advances :
      (c : ParsingContext) (message : Bytes)
      → 0 < length c.remaining
      → Advances 1 c (skip_unreadable_block lib c message).1
  unfolding skip_unreadable_block
  skip_unreadable_block-Advances c message h =
      then_on (read_line-Advances_more lib laws c h) (skip_lines-Advances _ _)

  module _ (source : Bytes) where
    -- Every span ends in the source, and the texts that are carried as they are written are what the source has between their offsets.
    pub record IsFile (file : HttpFile) : Type 0 where
      pub variables : All (IsVariable lib laws source) file.variables
      pub requests : All (IsItem lib laws source) file.requests
      pub issues : All (IsIssue lib laws source) file.issues

    abbrev pub Round : ParsingContext → HttpFile × ParsingContext → Type 0
    Round c r = IsFile r.0 × Advances 1 c r.1

    skip_unreadable_block-IsIssue :
        (c : ParsingContext) (message : Bytes)
        → IsAt source c
        → 0 < length c.remaining
        → IsIssue lib laws source (skip_unreadable_block lib c message).0
    unfolding skip_unreadable_block
    skip_unreadable_block-IsIssue c message at h =
        let on =
          then_on (read_line-Advances_more lib laws c h) (
            skip_lines-Advances (suc (length (read_line lib c).1.remaining)) (read_line lib c).1) in
        span_of_final lib laws source c _ (cut_space ++ 10 ∷ []) refl at h on

    unreadable-Round :
        (file : HttpFile) (c : ParsingContext) (message : Bytes)
        → IsAt source c
        → 0 < length c.remaining
        → IsFile file
        → Round c (unreadable lib file c message)
    unreadable-Round file c message at h f = (
      record {
        variables = f.variables;
        requests = f.requests;
        issues =
            All-snoc (IsIssue lib laws source) file.issues _ f.issues
              (skip_unreadable_block-IsIssue c message at h);
      },
      skip_unreadable_block-Advances c message h,
    )

    with_item-Round :
        (file : HttpFile) (c : ParsingContext) (item : HttpRequestFileItem) (d : ParsingContext)
        → IsAt source c
        → 0 < length c.remaining
        → IsFile file
        → ReadsItem lib laws source c (item, d)
        → Round c (with_item lib file c item d)
    with_item-Round file c item d at h f (a, i) =
        elim (Bool-cases (ltb c.position.offset d.position.offset)) [
          | inl e ↦
              rw (e, Round)
                (
                  record {
                    variables = f.variables;
                    requests = All-snoc (IsItem lib laws source) file.requests item f.requests i;
                    issues = f.issues;
                  },
                  record {
                    count = a.count;
                    at_least = omega (arith, ltb→lt _ _ e, a.ahead.moved);
                    ahead = a.ahead;
                  },
                )
          | inr e ↦ rw (e, Round) (unreadable-Round file c no_progress at h f)
        ]

    item_round_lem :
        (file : HttpFile) (c : ParsingContext)
        (o : Option (Result Bytes (HttpRequestFileItem × ParsingContext)))
        → IsAt source c
        → 0 < length c.remaining
        → IsFile file
        → ReadsBlock lib laws source c o
        → OnSome (Round c) (item_round lib file c o)
    item_round_lem file c none at h f k = tt
    item_round_lem file c (some (ok (item, d))) at h f k = with_item-Round file c item d at h f k
    item_round_lem file c (some (err m)) at h f k = unreadable-Round file c m at h f

    variable_round_lem :
        (rounds : ℕ) (file : HttpFile) (c : ParsingContext)
        (r : Result Bytes (FileVariable × ParsingContext))
        → IsAt source c
        → 0 < length c.remaining
        → IsFile file
        → Gives (ReadsVariable lib laws source c) r
        → OnSome (Round c) (variable_round lib rounds file c r)
    variable_round_lem rounds file c (ok (v, d)) at h f (a, n, k) = (
      record {
        variables = All-snoc (IsVariable lib laws source) file.variables v f.variables (n, k);
        requests = f.requests;
        issues = f.issues;
      },
      then_on a (consume_end_of_line-Advances lib laws d),
    )
    variable_round_lem rounds file c (err m) at h f k =
        item_round_lem file c _ at h f (item_parser_lem lib laws source rounds c at)

    pub scan_round_lem :
        (rounds : ℕ) (file : HttpFile) (c : ParsingContext)
        → IsAt source c
        → 0 < length c.remaining
        → IsFile file
        → OnSome (Round c) (scan_round lib rounds file c)
    unfolding scan_round
    scan_round_lem rounds file c at h f =
        variable_round_lem rounds file c _ at h f (file_variable_parser-Gives lib laws source c at)

    scan-IsFile :
        (rounds left : ℕ) (file : HttpFile) (c : ParsingContext)
        → IsAt source c
        → IsFile file
        → OnSome IsFile (scan lib rounds left file c)
    unfolding scan
    scan-IsFile rounds zero file c at f = tt
    scan-IsFile rounds (suc left) file c at f =
        let next = skip_blank_lines lib c in
        let at' = Advances-IsAt (skip_blank_lines-Advances lib laws c) at in
        elim (Bool-cases (lib.at_end next)) [
          | inl e ↦ rw (e, OnSome) f
          | inr e ↦ elim (Option-cases (scan_round lib rounds file next)) [
            | inl g ↦ rw (e, g, OnSome) tt
            | inr ((file', d), g) ↦
                let (f', a) =
                  OnSome-at (Round next) g
                    (scan_round_lem rounds file next at' (length-at_end lib laws next e) f) in
                rw (e, g) (scan-IsFile rounds left file' d (Advances-IsAt a at') f')
          ]
        ]

    -- In what a scan returns every span ends in the source, an issue before its last line break, and
    -- the values of variables, the targets, the names and values of headers and the bodies are what
    -- the source has between the offsets of their spans.
    pub parse_http_file-IsFile :
        (rounds : ℕ) (file : HttpFile) → parse_http_file lib rounds source ≡ some file → IsFile file
    unfolding parse_http_file
    parse_http_file-IsFile rounds file h = OnSome-at IsFile h (
        scan-IsFile rounds rounds new_file _ (new_context-IsAt source)
          (record { variables = tt; requests = tt; issues = tt }))
