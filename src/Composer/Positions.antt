-- ===== src/Composer/Positions.antt =====
-- composer/http_file_parser.go: where contexts and spans lie in the source.
use http_stack_lens.Base.{
  ℕ, zero, suc, ◌+◌, ◌-◌, ◌≤◌, ◌<◌, ◌≡◌, refl, sym, ap, ◌∙◌, arith, [], ◌∷◌, Bytes, length, take,
  drop, Bool, true, false, ◌==◌, drop-drop, length-take, length-drop, drop-take, take-take,
  drop_nil, take_all, if◌then◌else◌, Bool-cases, inl, inr, ltb, ltb→lt, ltb-false→le,
}
use http_stack_lens.Parsing.{ParsingContext, Library, Advances, IsLibrary}
use http_stack_lens.Parsing.Http.{trim_end, rejoin_cut, is_one_of}
use http_stack_lens.Composer.{PositionedText}
use http_stack_lens.Composer.Highlight.{slice_of}
use http_stack_lens.Composer.Grammar.{lead, tail_end, Span, span_of, positioned_source}

-- The context stands at its offset in the source.
pub record IsAt (source : Bytes) (c : ParsingContext) : Type 0 where
  pub inside : c.position.offset ≤ length source
  pub ahead : c.remaining ≡ drop c.position.offset source

-- The span ends in the source, and its text is what the source has there.
pub record Copies (source : Bytes) (t : PositionedText Bytes) : Type 0 where
  pub inside : t.end.offset ≤ length source
  pub copied : t.text ≡ slice_of source t.start.offset t.end.offset

pub Advances-IsAt :
    {n : ℕ} {source : Bytes} {c d : ParsingContext} → Advances n c d → IsAt source c → IsAt source d
Advances-IsAt {source} {c} {d} a at = record {
  inside = omega (
    arith,
    a.ahead.moved,
    a.ahead.within,
    ap length at.ahead,
    length-drop c.position.offset source,
    at.inside,
  );
  ahead =
      a.ahead.rest
      ∙ ap (drop a.count) at.ahead
      ∙ drop-drop c.position.offset a.count source
      ∙ ap (λ (n : ℕ). drop n source) (sym a.ahead.moved);
}

lead-le : (s : Bytes) → lead s ≤ length s
unfolding lead
lead-le [] = omega arith
lead-le (c ∷ s) = ground (arith, lead-le s)

pub length-trim_end : (cutset s : Bytes) → length (trim_end cutset s) ≤ length s
unfolding trim_end
length-trim_end cutset [] = omega arith
length-trim_end cutset (c ∷ s) =
    rejoined (is_one_of cutset c) (trim_end cutset s) (length-trim_end cutset s)
  where
    rejoined :
        (cut : Bool) (t : Bytes)
        → length t ≤ length s
        → length (rejoin_cut cut c t) ≤ suc (length s)
    rejoined true [] h = omega arith
    rejoined false [] h = omega arith
    rejoined cut (d ∷ t) h = omega arith

-- What is trimmed on the right is a prefix.
pub take-trim_end : (cutset s : Bytes) → take (length (trim_end cutset s)) s ≡ trim_end cutset s
unfolding trim_end
take-trim_end cutset [] = refl
take-trim_end cutset (c ∷ s) =
    rejoined (is_one_of cutset c) (trim_end cutset s) (take-trim_end cutset s)
  where
    rejoined :
        (cut : Bool) (t : Bytes)
        → take (length t) s ≡ t
        → take (length (rejoin_cut cut c t)) (c ∷ s) ≡ rejoin_cut cut c t
    rejoined true [] h = refl
    rejoined false [] h = refl
    rejoined cut (d ∷ t) h = ap (◌∷◌ c) h

-- The text is empty, or its last line has its line break.
unfoldable pub ends_line : Bytes → Bool
ends_line [] = true
ends_line (c ∷ []) = c == 10
ends_line (c ∷ d ∷ s) = ends_line (d ∷ s)

-- The length of the line break at the end of a text.
abbrev pub final_break : Bytes → ℕ
final_break [] = 0
final_break (c ∷ s) = if ends_line (c ∷ s) then 1 else 0

final_break-le : (s : Bytes) → final_break s ≤ 1
final_break-le [] = omega arith
final_break-le (c ∷ s) = ground arith

final_break_none : (s : Bytes) → ends_line s ≡ false → final_break s ≡ 0
final_break_none [] h = refl
final_break_none (c ∷ s) h = rw h refl

pub ends_line-drop : (n : ℕ) (s : Bytes) → ends_line s ≡ true → ends_line (drop n s) ≡ true
unfolding ends_line
ends_line-drop zero s h = h
ends_line-drop (suc n) [] h = refl
ends_line-drop (suc n) (c ∷ []) h = rw (drop_nil {0} n) refl
ends_line-drop (suc n) (c ∷ d ∷ s) h = ends_line-drop n (d ∷ s) h

lead-lt : (s : Bytes) → ends_line s ≡ true → 0 < length s → lead s < length s
unfolding ends_line lead
lead-lt [] h k = absurd (omega arith)
lead-lt (c ∷ []) h k = ground arith
lead-lt (c ∷ d ∷ s) h k = ground (arith, lead-lt (d ∷ s) h (omega arith))

trim_end-lt :
    (cutset s : Bytes)
    → is_one_of cutset 10 ≡ true
    → ends_line s ≡ true
    → 0 < length s
    → length (trim_end cutset s) < length s
unfolding ends_line trim_end
trim_end-lt cutset [] b h k = absurd (omega arith)
trim_end-lt cutset (c ∷ []) b h k = let same : c ≡ 10 = ground arith in rw (same, b) (omega arith)
trim_end-lt cutset (c ∷ d ∷ s) b h k =
    rejoined (is_one_of cutset c) (trim_end cutset (d ∷ s))
      (trim_end-lt cutset (d ∷ s) b h (omega arith))
  where
    rejoined :
        (cut : Bool) (t : Bytes)
        → length t < suc (length s)
        → length (rejoin_cut cut c t) < suc (suc (length s))
    rejoined true [] l = omega arith
    rejoined false [] l = omega arith
    rejoined cut (e ∷ t) l = omega arith

-- A part of a part.
slice-take :
    (from to k : ℕ) (s : Bytes)
    → from ≤ to
    → to ≤ k
    → take (to - from) (drop from (take k s)) ≡ take (to - from) (drop from s)
slice-take from to k s h b =
    rw (drop-take from k s (omega arith))
      (take-take (to - from) (k - from) (drop from s) (omega arith))

tail_end-le :
    (s cut_right : Bytes) (from : ℕ)
    → from ≤ length s
    → (from ≤ tail_end s from cut_right) × (tail_end s from cut_right ≤ length s)
unfolding tail_end
tail_end-le s cut_right from h =
    omega (arith, length-trim_end cut_right (drop from s), length-drop from s)

-- A span between two places of what was consumed.
record Spans (c : ParsingContext) (k : ℕ) (s : Span) : Type 0 where
  from : ℕ
  to : ℕ
  order : from ≤ to
  bound : to ≤ k
  start_at : s.start.offset ≡ c.position.offset + from
  end_at : s.end.offset ≡ c.position.offset + to
  text_at : s.text ≡ take (to - from) (drop from c.remaining)

slice_at :
    (source : Bytes) (offset from to start end : ℕ) (rest : Bytes)
    → rest ≡ drop offset source
    → start ≡ offset + from
    → end ≡ offset + to
    → take (to - from) (drop from rest) ≡ slice_of source start end
slice_at source offset from to start end rest at s e =
    let same : end - start ≡ to - from = omega arith in
    rw (at, same, s) (ap (take (to - from)) (drop-drop offset from source))

module _ (lib : Library) (laws : IsLibrary lib) where
  span_of-Spans :
      {n : ℕ} (c d : ParsingContext) (cut_right : Bytes) (a : Advances n c d)
      → Spans c a.count (span_of lib c d cut_right)
  unfolding span_of
  span_of-Spans c d cut_right a =
      let k = d.position.offset - c.position.offset in
      let consumed = take k c.remaining in
      let same : k ≡ a.count = omega (arith, a.ahead.moved) in
      let size : length consumed ≡ a.count =
        omega (arith, length-take k c.remaining, a.ahead.within) in
      let first = lead consumed in
      let last = tail_end consumed first cut_right in
      let places = tail_end-le consumed cut_right first (lead-le consumed) in
      record {
        from = first;
        to = last;
        order = places.0;
        bound = omega arith;
        start_at =
            omega (
              arith,
              laws.offset-move c.position (take first consumed),
              length-take first consumed,
            );
        end_at =
            omega
              (arith, laws.offset-move c.position (take last consumed), length-take last consumed);
        text_at = slice-take first last k c.remaining places.0 (omega arith);
      }

  pub span_of_bounds :
      {n : ℕ} (c d : ParsingContext) (cut_right : Bytes)
      → Advances n c d
      → ((span_of lib c d cut_right).start.offset ≤ (span_of lib c d cut_right).end.offset)
        × ((span_of lib c d cut_right).end.offset ≤ d.position.offset)
  span_of_bounds c d cut_right a =
      let s = span_of-Spans c d cut_right a in
      omega (arith, s.order, s.bound, s.start_at, s.end_at, a.ahead.moved)

  pub positioned_source-Copies :
      {n : ℕ} (source : Bytes) (c d : ParsingContext) (cut_right : Bytes)
      → IsAt source c
      → Advances n c d
      → Copies source (positioned_source lib c d cut_right)
  unfolding positioned_source
  positioned_source-Copies source c d cut_right at a =
      let s = span_of-Spans c d cut_right a in
      record {
        inside = omega (arith, (Advances-IsAt a at).inside, span_of_bounds c d cut_right a);
        copied =
            s.text_at
            ∙ slice_at source c.position.offset s.from s.to _ _ c.remaining at.ahead s.start_at
                s.end_at;
      }

  -- A span that would end with the text ends before its last line break.
  pub span_of_inner :
      {n : ℕ} (c d : ParsingContext) (cut_right : Bytes)
      → is_one_of cut_right 10 ≡ true
      → ends_line c.remaining ≡ true
      → 0 < length c.remaining
      → (a : Advances n c d) → a.count ≡ length c.remaining
      → (span_of lib c d cut_right).end.offset < d.position.offset
  unfolding span_of tail_end
  span_of_inner c d cut_right b h k a all =
      let n = d.position.offset - c.position.offset in
      let same : n ≡ length c.remaining = omega (arith, a.ahead.moved) in
      let whole : take n c.remaining ≡ c.remaining = take_all n c.remaining (omega arith) in
      let first = lead c.remaining in
      let left : 0 < length (drop first c.remaining) =
        omega (arith, length-drop first c.remaining, lead-lt c.remaining h k) in
      let size = tail_end-le c.remaining cut_right first (lead-le c.remaining) in
      let to = first + length (trim_end cut_right (drop first c.remaining)) in
      let shorter : to < length c.remaining = omega (
        arith,
        length-drop first c.remaining,
        lead-le c.remaining,
        trim_end-lt cut_right (drop first c.remaining) b (ends_line-drop first c.remaining h) left,
      ) in
      rw whole (
        omega (
          arith,
          laws.offset-move c.position (take to c.remaining),
          length-take to c.remaining,
          a.ahead.moved,
        ))

  -- It leaves the last line break of the source out.
  pub span_of_final :
      {n : ℕ} (source : Bytes) (c d : ParsingContext) (cut_right : Bytes)
      → is_one_of cut_right 10 ≡ true
      → IsAt source c
      → 0 < length c.remaining
      → Advances n c d
      → (span_of lib c d cut_right).end.offset + final_break source ≤ length source
  span_of_final source c d cut_right b at k a =
      let bound = (span_of_bounds c d cut_right a).1 in
      let inside = (Advances-IsAt a at).inside in
      let left = length-drop c.position.offset source in
      elim (Bool-cases (ends_line source)) [
        | inr e ↦ omega (arith, final_break_none source e)
        | inl e ↦ elim (Bool-cases (ltb d.position.offset (length source))) [
          | inl f ↦ omega (arith, final_break-le source, ltb→lt _ _ f)
          | inr f ↦
              let all : a.count ≡ length c.remaining =
                omega (arith, a.ahead.moved, ltb-false→le _ _ f, ap length at.ahead) in
              let ends : ends_line c.remaining ≡ true =
                ap ends_line at.ahead ∙ ends_line-drop c.position.offset source e in
              omega (arith, final_break-le source, span_of_inner c d cut_right b ends k a all)
        ]
      ]
