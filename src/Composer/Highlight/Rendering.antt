-- ===== src/Composer/Highlight/Rendering.antt =====
-- composer/highlight.go: what a browser shows of the markup.
use http_stack_lens.Base.{
  ℕ, ◌+◌, ◌-◌, ◌≤◌, ◌≡◌, refl, sym, ap, ◌∙◌, arith, Bool-cases, inl, inr, some, List, [], ◌∷◌, ◌++◌,
  Bytes, codes, length, drop, equal, ltb, ◌==◌, if◌then◌else◌, append_assoc, drop-drop,
  take-append-drop, take_all, length-drop,
}
use http_stack_lens.Composer.Highlight.{
  Token, TokenKind, kind_text, write_escaped, slice_of, slice, gap, marked, render,
}
use http_stack_lens.Composer.Highlight.Tokens.{IsOrdered}

-- Where a reader of markup stands: in text, in a tag, or in the name of an entity.
pub data Place : Type 0 where
  in_text in_tag : Place
  in_entity : Bytes → Place

abbrev pub entity : Bytes → Bytes
entity name =
    if equal name (codes "amp")
    then codes "&"
    else if equal name (codes "lt")
    then codes "<"
    else if equal name (codes "gt")
    then codes ">"
    else []

-- The text of a piece of markup: without its tags, and its entities decoded.
unfoldable pub shown : Place → Bytes → Bytes
shown place [] = []
shown in_text (c ∷ s) =
    let tagged = shown in_tag s in
    let named = shown (in_entity []) s in
    let further = shown in_text s in
    if c == b'<' then tagged else if c == b'&' then named else c ∷ further
shown in_tag (c ∷ s) =
    let tagged = shown in_tag s in
    let further = shown in_text s in if c == b'>' then further else tagged
shown (in_entity name) (c ∷ s) =
    let named = shown (in_entity (name ++ c ∷ [])) s in
    let further = shown in_text s in if c == b';' then entity name ++ further else named

shown-write_escaped :
    (runes rest : Bytes) → shown in_text (write_escaped runes ++ rest) ≡ runes ++ shown in_text rest
unfolding shown write_escaped equal
shown-write_escaped [] rest = refl
shown-write_escaped (c ∷ runes) rest = ground (arith, shown-write_escaped runes rest)

shown_closing :
    (text rest : Bytes)
    → shown in_text ((write_escaped text ++ codes "</span>") ++ rest) ≡ text ++ shown in_text rest
unfolding shown
shown_closing text rest =
    ap (shown in_text) (append_assoc (write_escaped text) (codes "</span>") rest)
    ∙ shown-write_escaped text (codes "</span>" ++ rest)

shown-marked :
    (kind : TokenKind) (text rest : Bytes)
    → shown in_text (marked kind text ++ rest) ≡ text ++ shown in_text rest
unfolding shown kind_text
shown-marked TokenKind.separator text rest = shown_closing text rest
shown-marked TokenKind.comment text rest = shown_closing text rest
shown-marked TokenKind.variable text rest = shown_closing text rest
shown-marked TokenKind.method text rest = shown_closing text rest
shown-marked TokenKind.target text rest = shown_closing text rest
shown-marked TokenKind.version text rest = shown_closing text rest
shown-marked TokenKind.header text rest = shown_closing text rest
shown-marked TokenKind.value text rest = shown_closing text rest
shown-marked TokenKind.body text rest = shown_closing text rest
shown-marked TokenKind.placeholder text rest = shown_closing text rest

slice_of_split :
    (runes : Bytes) (from mid : ℕ)
    → from ≤ mid
    → slice_of runes from mid ++ drop mid runes ≡ drop from runes
slice_of_split runes from mid h =
    let same : from + (mid - from) ≡ mid = omega arith in
    ap (λ (rest : Bytes). slice_of runes from mid ++ rest)
      (sym (drop-drop from (mid - from) runes ∙ ap (λ (n : ℕ). drop n runes) same))
    ∙ take-append-drop (mid - from) (drop from runes)

slice-some :
    (runes : Bytes) (from to : ℕ)
    → from ≤ to
    → to ≤ length runes
    → slice runes from to ≡ some (slice_of runes from to)
unfolding slice
slice-some runes from to h k = ground arith

gap-some :
    (runes : Bytes) (cursor start : ℕ)
    → cursor ≤ start
    → start ≤ length runes
    → gap runes cursor start ≡ some (slice_of runes cursor start)
gap-some runes cursor start h k = elim (Bool-cases (ltb cursor start)) [
  | inl e ↦ rw e (slice-some runes cursor start h k)
  | inr e ↦ let same : start - cursor ≡ 0 = ground arith in rw (e, same) refl
]

IsOrdered-le : (from to : ℕ) (xs : List Token) → IsOrdered from to xs → from ≤ to
IsOrdered-le from to [] h = h
IsOrdered-le from to (t ∷ xs) (e, f, h) = omega (arith, IsOrdered-le t.end to xs h)

shown_piece :
    (before text : Bytes) (kind : TokenKind) (rest : Bytes)
    → shown in_text (write_escaped before ++ (marked kind text ++ rest))
      ≡ before ++ (text ++ shown in_text rest)
shown_piece before text kind rest =
    shown-write_escaped before (marked kind text ++ rest)
    ∙ ap (λ (s : Bytes). before ++ s) (shown-marked kind text rest)

joined_back :
    (runes : Bytes) (from mid to : ℕ)
    → from ≤ mid
    → mid ≤ to
    → slice_of runes from mid ++ (slice_of runes mid to ++ (drop to runes ++ 10 ∷ []))
      ≡ drop from runes ++ 10 ∷ []
joined_back runes from mid to h k =
    simp (← append_assoc, slice_of_split runes mid to k, slice_of_split runes from mid h)

-- What is rendered of ordered tokens shows the rest of the source, and a line break.
pub shown-render :
    (runes : Bytes) (cursor : ℕ) (tokens : List Token)
    → IsOrdered cursor (length runes) tokens
    → (html : Bytes) × (render runes cursor tokens ≡ some html)
      × (shown in_text html ≡ drop cursor runes ++ 10 ∷ [])
unfolding render shown
shown-render runes cursor [] h =
    let all = slice_of runes cursor (length runes) in
    let rest : all ≡ drop cursor runes =
      take_all (length runes - cursor) (drop cursor runes)
        (omega (arith, length-drop cursor runes)) in
    (
      write_escaped all ++ 10 ∷ [],
      rw (slice-some runes cursor (length runes) h (omega arith), render) refl,
      shown-write_escaped all (10 ∷ []) ∙ ap (λ (s : Bytes). s ++ 10 ∷ []) rest,
    )
shown-render runes cursor (t ∷ tokens) (e, f, h) =
    let last = IsOrdered-le t.end (length runes) tokens h in
    let (html, rendered, shows) = shown-render runes t.end tokens h in
    let before = slice_of runes cursor t.start in
    let text = slice_of runes t.start t.end in
    (
      write_escaped before ++ (marked t.kind text ++ html),
      rw
          (
            gap-some runes cursor t.start e (omega arith),
            slice-some runes t.start t.end (omega arith) last,
            rendered,
            render,
          )
          refl,
      shown_piece before text t.kind html
          ∙ ap (λ (s : Bytes). before ++ (text ++ s)) shows
          ∙ joined_back runes cursor t.start t.end e (omega arith),
    )
