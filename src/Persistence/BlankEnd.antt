-- ===== src/Persistence/BlankEnd.antt =====
-- configuration/config_persistence.go: the empty line that the cut leaves at the end of a file.
use http_stack_lens.Base.{
  ℕ, ◌+◌, ◌≡◌, refl, sym, ap, ◌∙◌, inl, inr, true, false, not, ◌||◌, Bool-cases, Option, none, some,
  List, [], ◌∷◌, ◌++◌, Bytes, equal, leb, trim_space, append_assoc, trim_left, trim_right,
}
use http_stack_lens.Persistence.{
  Lines, join, leading_spaces, is_ignored, Section, Search, seeking, found, seen, push, closes,
  finish, find_section, is_removed, keep_lines, rebuilt, replace_section, joined,
}

join-append : (xs ys : Lines) → join (xs ++ ys) ≡ join xs ++ join ys
unfolding join
join-append [] ys = refl
join-append (x ∷ xs) ys =
    ap (λ (t : Bytes). x ++ t) (join-append xs ys) ∙ sym (append_assoc x (join xs) (join ys))

-- The empty line that the cut leaves at the end of a text.
abbrev blank_end : Lines → ℕ → Lines → Lines → Section
blank_end before indent inside [] = record {
  before = before;
  indent = indent;
  inside = inside ++ [] ∷ [];
  after = [];
}
blank_end before indent inside (a ∷ after) = record {
  before = before;
  indent = indent;
  inside = inside;
  after = (a ∷ after) ++ [] ∷ [];
}

abbrev with_blank : Option Section → Option Section
with_blank none = none
with_blank (some s) = some (blank_end s.before s.indent s.inside s.after)

ignored_blank : is_ignored [] ≡ true
unfolding is_ignored trim_space trim_left trim_right equal
ignored_blank = refl

kept_blank : (names : List Bytes) (indent : ℕ) → is_removed names indent [] ≡ false
unfolding is_removed
kept_blank names indent = rw ignored_blank refl

finish-blank_end :
    (place : Search) (line : Bytes) (lines : Lines)
    → finish place (line ∷ (lines ++ [] ∷ [])) ≡ with_blank (finish place (line ∷ lines))
finish-blank_end (seeking seen) line lines = refl
finish-blank_end (found before indent inside) line lines = refl

find_section-blank_end :
    (title : Bytes) (place : Search) (lines : Lines)
    → find_section title place (lines ++ [] ∷ []) ≡ with_blank (find_section title place lines)
unfolding find_section
find_section-blank_end title (seeking seen) [] = rw ignored_blank refl
find_section-blank_end title (found before indent inside) [] = rw ignored_blank refl
find_section-blank_end title place (line ∷ lines) = elim (Bool-cases (is_ignored line)) [
  | inl e ↦ rw (e, with_blank) (find_section-blank_end title (push place line) lines)
  | inr e ↦ elim (Bool-cases (equal (trim_space line) title)) [
    | inl f ↦
        rw (e, f, with_blank)
          (find_section-blank_end title (found (seen place ++ line ∷ []) (leading_spaces line) [])
            lines)
    | inr f ↦ elim (Bool-cases (closes place line)) [
      | inl g ↦ rw (e, f, g, with_blank) (finish-blank_end place line lines)
      | inr g ↦ rw (e, f, g, with_blank) (find_section-blank_end title (push place line) lines)
    ]
  ]
]

keep_lines-blank_end :
    (names : List Bytes) (indent : ℕ) (skipping : Option ℕ) (lines : Lines)
    → join (keep_lines names indent skipping (lines ++ [] ∷ []))
      ≡ join (keep_lines names indent skipping lines)
unfolding keep_lines join
keep_lines-blank_end names indent none [] = rw (kept_blank names indent) refl
keep_lines-blank_end names indent (some block) [] = rw ignored_blank refl
keep_lines-blank_end names indent none (line ∷ lines) =
    elim (Bool-cases (is_removed names indent line)) [
      | inl e ↦ rw (e, join) (keep_lines-blank_end names indent (some (leading_spaces line)) lines)
      | inr e ↦
          rw (e, join)
            (ap (λ (t : Bytes). line ++ t) (keep_lines-blank_end names indent none lines))
    ]
keep_lines-blank_end names indent (some block) (line ∷ lines) =
    elim (Bool-cases (is_ignored line || not (leb (leading_spaces line) block))) [
      | inl e ↦ rw (e, join) (keep_lines-blank_end names indent (some block) lines)
      | inr e ↦ elim (Bool-cases (is_removed names indent line)) [
        | inl f ↦
            rw (e, f, join) (keep_lines-blank_end names indent (some (leading_spaces line)) lines)
        | inr f ↦
            rw (e, f, join)
              (ap (λ (t : Bytes). line ++ t) (keep_lines-blank_end names indent none lines))
      ]
    ]

-- The empty line adds nothing to the text.
join-blank_end : (lines : Lines) → join (lines ++ [] ∷ []) ≡ join lines
unfolding join
join-blank_end [] = refl
join-blank_end (line ∷ lines) = ap (λ (t : Bytes). line ++ t) (join-blank_end lines)

-- The same text in front of lines that join alike.
join-front : (front xs ys : Lines) → join xs ≡ join ys → join (front ++ xs) ≡ join (front ++ ys)
join-front front xs ys h =
    join-append front xs ∙ ap (λ (t : Bytes). join front ++ t) h ∙ sym (join-append front ys)

join-back : (xs ys back : Lines) → join xs ≡ join ys → join (xs ++ back) ≡ join (ys ++ back)
join-back xs ys back h =
    join-append xs back ∙ ap (λ (t : Bytes). t ++ join back) h ∙ sym (join-append ys back)

module _ (title : Bytes) (names : List Bytes) (rendered : ℕ → Lines) where
  rebuilt-blank_end :
      (before : Lines) (indent : ℕ) (inside after : Lines)
      → joined (rebuilt names rendered (some (blank_end before indent inside after)))
        ≡ joined (
            rebuilt names rendered
              (some (record { before = before; indent = indent; inside = inside; after = after })))
  rebuilt-blank_end before indent inside [] = ap some (
      join-front before _ _ (
        join-back (keep_lines names indent none (inside ++ [] ∷ []))
          (keep_lines names indent none inside) _ (keep_lines-blank_end names indent none inside)))
  rebuilt-blank_end before indent inside (a ∷ after) =
      let flat : before
            ++ (keep_lines names indent none inside
                ++ (rendered (indent + 2) ++ ((a ∷ after) ++ [] ∷ [])))
          ≡ (before
              ++ (keep_lines names indent none inside ++ (rendered (indent + 2) ++ (a ∷ after))))
            ++ [] ∷ [] =
        simp append_assoc in
      ap some (ap join flat ∙ join-blank_end _)

  -- The empty line at the end makes no difference to the text.
  pub replace_section-blank_end :
      (lines : Lines)
      → joined (replace_section title names rendered (lines ++ [] ∷ []))
        ≡ joined (replace_section title names rendered lines)
  unfolding replace_section
  replace_section-blank_end lines =
      ap (λ (o : Option Section). joined (rebuilt names rendered o))
        (find_section-blank_end title (seeking []) lines)
      ∙ of_search (find_section title (seeking []) lines)
    where
      of_search :
          (o : Option Section)
          → joined (rebuilt names rendered (with_blank o)) ≡ joined (rebuilt names rendered o)
      of_search none = refl
      of_search (some s) = rebuilt-blank_end s.before s.indent s.inside s.after
