-- ===== src/Persistence/Sections.antt =====
-- configuration/config_persistence.go: the section that the loop finds, and the lines that are kept.
use mathlib.Core.Path.{subst}
use http_stack_lens.Base.{
  ℕ, ◌≡◌, refl, sym, ap, ◌∙◌, ◌⊎◌, inl, inr, true, false, not, ◌||◌, Bool-cases, Option, none, some,
  List, [], ◌∷◌, ◌++◌, Bytes, equal, leb, trim_space, append_assoc, append-nil,
}
use http_stack_lens.Persistence.{
  Lines, leading_spaces, is_ignored, Section, Search, seeking, found, seen, push, closes,
  find_section, is_removed, keep_lines,
}

-- A line that the search passes by in a section of this indent.
abbrev pub QuietLine : Bytes → ℕ → Bytes → Type 0
QuietLine title indent line =
    (is_ignored line ≡ true)
    ⊎ ((equal (trim_space line) title ≡ false) × (leb (leading_spaces line) indent ≡ false))

abbrev pub Quiet : Bytes → ℕ → Lines → Type 0
Quiet title indent [] = Unit
Quiet title indent (line ∷ lines) = QuietLine title indent line × Quiet title indent lines

-- A line that closes the section, or the end of the file.
abbrev pub Closed : Bytes → ℕ → Lines → Type 0
Closed title indent [] = Unit
Closed title indent (line ∷ lines) =
    (is_ignored line ≡ false)
    × (equal (trim_space line) title ≡ false)
    × (leb (leading_spaces line) indent ≡ true)

pub Quiet-append :
    (title : Bytes) (indent : ℕ) (xs ys : Lines)
    → Quiet title indent xs
    → Quiet title indent ys
    → Quiet title indent (xs ++ ys)
Quiet-append title indent [] ys h k = k
Quiet-append title indent (x ∷ xs) ys (q, h) k = (q, Quiet-append title indent xs ys h k)

module _ (title : Bytes) where
  find_on :
      (place : Search) (line : Bytes) (lines : Lines)
      → (is_ignored line ≡ true)
        ⊎ ((equal (trim_space line) title ≡ false) × (closes place line ≡ false))
      → find_section title place (line ∷ lines) ≡ find_section title (push place line) lines
  unfolding find_section
  find_on place line lines (inl e) = rw e refl
  find_on place line lines (inr (e, f)) = elim (Bool-cases (is_ignored line)) [
    | inl g ↦ rw g refl
    | inr g ↦ rw (g, e, f) refl
  ]

  pub find-Quiet :
      (before : Lines) (indent : ℕ) (inside lines rest : Lines)
      → Quiet title indent lines
      → find_section title (found before indent inside) (lines ++ rest)
        ≡ find_section title (found before indent (inside ++ lines)) rest
  find-Quiet before indent inside [] rest h =
      ap (λ (s : Lines). find_section title (found before indent s) rest) (sym (append-nil inside))
  find-Quiet before indent inside (line ∷ lines) rest (q, h) =
      find_on (found before indent inside) line (lines ++ rest) q
      ∙ find-Quiet before indent (inside ++ line ∷ []) lines rest h
      ∙ ap (λ (s : Lines). find_section title (found before indent s) rest)
          (append_assoc inside (line ∷ []) lines)

  pub find-Closed :
      (before : Lines) (indent : ℕ) (inside after : Lines)
      → Closed title indent after
      → find_section title (found before indent inside) after
        ≡ some (record { before = before; indent = indent; inside = inside; after = after })
  unfolding find_section
  find-Closed before indent inside [] h = refl
  find-Closed before indent inside (line ∷ lines) (e, f, g) = rw (e, f, g) refl

  -- The search stays in the section that is open, up to its end.
  record Stays (before : Lines) (indent : ℕ) (inside lines : Lines) (s : Section) : Type 0 where
    more : Lines
    same_before : s.before ≡ before
    same_indent : s.indent ≡ indent
    grown : s.inside ≡ inside ++ more
    split : lines ≡ more ++ s.after
    quiet : Quiet title indent more
    closed : Closed title indent s.after

  -- The search comes to the title of the section behind these lines.
  pub record Reached (place : Search) (lines : Lines) (s : Section) : Type 0 where
    pub up_to : Lines
    pub reach :
        (rest : Lines)
        → find_section title place (up_to ++ rest)
          ≡ find_section title (found s.before s.indent []) rest
    pub counted : seen place ++ up_to ≡ s.before
    pub split : lines ≡ up_to ++ (s.inside ++ s.after)
    pub quiet : Quiet title s.indent s.inside
    pub closed : Closed title s.indent s.after

  seen-push :
      (place : Search) (line : Bytes) (lines : Lines)
      → seen (push place line) ++ lines ≡ seen place ++ (line ∷ lines)
  seen-push (seeking xs) line lines = append_assoc xs (line ∷ []) lines
  seen-push (found before indent inside) line lines = simp append_assoc

  Reached-on :
      (place : Search) (line : Bytes) (lines : Lines) (s : Section)
      → (is_ignored line ≡ true)
        ⊎ ((equal (trim_space line) title ≡ false) × (closes place line ≡ false))
      → Reached (push place line) lines s
      → Reached place (line ∷ lines) s
  Reached-on place line lines s q r = record {
    up_to = line ∷ r.up_to;
    reach = λ rest. find_on place line (r.up_to ++ rest) q ∙ r.reach rest;
    counted = sym (seen-push place line r.up_to) ∙ r.counted;
    split = ap (◌∷◌ line) r.split;
    quiet = r.quiet;
    closed = r.closed;
  }

  find_again :
      (place : Search) (line : Bytes) (lines : Lines)
      → is_ignored line ≡ false
      → equal (trim_space line) title ≡ true
      → find_section title place (line ∷ lines)
        ≡ find_section title (found (seen place ++ line ∷ []) (leading_spaces line) []) lines
  unfolding find_section
  find_again place line lines e f = rw (e, f) refl

  -- A title in front of a search that stays, or that comes to another title.
  Reached-title :
      (place : Search) (line : Bytes) (lines : Lines) (s : Section)
      → is_ignored line ≡ false
      → equal (trim_space line) title ≡ true
      → Stays (seen place ++ line ∷ []) (leading_spaces line) [] lines s
        ⊎ Reached (found (seen place ++ line ∷ []) (leading_spaces line) []) lines s
      → Reached place (line ∷ lines) s
  Reached-title place line lines s e f (inl k) = record {
    up_to = line ∷ [];
    reach = λ rest.
        find_again place line rest e f
        ∙ ap (λ (b : Lines). find_section title (found b (leading_spaces line) []) rest)
            (sym k.same_before)
        ∙ ap (λ (n : ℕ). find_section title (found s.before n []) rest) (sym k.same_indent);
    counted = sym k.same_before;
    split = ap (◌∷◌ line) (k.split ∙ ap (λ (m : Lines). m ++ s.after) (sym k.grown));
    quiet =
        subst (λ (m : Lines). Quiet title s.indent m) (sym k.grown)
          (subst (λ (n : ℕ). Quiet title n k.more) (sym k.same_indent) k.quiet);
    closed = subst (λ (n : ℕ). Closed title n s.after) (sym k.same_indent) k.closed;
  }
  Reached-title place line lines s e f (inr r) = record {
    up_to = line ∷ r.up_to;
    reach = λ rest. find_again place line (r.up_to ++ rest) e f ∙ r.reach rest;
    counted =
        (let flat : ((seen place ++ line ∷ []) ++ []) ++ r.up_to ≡ seen place ++ (line ∷ r.up_to) =
            simp (append-nil, append_assoc) in
          sym flat ∙ r.counted);
    split = ap (◌∷◌ line) r.split;
    quiet = r.quiet;
    closed = r.closed;
  }

  ended :
      (before : Lines) (indent : ℕ) (inside lines : Lines) (s : Section)
      → Closed title indent lines
      → some (record { before = before; indent = indent; inside = inside; after = lines }) ≡ some s
      → Stays before indent inside lines s
  ended before indent inside lines s c h =
      let same : ◌≡◌ {A = Section}
          (record { before = before; indent = indent; inside = inside; after = lines }) s =
        cc in
      subst (Stays before indent inside lines) same (record {
        more = [];
        same_before = refl;
        same_indent = refl;
        grown = sym (append-nil inside);
        split = refl;
        quiet = tt;
        closed = c;
      })

  passed :
      (before : Lines) (indent : ℕ) (inside : Lines) (line : Bytes) (lines : Lines) (s : Section)
      → QuietLine title indent line
      → (find_section title (found before indent (inside ++ line ∷ [])) lines ≡ some s
          → Stays before indent (inside ++ line ∷ []) lines s
            ⊎ Reached (found before indent (inside ++ line ∷ [])) lines s)
      → find_section title (found before indent inside) (line ∷ lines) ≡ some s
      → Stays before indent inside (line ∷ lines) s
        ⊎ Reached (found before indent inside) (line ∷ lines) s
  passed before indent inside line lines s q k h =
      elim (k (sym (find_on (found before indent inside) line lines q) ∙ h)) [
        | inr r ↦ inr (Reached-on (found before indent inside) line lines s q r)
        | inl t ↦ inl (record {
          more = line ∷ t.more;
          same_before = t.same_before;
          same_indent = t.same_indent;
          grown = t.grown ∙ append_assoc inside (line ∷ []) t.more;
          split = ap (◌∷◌ line) t.split;
          quiet = (q, t.quiet);
          closed = t.closed;
        })
      ]

  found-cases :
      (before : Lines) (indent : ℕ) (inside lines : Lines) (s : Section)
      → find_section title (found before indent inside) lines ≡ some s
      → Stays before indent inside lines s ⊎ Reached (found before indent inside) lines s
  found-cases before indent inside [] s h =
      inl (ended before indent inside [] s tt (unfold find_section in h))
  found-cases before indent inside (line ∷ lines) s h = elim (Bool-cases (is_ignored line)) [
    | inl e ↦
        passed before indent inside line lines s (inl e)
          (found-cases before indent (inside ++ line ∷ []) lines s) h
    | inr e ↦ elim (Bool-cases (equal (trim_space line) title)) [
      | inl f ↦ inr (
          Reached-title (found before indent inside) line lines s e f (
            found-cases ((before ++ inside) ++ line ∷ []) (leading_spaces line) [] lines s
              (sym (find_again (found before indent inside) line lines e f) ∙ h)))
      | inr f ↦ elim (Bool-cases (leb (leading_spaces line) indent)) [
        | inl g ↦ inl (
            ended before indent inside (line ∷ lines) s (e, f, g)
              (sym (find-Closed before indent inside (line ∷ lines) (e, f, g)) ∙ h))
        | inr g ↦
            passed before indent inside line lines s (inr (f, g))
              (found-cases before indent (inside ++ line ∷ []) lines s) h
      ]
    ]
  ]

  pub find-Reached :
      (before lines : Lines) (s : Section)
      → find_section title (seeking before) lines ≡ some s
      → Reached (seeking before) lines s
  unfolding find_section
  find-Reached before [] s h = absurd cc
  find-Reached before (line ∷ lines) s h = elim (Bool-cases (is_ignored line)) [
    | inl e ↦ Reached-on (seeking before) line lines s (inl e) (
        find-Reached (before ++ line ∷ []) lines s
          (sym (find_on (seeking before) line lines (inl e)) ∙ h))
    | inr e ↦ elim (Bool-cases (equal (trim_space line) title)) [
      | inl f ↦ Reached-title (seeking before) line lines s e f (
          found-cases (before ++ line ∷ []) (leading_spaces line) [] lines s
            (sym (find_again (seeking before) line lines e f) ∙ h))
      | inr f ↦ Reached-on (seeking before) line lines s (inr (f, refl)) (
          find-Reached (before ++ line ∷ []) lines s
            (sym (find_on (seeking before) line lines (inr (f, refl))) ∙ h))
    ]
  ]

module _ (names : List Bytes) (title : Bytes) (indent : ℕ) where
  -- No line of these is removed.
  abbrev pub AllKept : Lines → Type 0
  AllKept [] = Unit
  AllKept (line ∷ lines) = (is_removed names indent line ≡ false) × AllKept lines

  abbrev pub Keeps : Lines → Type 0
  Keeps lines = AllKept lines × Quiet title indent lines

  pub keep-Keeps :
      (skipping : Option ℕ) (lines : Lines)
      → Quiet title indent lines
      → Keeps (keep_lines names indent skipping lines)
  unfolding keep_lines
  keep-Keeps skipping [] h = (tt, tt)
  keep-Keeps none (line ∷ lines) (q, h) = elim (Bool-cases (is_removed names indent line)) [
    | inl e ↦ rw (e, Keeps) (keep-Keeps (some (leading_spaces line)) lines h)
    | inr e ↦ let (k, r) = keep-Keeps none lines h in rw (e, Keeps) ((e, k), (q, r))
  ]
  keep-Keeps (some block) (line ∷ lines) (q, h) =
      elim (Bool-cases (is_ignored line || not (leb (leading_spaces line) block))) [
        | inl e ↦ rw (e, Keeps) (keep-Keeps (some block) lines h)
        | inr e ↦ elim (Bool-cases (is_removed names indent line)) [
          | inl f ↦ rw (e, f, Keeps) (keep-Keeps (some (leading_spaces line)) lines h)
          | inr f ↦ let (k, r) = keep-Keeps none lines h in rw (e, f, Keeps) ((f, k), (q, r))
        ]
      ]

  pub keep-AllKept :
      (lines rest : Lines)
      → AllKept lines
      → keep_lines names indent none (lines ++ rest) ≡ lines ++ keep_lines names indent none rest
  unfolding keep_lines
  keep-AllKept [] rest h = refl
  keep-AllKept (line ∷ lines) rest (e, h) = rw e (ap (◌∷◌ line) (keep-AllKept lines rest h))
