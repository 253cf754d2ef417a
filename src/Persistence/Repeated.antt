-- ===== src/Persistence/Repeated.antt =====
-- configuration/config_persistence.go: a section that is written again is as it was written first.
use mathlib.Core.Path.{subst}
use http_stack_lens.Base.{
  ℕ, ◌+◌, ◌≡◌, sym, ap, ◌∙◌, inl, inr, true, Option-cases, Option, none, some, List, [], ◌∷◌, ◌++◌,
  Bytes, append_assoc, append-nil,
}
use http_stack_lens.Persistence.{
  Lines, split_after, join, ends_line, Section, seeking, found, find_section, keep_lines, rebuilt,
  replace_section, joined,
}
use http_stack_lens.Persistence.Sections.{
  Quiet, Quiet-append, Reached, find-Quiet, find-Closed, find-Reached, AllKept, keep-Keeps,
  keep-AllKept, Keeps,
}
use http_stack_lens.Persistence.Values.{joined-some}
use http_stack_lens.Persistence.Whole.{
  AllWhole, AllWhole-append, AllWhole-left, AllWhole-keep_lines, split_after-join, ends_line-Cut,
}
use http_stack_lens.Persistence.BlankEnd.{replace_section-blank_end}

module _ (title : Bytes) (names : List Bytes) (rendered : ℕ → Lines) where
  module _ (quiet : (indent : ℕ) → Quiet title indent (rendered (indent + 2)))
      (dropped : (indent : ℕ) → keep_lines names indent none (rendered (indent + 2)) ≡ []) where
    -- The lines with the section written anew, and written once more.
    abbrev kept : Section → Lines
    kept s = keep_lines names s.indent none s.inside

    abbrev anew : Section → Lines
    anew s = s.before ++ (kept s ++ (rendered (s.indent + 2) ++ s.after))

    abbrev again : Section → Section
    again s = record {
      before = s.before;
      indent = s.indent;
      inside = kept s ++ rendered (s.indent + 2);
      after = s.after;
    }

    find-anew :
        (lines : Lines) (s : Section)
        → Reached title (seeking []) lines s
        → Keeps names title s.indent (kept s)
        → find_section title (seeking []) (anew s) ≡ some (again s)
    find-anew lines s r k =
        ap
          (λ (b : Lines).
            find_section title (seeking []) (b ++ (kept s ++ (rendered (s.indent + 2) ++ s.after))))
          (sym r.counted)
        ∙ r.reach (kept s ++ (rendered (s.indent + 2) ++ s.after))
        ∙ ap (find_section title (found s.before s.indent []))
            (sym (append_assoc (kept s) (rendered (s.indent + 2)) s.after))
        ∙ find-Quiet title s.before s.indent [] (kept s ++ rendered (s.indent + 2)) s.after
            (Quiet-append title s.indent (kept s) (rendered (s.indent + 2)) k.1 (quiet s.indent))
        ∙ find-Closed title s.before s.indent (kept s ++ rendered (s.indent + 2)) s.after r.closed

    kept-again :
        (s : Section)
        → AllKept names title s.indent (kept s)
        → keep_lines names s.indent none (kept s ++ rendered (s.indent + 2)) ≡ kept s
    kept-again s k =
        keep-AllKept names title s.indent (kept s) (rendered (s.indent + 2)) k
        ∙ ap (λ (l : Lines). kept s ++ l) (dropped s.indent)
        ∙ append-nil (kept s)

    anew_again :
        (lines : Lines) (s : Section)
        → Reached title (seeking []) lines s
        → Keeps names title s.indent (kept s)
        → replace_section title names rendered (anew s) ≡ some (anew s)
    unfolding replace_section
    anew_again lines s r k =
        ap (rebuilt names rendered) (find-anew lines s r k)
        ∙ ap (λ (l : Lines). some (s.before ++ (l ++ (rendered (s.indent + 2) ++ s.after))))
            (kept-again s k.0)

    -- Writing a section again changes no line.
    replace_section_again :
        (lines lines' : Lines)
        → replace_section title names rendered lines ≡ some lines'
        → replace_section title names rendered lines' ≡ some lines'
    unfolding replace_section
    replace_section_again lines lines' h =
        elim (Option-cases (find_section title (seeking []) lines)) [
          | inl e ↦
              absurd
                (let no : ◌≡◌ {A = Option Lines} none (some lines') = rw (e, rebuilt) at h in cc)
          | inr (s, e) ↦
              let r = find-Reached title [] lines s e in
              let k = keep-Keeps names title s.indent none s.inside r.quiet in
              let same : ◌≡◌ {A = Option Lines} (some (anew s)) (some lines') =
                rw (e, rebuilt) at h in
              subst (λ (o : Option Lines). replace_section title names rendered lines' ≡ o) same
                (subst (λ (l : Lines). replace_section title names rendered l ≡ some (anew s))
                  (let l : anew s ≡ lines' = cc in l) (anew_again lines s r k))
        ]

    module _ (whole : (indent : ℕ) → AllWhole (rendered indent)) where
      anew-AllWhole :
          (s : Section) → AllWhole (s.before ++ (s.inside ++ s.after)) → AllWhole (anew s)
      anew-AllWhole s w =
          let (b, w2) = AllWhole-left s.before (s.inside ++ s.after) w in
          let (i, a) = AllWhole-left s.inside s.after w2 in
          AllWhole-append s.before _ b (
            AllWhole-append (kept s) _ (AllWhole-keep_lines names s.indent none s.inside i)
              (AllWhole-append (rendered (s.indent + 2)) s.after (whole (s.indent + 2)) a))

      replace_section-AllWhole :
          (lines lines' : Lines)
          → AllWhole lines
          → replace_section title names rendered lines ≡ some lines'
          → AllWhole lines'
      unfolding replace_section
      replace_section-AllWhole lines lines' w h =
          elim (Option-cases (find_section title (seeking []) lines)) [
            | inl e ↦
                absurd
                  (let no : ◌≡◌ {A = Option Lines} none (some lines') = rw (e, rebuilt) at h in cc)
            | inr (s, e) ↦
                let r = find-Reached title [] lines s e in
                let same : ◌≡◌ {A = Option Lines} (some (anew s)) (some lines') =
                  rw (e, rebuilt) at h in
                subst AllWhole (let l : anew s ≡ lines' = cc in l) (
                  anew-AllWhole s (
                    subst AllWhole
                      (r.split ∙ ap (λ (b : Lines). b ++ (s.inside ++ s.after)) r.counted) w))
          ]

      -- The text of whole lines, written once more.
      joined_again :
          (lines lines' : Lines)
          → AllWhole lines
          → replace_section title names rendered lines ≡ some lines'
          → joined (replace_section title names rendered (split_after (join lines')))
            ≡ some (join lines')
      joined_again lines lines' w h =
          ap (λ (l : Lines). joined (replace_section title names rendered l))
            (split_after-join lines' (replace_section-AllWhole lines lines' w h))
          ∙ replace_section-blank_end title names rendered lines'
          ∙ ap joined (replace_section_again lines lines' h)

      pub replaced_again :
          (text text' : Bytes)
          → ends_line text ≡ true
          → joined (replace_section title names rendered (split_after text)) ≡ some text'
          → joined (replace_section title names rendered (split_after text')) ≡ some text'
      replaced_again text text' e h =
          let c = ends_line-Cut text e in
          let plain : joined (replace_section title names rendered (c.first ∷ c.others))
              ≡ some text' =
            sym (replace_section-blank_end title names rendered (c.first ∷ c.others))
            ∙ ap (λ (l : Lines). joined (replace_section title names rendered l)) (sym c.cut_at)
            ∙ h in
          let (lines', f, same) =
            joined-some (replace_section title names rendered (c.first ∷ c.others)) text' plain in
          subst
            (λ (t : Bytes). joined (replace_section title names rendered (split_after t)) ≡ some t)
            (sym same) (joined_again (c.first ∷ c.others) lines' c.whole f)
