-- ===== src/Persistence/Rendered.antt =====
-- configuration/config_persistence.go: the lines that the settings are written as.
use http_stack_lens.Base.{
  ℕ, zero, suc, ◌+◌, ◌<◌, ◌≡◌, refl, sym, ap, ◌∙◌, inr, arith, Bool, true, false, not, ◌&&◌, none,
  some, List, [], ◌∷◌, ◌++◌, Bytes, equal, leb, ◌==◌, trim_space, trim_left, trim_right, rejoin,
  is_space, has_prefix, lacks, append_assoc,
}
use http_stack_lens.Persistence.{
  Lines, leading_spaces, is_ignored, spaces, entry, line_end, is_one_of, is_removed, keep_lines,
}
use http_stack_lens.Persistence.Settings.{yaml_line}
use http_stack_lens.Persistence.Sections.{QuietLine}
use http_stack_lens.Persistence.Whole.{IsWhole}

-- No white space in the word.
unfoldable pub has_no_space : Bytes → Bool
has_no_space [] = true
has_no_space (c ∷ s) = not (is_space c) && has_no_space s

leading_spaces-spaces :
    (n c : ℕ) (s : Bytes) → is_space c ≡ false → leading_spaces (spaces n ++ (c ∷ s)) ≡ n
unfolding leading_spaces is_space
leading_spaces-spaces zero c s h = ground arith
leading_spaces-spaces (suc n) c s h = ap suc (leading_spaces-spaces n c s h)

trim_left-spaces : (n : ℕ) (s : Bytes) → trim_left (spaces n ++ s) ≡ trim_left s
unfolding trim_left is_space
trim_left-spaces zero s = refl
trim_left-spaces (suc n) s = trim_left-spaces n s

trim_right-word :
    (c : ℕ) (w s : Bytes)
    → is_space c ≡ false
    → has_no_space w ≡ true
    → (t : Bytes) × (trim_right (c ∷ (w ++ s)) ≡ c ∷ (w ++ t))
unfolding trim_right has_no_space
trim_right-word c [] s h k = of_rest c (trim_right s) h
  where
    of_rest : (c : ℕ) (s : Bytes) → is_space c ≡ false → (t : Bytes) × (rejoin c s ≡ c ∷ t)
    of_rest c [] h = ([], rw h refl)
    of_rest c (d ∷ s) h = (d ∷ s, refl)
trim_right-word c (d ∷ w) s h k =
    let (t, e) = trim_right-word d w s (ground arith) (ground arith) in (t, ap (rejoin c) e)

-- A trimmed line begins with its first word.
trim_space-word :
    (n c : ℕ) (w s : Bytes)
    → is_space c ≡ false
    → has_no_space w ≡ true
    → (t : Bytes) × (trim_space (spaces n ++ (c ∷ (w ++ s))) ≡ c ∷ (w ++ t))
unfolding trim_space trim_left
trim_space-word n c w s h k =
    let (t, e) = trim_right-word c w s h k in
    (t, ap trim_right (trim_left-spaces n (c ∷ (w ++ s)) ∙ rw h refl) ∙ e)

-- A line of a section, of this indent, that is not its title.
pub record Child (title : Bytes) (n : ℕ) (line : Bytes) : Type 0 where
  pub leading : leading_spaces line ≡ n
  pub shown : is_ignored line ≡ false
  pub other : equal (trim_space line) title ≡ false

-- `w` tells the line from the title.
pub Child-line :
    (title : Bytes) (n c : ℕ) (w s : Bytes)
    → is_space c ≡ false
    → (c == b'#') ≡ false
    → has_no_space w ≡ true
    → ((t : Bytes) → equal (c ∷ (w ++ t)) title ≡ false)
    → Child title n (spaces n ++ (c ∷ (w ++ s)))
unfolding is_ignored equal has_prefix
Child-line title n c w s plain mark k differs =
    let (t, e) = trim_space-word n c w s plain k in
    record {
      leading = leading_spaces-spaces n c (w ++ s) plain;
      shown = rw (e, mark) refl;
      other = rw e (differs t);
    }

pub Child-QuietLine :
    (title : Bytes) (indent n : ℕ) (line : Bytes)
    → indent < n
    → Child title n line
    → QuietLine title indent line
Child-QuietLine title indent n line h c = inr (c.other, rw c.leading (ground arith))

-- A line of a key that is removed, and one under it.
module _ (title : Bytes) (names : List Bytes) (indent : ℕ) where
  is_removed-Child :
      (line : Bytes)
      → Child title (indent + 2) line
      → is_one_of names (entry line) ≡ true
      → is_removed names indent line ≡ true
  unfolding is_removed
  is_removed-Child line c h = rw (c.shown, c.leading, h) (ground arith)

  pub keep-removed :
      (line : Bytes) (lines : Lines)
      → Child title (indent + 2) line
      → is_one_of names (entry line) ≡ true
      → keep_lines names indent none (line ∷ lines)
        ≡ keep_lines names indent (some (indent + 2)) lines
  unfolding keep_lines
  keep-removed line lines c h = rw (is_removed-Child line c h, c.leading) refl

  pub keep-removed_next :
      (line : Bytes) (lines : Lines)
      → Child title (indent + 2) line
      → is_one_of names (entry line) ≡ true
      → keep_lines names indent (some (indent + 2)) (line ∷ lines)
        ≡ keep_lines names indent (some (indent + 2)) lines
  unfolding keep_lines
  keep-removed_next line lines c h =
      let at : leb (indent + 2) (indent + 2) ≡ true = ground arith in
      rw (is_removed-Child line c h, c.shown, c.leading, at) refl

  pub keep-passed :
      (n : ℕ) (line : Bytes) (lines : Lines)
      → indent + 2 < n
      → Child title n line
      → keep_lines names indent (some (indent + 2)) (line ∷ lines)
        ≡ keep_lines names indent (some (indent + 2)) lines
  unfolding keep_lines
  keep-passed n line lines h c =
      let deeper : leb n (indent + 2) ≡ false = ground arith in rw (c.shown, c.leading, deeper) refl

lacks-spaces : (n : ℕ) (s : Bytes) → lacks 10 (spaces n ++ s) ≡ lacks 10 s
unfolding lacks
lacks-spaces zero s = refl
lacks-spaces (suc n) s = lacks-spaces n s

pub yaml_line-IsWhole : (n : ℕ) (text : Bytes) → lacks 10 text ≡ true → IsWhole (yaml_line n text)
yaml_line-IsWhole n text h =
    (spaces n ++ text, sym (append_assoc (spaces n) text line_end), lacks-spaces n text ∙ h)
