-- ===== src/Persistence/Values.antt =====
-- configuration/config_persistence.go: one value is edited, and nothing else.
use http_stack_lens.Base.{
  ℕ, zero, suc, ◌<◌, ◌≡◌, refl, sym, ap, ◌∙◌, ◌⊎◌, inl, inr, arith, Bool, true, false, Bool-cases,
  Option-cases, Option, none, some, [], ◌∷◌, ◌++◌, Bytes, codes, equal, equal_iff, equal_refl, take,
  leb, ◌==◌, if◌then◌else◌, trim_space, cut, trim_left, trim_right, is_space, extend,
}
use http_stack_lens.Parsing.Http.{trim_end}
use http_stack_lens.Persistence.{
  Lines, leading_spaces, trim_spaces, is_ignored, spaces, entry, rest_of_key, value_of, comment_of,
  with_comment, line_end, ends_line, edited, before_line, may_hold, edit_lines, split_after, join,
  joined, truth,
}
use http_stack_lens.Persistence.Settings.{storage_edit, decrypt_https_edit}

-- A line that may stand in a section with a title of this indent.
abbrev pub IsDeeper : ℕ → Bytes → Type 0
IsDeeper indent line = (is_ignored line ≡ true) ⊎ (indent < leading_spaces line)

abbrev pub AllDeeper : ℕ → Lines → Type 0
AllDeeper indent [] = Unit
AllDeeper indent (line ∷ lines) = IsDeeper indent line × AllDeeper indent lines

-- What follows the value: the comment and the line break.
abbrev pub tail_of : Bytes → Bytes → Bytes
tail_of rest line =
    with_comment (trim_end (13 ∷ 10 ∷ []) (comment_of rest))
    ++ (if ends_line line then line_end else [])

-- A name that is read as it is written.
abbrev pub IsKey : Bytes → Type 0
IsKey name = (rest : Bytes) → entry (name ++ (b':' ∷ rest)) ≡ some (name, rest)

take-leading_spaces :
    (line : Bytes) → take (leading_spaces line) line ≡ spaces (leading_spaces line)
unfolding leading_spaces
take-leading_spaces [] = refl
take-leading_spaces (c ∷ s) = ground (arith, take-leading_spaces s)

trim_spaces-spaces : (n : ℕ) (s : Bytes) → trim_spaces (spaces n ++ s) ≡ trim_spaces s
unfolding trim_spaces
trim_spaces-spaces zero s = refl
trim_spaces-spaces (suc n) s = trim_spaces-spaces n s

pub entry-spaces : (n : ℕ) (s : Bytes) → entry (spaces n ++ s) ≡ entry s
unfolding entry
entry-spaces n s = rw (trim_spaces-spaces n s) refl

value_of-edited :
    (name value rest line : Bytes)
    → IsKey name
    → value_of name (edited name value rest line) ≡ some (32 ∷ (value ++ tail_of rest line))
unfolding value_of edited
value_of-edited name value rest line key =
    ap (rest_of_key name) (
      ap (λ (s : Bytes). entry (s ++ (name ++ (codes ": " ++ (value ++ tail_of rest line)))))
        (take-leading_spaces line)
      ∙ entry-spaces (leading_spaces line) (name ++ (codes ": " ++ (value ++ tail_of rest line)))
      ∙ key (32 ∷ (value ++ tail_of rest line)))
    ∙ rw (equal_refl name) refl

-- The line of the key, in a section, in front of other lines.
pub record EditedIn (indent : ℕ) (name value : Bytes) (lines lines' : Lines) : Type 0 where
  pub between : Lines
  pub line : Bytes
  pub rest : Bytes
  pub below : Lines
  pub was : lines ≡ between ++ (line ∷ below)
  pub now : lines' ≡ between ++ (edited name value rest line ∷ below)
  pub deeper : AllDeeper indent between
  pub under : indent < leading_spaces line
  pub keyed : value_of name line ≡ some rest
  pub reads : value_of name (edited name value rest line) ≡ some (32 ∷ (value ++ tail_of rest line))

-- The same, behind the line of the title.
pub record Edited (title name value : Bytes) (lines lines' : Lines) : Type 0 where
  pub above : Lines
  pub head : Bytes
  pub inside : Lines
  pub inside' : Lines
  pub was : lines ≡ above ++ (head ∷ inside)
  pub now : lines' ≡ above ++ (head ∷ inside')
  pub titled : trim_space head ≡ title
  pub edit : EditedIn (leading_spaces head) name value inside inside'

-- A line more in front.
EditedIn-before :
    (indent : ℕ) (name value line : Bytes) (lines lines' : Lines)
    → IsDeeper indent line
    → EditedIn indent name value lines lines'
    → EditedIn indent name value (line ∷ lines) (line ∷ lines')
EditedIn-before indent name value line lines lines' d e = record {
  between = line ∷ e.between;
  line = e.line;
  rest = e.rest;
  below = e.below;
  was = ap (◌∷◌ line) e.was;
  now = ap (◌∷◌ line) e.now;
  deeper = (d, e.deeper);
  under = e.under;
  keyed = e.keyed;
  reads = e.reads;
}

Edited-before :
    (title name value line : Bytes) (lines lines' : Lines)
    → Edited title name value lines lines'
    → Edited title name value (line ∷ lines) (line ∷ lines')
Edited-before title name value line lines lines' e = record {
  above = line ∷ e.above;
  head = e.head;
  inside = e.inside;
  inside' = e.inside';
  was = ap (◌∷◌ line) e.was;
  now = ap (◌∷◌ line) e.now;
  titled = e.titled;
  edit = e.edit;
}

-- A line that the loop copies is copied in front of what it makes of the others.
before_line-some :
    (line : Bytes) (o : Option Lines) (lines : Lines)
    → before_line line o ≡ some lines
    → (more : Lines) × (o ≡ some more) × (lines ≡ line ∷ more)
before_line-some line none lines h = absurd cc
before_line-some line (some more) lines h = (more, refl, cc)

copied :
    {name value : Bytes} (indent : ℕ) (line : Bytes) (lines lines' : Lines) (o : Option Lines)
    → IsDeeper indent line
    → ((more : Lines) → o ≡ some more → EditedIn indent name value lines more)
    → before_line line o ≡ some lines'
    → EditedIn indent name value (line ∷ lines) lines'
copied {name} {value} indent line lines lines' o d k h =
    let (more, e, same) = before_line-some line o lines' h in
    rw same (EditedIn-before indent name value line lines more d (k more e))

ahead :
    {title name value : Bytes} (line : Bytes) (lines lines' : Lines) (o : Option Lines)
    → ((more : Lines) → o ≡ some more → Edited title name value lines more)
    → before_line line o ≡ some lines'
    → Edited title name value (line ∷ lines) lines'
ahead {title} {name} {value} line lines lines' o k h =
    let (more, e, same) = before_line-some line o lines' h in
    rw same (Edited-before title name value line lines more (k more e))

module _ (exact : Bool) (title name value : Bytes) (key : IsKey name) where
  inside-EditedIn :
      (indent : ℕ) (lines lines' : Lines)
      → edit_lines exact title name value (some indent) lines ≡ some lines'
      → EditedIn indent name value lines lines'
  unfolding edit_lines
  inside-EditedIn indent [] lines' h = absurd cc
  inside-EditedIn indent (line ∷ lines) lines' h = elim (Bool-cases (is_ignored line)) [
    | inl e ↦ copied indent line lines lines' _ (inl e) (inside-EditedIn indent lines) (rw e at h)
    | inr e ↦ elim (Bool-cases (leb (leading_spaces line) indent)) [
      | inl f ↦ absurd (let no : ◌≡◌ {A = Option Lines} none (some lines') = rw (e, f) at h in cc)
      | inr f ↦
          let under : indent < leading_spaces line = ground arith in
          elim (Bool-cases (may_hold exact (some indent) line)) [
            | inl g ↦ elim (Option-cases (value_of name line)) [
              | inl k ↦
                  copied indent line lines lines' _ (inr under) (inside-EditedIn indent lines)
                    (rw (e, f, g, k) at h)
              | inr (rest, k) ↦ record {
                between = [];
                line = line;
                rest = rest;
                below = lines;
                was = refl;
                now =
                    (let same : ◌≡◌ {A = Option Lines} (some (edited name value rest line ∷ lines))
                          (some lines') =
                        rw (e, f, g, k) at h in
                      cc);
                deeper = tt;
                under = under;
                keyed = k;
                reads = value_of-edited name value rest line key;
              }
            ]
            | inr g ↦
                copied indent line lines lines' _ (inr under) (inside-EditedIn indent lines)
                  (rw (e, f, g) at h)
          ]
    ]
  ]

  -- Where the loop edits a line, the line stands under the title, and the others stay.
  pub edit_lines-Edited :
      (lines lines' : Lines)
      → edit_lines exact title name value none lines ≡ some lines'
      → Edited title name value lines lines'
  unfolding edit_lines
  edit_lines-Edited [] lines' h = absurd cc
  edit_lines-Edited (line ∷ lines) lines' h = elim (Bool-cases (is_ignored line)) [
    | inl e ↦ ahead line lines lines' _ (edit_lines-Edited lines) (rw e at h)
    | inr e ↦ elim (Bool-cases (equal (trim_space line) title)) [
      | inl f ↦
          let (more, g, same) = before_line-some line _ lines' (rw (e, f) at h) in
          record {
            above = [];
            head = line;
            inside = lines;
            inside' = more;
            was = refl;
            now = same;
            titled = (equal_iff (trim_space line) title).0 f;
            edit = inside-EditedIn (leading_spaces line) lines more g;
          }
      | inr f ↦ ahead line lines lines' _ (edit_lines-Edited lines) (rw (e, f) at h)
    ]
  ]

pub join-split_after : (text : Bytes) → join (split_after text) ≡ text
unfolding join split_after
join-split_after [] = refl
join-split_after (c ∷ s) = elim (Bool-cases (c == 10)) [
  | inl e ↦ rw (e, join) (ap (◌∷◌ c) (join-split_after s))
  | inr e ↦ rw (e, join) (extended c (split_after s) s (join-split_after s))
]
  where
    extended : (c : ℕ) (lines : Lines) (s : Bytes) → join lines ≡ s → join (extend c lines) ≡ c ∷ s
    extended c [] s h = ap (◌∷◌ c) h
    extended c (line ∷ lines) s h = ap (◌∷◌ c) h

pub joined-some :
    (o : Option Lines) (text : Bytes)
    → joined o ≡ some text
    → (lines : Lines) × (o ≡ some lines) × (text ≡ join lines)
joined-some none text h = absurd cc
joined-some (some lines) text h = (lines, refl, cc)

-- What an edit of one value does to the text: its lines, each with its line break, are edited and
-- joined again.
pub record TextEdited (title name value text text' : Bytes) : Type 0 where
  pub lines' : Lines
  pub was : text ≡ join (split_after text)
  pub now : text' ≡ join lines'
  pub edit : Edited title name value (split_after text) lines'

edit-TextEdited :
    (exact : Bool) (title name value text text' : Bytes)
    → IsKey name
    → joined (edit_lines exact title name value none (split_after text)) ≡ some text'
    → TextEdited title name value text text'
edit-TextEdited exact title name value text text' key h =
    let (lines', e, same) = joined-some _ text' h in
    record {
      lines' = lines';
      was = sym (join-split_after text);
      now = same;
      edit = edit_lines-Edited exact title name value key (split_after text) lines' e;
    }

-- Where PersistStorageEnabled edits the file, a line of the key enable under a line storage: gets the
-- new value and keeps its comment, with only blank lines, comments and deeper lines between the two,
-- and every other line of the file stays as it was.
pub storage_edit-TextEdited :
    (enabled : Bool) (text text' : Bytes)
    → storage_edit enabled text ≡ some text'
    → TextEdited (codes "storage:") (codes "enable") (truth enabled) text text'
unfolding storage_edit entry trim_spaces cut trim_space trim_left trim_right is_space
storage_edit-TextEdited enabled text text' h =
    edit-TextEdited false (codes "storage:") (codes "enable") (truth enabled) text text'
      (λ rest. refl) h

-- The same of PersistDecryptHttpsEnabled, its key enabled and its title decrypt_https:.
pub decrypt_https_edit-TextEdited :
    (enabled : Bool) (text text' : Bytes)
    → decrypt_https_edit enabled text ≡ some text'
    → TextEdited (codes "decrypt_https:") (codes "enabled") (truth enabled) text text'
unfolding decrypt_https_edit entry trim_spaces cut trim_space trim_left trim_right is_space
decrypt_https_edit-TextEdited enabled text text' h =
    edit-TextEdited true (codes "decrypt_https:") (codes "enabled") (truth enabled) text text'
      (λ rest. refl) h
