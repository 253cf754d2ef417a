-- ===== src/Persistence/Whole.antt =====
-- configuration/config_persistence.go: a text of whole lines, cut and joined.
use http_stack_lens.Base.{
  ℕ, ◌≡◌, refl, sym, ap, ◌∙◌, inl, inr, arith, true, false, not, ◌||◌, Bool-cases, Option, none,
  some, List, [], ◌∷◌, ◌++◌, Bytes, leb, ◌==◌, lacks, extend,
}
use http_stack_lens.Persistence.{
  Lines, split_after, join, leading_spaces, is_ignored, ends_line, is_removed, keep_lines,
}

-- A line with its line break, and no other.
abbrev pub IsWhole : Bytes → Type 0
IsWhole line = (body : Bytes) × (line ≡ body ++ 10 ∷ []) × (lacks 10 body ≡ true)

abbrev pub AllWhole : Lines → Type 0
AllWhole [] = Unit
AllWhole (line ∷ lines) = IsWhole line × AllWhole lines

pub AllWhole-append : (xs ys : Lines) → AllWhole xs → AllWhole ys → AllWhole (xs ++ ys)
AllWhole-append [] ys h k = k
AllWhole-append (x ∷ xs) ys (w, h) k = (w, AllWhole-append xs ys h k)

pub AllWhole-left : (xs ys : Lines) → AllWhole (xs ++ ys) → AllWhole xs × AllWhole ys
AllWhole-left [] ys h = (tt, h)
AllWhole-left (x ∷ xs) ys (w, h) = let (a, b) = AllWhole-left xs ys h in ((w, a), b)

pub AllWhole-keep_lines :
    (names : List Bytes) (indent : ℕ) (skipping : Option ℕ) (lines : Lines)
    → AllWhole lines
    → AllWhole (keep_lines names indent skipping lines)
unfolding keep_lines
AllWhole-keep_lines names indent skipping [] h = tt
AllWhole-keep_lines names indent none (line ∷ lines) (w, h) =
    elim (Bool-cases (is_removed names indent line)) [
      | inl e ↦
          rw (e, AllWhole) (AllWhole-keep_lines names indent (some (leading_spaces line)) lines h)
      | inr e ↦ rw (e, AllWhole) (w, AllWhole-keep_lines names indent none lines h)
    ]
AllWhole-keep_lines names indent (some block) (line ∷ lines) (w, h) =
    elim (Bool-cases (is_ignored line || not (leb (leading_spaces line) block))) [
      | inl e ↦ rw (e, AllWhole) (AllWhole-keep_lines names indent (some block) lines h)
      | inr e ↦ elim (Bool-cases (is_removed names indent line)) [
        | inl f ↦
            rw (e, f, AllWhole)
              (AllWhole-keep_lines names indent (some (leading_spaces line)) lines h)
        | inr f ↦ rw (e, f, AllWhole) (w, AllWhole-keep_lines names indent none lines h)
      ]
    ]

-- A text is cut where its lines are joined.
split_after_line :
    (body text : Bytes)
    → lacks 10 body ≡ true
    → split_after ((body ++ 10 ∷ []) ++ text) ≡ (body ++ 10 ∷ []) ∷ split_after text
unfolding split_after lacks
split_after_line [] text h = refl
split_after_line (c ∷ body) text h = elim (Bool-cases (c == 10)) [
  | inl e ↦ absurd (let no : false ≡ true = rw e at h in cc)
  | inr e ↦ rw e (ap (extend c) (split_after_line body text (rw e at h)))
]

pub split_after-join :
    (lines : Lines) → AllWhole lines → split_after (join lines) ≡ lines ++ [] ∷ []
unfolding split_after join
split_after-join [] h = refl
split_after-join (line ∷ lines) ((body, same, plain), h) =
    ap (λ (l : Bytes). split_after (l ++ join lines)) same
    ∙ split_after_line body (join lines) plain
    ∙ ap (λ (l : Bytes). l ∷ split_after (join lines)) (sym same)
    ∙ ap (◌∷◌ line) (split_after-join lines h)

-- The lines of a text that ends with a line break.
pub record Cut (text : Bytes) : Type 0 where
  pub first : Bytes
  pub others : Lines
  pub cut_at : split_after text ≡ first ∷ (others ++ [] ∷ [])
  pub whole : AllWhole (first ∷ others)

Cut-extend : (c : ℕ) (text : Bytes) → (c == 10) ≡ false → Cut text → Cut (c ∷ text)
unfolding split_after lacks
Cut-extend c text e k =
    let ((body, same, plain), others) = k.whole in
    record {
      first = c ∷ k.first;
      others = k.others;
      cut_at = rw e (ap (extend c) k.cut_at);
      whole = ((c ∷ body, ap (◌∷◌ c) same, rw e plain), others);
    }

pub ends_line-Cut : (text : Bytes) → ends_line text ≡ true → Cut text
unfolding ends_line split_after lacks
ends_line-Cut [] h = absurd cc
ends_line-Cut (c ∷ []) h =
    let same : c ≡ 10 = ground arith in
    record { first = 10 ∷ []; others = []; cut_at = rw same refl; whole = (([], refl, refl), tt) }
ends_line-Cut (c ∷ d ∷ s) h =
    let k = ends_line-Cut (d ∷ s) h in
    elim (Bool-cases (c == 10)) [
      | inr e ↦ Cut-extend c (d ∷ s) e k
      | inl e ↦
          let same : c ≡ 10 = ground arith in
          record {
            first = 10 ∷ [];
            others = k.first ∷ k.others;
            cut_at = rw same (ap (◌∷◌ (10 ∷ [])) k.cut_at);
            whole = (([], refl, refl), k.whole);
          }
    ]
