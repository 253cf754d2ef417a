-- ===== src/WebUi/HttpFiles/Names.antt =====
-- webui/http_files.go, httpFileName: the names that it lets through.
use mathlib.Core.Path.{subst}
use http_stack_lens.Base.{
  ℕ, ◌≤◌, ◌≡◌, refl, sym, ap, ◌∙◌, ◌⊎◌, inl, inr, arith, true, false, not, ◌||◌, Bool-cases, Option,
  none, some, [], ◌∷◌, ◌++◌, Bytes, codes, equal, equal_fold, equal_refl, trim_space, trim_left,
  trim_right, rejoin, is_space, has_prefix, lacks, length, ltb, trim_space_idem, to_lower,
}
use http_stack_lens.WebUi.HttpFiles.{
  http_file_ext, next_ext, ext_behind, ext, base, any_byte, is_separator, is_reserved, with_ext,
  checked_name, file_name, http_file_name,
}

-- A name that stays in the folder, on any system, and is one of a .http file.
pub record IsSafe (name : Bytes) : Type 0 where
  pub no_slash : lacks b'/' name ≡ true
  pub no_backslash : lacks b'\\' name ≡ true
  pub no_dot : has_prefix name (codes ".") ≡ false
  pub printed : any_byte is_reserved name ≡ false
  pub extension : equal_fold (ext name) http_file_ext ≡ true
  pub short : length name ≤ 128
  pub trimmed : trim_space name ≡ name

ext_behind-append : (s last : Bytes) → ext_behind (s ++ http_file_ext) last ≡ http_file_ext
unfolding ext_behind
ext_behind-append [] last = refl
ext_behind-append (c ∷ s) last = ext_behind-append s (next_ext c (s ++ http_file_ext) last)

ext-append : (s : Bytes) → equal_fold (ext (s ++ http_file_ext)) http_file_ext ≡ true
unfolding ext equal_fold
ext-append s = rw (ext_behind-append s []) (equal_refl (to_lower http_file_ext))

with_ext_of : (s : Bytes) → equal_fold (ext s) http_file_ext ≡ true → with_ext s ≡ s
unfolding with_ext
with_ext_of s h = rw h refl

ext-with_ext : (trimmed : Bytes) → equal_fold (ext (with_ext trimmed)) http_file_ext ≡ true
unfolding with_ext
ext-with_ext trimmed = elim (Bool-cases (equal_fold (ext trimmed) http_file_ext)) [
  | inl e ↦ rw e e
  | inr e ↦ rw e (ext-append trimmed)
]

with_ext_idem : (trimmed : Bytes) → with_ext (with_ext trimmed) ≡ with_ext trimmed
with_ext_idem trimmed = with_ext_of (with_ext trimmed) (ext-with_ext trimmed)

-- A trimmed text with something behind it that does not end in white space.
trim_left-cases :
    (s : Bytes)
    → (trim_left s ≡ []) ⊎ ((c : ℕ) × (t : Bytes) × (trim_left s ≡ c ∷ t) × (is_space c ≡ false))
unfolding trim_left
trim_left-cases [] = inl refl
trim_left-cases (c ∷ s) = elim (Bool-cases (is_space c)) [
  | inl e ↦ rw e (trim_left-cases s)
  | inr e ↦ inr (c, s, rw e refl, e)
]

trim_right-append : (s : Bytes) → trim_right (s ++ http_file_ext) ≡ s ++ http_file_ext
unfolding trim_right is_space
trim_right-append [] = refl
trim_right-append (c ∷ s) = ap (rejoin c) (trim_right-append s) ∙ rejoined c s
  where
    rejoined : (c : ℕ) (s : Bytes) → rejoin c (s ++ http_file_ext) ≡ c ∷ (s ++ http_file_ext)
    rejoined c [] = refl
    rejoined c (d ∷ s) = refl

rejoin-cases : (c : ℕ) (t : Bytes) → is_space c ≡ false → (u : Bytes) × (rejoin c t ≡ c ∷ u)
rejoin-cases c [] h = ([], rw h refl)
rejoin-cases c (d ∷ t) h = (d ∷ t, refl)

trim_space-cases :
    (s : Bytes)
    → (trim_space s ≡ []) ⊎ ((c : ℕ) × (t : Bytes) × (trim_space s ≡ c ∷ t) × (is_space c ≡ false))
unfolding trim_space trim_right
trim_space-cases s = elim (trim_left-cases s) [
  | inl e ↦ inl (ap trim_right e)
  | inr (c, t, e, plain) ↦
      let (u, f) = rejoin-cases c (trim_right t) plain in inr (c, u, ap trim_right e ∙ f, plain)
]

trim_space-with_ext :
    (c : ℕ) (t : Bytes)
    → is_space c ≡ false
    → trim_space (c ∷ t) ≡ c ∷ t
    → trim_space (with_ext (c ∷ t)) ≡ with_ext (c ∷ t)
unfolding with_ext trim_space trim_left
trim_space-with_ext c t plain h = elim (Bool-cases (equal_fold (ext (c ∷ t)) http_file_ext)) [
  | inl e ↦ rw e h
  | inr e ↦ rw (e, plain) (trim_right-append (c ∷ t))
]

any_byte-lacks :
    (s : Bytes) → any_byte is_separator s ≡ false → (lacks b'/' s ≡ true) × (lacks b'\\' s ≡ true)
unfolding any_byte lacks
any_byte-lacks [] h = (refl, refl)
any_byte-lacks (c ∷ s) h =
    let (a, b) = any_byte-lacks s (ground arith) in (ground arith, ground arith)

-- What checked_name has checked of a name that it gives back.
record Passed (s safe : Bytes) : Type 0 where
  same : safe ≡ s
  separated : any_byte is_separator s ≡ false
  shown : has_prefix s (codes ".") ≡ false
  bounded : length s ≤ 128
  printed : any_byte is_reserved s ≡ false

checked_name-Passed : (s safe : Bytes) → checked_name s ≡ some safe → Passed s safe
unfolding checked_name
checked_name-Passed s safe h =
    elim (Bool-cases (not (equal s (base s)) || any_byte is_separator s)) [
      | inl e ↦ absurd (let no : ◌≡◌ {A = Option Bytes} none (some safe) = rw e at h in cc)
      | inr e ↦ elim (Bool-cases (has_prefix s (codes ".") || ltb 128 (length s))) [
        | inl f ↦ absurd (let no : ◌≡◌ {A = Option Bytes} none (some safe) = rw (e, f) at h in cc)
        | inr f ↦ elim (Bool-cases (any_byte is_reserved s)) [
          | inl g ↦
              absurd (let no : ◌≡◌ {A = Option Bytes} none (some safe) = rw (e, f, g) at h in cc)
          | inr g ↦ record {
            same =
                (let same : ◌≡◌ {A = Option Bytes} (some s) (some safe) = rw (e, f, g) at h in cc);
            separated = ground arith;
            shown = ground arith;
            bounded = ground arith;
            printed = g;
          }
        ]
      ]
    ]

file_name-checked :
    (s safe : Bytes)
    → has_prefix s (codes ".") ≡ false
    → with_ext s ≡ s
    → checked_name s ≡ some safe
    → equal s [] ≡ false
    → file_name s ≡ some safe
unfolding equal
file_name-checked [] safe h e k f = absurd cc
file_name-checked (c ∷ s) safe h e k f = ap checked_name e ∙ k

with_ext-full : (c : ℕ) (t : Bytes) → equal (with_ext (c ∷ t)) [] ≡ false
unfolding with_ext equal
with_ext-full c t = elim (Bool-cases (equal_fold (ext (c ∷ t)) http_file_ext)) [
  | inl e ↦ rw e refl
  | inr e ↦ rw e refl
]

of_checked :
    (c : ℕ) (t safe : Bytes)
    → Passed (with_ext (c ∷ t)) safe
    → trim_space (with_ext (c ∷ t)) ≡ with_ext (c ∷ t)
    → checked_name (with_ext (c ∷ t)) ≡ some safe
    → IsSafe safe × (file_name (trim_space safe) ≡ some safe)
of_checked c t safe p tidy checked =
    let (slash, backslash) = any_byte-lacks (with_ext (c ∷ t)) p.separated in
    let whole : IsSafe (with_ext (c ∷ t))
        × (file_name (trim_space (with_ext (c ∷ t))) ≡ some (with_ext (c ∷ t))) =
      (
        record {
          no_slash = slash;
          no_backslash = backslash;
          no_dot = p.shown;
          printed = p.printed;
          extension = ext-with_ext (c ∷ t);
          short = p.bounded;
          trimmed = tidy;
        },
        ap file_name tidy
            ∙ file_name-checked (with_ext (c ∷ t)) (with_ext (c ∷ t)) p.shown
                (with_ext_idem (c ∷ t)) (checked ∙ ap some p.same) (with_ext-full c t),
      ) in
    subst (λ (s : Bytes). IsSafe s × (file_name (trim_space s) ≡ some s)) (sym p.same) whole

-- A name that httpFileName lets through is safe, and it is let through once more as it is.
pub http_file_name-IsSafe :
    (name safe : Bytes)
    → http_file_name name ≡ some safe
    → IsSafe safe × (http_file_name safe ≡ some safe)
unfolding http_file_name
http_file_name-IsSafe name safe h = elim (trim_space-cases name) [
  | inl e ↦ absurd (let no : ◌≡◌ {A = Option Bytes} none (some safe) = rw (e, file_name) at h in cc)
  | inr (c, t, e, plain) ↦
      let checked : checked_name (with_ext (c ∷ t)) ≡ some safe = rw (e, file_name) at h in
      let tidy : trim_space (c ∷ t) ≡ c ∷ t = ap trim_space (sym e) ∙ trim_space_idem name ∙ e in
      of_checked c t safe (checked_name-Passed (with_ext (c ∷ t)) safe checked)
        (trim_space-with_ext c t plain tidy) checked
]
