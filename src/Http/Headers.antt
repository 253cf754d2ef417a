-- ===== src/Http/Headers.antt =====
-- What a header that was set is read back as.
use http_stack_lens.Base.{
  ◌≡◌, refl, sym, ◌∙◌, inl, inr, true, false, List, [], ◌∷◌, Bytes, equal_iff, equal_refl,
  equal_fold, to_lower, if◌then◌else◌, Bool-cases, false≢true,
}
use http_stack_lens.Http.Messages.{Header, get_header, set_header}

pub equal_fold_refl : (s : Bytes) → equal_fold s s ≡ true
unfolding equal_fold
equal_fold_refl s = equal_refl (to_lower s)

pub equal_fold_sym : (s t : Bytes) → equal_fold s t ≡ true → equal_fold t s ≡ true
unfolding equal_fold
equal_fold_sym s t h =
    (equal_iff (to_lower t) (to_lower s)).1 (sym ((equal_iff (to_lower s) (to_lower t)).0 h))

pub equal_fold_trans :
    (s t u : Bytes) → equal_fold s t ≡ true → equal_fold t u ≡ true → equal_fold s u ≡ true
unfolding equal_fold
equal_fold_trans s t u h k =
    (equal_iff (to_lower s) (to_lower u)).1
      ((equal_iff (to_lower s) (to_lower t)).0 h ∙ (equal_iff (to_lower t) (to_lower u)).0 k)

-- The values behind the first one.
abbrev pub others : List Bytes → List Bytes
others [] = []
others (v ∷ vs) = vs

get_header-set_header_same :
    (name value : Bytes) (hs : List Header)
    → get_header name (set_header name value hs) ≡ value ∷ others (get_header name hs)
unfolding get_header set_header
get_header-set_header_same name value [] = rw (equal_fold_refl name) refl
get_header-set_header_same name value (h ∷ hs) = elim (Bool-cases (equal_fold h.name name)) [
  | inl e ↦ simp e
  | inr e ↦ simp e (get_header-set_header_same name value hs)
]

pub other_name :
    (name other : Bytes) (h : Header)
    → equal_fold name other ≡ false
    → equal_fold h.name name ≡ true
    → equal_fold h.name other ≡ false
other_name name other h different e = elim (Bool-cases (equal_fold h.name other)) [
  | inl f ↦ absurd (
      false≢true
        (sym different ∙ equal_fold_trans name h.name other (equal_fold_sym h.name name e) f))
  | inr f ↦ f
]

get_header-set_header_other :
    (name other value : Bytes) (hs : List Header)
    → equal_fold name other ≡ false
    → get_header other (set_header name value hs) ≡ get_header other hs
unfolding get_header set_header
get_header-set_header_other name other value [] different = rw different refl
get_header-set_header_other name other value (h ∷ hs) different =
    elim (Bool-cases (equal_fold h.name name)) [
      | inl e ↦ simp (e, other_name name other h different e)
      | inr e ↦ simp (e, get_header-set_header_other name other value hs different)
    ]

same_name :
    (name asked : Bytes) (h : Header)
    → equal_fold name asked ≡ true
    → equal_fold h.name asked ≡ equal_fold h.name name
same_name name asked h e = elim (Bool-cases (equal_fold h.name name)) [
  | inl f ↦ equal_fold_trans h.name name asked f e ∙ sym f
  | inr f ↦ elim (Bool-cases (equal_fold h.name asked)) [
    | inl g ↦
        absurd
          (false≢true (sym f ∙ equal_fold_trans h.name asked name g (equal_fold_sym name asked e)))
    | inr g ↦ g ∙ sym f
  ]
]

get_header-fold :
    (name asked : Bytes) (hs : List Header)
    → equal_fold name asked ≡ true
    → get_header asked hs ≡ get_header name hs
unfolding get_header
get_header-fold name asked [] e = refl
get_header-fold name asked (h ∷ hs) e =
    rw (same_name name asked h e, get_header-fold name asked hs e) refl

-- A header that was set is the first of its name, whatever the case of the letters, the further ones
-- of that name stay, and every other header keeps its values in their order.
pub get_header-set_header :
    (name asked value : Bytes) (hs : List Header)
    → get_header asked (set_header name value hs) ≡ (
        if equal_fold name asked then value ∷ others (get_header asked hs) else get_header asked hs)
get_header-set_header name asked value hs = elim (Bool-cases (equal_fold name asked)) [
  | inl e ↦
      rw
        (
          e,
          get_header-fold name asked (set_header name value hs) e,
          get_header-fold name asked hs e,
        )
        (get_header-set_header_same name value hs)
  | inr e ↦ rw e (get_header-set_header_other name asked value hs e)
]
