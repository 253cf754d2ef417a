-- ===== src/Base/Texts.antt =====
-- Package strings over lists of bytes. Case mapping and white space are those of ASCII: on other
-- text Go also folds and trims some code points beyond it.
use Prim.Native.Nat.{ℕ, ◌+◌}
use mathlib.Core.Path.{◌≡◌, refl, ap, ◌∙◌}
use mathlib.Core.Logic.{inl, inr}
use mathlib.Core.Bool.{Bool, true, false, ◌&&◌, ◌||◌}
use mathlib.Core.Option.{Option, none, some}
use mathlib.Core.List.{List, [], ◌∷◌, ◌++◌}
use native.Mathlib.Omega.{arith}
use http_stack_lens.Base.Tests.{leb, ◌==◌, if◌then◌else◌, Bool-cases}
use http_stack_lens.Base.Lists.{Bytes, equal, equal_iff, equal_refl}

unfoldable pub lower : ℕ → ℕ
lower c = if leb b'A' c && leb c b'Z' then c + 32 else c

-- strings.ToLower
unfoldable pub to_lower : Bytes → Bytes
to_lower [] = []
to_lower (c ∷ s) = lower c ∷ to_lower s

-- strings.EqualFold
unfoldable pub equal_fold : Bytes → Bytes → Bool
equal_fold s t = equal (to_lower s) (to_lower t)

-- '\t', '\n', '\v', '\f', '\r', ' '
unfoldable pub is_space : ℕ → Bool
is_space c = (leb 9 c && leb c 13) || c == 32

unfoldable pub trim_left : Bytes → Bytes
trim_left [] = []
trim_left (c ∷ s) = let rest = trim_left s in if is_space c then rest else c ∷ s

-- `c` in front of a text that is trimmed.
abbrev pub rejoin : ℕ → Bytes → Bytes
rejoin c [] = if is_space c then [] else c ∷ []
rejoin c (d ∷ s) = c ∷ d ∷ s

unfoldable pub trim_right : Bytes → Bytes
trim_right [] = []
trim_right (c ∷ s) = rejoin c (trim_right s)

-- strings.TrimSpace
unfoldable pub trim_space : Bytes → Bytes
trim_space s = trim_right (trim_left s)

unfoldable pub has_prefix : Bytes → Bytes → Bool
has_prefix s [] = true
has_prefix [] (d ∷ p) = false
has_prefix (c ∷ s) (d ∷ p) = c == d && has_prefix s p

unfoldable pub has_suffix : Bytes → Bytes → Bool
has_suffix [] p = equal [] p
has_suffix (c ∷ s) p = equal (c ∷ s) p || has_suffix s p

unfoldable pub contains : Bytes → Bytes → Bool
contains [] p = has_prefix [] p
contains (c ∷ s) p = has_prefix (c ∷ s) p || contains s p

-- What stands in front of the first `sep`, and behind it; `none` when there is none.
unfoldable pub cut : ℕ → Bytes → Option (Bytes × Bytes)
cut sep [] = none
cut sep (c ∷ s) =
    let rest = cut sep s in
    if c == sep
    then some ([], s)
    else elim rest [ none ↦ none | some (before, after) ↦ some (c ∷ before, after) ]

abbrev pub extend : ℕ → List Bytes → List Bytes
extend c [] = (c ∷ []) ∷ []
extend c (part ∷ parts) = (c ∷ part) ∷ parts

-- strings.Split at one byte.
unfoldable pub split : ℕ → Bytes → List Bytes
split sep [] = [] ∷ []
split sep (c ∷ s) = if c == sep then [] ∷ split sep s else extend c (split sep s)

-- The text has no byte `c`.
unfoldable pub lacks : ℕ → Bytes → Bool
lacks c [] = true
lacks c (d ∷ s) = if d == c then false else lacks c s

pub lower_idem : (c : ℕ) → lower (lower c) ≡ lower c
unfolding lower
lower_idem c = ground arith

pub to_lower_idem : (s : Bytes) → to_lower (to_lower s) ≡ to_lower s
unfolding to_lower
to_lower_idem [] = refl
to_lower_idem (c ∷ s) = cc (lower_idem c, to_lower_idem s)

pub is_space-lower : (c : ℕ) → is_space (lower c) ≡ is_space c
unfolding is_space lower
is_space-lower c = ground arith

-- Case mapping and trimming commute.
pub trim_left-to_lower : (s : Bytes) → trim_left (to_lower s) ≡ to_lower (trim_left s)
unfolding trim_left to_lower
trim_left-to_lower [] = refl
trim_left-to_lower (c ∷ s) = ground (arith, is_space-lower c, trim_left-to_lower s)

rejoin-to_lower : (c : ℕ) (s : Bytes) → rejoin (lower c) (to_lower s) ≡ to_lower (rejoin c s)
unfolding to_lower
rejoin-to_lower c [] = ground (arith, is_space-lower c)
rejoin-to_lower c (d ∷ s) = refl

pub trim_right-to_lower : (s : Bytes) → trim_right (to_lower s) ≡ to_lower (trim_right s)
unfolding trim_right to_lower
trim_right-to_lower [] = refl
trim_right-to_lower (c ∷ s) =
    ap (rejoin (lower c)) (trim_right-to_lower s) ∙ rejoin-to_lower c (trim_right s)

pub trim_space-to_lower : (s : Bytes) → trim_space (to_lower s) ≡ to_lower (trim_space s)
unfolding trim_space
trim_space-to_lower s = ap trim_right (trim_left-to_lower s) ∙ trim_right-to_lower (trim_left s)

pub has_suffix_sound : (s p : Bytes) → has_suffix s p ≡ true → (front : Bytes) × (s ≡ front ++ p)
unfolding has_suffix
has_suffix_sound [] p h = ([], (equal_iff [] p).0 h)
has_suffix_sound (c ∷ s) p h = elim (Bool-cases (equal (c ∷ s) p)) [
  | inl e ↦ ([], (equal_iff (c ∷ s) p).0 e)
  | inr e ↦
      let (front, split) = has_suffix_sound s p (ground arith) in (c ∷ front, ap (◌∷◌ c) split)
]

pub has_suffix-append : (s p : Bytes) → has_suffix (s ++ p) p ≡ true
unfolding has_suffix
has_suffix-append [] [] = equal_refl []
has_suffix-append [] (d ∷ p) = ground (arith, equal_refl (d ∷ p))
has_suffix-append (c ∷ s) p = ground (arith, has_suffix-append s p)

trim_left_idem : (s : Bytes) → trim_left (trim_left s) ≡ trim_left s
unfolding trim_left
trim_left_idem [] = refl
trim_left_idem (c ∷ s) = ground (arith, trim_left_idem s)

trim_right-rejoin : (c : ℕ) (s : Bytes) → trim_right s ≡ s → trim_right (rejoin c s) ≡ rejoin c s
unfolding trim_right
trim_right-rejoin c [] h = ground arith
trim_right-rejoin c (d ∷ s) h = rw h refl

trim_right_idem : (s : Bytes) → trim_right (trim_right s) ≡ trim_right s
unfolding trim_right
trim_right_idem [] = refl
trim_right_idem (c ∷ s) = trim_right-rejoin c (trim_right s) (trim_right_idem s)

trim_left-rejoin : (c : ℕ) (s : Bytes) → is_space c ≡ false → trim_left (rejoin c s) ≡ rejoin c s
unfolding trim_left
trim_left-rejoin c [] h = ground arith
trim_left-rejoin c (d ∷ s) h = ground arith

trim_left-trim_right : (s : Bytes) → trim_left (trim_right (trim_left s)) ≡ trim_right (trim_left s)
unfolding trim_left trim_right
trim_left-trim_right [] = refl
trim_left-trim_right (c ∷ s) = elim (Bool-cases (is_space c)) [
  | inl e ↦ rw e (trim_left-trim_right s)
  | inr e ↦ rw e (trim_left-rejoin c (trim_right s) e)
]

pub trim_space_idem : (s : Bytes) → trim_space (trim_space s) ≡ trim_space s
unfolding trim_space
trim_space_idem s = ap trim_right (trim_left-trim_right s) ∙ trim_right_idem (trim_left s)
