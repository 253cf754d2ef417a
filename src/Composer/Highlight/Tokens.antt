-- ===== src/Composer/Highlight/Tokens.antt =====
-- composer/highlight.go: the order of the token stream.
use http_stack_lens.Base.{
  ℕ, zero, suc, ◌+◌, ◌-◌, ◌≤◌, ◌<◌, ◌≡◌, refl, arith, Bool-cases, Option-cases, inl, inr, Option,
  none, some, List, [], ◌∷◌, ◌++◌, Bytes, codes, length,
}
use http_stack_lens.Composer.Highlight.{
  Token, drop_overlaps, index_from, index_runes, next_placeholder, split_token, split_placeholders,
  insert_token, sort_tokens, hosts_placeholder, split_one, closing_of, closed_at,
  before_placeholder,
}

-- Tokens that do not touch, from `from` on, and that end by `to`.
abbrev pub IsOrdered : ℕ → ℕ → List Token → Type 0
IsOrdered from to [] = from ≤ to
IsOrdered from to (t ∷ tokens) = (from ≤ t.start) × (t.start < t.end) × IsOrdered t.end to tokens

-- Each token ends by `to`.
abbrev pub AllEnd : ℕ → List Token → Type 0
AllEnd to [] = Unit
AllEnd to (t ∷ tokens) = (t.end ≤ to) × AllEnd to tokens

pub AllEnd-append :
    (to : ℕ) (xs ys : List Token) → AllEnd to xs → AllEnd to ys → AllEnd to (xs ++ ys)
AllEnd-append to [] ys h k = k
AllEnd-append to (t ∷ xs) ys (e, h) k = (e, AllEnd-append to xs ys h k)

AllEnd-insert_token :
    (to : ℕ) (t : Token) (xs : List Token)
    → t.end ≤ to
    → AllEnd to xs
    → AllEnd to (insert_token t xs)
unfolding insert_token
AllEnd-insert_token to t [] e h = (e, tt)
AllEnd-insert_token to t (u ∷ xs) e (f, h) = ground (arith, AllEnd-insert_token to t xs e h)

pub AllEnd-sort_tokens : (to : ℕ) (xs : List Token) → AllEnd to xs → AllEnd to (sort_tokens xs)
unfolding sort_tokens
AllEnd-sort_tokens to [] h = tt
AllEnd-sort_tokens to (t ∷ xs) (e, h) =
    AllEnd-insert_token to t (sort_tokens xs) e (AllEnd-sort_tokens to xs h)

pub drop_overlaps-IsOrdered :
    (from to : ℕ) (xs : List Token)
    → from ≤ to
    → AllEnd to xs
    → IsOrdered from to (drop_overlaps from xs)
unfolding drop_overlaps
drop_overlaps-IsOrdered from to [] e h = e
drop_overlaps-IsOrdered from to (t ∷ xs) e (f, h) =
    ground (arith, drop_overlaps-IsOrdered from to xs e h, drop_overlaps-IsOrdered t.end to xs f h)

IsOrdered-weaken :
    (from low to : ℕ) (xs : List Token) → low ≤ from → IsOrdered from to xs → IsOrdered low to xs
IsOrdered-weaken from low to [] e h = omega arith
IsOrdered-weaken from low to (t ∷ xs) e (f, g, h) = (omega arith, g, h)

IsOrdered-append :
    (from mid to : ℕ) (xs ys : List Token)
    → IsOrdered from mid xs
    → IsOrdered mid to ys
    → IsOrdered from to (xs ++ ys)
IsOrdered-append from mid to [] ys h k = IsOrdered-weaken mid from to ys h k
IsOrdered-append from mid to (t ∷ xs) ys (e, f, h) k =
    (e, f, IsOrdered-append t.end mid to xs ys h k)

index_from_bounds :
    (n i : ℕ) (runes needle : Bytes) (found : ℕ)
    → index_from n runes i needle ≡ some found
    → (i ≤ found) × (found < i + n)
unfolding index_from
index_from_bounds zero i runes needle found h = absurd cc
index_from_bounds (suc n) i runes needle found h =
    ground (arith, index_from_bounds n (i + 1) runes needle found)

index_runes_bounds :
    (runes needle : Bytes) (from to found : ℕ)
    → index_runes runes from to needle ≡ some found
    → (from ≤ found) × (found + length needle ≤ to)
unfolding index_runes
index_runes_bounds runes needle from to found h =
    ground (arith, index_from_bounds (suc (to - (from + length needle))) from runes needle found)

closing_at_bounds :
    (o opening closing end : ℕ) (c : Option ℕ)
    → ((i : ℕ) → c ≡ some i → (o + 2 ≤ i) × (i + 2 ≤ end))
    → closed_at o c ≡ some (opening, closing)
    → (o ≡ opening) × (o < closing) × (closing + 2 ≤ end)
closing_at_bounds o opening closing end none h e = absurd cc
closing_at_bounds o opening closing end (some i) h e = ground (arith, h i refl)

closing_of_bounds :
    (runes : Bytes) (cursor end : ℕ) (o : Option ℕ) (opening closing : ℕ)
    → ((i : ℕ) → o ≡ some i → (cursor ≤ i) × (i + 2 ≤ end))
    → closing_of runes end o ≡ some (opening, closing)
    → (cursor ≤ opening) × (opening < closing) × (closing + 2 ≤ end)
closing_of_bounds runes cursor end none opening closing h e = absurd cc
closing_of_bounds runes cursor end (some o) opening closing h e =
    let k =
      closing_at_bounds o opening closing end _
        (λ i f. index_runes_bounds runes (codes "}}") (o + 2) end i f) e in
    omega (arith, h o refl, k)

next_placeholder_bounds :
    (runes : Bytes) (cursor end opening closing : ℕ)
    → next_placeholder runes cursor end ≡ some (opening, closing)
    → (cursor ≤ opening) × (opening < closing) × (closing + 2 ≤ end)
unfolding next_placeholder
next_placeholder_bounds runes cursor end opening closing h =
    closing_of_bounds runes cursor end (index_runes runes cursor end (codes "{{")) opening closing
      (λ o e. index_runes_bounds runes (codes "{{") cursor end o e) h

before_placeholder-IsOrdered :
    (t : Token) (cursor opening : ℕ)
    → cursor ≤ opening
    → IsOrdered cursor opening (before_placeholder t cursor opening)
before_placeholder-IsOrdered t cursor opening h = ground arith

split_token-IsOrdered :
    (rounds : ℕ) (runes : Bytes) (t : Token) (cursor : ℕ)
    → cursor ≤ t.end
    → IsOrdered cursor t.end (split_token rounds runes t cursor)
unfolding split_token
split_token-IsOrdered zero runes t cursor h = ground arith
split_token-IsOrdered (suc rounds) runes t cursor h =
    elim (Option-cases (next_placeholder runes cursor t.end)) [
      | inl e ↦ rw (e, IsOrdered) (ground arith)
      | inr ((opening, closing), e) ↦
          let b = next_placeholder_bounds runes cursor t.end opening closing e in
          rw (e, IsOrdered)
            (IsOrdered-append cursor opening t.end (before_placeholder t cursor opening) _
              (before_placeholder-IsOrdered t cursor opening b.0)
              (omega arith, omega arith, split_token-IsOrdered rounds runes t (closing + 2) b.2))
    ]

split_one-IsOrdered :
    (runes : Bytes) (from : ℕ) (t : Token)
    → from ≤ t.start
    → t.start < t.end
    → IsOrdered from t.end (split_one runes t)
split_one-IsOrdered runes from t e f = elim (Bool-cases (hosts_placeholder t.kind)) [
  | inl g ↦ rw g (
      IsOrdered-weaken t.start from t.end _ e
        (split_token-IsOrdered (t.end - t.start) runes t t.start (omega arith)))
  | inr g ↦ rw g (e, f, omega arith)
]

pub split_placeholders-IsOrdered :
    (runes : Bytes) (from to : ℕ) (xs : List Token)
    → IsOrdered from to xs
    → IsOrdered from to (split_placeholders runes xs)
unfolding split_placeholders
split_placeholders-IsOrdered runes from to [] h = h
split_placeholders-IsOrdered runes from to (t ∷ xs) (e, f, h) =
    IsOrdered-append from t.end to (split_one runes t) (split_placeholders runes xs)
      (split_one-IsOrdered runes from t e f) (split_placeholders-IsOrdered runes t.end to xs h)
