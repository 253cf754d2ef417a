-- ===== src/Parsing/Simple.antt =====
-- A simple library of combinators that does what the parsers rely on.
use http_stack_lens.Base.{
  ℕ, zero, suc, ◌+◌, ◌≤◌, ◌≡◌, refl, arith, inl, inr, Bool, true, false, ◌||◌, Bool-cases, Option,
  none, some, List, [], ◌∷◌, Bytes, codes, length, take, drop, has_prefix, contains, ◌==◌,
  if◌then◌else◌, Result, ok, err, ◌>>=◌, ℤ, pos,
}
use http_stack_lens.Http.Decimal.{atoi}
use http_stack_lens.Parsing.{ParsingContext, Parser, Url, Library, is_empty, fallback}
use http_stack_lens.Parsing.Http.{is_letter, is_digit}
use http_stack_lens.Parsing.Advance.{length-le_prefix}

abbrev pub ahead_by : ParsingContext → ℕ → ParsingContext
ahead_by c n = record {
  remaining = drop n c.remaining;
  position = record c.position { offset = c.position.offset + n };
}

-- How many characters pass the test.
unfoldable pub run : (ℕ → Bool) → Bytes → ℕ
run f [] = 0
run f (c ∷ s) = let more = run f s in if f c then suc more else 0

unfoldable pub match : Bytes → Parser Bytes
match t c =
    if has_prefix c.remaining t then ok (t, ahead_by c (length t)) else err (codes "no match")

unfoldable pub many_of : (ℕ → Bool) → Parser Bytes
many_of f c = ok (take (run f c.remaining) c.remaining, ahead_by c (run f c.remaining))

unfoldable pub number : Bytes → ℤ
number s = elim (atoi s) [ none ↦ pos 0 | some z ↦ z ]

-- The place of a text in another.
unfoldable pub find_after : Option ℕ → Option ℕ
find_after none = none
find_after (some i) = some (suc i)

unfoldable pub find : Bytes → Bytes → Option ℕ
unfolding find_after
find [] t = if has_prefix [] t then some 0 else none
find (c ∷ s) t = if has_prefix (c ∷ s) t then some 0 else find_after (find s t)

pub find-le : (s t : Bytes) (i : ℕ) → find s t ≡ some i → i + length t ≤ length s
unfolding find
find-le [] t i h = ground (arith, length-le_prefix [] t)
find-le (c ∷ s) t i h = elim (Bool-cases (has_prefix (c ∷ s) t)) [
  | inl e ↦ ground (arith, length-le_prefix (c ∷ s) t)
  | inr e ↦ later (find s t) (find-le s t) (rw e at h)
]
  where
    later :
        (o : Option ℕ)
        → ((j : ℕ) → o ≡ some j → j + length t ≤ length s)
        → find_after o ≡ some i
        → i + length t ≤ suc (length s)
    later none k e = absurd cc
    later (some j) k e = ground (arith, k j refl)

pub find-contains : (s t : Bytes) → contains s t ≡ true → (i : ℕ) × (find s t ≡ some i)
unfolding find contains
find-contains [] t h = (0, rw h refl)
find-contains (c ∷ s) t h = elim (Bool-cases (has_prefix (c ∷ s) t)) [
  | inl e ↦ (0, rw e refl)
  | inr e ↦ let (i, f) = find-contains s t (ground arith) in (suc i, rw (e, f) refl)
]

pub find_missing : (s t : Bytes) → contains s t ≡ false → find s t ≡ none
unfolding find contains
find_missing [] t h = rw h refl
find_missing (c ∷ s) t h = elim (Bool-cases (has_prefix (c ∷ s) t)) [
  | inl e ↦ absurd (ground arith)
  | inr e ↦ let f : find s t ≡ none = find_missing s t (ground arith) in rw (e, f) refl
]

-- The parser must take all that stands in front of the delimiter.
unfoldable pub whole :
    ParsingContext
    → ℕ
    → ℕ
    → Result Bytes (Bytes × ParsingContext)
    → Result Bytes (Bytes × ParsingContext)
whole c i n (err m) = err m
whole c i n (ok (v, d)) =
    if d.position.offset == c.position.offset + i
    then ok (v, ahead_by c n)
    else err (codes "no match")

unfoldable pub limited : ParsingContext → ℕ → ParsingContext
limited c i = record c { remaining = take i c.remaining }

unfoldable pub until_at :
    Parser Bytes → ℕ → ParsingContext → Option ℕ → Result Bytes (Bytes × ParsingContext)
unfolding whole limited
until_at p size c none = err (codes "delimiter not found")
until_at p size c (some i) = whole c i (i + size) (p (limited c i))

unfoldable pub until : Parser Bytes → Bytes → Bool → Parser Bytes
unfolding until_at find
until p t skip c = until_at p (if skip then length t else 0) c (find c.remaining t)

abbrev pub fmap : {A B : Type 0} → Parser A → (A → B) → Parser B
fmap p f c = p c >>= λ r. ok (f r.0, r.1)

abbrev pub both : {A B : Type 0} → Parser A → Parser B → Parser (A × B)
both p q c = p c >>= λ r. q r.1 >>= λ s. ok ((r.0, s.0), s.1)

abbrev pub maybe_of :
    {A : Type 0}
    → ParsingContext
    → Result Bytes (A × ParsingContext)
    → Result Bytes (Option A × ParsingContext)
maybe_of c (ok (v, d)) = ok (some v, d)
maybe_of c (err m) = ok (none, c)

unfoldable pub repeat : {A : Type 0} → ℕ → Parser A → Parser (List A)
repeat zero p c = ok ([], c)
repeat (suc n) p c = elim (p c) [
  | err m ↦ ok ([], c)
  | ok (v, d) ↦ repeat n p d >>= λ r. ok (v ∷ r.0, r.1)
]

unfoldable pub one_of : ℕ → Parser ℕ
one_of x c =
    if has_prefix c.remaining (x ∷ []) then ok (x, ahead_by c 1) else err (codes "no match")

-- A text with a scheme, a host and a path.
unfoldable pub parse_simple : Bytes → Result Bytes Url
parse_simple s = ok (record {
  scheme = take 4 s;
  hostname = drop 7 s;
  port = [];
  escaped_path = [];
  raw_query = [];
  force_query = false;
})

abbrev pub simple : Library
simple = record {
  new_parsing_context =
      λ s. record { remaining = s; position = record { offset = 0; line = 1; column = 1 } };
  at_end = λ c. is_empty c.remaining;
  forward = ahead_by;
  move = λ p t. record p { offset = p.offset + length t };
  string_match = match;
  many_satisfy = many_of;
  many_alphanumeric = many_of (λ c. is_letter c || is_digit c);
  spaces = fmap (many_of (λ c. c == 32 || c == 9)) (λ _. tt);
  integer = fmap (many_of is_digit) number;
  one_char = one_of;
  until_text = until;
  or_else = λ p q c. fallback (p c) q c;
  map = fmap;
  left = λ p q. fmap (both p q) (λ r. r.0);
  right = λ p q. fmap (both p q) (λ r. r.1);
  combine = both;
  optional = λ p c. maybe_of c (p c);
  many = λ p c. repeat (length c.remaining) p c;
  index_of = find;
  parse_url = parse_simple;
  quote = λ s. s;
}
