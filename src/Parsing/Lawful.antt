-- ===== src/Parsing/Lawful.antt =====
-- The simple library does what the parsers rely on.
use http_stack_lens.Base.{
  ℕ, suc, ◌+◌, ◌≤◌, ◌≡◌, refl, sym, ap, ◌∙◌, arith, inl, inr, Bool, true, false, Bool-cases, Option,
  none, some, [], ◌∷◌, Bytes, codes, length, take, length-take, has_prefix, contains, ◌==◌, ==_iff,
  if◌then◌else◌, Result, ok, err, ok≢err, ◌>>=◌,
}
use http_stack_lens.Parsing.{ParsingContext, Parser, Ahead, Advances, Consumes, Fails, IsLibrary}
use http_stack_lens.Parsing.Advance.{
  Advances-trans, Advances-weaken, Advances-refl, arrive, length-le_prefix,
}
use http_stack_lens.Parsing.Simple.{
  ahead_by, run, match, many_of, find, find-le, find-contains, find_missing, whole, limited,
  until_at, until, fmap, both, maybe_of, one_of, simple,
}

-- A first parser that another follows did succeed.
chained :
    {A B : Type 0} (first : Result Bytes (A × ParsingContext))
    (next : A × ParsingContext → Result Bytes (B × ParsingContext)) {last : B × ParsingContext}
    → (first >>= next) ≡ ok last
    → (r : A × ParsingContext) × (first ≡ ok r) × (next r ≡ ok last)
chained (err m) next h = ok≢err (sym h)
chained (ok r) next h = (r, refl, h)

ahead_by-Ahead : (c : ParsingContext) (n : ℕ) → n ≤ length c.remaining → Ahead n c (ahead_by c n)
ahead_by-Ahead c n h = record { within = h; rest = refl; moved = refl }

ahead_by-Advances :
    (least : ℕ) (c : ParsingContext) (n : ℕ)
    → least ≤ n
    → n ≤ length c.remaining
    → Advances least c (ahead_by c n)
ahead_by-Advances least c n l h = record { count = n; at_least = l; ahead = ahead_by-Ahead c n h }

run-le : (f : ℕ → Bool) (s : Bytes) → run f s ≤ length s
unfolding run
run-le f [] = omega arith
run-le f (c ∷ s) = ground (arith, run-le f s)

run_any : (s : Bytes) → run (λ _. true) s ≡ length s
unfolding run
run_any [] = refl
run_any (c ∷ s) = ap suc (run_any s)

many_of-Consumes : (f : ℕ → Bool) → Consumes 0 (many_of f)
unfolding many_of
many_of-Consumes f c v d h =
    arrive h (ahead_by-Advances 0 c (run f c.remaining) (omega arith) (run-le f c.remaining))

fmap-Consumes :
    {A B : Type 0} (n : ℕ) (p : Parser A) (f : A → B) → Consumes n p → Consumes n (fmap p f)
fmap-Consumes n p f hp c v d h =
    let ((a, e), first, last) = chained (p c) (λ r. ok (f r.0, r.1)) h in
    arrive last (hp c a e first)

both-Consumes :
    {A B : Type 0} (p : Parser A) (q : Parser B)
    → Consumes 0 p
    → Consumes 0 q
    → Consumes 0 (both p q)
both-Consumes p q hp hq c v d h =
    let ((a, e), first, more) = chained (p c) (λ r. q r.1 >>= λ s. ok ((r.0, s.0), s.1)) h in
    let ((b, g), second, last) = chained (q e) (λ s. ok ((a, s.0), s.1)) more in
    arrive last (Advances-weaken (omega arith) (Advances-trans (hp c a e first) (hq e b g second)))

optional-Consumes : {A : Type 0} (p : Parser A) → Consumes 0 p → Consumes 0 (λ c. maybe_of c (p c))
optional-Consumes {A} p hp c v d h = maybe (p c) (hp c) h
  where
    maybe :
        (r : Result Bytes (A × ParsingContext))
        → ((a : A) (e : ParsingContext) → r ≡ ok (a, e) → Advances 0 c e)
        → maybe_of c r ≡ ok (v, d)
        → Advances 0 c d
    maybe (ok (a, e)) k g = arrive g (k a e refl)
    maybe (err m) k g = arrive g (Advances-refl c)

one_of-Consumes : (x : ℕ) → Consumes 0 (one_of x)
unfolding one_of
one_of-Consumes x c v d h = elim (Bool-cases (has_prefix c.remaining (x ∷ []))) [
  | inl e ↦
      arrive (rw e at h)
        (ahead_by-Advances 0 c 1 (omega arith) (length-le_prefix c.remaining (x ∷ []) e))
  | inr e ↦ ok≢err (sym (rw e at h))
]

whole-Consumes :
    (c : ParsingContext) (i n : ℕ) (r : Result Bytes (Bytes × ParsingContext)) (v : Bytes)
    (d : ParsingContext)
    → n ≤ length c.remaining
    → whole c i n r ≡ ok (v, d)
    → Advances n c d
unfolding whole
whole-Consumes c i n (err m) v d b h = ok≢err (sym h)
whole-Consumes c i n (ok (w, e)) v d b h =
    elim (Bool-cases (e.position.offset == c.position.offset + i)) [
      | inl g ↦ arrive (rw g at h) (ahead_by-Advances n c n (omega arith) b)
      | inr g ↦ ok≢err (sym (rw g at h))
    ]

until_at-Consumes :
    (p : Parser Bytes) (least size : ℕ) (c : ParsingContext) (o : Option ℕ) (v : Bytes)
    (d : ParsingContext)
    → least ≤ size
    → ((i : ℕ) → o ≡ some i → i + size ≤ length c.remaining)
    → until_at p size c o ≡ ok (v, d)
    → Advances least c d
unfolding until_at
until_at-Consumes p least size c none v d l b h = ok≢err (sym h)
until_at-Consumes p least size c (some i) v d l b h =
    Advances-weaken (omega arith) (whole-Consumes c i (i + size) (p (limited c i)) v d (b i refl) h)

until-Consumes : (p : Parser Bytes) (t : Bytes) → Consumes 0 (until p t false)
unfolding until
until-Consumes p t c v d h =
    until_at-Consumes p 0 0 c (find c.remaining t) v d (omega arith)
      (λ i e. omega (arith, find-le c.remaining t i e)) h

until-Consumes_delimiter : (p : Parser Bytes) (t : Bytes) → Consumes (length t) (until p t true)
unfolding until
until-Consumes_delimiter p t c v d h =
    until_at-Consumes p (length t) (length t) c (find c.remaining t) v d (omega arith)
      (find-le c.remaining t) h

until_missing :
    (p : Parser Bytes) (t : Bytes) (skip : Bool) (c : ParsingContext)
    → contains c.remaining t ≡ false
    → Fails (until p t skip) c
unfolding until until_at
until_missing p t skip c h =
    let none_found : find c.remaining t ≡ none = find_missing c.remaining t h in
    (codes "delimiter not found", rw none_found refl)

until_found :
    (t : Bytes) (skip : Bool) (c : ParsingContext)
    → contains c.remaining t ≡ true
    → (r : Bytes × ParsingContext) × (until (many_of (λ _. true)) t skip c ≡ ok r)
unfolding until until_at whole many_of limited
until_found t skip c h =
    let (i, found) = find-contains c.remaining t h in
    let n = i + (if skip then length t else 0) in
    let size : run (λ _. true) (take i c.remaining) ≡ i =
      run_any (take i c.remaining)
      ∙ omega (arith, length-take i c.remaining, find-le c.remaining t i found) in
    let same : ((c.position.offset + i) == (c.position.offset + i)) ≡ true = (==_iff _ _).1 refl in
    ((take i (take i c.remaining), ahead_by c n), rw (found, size, same) refl)

match_found :
    (t : Bytes) (c : ParsingContext)
    → has_prefix c.remaining t ≡ true
    → match t c ≡ ok (t, ahead_by c (length t))
unfolding match
match_found t c h = rw h refl

match_missing :
    (t : Bytes) (c : ParsingContext) → has_prefix c.remaining t ≡ false → Fails (match t) c
unfolding match
match_missing t c h = (codes "no match", rw h refl)

pub simple-IsLibrary : IsLibrary simple
simple-IsLibrary = record {
  new_remaining = λ s. refl;
  new_offset = λ s. refl;
  at_end-is_empty = λ c. refl;
  forward-Ahead = ahead_by-Ahead;
  offset-move = λ p t. refl;
  string_match_found = match_found;
  string_match_missing = match_missing;
  many_satisfy-Consumes = many_of-Consumes;
  many_alphanumeric-Consumes = many_of-Consumes _;
  spaces-Consumes = fmap-Consumes 0 _ _ (many_of-Consumes _);
  integer-Consumes = fmap-Consumes 0 _ _ (many_of-Consumes _);
  one_char-Consumes = one_of-Consumes;
  until_text-Consumes = λ p t _. until-Consumes p t;
  until_text-Consumes_delimiter = λ p t _. until-Consumes_delimiter p t;
  until_text_missing = until_missing;
  until_text_found = until_found;
  or_else-fallback = λ p q c. refl;
  map-Consumes = fmap-Consumes;
  left-Consumes = λ p q hp hq. fmap-Consumes 0 _ _ (both-Consumes p q hp hq);
  right-Consumes = λ p q hp hq. fmap-Consumes 0 _ _ (both-Consumes p q hp hq);
  combine-Consumes = both-Consumes;
  optional-Consumes = optional-Consumes;
  index_of-le = λ s t i h. omega (arith, find-le s t i h);
}
