-- ===== src/Parsing/Advance.antt =====
-- Contexts that move over a text: steps add up, and the combinators keep them.
use mathlib.Core.Path.{subst}
use http_stack_lens.Base.{
  ap, ◌∙◌, ℕ, ◌+◌, ◌≤◌, ◌≡◌, refl, sym, arith, [], ◌∷◌, Bytes, length, drop, length-drop, drop-drop,
  Result, has_prefix, Bool-cases, inl, inr, true, ok, err, ok≢err,
}
use http_stack_lens.Parsing.{
  ParsingContext, Parser, Library, Ahead, Advances, Consumes, IsLibrary, fallback,
}

pub Ahead-trans : {m n : ℕ} {c d e : ParsingContext} → Ahead m c d → Ahead n d e → Ahead (m + n) c e
Ahead-trans {m} {n} {c} {d} {e} a b = record {
  within = omega (arith, ap length a.rest, length-drop m c.remaining, a.within, b.within);
  rest = b.rest ∙ ap (drop n) a.rest ∙ drop-drop m n c.remaining;
  moved = omega (arith, a.moved, b.moved);
}

pub Advances-trans :
    {m n : ℕ} {c d e : ParsingContext} → Advances m c d → Advances n d e → Advances (m + n) c e
Advances-trans a b = record {
  count = a.count + b.count;
  at_least = omega (arith, a.at_least, b.at_least);
  ahead = Ahead-trans a.ahead b.ahead;
}

pub Advances-weaken : {m n : ℕ} {c d : ParsingContext} → n ≤ m → Advances m c d → Advances n c d
Advances-weaken h a = record {
  count = a.count;
  at_least = omega (arith, a.at_least);
  ahead = a.ahead;
}

pub Ahead-refl : (c : ParsingContext) → Ahead 0 c c
Ahead-refl c = record { within = omega arith; rest = refl; moved = omega arith }

pub Advances-refl : (c : ParsingContext) → Advances 0 c c
Advances-refl c = record { count = 0; at_least = omega arith; ahead = Ahead-refl c }

pub Consumes-fallback :
    {A : Type 0} (n : ℕ) (r : Result Bytes (A × ParsingContext)) (q : Parser A) (c : ParsingContext)
    (v : A) (d : ParsingContext)
    → ((v : A) (d : ParsingContext) → r ≡ ok (v, d) → Advances n c d)
    → Consumes n q
    → fallback r q c ≡ ok (v, d)
    → Advances n c d
Consumes-fallback n (ok (w, e)) q c v d hr hq h = hr v d h
Consumes-fallback n (err m) q c v d hr hq h = hq c v d h

-- A parser's result is where its context moved to.
pub arrive :
    {A : Type 0} {n : ℕ} {c d e : ParsingContext} {a v : A}
    → ◌≡◌ {A = Result Bytes (A × ParsingContext)} (ok (a, e)) (ok (v, d))
    → Advances n c e
    → Advances n c d
arrive {n} {c} {d} {e} h moved = let same : e ≡ d = cc in subst (Advances n c) same moved

pub length-le_prefix : (s t : Bytes) → has_prefix s t ≡ true → length t ≤ length s
unfolding has_prefix
length-le_prefix s [] h = omega arith
length-le_prefix [] (d ∷ t) h = absurd cc
length-le_prefix (c ∷ s) (d ∷ t) h = ground (arith, length-le_prefix s t)

module _ (lib : Library) (laws : IsLibrary lib) where
  pub or_else-Consumes :
      {A : Type 0} (n : ℕ) (p q : Parser A)
      → Consumes n p
      → Consumes n q
      → Consumes n (lib.or_else p q)
  or_else-Consumes n p q hp hq c v d h =
      Consumes-fallback n (p c) q c v d (hp c) hq (rw (← laws.or_else-fallback p q c) h)

  pub string_match-Consumes : (t : Bytes) → Consumes (length t) (lib.string_match t)
  string_match-Consumes t c v d h = elim (Bool-cases (has_prefix c.remaining t)) [
    | inl e ↦ arrive (sym (laws.string_match_found t c e) ∙ h) record {
      count = length t;
      at_least = omega arith;
      ahead = laws.forward-Ahead c (length t) (length-le_prefix c.remaining t e);
    }
    | inr e ↦ let (m, failed) = laws.string_match_missing t c e in ok≢err (sym h ∙ failed)
  ]

  pub forward-Advances :
      (c : ParsingContext) (n : ℕ) → n ≤ length c.remaining → Advances n c (lib.forward c n)
  forward-Advances c n h = record {
    count = n;
    at_least = omega arith;
    ahead = laws.forward-Ahead c n h;
  }
