-- ===== src/Storage/Reads.antt =====
-- Decoders against the bytes that they are meant for: the whole of them, with anything behind, and
-- each proper front of them.
use http_stack_lens.Base.{
  ℕ, ◌<◌, ◌≡◌, refl, ◌⊎◌, inl, inr, arith, false, Option, none, some, [], ◌∷◌, ◌++◌, append-nil,
  append_assoc, head-eq_of_cons-eq, tail-eq_of_cons-eq, Bytes, length, length-append,
  take-append_length, drop-append_length, ltb-false, ltb-true, ◌==◌, if◌then◌else◌, ok, err,
}
use http_stack_lens.Storage.Effect.{Error, eof, unexpected_eof, Io, pure, ◌>>=◌}
use http_stack_lens.Storage.Binary.{Source, src, read_full, read_bytes}

abbrev pub IsEnd : Error → Type 0
IsEnd e = (e ≡ eof) ⊎ (e ≡ unexpected_eof)

-- `d` stops within `front`, and has taken all of it.
abbrev pub Stops : {A : Type 0} → Io Source A → Bytes → Bytes → Type 0
Stops d front t = (e : Error) × (d (src front t) ≡ (err e, src [] (t ++ front))) × IsEnd e

pub record Reads {A : Type 0} (d : Io Source A) (p : Bytes) (a : A) : Type 0 where
  pub whole : (rest t : Bytes) → d (src (p ++ rest) t) ≡ (ok a, src rest (t ++ p))
  pub cut : (front : Bytes) (x : ℕ) (back t : Bytes) → p ≡ front ++ x ∷ back → Stops d front t

-- A front of `p ++ q` is a proper front of `p`, or `p` and a front of `q`.
pub front_cases :
    (p q front : Bytes) (x : ℕ) (back : Bytes)
    → p ++ q ≡ front ++ x ∷ back
    → ((y : ℕ) × (more : Bytes) × (p ≡ front ++ y ∷ more))
      ⊎ ((inner : Bytes) × (front ≡ p ++ inner) × (q ≡ inner ++ x ∷ back))
front_cases [] q front x back e = inr (front, refl, e)
front_cases (y ∷ p) q [] x back e = inl (y, p, refl)
front_cases (y ∷ p) q (z ∷ front) x back e =
    let same : y ≡ z = head-eq_of_cons-eq e in
    elim (front_cases p q front x back (tail-eq_of_cons-eq e)) [
      | inl (y', more, e') ↦ inl (y', more, cc)
      | inr (inner, e', e'') ↦ inr (inner, cc, e'')
    ]

pub no_front : (front : Bytes) (x : ℕ) (back : Bytes) → [] ≡ front ++ x ∷ back → ⊥
no_front [] x back e = cc
no_front (y ∷ front) x back e = cc

module _ {A : Type 0} where
  pub Reads-pure : (a : A) → Reads (pure a) [] a
  Reads-pure a = record {
    whole = λ rest t. rw append-nil;
    cut = λ front x back t e. absurd (no_front front x back e);
  }

module _ {A B : Type 0} where
  pub Reads-bind :
      {d : Io Source A} (f : A → Io Source B) {p q : Bytes} {a : A} {b : B}
      → Reads d p a
      → Reads (f a) q b
      → Reads (d >>= f) (p ++ q) b
  Reads-bind {d} f {p} {q} {a} {b} rd rf = record {
    whole = λ rest t. rw (append_assoc, rd.whole) (rw (rf.whole, append_assoc));
    cut = λ front x back t e. elim (front_cases p q front x back e) [
      | inl (y, more, e') ↦ let (err', stop, end) = rd.cut front y more t e' in (err', rw stop, end)
      | inr (inner, e', e'') ↦
          let (err', stop, end) = rf.cut inner x back (t ++ p) e'' in
          (err', rw (e', rd.whole) (rw (stop, append_assoc)), end)
    ];
  }

  pub Reads-map :
      {d : Io Source A} {p : Bytes} {a : A} (g : A → B)
      → Reads d p a
      → Reads (d >>= (λ x. pure (g x))) p (g a)
  Reads-map g rd = record {
    whole = λ rest t. rw rd.whole;
    cut =
        λ front x back t e. let (err', stop, end) = rd.cut front x back t e in (err', rw stop, end);
  }

length_front :
    {p : Bytes} (front : Bytes) (x : ℕ) (back : Bytes)
    → p ≡ front ++ x ∷ back
    → length front < length p
length_front front x back e = rw e (omega (arith, length-append front (x ∷ back)))

short : Bytes → Error
short front = if length front == 0 then eof else unexpected_eof

short-IsEnd : (front : Bytes) → IsEnd (short front)
unfolding short
short-IsEnd [] = inl refl
short-IsEnd (x ∷ front) = inr (ground arith)

ne_zero : (n : ℕ) → 0 < n → (n == 0) ≡ false
ne_zero n h = ground arith

pub Reads-read_full : (n : ℕ) (p : Bytes) → length p ≡ n → Reads (read_full n) p p
unfolding read_full short
Reads-read_full n p h = record {
  whole = λ rest t.
      rw (ltb-false n (length (p ++ rest)) (omega (arith, length-append p rest)))
        (rw (← h) (rw (take-append_length p rest, drop-append_length p rest)));
  cut = λ front x back t e. (
    short front,
    rw (ltb-true (length front) n (omega (arith, length_front front x back e))),
    short-IsEnd front,
  );
}

-- A nil slice is what a length of 0 is read as.
abbrev pub sliced : Bytes → Option Bytes
sliced [] = none
sliced (b ∷ bs) = some (b ∷ bs)

pub Reads-read_bytes : (n : ℕ) (p : Bytes) → length p ≡ n → Reads (read_bytes n) p (sliced p)
unfolding read_bytes
Reads-read_bytes n [] h = rw (← h) (Reads-pure none)
Reads-read_bytes n (b ∷ p) h =
    rw (ne_zero n (omega arith)) (Reads-map some (Reads-read_full n (b ∷ p) h))
