-- ===== src/Parsing.antt =====
-- The combinators that http/parser and composer build their parsers with, package
-- EasyParsingForGo, as a parameter: its operations, and what the parsers rely on. A text is a list
-- of code points.
pub mod Advance
pub mod Http
pub mod Consumption
pub mod Simple
pub mod Lawful
use http_stack_lens.Base.{
  ℕ, ◌+◌, ◌≤◌, ◌≡◌, ◌⊎◌, Bool, true, false, Option, List, [], ◌∷◌, Bytes, codes, length, drop,
  has_prefix, contains, some, Result, ok, err, ℤ,
}

-- combinator.TextPosition
pub record TextPosition : Type 0 where
  pub offset : ℕ
  pub line : ℕ
  pub column : ℕ

-- combinator.ParsingContext
pub record ParsingContext : Type 0 where
  pub remaining : Bytes
  pub position : TextPosition

-- A parser's error is its message.
abbrev pub Parser : Type 0 → Type 0
Parser A = ParsingContext → Result Bytes (A × ParsingContext)

-- What the parsers read of net/url's URL: `escaped_path`, `hostname` and `port` are methods.
pub record Url : Type 0 where
  pub scheme : Bytes
  pub hostname : Bytes
  pub port : Bytes
  pub escaped_path : Bytes
  pub raw_query : Bytes
  pub force_query : Bool

-- `many_satisfy f` is `Many(Satisfy(f))`, and `many_alphanumeric` is `Many(Alphanumeric())`.
-- `index_of` is the IndexOf of its helpers, `parse_url` is net/url's Parse, and `quote` is fmt's %q.
pub record Library : Type 1 where
  pub new_parsing_context : Bytes → ParsingContext
  pub at_end : ParsingContext → Bool
  pub forward : ParsingContext → ℕ → ParsingContext
  pub move : TextPosition → Bytes → TextPosition
  pub string_match : Bytes → Parser Bytes
  pub many_satisfy : (ℕ → Bool) → Parser Bytes
  pub many_alphanumeric : Parser Bytes
  pub spaces : Parser (Unit {0})
  pub integer : Parser ℤ
  pub one_char : ℕ → Parser ℕ
  pub until_text : Parser Bytes → Bytes → Bool → Parser Bytes
  pub or_else : {A : Type 0} → Parser A → Parser A → Parser A
  pub map : {A B : Type 0} → Parser A → (A → B) → Parser B
  pub left : {A B : Type 0} → Parser A → Parser B → Parser A
  pub right : {A B : Type 0} → Parser A → Parser B → Parser B
  pub combine : {A B : Type 0} → Parser A → Parser B → Parser (A × B)
  pub optional : {A : Type 0} → Parser A → Parser (Option A)
  pub many : {A : Type 0} → Parser A → Parser (List A)
  pub index_of : Bytes → Bytes → Option ℕ
  pub parse_url : Bytes → Result Bytes Url
  pub quote : Bytes → Bytes

-- `d` is `c`, `n` code points on.
pub record Ahead (n : ℕ) (c d : ParsingContext) : Type 0 where
  pub within : n ≤ length c.remaining
  pub rest : d.remaining ≡ drop n c.remaining
  pub moved : d.position.offset ≡ c.position.offset + n

pub record Advances (least : ℕ) (c d : ParsingContext) : Type 0 where
  pub count : ℕ
  pub at_least : least ≤ count
  pub ahead : Ahead count c d

-- Where the parser succeeds it consumes at least so many code points.
abbrev pub Consumes : {A : Type 0} → ℕ → Parser A → Type 0
Consumes {A} least p =
    (c : ParsingContext) (v : A) (d : ParsingContext) → p c ≡ ok (v, d) → Advances least c d

abbrev pub Fails : {A : Type 0} → Parser A → ParsingContext → Type 0
Fails p c = (message : Bytes) × (p c ≡ err message)

abbrev pub is_empty : Bytes → Bool
is_empty [] = true
is_empty (c ∷ s) = false

abbrev pub fallback : {A : Type 0} → Result Bytes (A × ParsingContext) → Parser A → Parser A
fallback (ok r) q c = ok r
fallback (err m) q c = q c

-- What the parsers rely on: contexts move over the text that they read, and UntilText needs its
-- delimiter.
pub record IsLibrary (lib : Library) : Type 1 where
  pub new_remaining : (s : Bytes) → (lib.new_parsing_context s).remaining ≡ s
  pub new_offset : (s : Bytes) → (lib.new_parsing_context s).position.offset ≡ 0
  pub at_end-is_empty : (c : ParsingContext) → lib.at_end c ≡ is_empty c.remaining
  pub forward-Ahead :
      (c : ParsingContext) (n : ℕ) → n ≤ length c.remaining → Ahead n c (lib.forward c n)
  pub offset-move : (p : TextPosition) (t : Bytes) → (lib.move p t).offset ≡ p.offset + length t
  pub string_match_found :
      (t : Bytes) (c : ParsingContext)
      → has_prefix c.remaining t ≡ true
      → lib.string_match t c ≡ ok (t, lib.forward c (length t))
  pub string_match_missing :
      (t : Bytes) (c : ParsingContext)
      → has_prefix c.remaining t ≡ false
      → Fails (lib.string_match t) c
  pub many_satisfy-Consumes : (f : ℕ → Bool) → Consumes 0 (lib.many_satisfy f)
  pub many_alphanumeric-Consumes : Consumes 0 lib.many_alphanumeric
  pub spaces-Consumes : Consumes 0 lib.spaces
  pub integer-Consumes : Consumes 0 lib.integer
  pub one_char-Consumes : (c : ℕ) → Consumes 0 (lib.one_char c)
  pub until_text-Consumes :
      (p : Parser Bytes) (t : Bytes) → Consumes 0 p → Consumes 0 (lib.until_text p t false)
  pub until_text-Consumes_delimiter :
      (p : Parser Bytes) (t : Bytes) → Consumes 0 p → Consumes (length t) (lib.until_text p t true)
  pub until_text_missing :
      (p : Parser Bytes) (t : Bytes) (skip : Bool) (c : ParsingContext)
      → contains c.remaining t ≡ false
      → Fails (lib.until_text p t skip) c
  pub until_text_found :
      (t : Bytes) (skip : Bool) (c : ParsingContext)
      → contains c.remaining t ≡ true
      → (r : Bytes × ParsingContext) × (lib.until_text (lib.many_satisfy (λ _. true)) t skip c
          ≡ ok r)
  pub or_else-fallback :
      {A : Type 0} (p q : Parser A) (c : ParsingContext) → lib.or_else p q c ≡ fallback (p c) q c
  pub map-Consumes :
      {A B : Type 0} (n : ℕ) (p : Parser A) (f : A → B) → Consumes n p → Consumes n (lib.map p f)
  pub left-Consumes :
      {A B : Type 0} (p : Parser A) (q : Parser B)
      → Consumes 0 p
      → Consumes 0 q
      → Consumes 0 (lib.left p q)
  pub right-Consumes :
      {A B : Type 0} (p : Parser A) (q : Parser B)
      → Consumes 0 p
      → Consumes 0 q
      → Consumes 0 (lib.right p q)
  pub combine-Consumes :
      {A B : Type 0} (p : Parser A) (q : Parser B)
      → Consumes 0 p
      → Consumes 0 q
      → Consumes 0 (lib.combine p q)
  pub optional-Consumes : {A : Type 0} (p : Parser A) → Consumes 0 p → Consumes 0 (lib.optional p)
  pub index_of-le : (s t : Bytes) (i : ℕ) → lib.index_of s t ≡ some i → i ≤ length s
