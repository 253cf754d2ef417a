-- ===== src/Http/Decimal.antt =====
-- strconv.Itoa and strconv.Atoi on decimal digits. A number below 2 ^ 63 fits in an int.
use mathlib.Core.Option
use http_stack_lens.Base.{
  ℕ, zero, suc, ◌+◌, ◌-◌, ◌*◌, ◌/◌, ◌%◌, ◌≤◌, ◌<◌, ◌≡◌, refl, ap, ◌∙◌, inl, inr, arith, ◌&&◌,
  Option, none, some, [], ◌∷◌, Bytes, leb, ltb, if◌then◌else◌, ◌==◌, Bool-cases, ltb→lt,
  ltb-false→le, ℤ, pos, negsuc,
}

-- The digits of a number in front of `rest`; the fuel is a bound for the number of digits.
unfoldable pub digits : ℕ → ℕ → Bytes → Bytes
digits zero n rest = rest
digits (suc fuel) n rest =
    let further = digits fuel (n / 10) ((48 + n % 10) ∷ rest) in
    if ltb n 10 then (48 + n) ∷ rest else further

unfoldable pub itoa : ℕ → Bytes
itoa n = digits (suc n) n []

-- The value of digits behind those that have the value `acc`.
unfoldable pub digits_value : ℕ → Bytes → Option ℕ
digits_value acc [] = some acc
digits_value acc (c ∷ s) =
    let rest = digits_value (acc * 10 + (c - 48)) s in if leb 48 c && leb c 57 then rest else none

abbrev pub max_int : ℕ
max_int = 9_223_372_036_854_775_807

abbrev negate : ℕ → ℤ
negate zero = pos 0
negate (suc n) = negsuc n

abbrev in_range : ℕ → Option ℕ → Option ℕ
in_range bound none = none
in_range bound (some n) = if leb n bound then some n else none

-- The digits of a number of at most `bound`; there must be one.
abbrev unsigned : ℕ → Bytes → Option ℕ
unsigned bound [] = none
unsigned bound (c ∷ s) = in_range bound (digits_value 0 (c ∷ s))

unfoldable pub atoi : Bytes → Option ℤ
atoi [] = none
atoi (c ∷ s) =
    if c == b'-'
    then Option.map negate (unsigned (suc max_int) s)
    else if c == b'+'
    then Option.map pos (unsigned max_int s)
    else Option.map pos (unsigned max_int (c ∷ s))

digits_value-step :
    (acc d : ℕ) (rest : Bytes)
    → d < 10
    → digits_value acc ((48 + d) ∷ rest) ≡ digits_value (acc * 10 + d) rest
unfolding digits_value
digits_value-step acc d rest h = ground arith

digits_value-digits :
    (fuel n : ℕ) (rest : Bytes)
    → n < fuel
    → digits_value 0 (digits fuel n rest) ≡ digits_value n rest
unfolding digits
digits_value-digits zero n rest h = absurd (omega arith)
digits_value-digits (suc fuel) n rest h = elim (Bool-cases (ltb n 10)) [
  | inl small ↦
      rw small (
        digits_value-step 0 n rest (ltb→lt n 10 small)
        ∙ ap (λ m. digits_value m rest) (omega arith))
  | inr large ↦
      let big : 10 ≤ n = ltb-false→le n 10 large in
      rw large (
        digits_value-digits fuel (n / 10) ((48 + n % 10) ∷ rest) (omega arith)
        ∙ digits_value-step (n / 10) (n % 10) rest (omega arith)
        ∙ ap (λ m. digits_value m rest) (omega arith))
]

-- The first byte is a digit.
data StartsWithDigit : Bytes → Type 0 where
  starts : {c : ℕ} {s : Bytes} → 48 ≤ c → c ≤ 57 → StartsWithDigit (c ∷ s)

digits-StartsWithDigit :
    (fuel n : ℕ) (rest : Bytes) → n < fuel → StartsWithDigit (digits fuel n rest)
unfolding digits
digits-StartsWithDigit zero n rest h = absurd (omega arith)
digits-StartsWithDigit (suc fuel) n rest h = elim (Bool-cases (ltb n 10)) [
  | inl small ↦
      let under : n < 10 = ltb→lt n 10 small in rw small (starts (omega arith) (omega arith))
  | inr large ↦
      let big : 10 ≤ n = ltb-false→le n 10 large in
      rw large (digits-StartsWithDigit fuel (n / 10) ((48 + n % 10) ∷ rest) (omega arith))
]

atoi-digits :
    (n : ℕ) (s : Bytes)
    → n ≤ max_int
    → StartsWithDigit s
    → digits_value 0 s ≡ some n
    → atoi s ≡ some (pos n)
unfolding atoi
atoi-digits n [] fits none_there h = elim none_there [ ]
atoi-digits n (c ∷ s) fits (starts low high) h = ground arith

-- The number of digits never runs out: a number is read back from its decimal digits, up to the
-- largest int.
pub atoi-itoa : (n : ℕ) → n ≤ max_int → atoi (itoa n) ≡ some (pos n)
unfolding itoa
atoi-itoa n fits =
    atoi-digits n (digits (suc n) n []) fits (digits-StartsWithDigit (suc n) n [] (omega arith))
      (digits_value-digits (suc n) n [] (omega arith) ∙ value_nil n)
  where
    value_nil : (n : ℕ) → digits_value n [] ≡ some n
    value_nil n = unfold digits_value in refl
