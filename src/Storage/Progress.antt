-- ===== src/Storage/Progress.antt =====
-- The reader on any input, written by this program or not: it always takes something, so that a
-- loop over `Read` ends.
use http_stack_lens.Base.{
  ℕ, zero, suc, ◌<◌, ◌≤◌, ◌≡◌, ◌≢◌, ◌⊎◌, refl, arith, Bool, true, false, [], ◌∷◌, Bytes, length,
  length-drop, pos, negsuc, Result, ok, err, if◌then◌else◌, ltb, ◌==◌, Bool-cases, inl, inr,
}
use http_stack_lens.Storage.Effect.{Error, eof, corrupt_record, Io, pure, fail, continue, ◌>>=◌}
use http_stack_lens.Storage.Binary.{
  Source, src, read_full, read_byte, read_bool, read_int16, read_int32, read_int64, read_uint32,
  read_bytes,
}
use http_stack_lens.Storage.CaptureRecord.{CaptureRecord, request, response}
use http_stack_lens.Storage.Checksum.{record_checksum}
use http_stack_lens.Storage.Binary.ReadBack.{Reads-read_byte}
use http_stack_lens.Storage.Sessions.{read_end}
use http_stack_lens.Storage.SessionReader.{
  read_lp_string, read_pairs, read_headers, read_blob, read_request, read_response, unexpected,
  read_body, read_trailer, read,
}

pub record Shrinks {A : Type 0} (d : Io Source A) : Type 0 where
  pub at : (s : Source) → length (d s).1.input ≤ length s.input

module _ {A : Type 0} where
  Shrinks-pure : (a : A) → Shrinks (pure a)
  Shrinks-pure a = record { at = λ s. omega arith }

  Shrinks-fail : (e : Error) → Shrinks (fail {A = A} e)
  Shrinks-fail e = record { at = λ s. omega arith }

  Shrinks-if : (b : Bool) (m n : Io Source A) → Shrinks m → Shrinks n → Shrinks (if b then m else n)
  Shrinks-if true m n h k = h
  Shrinks-if false m n h k = k

module _ {A B : Type 0} where
  Shrinks-continue :
      (r : Result Error A) (f : A → Io Source B)
      → ((a : A) → Shrinks (f a))
      → Shrinks (continue r f)
  Shrinks-continue (ok a) f h = h a
  Shrinks-continue (err e) f h = record { at = λ s. omega arith }

  Shrinks-bind :
      (m : Io Source A) (f : A → Io Source B)
      → Shrinks m
      → ((a : A) → Shrinks (f a))
      → Shrinks (m >>= f)
  Shrinks-bind m f h k = record {
    at = λ s. omega (arith, (Shrinks-continue (m s).0 f k).at (m s).1, h.at s);
  }

Shrinks-read_full : (n : ℕ) → Shrinks (read_full n)
unfolding read_full
Shrinks-read_full n = record {
  at = λ s. elim (Bool-cases (ltb (length s.input) n)) [
    | inl e ↦ rw e (omega arith)
    | inr e ↦ rw e (omega (arith, length-drop n s.input))
  ];
}

ruleset shrink_rules = (Shrinks-pure, Shrinks-fail, Shrinks-if, Shrinks-bind, Shrinks-read_full)

Shrinks-read_byte : Shrinks read_byte
unfolding read_byte
Shrinks-read_byte = search shrink_rules

Shrinks-read_bool : Shrinks read_bool
unfolding read_bool
Shrinks-read_bool = search (shrink_rules, Shrinks-read_byte)

Shrinks-read_int16 : Shrinks read_int16
unfolding read_int16
Shrinks-read_int16 = search shrink_rules

Shrinks-read_int32 : Shrinks read_int32
unfolding read_int32
Shrinks-read_int32 = search shrink_rules

Shrinks-read_int64 : Shrinks read_int64
unfolding read_int64
Shrinks-read_int64 = search shrink_rules

Shrinks-read_uint32 : Shrinks read_uint32
unfolding read_uint32
Shrinks-read_uint32 = search shrink_rules

Shrinks-read_bytes : (n : ℕ) → Shrinks (read_bytes n)
unfolding read_bytes
Shrinks-read_bytes n = search shrink_rules

Shrinks-read_lp_string : Shrinks read_lp_string
unfolding read_lp_string
Shrinks-read_lp_string = search (shrink_rules, Shrinks-read_uint32, Shrinks-read_bytes)

Shrinks-read_pairs : (n : ℕ) → Shrinks (read_pairs n)
unfolding read_pairs
Shrinks-read_pairs zero = Shrinks-pure []
Shrinks-read_pairs (suc n) = Shrinks-bind _ _ Shrinks-read_lp_string λ _.
    Shrinks-bind _ _ Shrinks-read_lp_string
      λ _. Shrinks-bind _ _ (Shrinks-read_pairs n) λ _. Shrinks-pure _

Shrinks-read_headers : Shrinks read_headers
unfolding read_headers
Shrinks-read_headers =
    Shrinks-bind _ _ Shrinks-read_int32
      (elim [ pos n ↦ Shrinks-read_pairs n | negsuc n ↦ Shrinks-fail _ ])

Shrinks-read_blob : Shrinks read_blob
unfolding read_blob
Shrinks-read_blob =
    Shrinks-bind _ _ Shrinks-read_int64
      (elim [ pos n ↦ search (shrink_rules, Shrinks-read_bytes) | negsuc n ↦ Shrinks-pure _ ])

ruleset field_rules = (
  shrink_rules, Shrinks-read_byte, Shrinks-read_bool, Shrinks-read_int16, Shrinks-read_bytes,
  Shrinks-read_lp_string, Shrinks-read_headers, Shrinks-read_blob,
)

Shrinks-read_request : Shrinks read_request
unfolding read_request
Shrinks-read_request = search field_rules depth 20

Shrinks-read_response : Shrinks read_response
unfolding read_response
Shrinks-read_response = search field_rules depth 20

Shrinks-read_body : (t : ℕ) → Shrinks (read_body t)
unfolding read_body
Shrinks-read_body t = record {
  at = λ s. ground (
    arith,
    (Shrinks-bind read_request (λ q. pure (request q)) Shrinks-read_request
          (λ _. Shrinks-pure _)).at
        s,
    (Shrinks-bind read_response (λ q. pure (response q)) Shrinks-read_response
          (λ _. Shrinks-pure _)).at
        s,
  );
}

abbrev compare_crc : CaptureRecord → Bytes → ℕ → Io Source CaptureRecord
compare_crc r t crc =
    if record_checksum t == crc then pure r else fail (corrupt_record crc (record_checksum t))

Shrinks-compare_crc : (r : CaptureRecord) (t : Bytes) (crc : ℕ) → Shrinks (compare_crc r t crc)
Shrinks-compare_crc r t crc = search shrink_rules

Shrinks-read_trailer : (r : CaptureRecord) → Shrinks (read_trailer r)
unfolding read_trailer
Shrinks-read_trailer r = record {
  at = λ s. omega (
    arith,
    (Shrinks-continue (unexpected (read_uint32 (src s.input [])).0) (compare_crc r s.tee)
          (Shrinks-compare_crc r s.tee)).at
        (src (read_uint32 (src s.input [])).1.input s.tee),
    Shrinks-read_uint32.at (src s.input []),
  );
}

unexpected-ne-eof : {A : Type 0} (r : Result Error A) → unexpected r ≢ err eof
unfolding unexpected
unexpected-ne-eof r e = ground arith

read_body-ne-eof : (t : ℕ) (s : Source) → (read_body t s).0 ≢ err eof
unfolding read_body
read_body-ne-eof t s e = ground (
  arith,
  unexpected-ne-eof ((read_request >>= (λ q. pure (request q))) s).0,
  unexpected-ne-eof ((read_response >>= (λ q. pure (response q))) s).0,
)

read_trailer-ne-eof : (r : CaptureRecord) (s : Source) → (read_trailer r s).0 ≢ err eof
unfolding read_trailer unexpected
read_trailer-ne-eof r s e = ground arith

bind-ne-eof :
    {A B : Type 0} (r : Result Error A) (f : A → Io Source B) (s : Source)
    → r ≢ err eof
    → ((a : A) (s' : Source) → (f a s').0 ≢ err eof)
    → (continue r f s).0 ≢ err eof
bind-ne-eof (ok a) f s h k = k a s
bind-ne-eof {A} {B} (err eof) f s h k = absurd (h refl)
bind-ne-eof (err e) f s h k = λ p. cc

-- `Read` answers io.EOF exactly at the end of the file. On any other input, well formed or not, it
-- answers a record or an error that is not io.EOF, and has taken a byte at least, so that a loop
-- over `Read` ends.
pub read_progress :
    (input : Bytes)
    → ((input ≡ []) × (read input ≡ (err eof, [])))
      ⊎ (((read input).0 ≢ err eof) × (length (read input).1 < length input))
unfolding read
read_progress [] = inl (refl, read_end)
read_progress (b ∷ bs) =
    let first = (Reads-read_byte b).whole bs [] in
    let rest : length (read (b ∷ bs)).1 ≤ length bs =
      rw (first, length)
        ((Shrinks-bind _ _ (Shrinks-read_body b) Shrinks-read_trailer).at (src bs (b ∷ []))) in
    inr (rw first (bind-ne-eof _ _ _ (read_body-ne-eof b _) read_trailer-ne-eof), omega arith)
