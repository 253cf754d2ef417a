-- ===== src/Storage/Records.antt =====
-- `Read` of the session reader on what `WriteRequest` and `WriteResponse` put in the file.
use http_stack_lens.Base.{
  ℕ, ◌<◌, ◌^◌, ◌≡◌, ◌≢◌, refl, ◌∙◌, inl, inr, arith, false, [], ◌∷◌, ◌++◌, append_assoc, Bytes, ok,
  err, Bool-cases, ◌==◌, ==_iff, if◌then◌else◌,
}
use http_stack_lens.Storage.Effect.{corrupt_record}
use http_stack_lens.Storage.Binary.{Source, src, put_le}
use http_stack_lens.Storage.Binary.ReadBack.{Reads-read_byte, Reads-read_uint32}
use http_stack_lens.Storage.CaptureRecord.{CaptureRecord, request, response}
use http_stack_lens.Storage.Checksum.{record_checksum, record_checksum-lt}
use http_stack_lens.Storage.Payloads.{
  RecordFits, stored, record_type, tail_bytes, payload, read_tail, Reads-tail,
}
use http_stack_lens.Storage.SessionReader.{unexpected, read_body, read_trailer, read}

-- A record in the file: its payload and the checksum that follows.
abbrev pub framed : ℕ → CaptureRecord → Bytes
framed stored_crc r = payload r ++ put_le 4 stored_crc

abbrev pub frame : CaptureRecord → Bytes
frame r = framed (record_checksum (payload r)) r

-- The switch on the type picks the reader of that record.
pub read_body-record_type :
    (r : CaptureRecord) (s : Source)
    → read_body (record_type r) s ≡ (unexpected (read_tail r s).0, (read_tail r s).1)
unfolding read_body
read_body-record_type (request r) s = refl
read_body-record_type (response r) s = refl

-- The payload is read, whatever checksum follows.
pub read-payload :
    (r : CaptureRecord) (rest : Bytes)
    → RecordFits r
    → read (payload r ++ rest)
      ≡ (let (result, s) = read_trailer (stored r) (src rest (payload r)) in (result, s.input))
unfolding read unexpected
read-payload r rest fits =
    rw ((Reads-read_byte (record_type r)).whole (tail_bytes r ++ rest) [])
      (rw (read_body-record_type r) (rw ((Reads-tail r fits).whole rest (record_type r ∷ [])) refl))

read_trailer-uint32 :
    (r : CaptureRecord) (crc : ℕ) (rest t : Bytes)
    → crc < 2 ^ 32
    → read_trailer r (src (put_le 4 crc ++ rest) t) ≡ (
      if record_checksum t == crc then ok r else err (corrupt_record crc (record_checksum t)),
      src rest t,
    )
unfolding read_trailer unexpected
read_trailer-uint32 r crc rest t h =
    rw ((Reads-read_uint32 crc h).whole rest [])
      (elim (Bool-cases (record_checksum t == crc)) [ inl e ↦ rw e | inr e ↦ rw e ])

ne_test : (a b : ℕ) → b ≢ a → (a == b) ≡ false
ne_test a b h = ground arith

module _ (r : CaptureRecord) (rest : Bytes) (fits : RecordFits r) where
  read-framed :
      (crc : ℕ)
      → crc < 2 ^ 32
      → read (framed crc r ++ rest) ≡ (
        if record_checksum (payload r) == crc
            then ok (stored r)
            else err (corrupt_record crc (record_checksum (payload r))),
        rest,
      )
  read-framed crc h = rw (append_assoc (payload r) (put_le 4 crc) rest) (
      rw (read-payload r (put_le 4 crc ++ rest) fits)
        (rw (read_trailer-uint32 (stored r) crc rest (payload r) h)))

  pub read-frame : read (frame r ++ rest) ≡ (ok (stored r), rest)
  read-frame =
      read-framed (record_checksum (payload r)) (record_checksum-lt (payload r))
      ∙ rw ((==_iff (record_checksum (payload r)) (record_checksum (payload r))).1 refl)

  -- With a wrong checksum behind it, a record is refused, both checksums are reported, and the
  -- reader stands at what follows the record.
  pub read-framed_corrupt :
      (crc : ℕ)
      → crc < 2 ^ 32
      → crc ≢ record_checksum (payload r)
      → read (framed crc r ++ rest) ≡ (err (corrupt_record crc (record_checksum (payload r))), rest)
  read-framed_corrupt crc h ne =
      read-framed crc h ∙ rw (ne_test (record_checksum (payload r)) crc ne)
