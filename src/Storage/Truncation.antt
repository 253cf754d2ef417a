-- ===== src/Storage/Truncation.antt =====
-- A file that ends inside a record, and a file that ends between two.
use http_stack_lens.Base.{
  ℕ, ◌≡◌, ◌≢◌, refl, sym, inl, inr, [], ◌∷◌, ◌++◌, Bytes, head-eq_of_cons-eq, tail-eq_of_cons-eq,
  err,
}
use http_stack_lens.Storage.Effect.{Error, unexpected_eof}
use http_stack_lens.Storage.Binary.{put_le}
use http_stack_lens.Storage.Binary.ReadBack.{Reads-read_byte, Reads-read_uint32}
use http_stack_lens.Storage.CaptureRecord.{CaptureRecord}
use http_stack_lens.Storage.Checksum.{record_checksum, record_checksum-lt}
use http_stack_lens.Storage.Payloads.{RecordFits, record_type, tail_bytes, payload, Reads-tail}
use http_stack_lens.Storage.Reads.{IsEnd, front_cases}
use http_stack_lens.Storage.Records.{frame, read_body-record_type, read-payload}
use http_stack_lens.Storage.SessionReader.{unexpected, read_trailer, read}

unexpected-IsEnd :
    {A : Type 0} (e : Error) → IsEnd e → unexpected {A = A} (err e) ≡ err unexpected_eof
unfolding unexpected
unexpected-IsEnd e (inl p) = rw p
unexpected-IsEnd e (inr p) = rw p

module _ (r : CaptureRecord) (fits : RecordFits r) where
  read_in_tail :
      (inner : Bytes) (x : ℕ) (back : Bytes)
      → tail_bytes r ≡ inner ++ x ∷ back
      → read (record_type r ∷ inner) ≡ (err unexpected_eof, [])
  unfolding read
  read_in_tail inner x back e =
      let (e', stop, end) = (Reads-tail r fits).cut inner x back (record_type r ∷ []) e in
      rw ((Reads-read_byte (record_type r)).whole inner [])
        (rw (read_body-record_type r) (rw (stop, unexpected-IsEnd e' end)))

  read_in_trailer :
      (inner : Bytes) (x : ℕ) (back : Bytes)
      → put_le 4 (record_checksum (payload r)) ≡ inner ++ x ∷ back
      → read (payload r ++ inner) ≡ (err unexpected_eof, [])
  unfolding read_trailer
  read_in_trailer inner x back e =
      let crc = record_checksum (payload r) in
      let (e', stop, end) =
        (Reads-read_uint32 crc (record_checksum-lt (payload r))).cut inner x back [] e in
      rw (read-payload r inner fits) (rw (stop, unexpected-IsEnd e' end))

  -- What `WriteRequest` or `WriteResponse` appends for a record that fits the format, cut anywhere but
  -- at its two ends, is reported as io.ErrUnexpectedEOF: never as a record, and never as the io.EOF of a clean end.
  pub read_truncated :
      (front : Bytes) (x : ℕ) (back : Bytes)
      → front ≢ []
      → frame r ≡ front ++ x ∷ back
      → read front ≡ (err unexpected_eof, [])
  read_truncated [] x back ne e = absurd (ne refl)
  read_truncated (b ∷ inner) x back ne e =
      rw (sym (head-eq_of_cons-eq e))
        (elim (front_cases (tail_bytes r) _ inner x back (tail-eq_of_cons-eq e)) [
          | inl (y, more, e') ↦ read_in_tail inner y more e'
          | inr (inner', e', e'') ↦ rw e' (read_in_trailer inner' x back e'')
        ])
