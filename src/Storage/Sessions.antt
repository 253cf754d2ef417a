-- ===== src/Storage/Sessions.antt =====
-- A whole session: what the writer puts in its file, the reader gives back in the same order.
use http_stack_lens.Base.{
  ◌≡◌, refl, sym, ap, ◌∙◌, arith, Bool, true, false, List, [], ◌∷◌, ◌++◌, append-nil, append_assoc,
  Bytes, Result, equal, equal_int, ok, err, ◌^◌,
}
use http_stack_lens.Storage.Effect.{Error, eof, Io, IoWriter, continue, ◌>>=◌, ◌>>◌}
use http_stack_lens.Storage.Binary.{
  put_le, write_bool, write_int16, write_int32, write_uint32, read_byte, read_full,
}
use http_stack_lens.Storage.Binary.ReadBack.{
  int_bytes, bool_bytes, Reads-read_bool, Reads-read_int16, Reads-read_int32,
}
use http_stack_lens.Storage.CaptureRecord.{
  new_file_header, CaptureRecord, request, response, capture_file_magic, capture_format_version,
}
use http_stack_lens.Storage.Checksum.{record_checksum}
use http_stack_lens.Storage.Payloads.{RecordFits, stored, payload, Appends-payload}
use http_stack_lens.Storage.Reads.{Reads, Reads-bind, Reads-map, Reads-read_bytes}
use http_stack_lens.Storage.Records.{frame, read-frame}
use http_stack_lens.Storage.SessionReader.{read, read_header, open_session}
use http_stack_lens.Storage.SessionWriter.{
  write_header, write_record, write_request, write_response, write_capture, write_all,
  write_session,
}

-- A write that the file accepts is appended to it.
pub record IsAppender {W : Type 0} (file : IoWriter W) (contents : W → Bytes) : Type 0 where
  pub accepted :
      (p : Bytes) (w w' : W) → file.write p w ≡ (ok tt, w') → contents w' ≡ contents w ++ p

module _ {S A B : Type 0} where
  -- Inversion of a chain of calls that succeeded.
  pub >>=-eq-ok :
      (m : Io S A) (f : A → Io S B) (s : S) {b : B} {s'' : S}
      → (m >>= f) s ≡ (ok b, s'')
      → (a : A) × (s' : S) × (m s ≡ (ok a, s')) × (f a s' ≡ (ok b, s''))
  >>=-eq-ok m f s {b} {s''} h = invert (m s) refl h
    where
      invert :
          (p : Result Error A × S)
          → m s ≡ p
          → continue p.0 f p.1 ≡ (ok b, s'')
          → (a : A) × (s' : S) × (m s ≡ (ok a, s')) × (f a s' ≡ (ok b, s''))
      invert (ok a, s') e h = (a, s', e, h)
      invert (err x, s') e h = cc

abbrev pub header_bytes : Bool → Bytes
header_bytes d =
    capture_file_magic
    ++ (int_bytes 2 (2 ^ 15) capture_format_version
        ++ (bool_bytes d ++ int_bytes 4 (2 ^ 31) (new_file_header d).records_count))

abbrev pub frames : List CaptureRecord → Bytes
frames [] = []
frames (r ∷ rs) = frame r ++ frames rs

abbrev pub AllFit : List CaptureRecord → Type 0
AllFit [] = Unit
AllFit (r ∷ rs) = RecordFits r × AllFit rs

abbrev pub all_stored : List CaptureRecord → List CaptureRecord
all_stored [] = []
all_stored (r ∷ rs) = stored r ∷ all_stored rs

-- A client that reads until io.EOF is given these records.
pub data ReadsAll : Bytes → List CaptureRecord → Type 0 where
  at_end : (input : Bytes) → read input ≡ (err eof, []) → ReadsAll input []
  next :
      (input rest : Bytes) (r : CaptureRecord) (rs : List CaptureRecord)
      → read input ≡ (ok r, rest)
      → ReadsAll rest rs
      → ReadsAll input (r ∷ rs)

pub read_end : read [] ≡ (err eof, [])
unfolding read read_byte read_full
read_end = refl

ReadsAll-frames : (rs : List CaptureRecord) → AllFit rs → ReadsAll (frames rs) (all_stored rs)
ReadsAll-frames [] h = at_end [] read_end
ReadsAll-frames (r ∷ rs) (fits, h) =
    next _ (frames rs) (stored r) _ (read-frame r (frames rs) fits) (ReadsAll-frames rs h)

Reads-header : (d : Bool) → Reads read_header (header_bytes d) (new_file_header d)
unfolding read_header new_file_header equal equal_int
Reads-header d = Reads-bind _ (Reads-read_bytes 4 capture_file_magic refl) (
    Reads-bind _ (Reads-read_int16 capture_format_version (omega arith)) (
      Reads-bind _ (Reads-read_bool d)
        (Reads-map _ (Reads-read_int32 (new_file_header d).records_count (omega arith)))))

open_session-header :
    (d : Bool) (body : Bytes)
    → open_session (header_bytes d ++ body) ≡ (ok (new_file_header d), body)
unfolding open_session
open_session-header d body = rw ((Reads-header d).whole body [])

write_capture-record :
    {W : Type 0} (file : IoWriter W) (r : CaptureRecord) (w : W)
    → RecordFits r
    → write_capture file r w ≡ write_record file (payload r) w
unfolding write_capture write_request write_response
write_capture-record file (request r) w fits = rw (Appends-payload (request r) fits [])
write_capture-record file (response r) w fits = rw (Appends-payload (response r) fits [])

module _ {W : Type 0} {file : IoWriter W} {contents : W → Bytes}
    (law : IsAppender file contents) where
  -- Where `m` succeeds it has appended `p` to the file.
  abbrev Puts : Io W (Unit {0}) → Bytes → Type 0
  Puts m p = (w w' : W) → m w ≡ (ok tt, w') → contents w' ≡ contents w ++ p

  Puts-then : {m k : Io W (Unit {0})} (p q : Bytes) → Puts m p → Puts k q → Puts (m >> k) (p ++ q)
  Puts-then {m} {k} p q f g w w' h =
      let (_, v, first, second) = >>=-eq-ok m (λ _. k) w h in
      g v w' second ∙ ap (λ c. c ++ q) (f w v first) ∙ append_assoc (contents w) p q

  Puts-record : (p : Bytes) → Puts (write_record file p) (p ++ put_le 4 (record_checksum p))
  unfolding write_record write_uint32
  Puts-record p = Puts-then _ _ (law.accepted p) (law.accepted _)

  Puts-capture : (r : CaptureRecord) → RecordFits r → Puts (write_capture file r) (frame r)
  Puts-capture r fits w w' h =
      Puts-record (payload r) w w' (sym (write_capture-record file r w fits) ∙ h)

  Puts-all : (rs : List CaptureRecord) → AllFit rs → Puts (write_all file rs) (frames rs)
  unfolding write_all
  Puts-all [] fits = λ w w' h.
      ap (λ (x : Result Error (Unit {0}) × W). contents x.1) (sym h) ∙ sym (append-nil (contents w))
  Puts-all (r ∷ rs) (fits, all_fit) = Puts-then _ _ (Puts-capture r fits) (Puts-all rs all_fit)

  Puts-bool : (d : Bool) → Puts (write_bool file d) (bool_bytes d)
  unfolding write_bool
  Puts-bool true = law.accepted _
  Puts-bool false = law.accepted _

  Puts-header : (d : Bool) → Puts (write_header file (new_file_header d)) (header_bytes d)
  unfolding write_header write_int16 write_int32 new_file_header
  Puts-header d =
      Puts-then _ _ (law.accepted _)
        (Puts-then _ _ (law.accepted _) (Puts-then _ _ (Puts-bool d) (law.accepted _)))

  Puts-session :
      (d : Bool) (rs : List CaptureRecord)
      → AllFit rs
      → Puts (write_session file d rs) (header_bytes d ++ frames rs)
  unfolding write_session
  Puts-session d rs fits = Puts-then _ _ (Puts-header d) (Puts-all rs fits)

  -- After a session that an empty file accepted in full, opening what was written gives the header, and
  -- reading to the end gives every record in the order of the calls, except that a body that is
  -- present and empty comes back as absent. The records fit the format: ids of 16 bytes, strings,
  -- bodies and header counts within the reader's limits, and status codes of 16 bits.
  pub read-write_session :
      (d : Bool) (rs : List CaptureRecord) (w w' : W)
      → AllFit rs
      → contents w ≡ []
      → write_session file d rs w ≡ (ok tt, w')
      → (body : Bytes) × (open_session (contents w') ≡ (ok (new_file_header d), body))
        × ReadsAll body (all_stored rs)
  read-write_session d rs w w' fits empty h =
      let written =
        Puts-session d rs fits w w' h ∙ ap (λ c. c ++ (header_bytes d ++ frames rs)) empty in
      (frames rs, rw written (open_session-header d (frames rs)), ReadsAll-frames rs fits)

  -- A record that fits the format, its id, strings, bodies, header count and status code, and that the
  -- file accepted, is read back from what was appended for it, whatever follows, except that a body
  -- that is present and empty comes back as absent.
  pub read-write_capture :
      (r : CaptureRecord) (w w' : W)
      → RecordFits r
      → write_capture file r w ≡ (ok tt, w')
      → (p : Bytes) × (contents w' ≡ contents w ++ p)
        × ((rest : Bytes) → read (p ++ rest) ≡ (ok (stored r), rest))
  read-write_capture r w w' fits h =
      (frame r, Puts-capture r fits w w' h, λ rest. read-frame r rest fits)
