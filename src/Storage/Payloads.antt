-- ===== src/Storage/Payloads.antt =====
-- The payloads that the session writer builds in its buffer, and the records that are read from
-- them.
use http_stack_lens.Base.{
  ℕ, ◌<◌, ◌≤◌, ◌^◌, ◌≡◌, refl, ap, arith, Bool, true, false, Option, none, some, List, [], ◌∷◌,
  ◌++◌, append-nil, append_assoc, Bytes, length, InRange, ok,
}
use native.Mathlib.Nat.{mod-eq_of_lt}
use http_stack_lens.Storage.Effect.{Io, pure, ◌>>=◌, ◌>>◌}
use http_stack_lens.Storage.Binary.{
  Source, put_le, buffer, write_bool, write_byte, write_int16, write_int32, write_int64,
  write_uint32, write_string,
}
use http_stack_lens.Storage.Binary.ReadBack.{
  int_bytes, bool_bytes, Reads-read_byte, Reads-read_bool, Reads-read_int16,
}
use http_stack_lens.Storage.CaptureRecord.{
  Header, RequestRecord, ResponseRecord, CaptureRecord, request, response, record_type_request,
  record_type_response,
}
use http_stack_lens.Storage.Fields.{
  lp_bytes, pairs_bytes, headers_bytes, blob_bytes, FieldFits, HeadersFit, PairsFit, BodyFits,
  stored_body, bytes_of-sliced, Reads-read_lp_string, Reads-read_headers, Reads-read_blob,
}
use http_stack_lens.Storage.Reads.{Reads, Reads-bind, Reads-map, Reads-read_bytes, sliced}
use http_stack_lens.Storage.SessionReader.{bytes_of, read_request, read_response}
use http_stack_lens.Storage.SessionWriter.{
  write_lp_string, write_pairs, write_headers, write_blob, write_request_payload,
  write_response_payload,
}

-- `m` appends `p` to its buffer, and does not fail.
abbrev pub Appends : Io Bytes (Unit {0}) → Bytes → Type 0
Appends m p = (b : Bytes) → m b ≡ (ok tt, b ++ p)

Appends-then :
    {m k : Io Bytes (Unit {0})} {p q : Bytes}
    → Appends m p
    → Appends k q
    → Appends (m >> k) (p ++ q)
Appends-then {p = p} {q} f g b =
    rw (f b, g (b ++ p)) (ap (λ (x : Bytes). (ok tt, x)) (append_assoc b p q))

Appends-lp_string : (s : Bytes) → FieldFits s → Appends (write_lp_string s) (lp_bytes s)
unfolding write_lp_string write_uint32 write_string
Appends-lp_string s h =
    rw (mod-eq_of_lt (small (length s) h))
      (Appends-then {p = put_le 4 (length s)} {q = s} (λ b. refl) (λ b. refl))
  where
    small : (n : ℕ) → n ≤ 268_435_456 → n < 2 ^ 32
    small n h = omega arith

Appends-pairs :
    (headers : List Header) → PairsFit headers → Appends (write_pairs headers) (pairs_bytes headers)
unfolding write_pairs
Appends-pairs [] h = λ b. rw append-nil
Appends-pairs (x ∷ headers) (name_fits, value_fits, fits) =
    Appends-then (Appends-lp_string x.name name_fits)
      (Appends-then (Appends-lp_string x.value value_fits) (Appends-pairs headers fits))

Appends-headers :
    (headers : List Header)
    → HeadersFit headers
    → Appends (write_headers headers) (headers_bytes headers)
unfolding write_headers write_int32
Appends-headers headers (count, fits) = Appends-then (λ b. refl) (Appends-pairs headers fits)

Appends-blob : (body : Option Bytes) → Appends (write_blob body) (blob_bytes body)
unfolding write_blob write_int64
Appends-blob none = λ b. refl
Appends-blob (some data_bytes) = Appends-then {q = data_bytes} (λ b. refl) (λ b. refl)

Appends-bool : (v : Bool) → Appends (write_bool buffer v) (bool_bytes v)
unfolding write_bool
Appends-bool true b = refl
Appends-bool false b = refl

-- Behind the byte that tells a request from a response.
abbrev request_tail : RequestRecord → Bytes
request_tail r =
    r.request_id
    ++ (lp_bytes r.method
        ++ (lp_bytes r.url
            ++ ((r.http_version ∷ [])
                ++ (headers_bytes r.headers ++ (bool_bytes r.body_skipped ++ blob_bytes r.body)))))

abbrev response_tail : ResponseRecord → Bytes
response_tail r =
    r.request_id
    ++ ((r.http_version ∷ [])
        ++ (int_bytes 2 (2 ^ 15) r.status_code
            ++ (lp_bytes r.status_message
                ++ (headers_bytes r.headers ++ (bool_bytes r.body_skipped ++ blob_bytes r.body)))))

pub record RequestFits (r : RequestRecord) : Type 0 where
  pub id_size : length r.request_id ≡ 16
  pub method_fits : FieldFits r.method
  pub url_fits : FieldFits r.url
  pub headers_fit : HeadersFit r.headers
  pub body_fits : BodyFits r.body

pub record ResponseFits (r : ResponseRecord) : Type 0 where
  pub id_size : length r.request_id ≡ 16
  pub status_in_range : InRange (2 ^ 15) r.status_code
  pub message_fits : FieldFits r.status_message
  pub headers_fit : HeadersFit r.headers
  pub body_fits : BodyFits r.body

Appends-request :
    (r : RequestRecord)
    → RequestFits r
    → Appends (write_request_payload r) ((record_type_request ∷ []) ++ request_tail r)
unfolding write_request_payload write_byte
Appends-request r fits =
    Appends-then (λ b. refl)
      (Appends-then (λ b. refl)
        (Appends-then (Appends-lp_string r.method fits.method_fits) (
          Appends-then (Appends-lp_string r.url fits.url_fits) (
            Appends-then (λ b. refl)
              (Appends-then (Appends-headers r.headers fits.headers_fit)
                (Appends-then (Appends-bool r.body_skipped) (Appends-blob r.body)))))))

Appends-response :
    (r : ResponseRecord)
    → ResponseFits r
    → Appends (write_response_payload r) ((record_type_response ∷ []) ++ response_tail r)
unfolding write_response_payload write_byte write_int16
Appends-response r fits =
    Appends-then (λ b. refl)
      (Appends-then (λ b. refl)
        (Appends-then (λ b. refl)
          (Appends-then (λ b. refl)
            (Appends-then (Appends-lp_string r.status_message fits.message_fits) (
              Appends-then (Appends-headers r.headers fits.headers_fit)
                (Appends-then (Appends-bool r.body_skipped) (Appends-blob r.body)))))))

-- What a record is read back as.
abbrev pub stored_request : RequestRecord → RequestRecord
stored_request r = record r { body = stored_body r.body }

abbrev pub stored_response : ResponseRecord → ResponseRecord
stored_response r = record r { body = stored_body r.body }

Reads-request :
    (r : RequestRecord) → RequestFits r → Reads read_request (request_tail r) (stored_request r)
unfolding read_request
Reads-request r fits =
    let sliced_id : RequestRecord = record r {
      request_id = bytes_of (sliced r.request_id);
      body = stored_body r.body;
    } in
    let reads : Reads read_request (request_tail r) sliced_id =
      Reads-bind _ (Reads-read_bytes 16 r.request_id fits.id_size) (
        Reads-bind _ (Reads-read_lp_string r.method fits.method_fits) (
          Reads-bind _ (Reads-read_lp_string r.url fits.url_fits) (
            Reads-bind _ (Reads-read_byte r.http_version) (
              Reads-bind _ (Reads-read_headers r.headers fits.headers_fit) (
                Reads-bind _ (Reads-read_bool r.body_skipped)
                  (Reads-map _ (Reads-read_blob r.body fits.body_fits))))))) in
    rw (bytes_of-sliced r.request_id) at reads

Reads-response :
    (r : ResponseRecord)
    → ResponseFits r
    → Reads read_response (response_tail r) (stored_response r)
unfolding read_response
Reads-response r fits =
    let sliced_id : ResponseRecord = record r {
      request_id = bytes_of (sliced r.request_id);
      body = stored_body r.body;
    } in
    let reads : Reads read_response (response_tail r) sliced_id =
      Reads-bind _ (Reads-read_bytes 16 r.request_id fits.id_size) (
        Reads-bind _ (Reads-read_byte r.http_version) (
          Reads-bind _ (Reads-read_int16 r.status_code fits.status_in_range) (
            Reads-bind _ (Reads-read_lp_string r.status_message fits.message_fits) (
              Reads-bind _ (Reads-read_headers r.headers fits.headers_fit) (
                Reads-bind _ (Reads-read_bool r.body_skipped)
                  (Reads-map _ (Reads-read_blob r.body fits.body_fits))))))) in
    rw (bytes_of-sliced r.request_id) at reads

-- Both kinds of record.
abbrev pub RecordFits : CaptureRecord → Type 0
RecordFits (request r) = RequestFits r
RecordFits (response r) = ResponseFits r

abbrev pub stored : CaptureRecord → CaptureRecord
stored (request r) = request (stored_request r)
stored (response r) = response (stored_response r)

abbrev pub record_type : CaptureRecord → ℕ
record_type (request r) = record_type_request
record_type (response r) = record_type_response

abbrev pub tail_bytes : CaptureRecord → Bytes
tail_bytes (request r) = request_tail r
tail_bytes (response r) = response_tail r

-- The checksummed bytes of a record.
abbrev pub payload : CaptureRecord → Bytes
payload r = (record_type r ∷ []) ++ tail_bytes r

abbrev pub write_payload : CaptureRecord → Io Bytes (Unit {0})
write_payload (request r) = write_request_payload r
write_payload (response r) = write_response_payload r

pub Appends-payload : (r : CaptureRecord) → RecordFits r → Appends (write_payload r) (payload r)
Appends-payload (request r) fits = Appends-request r fits
Appends-payload (response r) fits = Appends-response r fits

abbrev pub read_tail : CaptureRecord → Io Source CaptureRecord
read_tail (request r) = read_request >>= (λ q. pure (request q))
read_tail (response r) = read_response >>= (λ q. pure (response q))

pub Reads-tail : (r : CaptureRecord) → RecordFits r → Reads (read_tail r) (tail_bytes r) (stored r)
Reads-tail (request r) fits = Reads-map request (Reads-request r fits)
Reads-tail (response r) fits = Reads-map response (Reads-response r fits)
