-- ===== src/Storage/SessionReader.antt =====
-- storage/capture_session_reader.go.

use http_stack_lens.Base.{
  ℕ, zero, suc, Option, none, some, List, [], ◌∷◌, Bytes, ltb, ◌==◌, if◌then◌else◌, equal,
  equal_int, not, ℤ, pos, negsuc, Result, ok, err,
}
use http_stack_lens.Storage.Effect.{
  Error, eof, unexpected_eof, bad_magic, unsupported_version, unknown_record_type, string_too_long,
  negative_header_count, blob_too_long, corrupt_record, Io, pure, fail, continue, ◌>>=◌,
}
use http_stack_lens.Storage.Binary.{
  Source, src, read_byte, read_bool, read_int16, read_int32, read_int64, read_uint32, read_bytes,
}
use http_stack_lens.Storage.CaptureRecord.{
  capture_file_magic, capture_format_version, FileHeader, Header, RequestRecord, ResponseRecord,
  CaptureRecord, request, response, record_type_request, record_type_response,
}
use http_stack_lens.Storage.Checksum.{record_checksum}

-- 256 << 20
abbrev pub max_field_len : ℕ
max_field_len = 268_435_456

-- `string(bytes)` and `copy`: a nil slice has no bytes.
abbrev pub bytes_of : Option Bytes → Bytes
bytes_of none = []
bytes_of (some b) = b

unfoldable pub read_lp_string : Io Source Bytes
read_lp_string = do
  n ← read_uint32
  if ltb max_field_len n
      then fail (string_too_long n)
      else do buf ← read_bytes n; pure (bytes_of buf)

-- The loop of readHeaders, with the rounds that are left.
unfoldable pub read_pairs : ℕ → Io Source (List Header)
read_pairs zero = pure []
read_pairs (suc n) = do
  name ← read_lp_string
  value ← read_lp_string
  headers ← read_pairs n
  pure ((record { name = name; value = value }) ∷ headers)

abbrev counted_pairs : ℤ → Io Source (List Header)
counted_pairs (negsuc n) = fail (negative_header_count (negsuc n))
counted_pairs (pos n) = read_pairs n

unfoldable pub read_headers : Io Source (List Header)
read_headers = do n ← read_int32; counted_pairs n

abbrev sized_blob : ℤ → Io Source (Option Bytes)
sized_blob (negsuc n) = pure none
sized_blob (pos n) = if ltb max_field_len n then fail (blob_too_long (pos n)) else read_bytes n

unfoldable pub read_blob : Io Source (Option Bytes)
read_blob = do n ← read_int64; sized_blob n

unfoldable pub read_request : Io Source RequestRecord
read_request = do
  id ← read_bytes 16
  method ← read_lp_string
  url ← read_lp_string
  v ← read_byte
  headers ← read_headers
  body_skipped ← read_bool
  body ← read_blob
  pure (record {
    request_id = bytes_of id;
    method = method;
    url = url;
    http_version = v;
    headers = headers;
    body_skipped = body_skipped;
    body = body;
  })

unfoldable pub read_response : Io Source ResponseRecord
read_response = do
  id ← read_bytes 16
  v ← read_byte
  status_code ← read_int16
  status_message ← read_lp_string
  headers ← read_headers
  body_skipped ← read_bool
  body ← read_blob
  pure (record {
    request_id = bytes_of id;
    http_version = v;
    status_code = status_code;
    status_message = status_message;
    headers = headers;
    body_skipped = body_skipped;
    body = body;
  })

-- unexpectedEOF, on the error of a result.
unfoldable pub unexpected : {A : Type 0} → Result Error A → Result Error A
unexpected (ok a) = ok a
unexpected (err eof) = err unexpected_eof
unexpected (err e) = err e

-- The switch on the record type, with the mapping of its errors.
unfoldable pub read_body : ℕ → Io Source CaptureRecord
read_body t s =
    if t == record_type_request
    then (let (r, s') = (do q ← read_request; pure (request q)) s in (unexpected r, s'))
    else if t == record_type_response
    then (let (r, s') = (do q ← read_response; pure (response q)) s in (unexpected r, s'))
    else (err (unknown_record_type t), s)

-- The trailer is read from the underlying reader, so the tee keeps the payload alone.
unfoldable pub read_trailer : CaptureRecord → Io Source CaptureRecord
read_trailer r s =
    let (result, s') = read_uint32 (src s.input []) in
    continue (unexpected result)
      (λ stored.
        if record_checksum s.tee == stored
        then pure r
        else fail (corrupt_record stored (record_checksum s.tee)))
      (src s'.input s.tee)

-- `Read`, on what is left of the file. The tee's buffer is fresh at each call.
unfoldable pub read : Io Bytes CaptureRecord
read input =
    let (result, s) = (do t ← read_byte; r ← read_body t; read_trailer r) (src input []) in
    (result, s.input)

read_header_tail : Bytes → ℤ → Io Source FileHeader
read_header_tail magic version = do
  https_decrypted ← read_bool
  records_count ← read_int32
  pure (record {
    magic = magic;
    version = version;
    https_decrypted = https_decrypted;
    records_count = records_count;
  })

unfoldable pub read_header : Io Source FileHeader
unfolding read_header_tail
read_header = do
  magic ← read_bytes 4
  if not (equal (bytes_of magic) capture_file_magic) then fail bad_magic else do
    version ← read_int16
    if not (equal_int version capture_format_version)
        then fail (unsupported_version version)
        else read_header_tail (bytes_of magic) version

-- NewFileCaptureSessionReader, on the bytes of the file that was opened. There is no tee.
unfoldable pub open_session : Io Bytes FileHeader
open_session input = let (result, s) = read_header (src input []) in (result, s.input)
