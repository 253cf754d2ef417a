-- ===== src/Storage/SessionWriter.antt =====
-- storage/capture_session_writer.go. The mutex makes each call one step: calls from several
-- goroutines are some sequence of steps.
use http_stack_lens.Base.{
  ◌%◌, ◌^◌, Bool, Option, none, some, List, [], ◌∷◌, Bytes, length, pos, negsuc,
}
use http_stack_lens.Storage.Effect.{Io, IoWriter, pure, continue, ◌>>◌}
use http_stack_lens.Storage.Binary.{
  buffer, write_bool, write_byte, write_int16, write_int32, write_int64, write_uint32, write_string,
}
use http_stack_lens.Storage.CaptureRecord.{
  FileHeader, new_file_header, Header, RequestRecord, ResponseRecord, CaptureRecord, request,
  response, record_type_request, record_type_response,
}
use http_stack_lens.Storage.Checksum.{record_checksum}

-- A uint32 byte length, then the bytes.
unfoldable pub write_lp_string : Bytes → Io Bytes (Unit {0})
write_lp_string s = do write_uint32 buffer (length s % 2 ^ 32); write_string buffer s

unfoldable pub write_pairs : List Header → Io Bytes (Unit {0})
write_pairs [] = pure tt
write_pairs (h ∷ headers) = do write_lp_string h.name; write_lp_string h.value; write_pairs headers

-- `int32(len(headers))`: `to_word` keeps the low 32 bits.
unfoldable pub write_headers : List Header → Io Bytes (Unit {0})
write_headers headers = do write_int32 buffer (pos (length headers)); write_pairs headers

unfoldable pub write_blob : Option Bytes → Io Bytes (Unit {0})
write_blob none = write_int64 buffer (negsuc 0)
write_blob (some data_bytes) = do
  write_int64 buffer (pos (length data_bytes))
  buffer.write data_bytes

-- The payloads, up to the call of writeRecord.
unfoldable pub write_request_payload : RequestRecord → Io Bytes (Unit {0})
write_request_payload r = do
  write_byte buffer record_type_request
  buffer.write r.request_id
  write_lp_string r.method
  write_lp_string r.url
  write_byte buffer r.http_version
  write_headers r.headers
  write_bool buffer r.body_skipped
  write_blob r.body

unfoldable pub write_response_payload : ResponseRecord → Io Bytes (Unit {0})
write_response_payload r = do
  write_byte buffer record_type_response
  buffer.write r.request_id
  write_byte buffer r.http_version
  write_int16 buffer r.status_code
  write_lp_string r.status_message
  write_headers r.headers
  write_bool buffer r.body_skipped
  write_blob r.body

-- Over the file that the session writes to.
module _ {W : Type 0} (file : IoWriter W) where
  unfoldable pub write_header : FileHeader → Io W (Unit {0})
  write_header h = do
    file.write h.magic
    write_int16 file h.version
    write_bool file h.https_decrypted
    write_int32 file h.records_count

  unfoldable pub write_record : Bytes → Io W (Unit {0})
  write_record payload = do file.write payload; write_uint32 file (record_checksum payload)

  unfoldable pub write_request : RequestRecord → Io W (Unit {0})
  write_request r w =
      let (result, buf) = write_request_payload r [] in continue result (λ _. write_record buf) w

  unfoldable pub write_response : ResponseRecord → Io W (Unit {0})
  write_response r w =
      let (result, buf) = write_response_payload r [] in continue result (λ _. write_record buf) w

  -- A client's call for either kind of record.
  unfoldable pub write_capture : CaptureRecord → Io W (Unit {0})
  write_capture (request r) = write_request r
  write_capture (response r) = write_response r

  -- NewFileCaptureSessionWriter, on the file that was opened, and then the records.
  unfoldable pub write_all : List CaptureRecord → Io W (Unit {0})
  write_all [] = pure tt
  write_all (r ∷ rs) = do write_capture r; write_all rs

  unfoldable pub write_session : Bool → List CaptureRecord → Io W (Unit {0})
  write_session https_decrypted records = do
    write_header (new_file_header https_decrypted)
    write_all records
