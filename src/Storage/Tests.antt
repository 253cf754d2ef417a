-- ===== src/Storage/Tests.antt =====
-- Concrete runs of the package storage, and its theorems at concrete inputs.
use http_stack_lens.Base.{
  ℕ, ◌≡◌, ◌≢◌, ◌<◌, ◌≤◌, ◌⊎◌, refl, sym, ◌==◌, ap, Result, to_word, arith, true, false, Bool,
  if◌then◌else◌, some, List, [], ◌∷◌, ◌++◌, Bytes, codes, length, take, drop, replicate, pos, ok,
  err,
}
use http_stack_lens.Storage.Binary.{
  buffer, put_le, write_bool, write_byte, write_int16, write_int32, write_int64, write_uint32,
  write_string,
}
use http_stack_lens.Storage.CaptureRecord.{
  RequestRecord, ResponseRecord, CaptureRecord, request, response, new_file_header,
}
use http_stack_lens.Storage.Effect.{Error, device, eof, unexpected_eof, corrupt_record}
use http_stack_lens.Storage.Checksum.{record_checksum}
use http_stack_lens.Storage.Payloads.{payload, stored}
use http_stack_lens.Storage.Progress.{read_progress}
use http_stack_lens.Storage.Records.{framed, frame, read-framed_corrupt}
use http_stack_lens.Storage.RequestStore.{new_request_store, get, len}
use http_stack_lens.Storage.RequestStore.Refinement.{store-refines}
use http_stack_lens.Storage.RequestStore.Spec.{Op, run, run_spec, find}
use http_stack_lens.Storage.SessionReader.{read, open_session}
use http_stack_lens.Storage.SessionWriter.{
  write_all, write_request_payload, write_response_payload, write_lp_string, write_pairs,
  write_headers, write_blob, write_session, write_capture, write_request, write_response,
  write_header, write_record,
}
use http_stack_lens.Storage.Sessions.{
  IsAppender, AllFit, ReadsAll, all_stored, read-write_session, read-write_capture,
}
use http_stack_lens.Storage.StorageSink.{CaptureFiles, new_storage_sink}
use http_stack_lens.Storage.StorageSink.Trace.{SinkCall, OnlyOpen, calls, new_storage_sink-OnlyOpen}
use http_stack_lens.Storage.Truncation.{read_truncated}

abbrev uuid : Bytes
uuid = replicate 16 7

-- GET with an empty body that is present.
abbrev get_record : RequestRecord
get_record = record {
  request_id = uuid;
  method = codes "GET";
  url = codes "/";
  http_version = 0x11;
  headers = (record { name = codes "Host"; value = codes "a" }) ∷ [];
  body_skipped = false;
  body = some [];
}

abbrev ok_record : ResponseRecord
ok_record = record {
  request_id = uuid;
  http_version = 0x11;
  status_code = pos 200;
  status_message = codes "OK";
  headers = [];
  body_skipped = false;
  body = some (codes "hi");
}

abbrev records : List CaptureRecord
records = request get_record ∷ response ok_record ∷ []

abbrev buffer-IsAppender : IsAppender buffer (λ b. b)
buffer-IsAppender = record {
  accepted = λ p w w' h. ap (λ (x : Result Error (Unit {0}) × Bytes). x.1) (sym h);
}

records-fit : AllFit records
records-fit = (
  record {
    id_size = refl;
    method_fits = omega arith;
    url_fits = omega arith;
    headers_fit = (omega arith, (omega arith, omega arith, tt));
    body_fits = omega arith;
  },
  (
    record {
      id_size = refl;
      status_in_range = omega arith;
      message_fits = omega arith;
      headers_fit = (omega arith, tt);
      body_fits = omega arith;
    },
    tt,
  ),
)

session_file : Bytes
unfolding write_session write_header write_all write_capture write_request write_response
    write_request_payload write_response_payload write_record write_lp_string write_pairs
    write_headers write_blob write_bool write_byte write_int16 write_int32 write_int64 write_uint32
    write_string put_le to_word new_file_header
session_file = (write_session buffer true records []).1

session_written : write_session buffer true records [] ≡ (ok tt, session_file)
unfolding session_file
session_written = refl

request_file : Bytes
unfolding session_file
request_file = (write_capture buffer (request get_record) (9 ∷ [])).1

request_written : write_capture buffer (request get_record) (9 ∷ []) ≡ (ok tt, request_file)
unfolding request_file
request_written = refl

read-write_session_example :
    (body : Bytes) × (open_session session_file ≡ (ok (new_file_header true), body))
    × ReadsAll body (all_stored records)
read-write_session_example =
    read-write_session buffer-IsAppender true records [] session_file records-fit refl
      session_written

read-write_capture_example :
    (p : Bytes) × (request_file ≡ 9 ∷ p)
    × ((rest : Bytes) → read (p ++ rest) ≡ (ok (stored (request get_record)), rest))
read-write_capture_example =
    read-write_capture buffer-IsAppender (request get_record) (9 ∷ []) request_file records-fit.0
      request_written

refused : (record_checksum (payload (request get_record)) == 5) ≡ false
unfolding record_checksum put_le to_word
refused = refl

-- A damaged checksum, and a cut, in front of a second record.
read-framed_corrupt_example :
    read (framed 5 (request get_record) ++ 1 ∷ [])
    ≡ (err (corrupt_record 5 (record_checksum (payload (request get_record)))), 1 ∷ [])
read-framed_corrupt_example =
    read-framed_corrupt (request get_record) (1 ∷ []) records-fit.0 5 (omega arith)
      (λ e. cc (refused, e))

read_truncated_example : read (take 9 (frame (request get_record))) ≡ (err unexpected_eof, [])
read_truncated_example =
    read_truncated (request get_record) records-fit.0 _ 7 (drop 10 (frame (request get_record)))
      (λ e. cc) refl

read_progress_example :
    ((◌≡◌ {A = Bytes} (9 ∷ 1 ∷ []) []) × (read (9 ∷ 1 ∷ []) ≡ (err eof, [])))
    ⊎ (((read (9 ∷ 1 ∷ [])).0 ≢ err eof)
        × (length (read (9 ∷ 1 ∷ [])).1 < length {A = ℕ} (9 ∷ 1 ∷ [])))
read_progress_example = read_progress (9 ∷ 1 ∷ [])

abbrev ops : List Op
ops =
    Op.request (codes "a") get_record 1
    ∷ Op.response (codes "b") ok_record 2
    ∷ Op.response (codes "a") ok_record 3
    ∷ Op.request (codes "c") get_record 4
    ∷ []

store-refines_example :
    ((id : Bytes) → get id (run ops (new_request_store 2)) ≡ find id (run_spec 2 ops []))
    × (len (run ops (new_request_store 2)) ≡ length (run_spec 2 ops []))
    × (length (run_spec 2 ops []) ≤ 2)
store-refines_example = store-refines 2 ops

-- Files that answer with an error at every other opening.
abbrev shaky : CaptureFiles Bool Error ℕ
shaky = record {
  factory = λ b. if b then (ok 1, false) else (err device, true);
  write_request = λ w r b. (ok tt, b);
  write_response = λ w r b. (err device, b);
  flush = λ w b. (ok tt, b);
  close = λ w b. (ok tt, b);
}

abbrev sink_calls : List SinkCall
sink_calls =
    SinkCall.on ∷ SinkCall.request get_record ∷ SinkCall.off ∷ SinkCall.on ∷ SinkCall.on ∷ []

new_storage_sink-OnlyOpen_example :
    (let state = calls shaky sink_calls (new_storage_sink, (false, [])) in
      OnlyOpen state.0.current state.1.1)
new_storage_sink-OnlyOpen_example = new_storage_sink-OnlyOpen shaky sink_calls false
