-- ===== src/Runtime/Recording.antt =====
-- proxy_server.go: what is kept of a request that comes in, for the live view and for the capture file.
-- An error of the file is logged and has no other effect.
pub mod Independence
use http_stack_lens.Base.{
  ℕ, Bool, true, false, ◌&&◌, not, Option, none, some, List, [], ◌∷◌, ◌++◌, Bytes, codes,
  if◌then◌else◌, to_word,
}
use http_stack_lens.Http.Messages.{Header, ProxyRequest, is_connect, decimal}
use http_stack_lens.Storage.CaptureRecord
use http_stack_lens.Storage.CaptureRecord.{RequestRecord, new_http_version, uuid_string}
use http_stack_lens.Storage.RequestStore.{RequestStore, put_request}
use http_stack_lens.Storage.StorageSink.{
  CaptureFiles, StorageSink, CaptureController, enabled, is_capturing, sink_write_request,
}

abbrev pub record_headers : List Header → List CaptureRecord.Header
record_headers [] = []
record_headers (h ∷ hs) = (record { name = h.name; value = h.value }) ∷ record_headers hs

-- The URL of a record: the authority for CONNECT, an http URL otherwise.
unfoldable pub record_url : ProxyRequest → Bytes
record_url r =
    let line = r.http_request_line in
    let authority = line.endpoint.host ++ codes ":" ++ decimal line.endpoint.port in
    if is_connect line
    then authority
    else codes "http://" ++ authority ++ line.endpoint.path_and_query

-- 2 ^ 63
abbrev half_int : ℕ
half_int = 9_223_372_036_854_775_808

unfoldable pub proxy_request_to_record : Bytes → ProxyRequest → RequestRecord
proxy_request_to_record id r = record {
  request_id = id;
  method = r.http_request_line.http_method;
  url = record_url r;
  http_version =
      new_http_version (to_word half_int r.http_request_line.version.major)
        (to_word half_int r.http_request_line.version.minor);
  headers = record_headers r.headers;
  body_skipped = false;
  body = none;
}

-- The fields of a ProxyServer that recording needs; `none` is nil. The capture writer of the process
-- is its storage sink.
pub record Recorder (W : Type 0) : Type 0 where
  pub capture : Option (StorageSink W)
  pub store : Option RequestStore
  pub capture_ctl : Option CaptureController

abbrev pub view_request : Bytes → RequestRecord → ℕ → Option RequestStore → Option RequestStore
view_request id rec now none = none
view_request id rec now (some store) = some (put_request (uuid_string id) rec now store)

-- `s.isCapturing() && s.store != nil`
abbrev pub to_view : Option CaptureController → Option RequestStore → Bool
to_view ctl none = false
to_view ctl (some store) = is_capturing ctl

module _ {S E W : Type 0} (files : CaptureFiles S E W) where
  unfoldable pub is_storing : Option (StorageSink W) → Bool
  is_storing none = false
  is_storing (some sink) = enabled files sink

  abbrev pub persist_request :
      RequestRecord → Option (StorageSink W) → S → Option (StorageSink W) × S
  persist_request rec none s = (none, s)
  persist_request rec (some sink) s =
      let (_, (sink', s')) = sink_write_request files rec (sink, s) in (some sink', s')

  unfoldable pub record_top_level_request :
      Bytes → ProxyRequest → Bool → ℕ → Recorder W × S → Recorder W × S
  record_top_level_request id r decrypting now (recorder, s) =
      let persisted = is_storing recorder.capture in
      let viewed = to_view recorder.capture_ctl recorder.store in
      let rec = proxy_request_to_record id r in
      let (capture, s') =
        if persisted then persist_request rec recorder.capture s else (recorder.capture, s) in
      let store = if viewed then view_request id rec now recorder.store else recorder.store in
      if not persisted && not viewed
      then (recorder, s)
      else if decrypting && is_connect r.http_request_line
      then (recorder, s)
      else (record recorder { capture = capture; store = store }, s')
