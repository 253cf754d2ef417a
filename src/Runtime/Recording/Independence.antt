-- ===== src/Runtime/Recording/Independence.antt =====
-- The live view and the capture file do not depend on each other.
use http_stack_lens.Base.{ℕ, ◌≡◌, arith, Bool, ◌&&◌, not, Option, Bytes, if◌then◌else◌}
use http_stack_lens.Http.Messages.{ProxyRequest, is_connect}
use http_stack_lens.Runtime.Recording.{
  proxy_request_to_record, Recorder, is_storing, persist_request, view_request, to_view,
  record_top_level_request,
}
use http_stack_lens.Storage.RequestStore.{RequestStore}
use http_stack_lens.Storage.StorageSink.{CaptureFiles, StorageSink, CaptureController}

-- A tunnel whose content the interceptor reports.
abbrev pub is_hidden : Bool → ProxyRequest → Bool
is_hidden decrypting r = decrypting && is_connect r.http_request_line

-- What the live view has afterwards.
abbrev pub viewed :
    Bytes
    → ProxyRequest
    → Bool
    → ℕ
    → Option CaptureController
    → Option RequestStore
    → Option RequestStore
viewed id r decrypting now ctl store =
    if to_view ctl store && not (is_hidden decrypting r)
    then view_request id (proxy_request_to_record id r) now store
    else store

module _ {S E W : Type 0} (files : CaptureFiles S E W) where
  -- What the capture file and its sink are afterwards.
  abbrev pub persisted :
      Bytes → ProxyRequest → Bool → Option (StorageSink W) → S → Option (StorageSink W) × S
  persisted id r decrypting capture s =
      if is_storing files capture && not (is_hidden decrypting r)
      then persist_request files (proxy_request_to_record id r) capture s
      else (capture, s)

  -- Recording a request changes the live view by a rule that reads nothing of the capture file, and
  -- the capture file by a rule that reads nothing of the live view: a pause of the view loses no
  -- record of the file, and an error of the file none of the view. A tunnel that is decrypted is in
  -- neither.
  pub record_top_level_request-independent :
      (id : Bytes) (r : ProxyRequest) (decrypting : Bool) (now : ℕ) (recorder : Recorder W) (s : S)
      → (let (recorder', s') = record_top_level_request files id r decrypting now (recorder, s) in
          (recorder'.store ≡ viewed id r decrypting now recorder.capture_ctl recorder.store)
          × ((recorder'.capture, s') ≡ persisted id r decrypting recorder.capture s)
          × (recorder'.capture_ctl ≡ recorder.capture_ctl))
  unfolding record_top_level_request
  record_top_level_request-independent id r decrypting now recorder s = ground arith
