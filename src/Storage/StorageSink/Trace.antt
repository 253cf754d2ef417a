-- ===== src/Storage/StorageSink/Trace.antt =====
-- Which sessions a sink opens, writes and closes, for any files and any calls.
use http_stack_lens.Base.{Option, none, some, List, [], ◌∷◌, Result, ok, err, Call}
use http_stack_lens.Storage.CaptureRecord.{RequestRecord, ResponseRecord}
use http_stack_lens.Storage.StorageSink.{
  CaptureFiles, StorageSink, new_storage_sink, enable, disable, opened, sink_write_request,
  sink_write_response, sink_flush,
}

-- The calls of a sink.
pub data SinkCall : Type 0 where
  on off flushing : SinkCall
  request : RequestRecord → SinkCall
  response : ResponseRecord → SinkCall

-- What reaches the files; an opening that fails opens nothing.
pub data Event (W : Type 0) : Type 0 where
  opens : W → Event W
  writes_request : W → RequestRecord → Event W
  writes_response : W → ResponseRecord → Event W
  flushes : W → Event W
  closes : W → Event W

-- The events of a session are bracketed, the last one first: `OnlyOpen current events` when
-- `current` is the session that is open behind the events.
pub data OnlyOpen {W : Type 0} : Option W → List (Event W) → Type 0 where
  nothing : OnlyOpen none []
  starts : {w : W} {es : List (Event W)} → OnlyOpen none es → OnlyOpen (some w) (opens w ∷ es)
  one_request :
      {w : W} {r : RequestRecord} {es : List (Event W)}
      → OnlyOpen (some w) es
      → OnlyOpen (some w) (writes_request w r ∷ es)
  one_response :
      {w : W} {r : ResponseRecord} {es : List (Event W)}
      → OnlyOpen (some w) es
      → OnlyOpen (some w) (writes_response w r ∷ es)
  one_flush :
      {w : W} {es : List (Event W)} → OnlyOpen (some w) es → OnlyOpen (some w) (flushes w ∷ es)
  ends : {w : W} {es : List (Event W)} → OnlyOpen (some w) es → OnlyOpen none (closes w ∷ es)

-- Files that note what reaches them, in front of what happens already.
module _ {S E W : Type 0} (files : CaptureFiles S E W) where
  abbrev Noted : Type 0
  Noted = S × List (Event W)

  abbrev noting : {A : Type 0} → Event W → Call S E A → Call Noted E A
  noting e action (s, es) = let (r, s') = action s in (r, (s', e ∷ es))

  abbrev note_opening : Result E W → List (Event W) → List (Event W)
  note_opening (ok w) es = opens w ∷ es
  note_opening (err e) es = es

  abbrev pub noted : CaptureFiles Noted E W
  noted = record {
    factory = λ n. let (r, s') = files.factory n.0 in (r, (s', note_opening r n.1));
    write_request = λ w r. noting (writes_request w r) (files.write_request w r);
    write_response = λ w r. noting (writes_response w r) (files.write_response w r);
    flush = λ w. noting (flushes w) (files.flush w);
    close = λ w. noting (closes w) (files.close w);
  }

  abbrev pub call : SinkCall → Call (StorageSink W × Noted) E (Unit {0})
  call on = enable noted
  call off = disable noted
  call flushing = sink_flush noted
  call (request r) = sink_write_request noted r
  call (response r) = sink_write_response noted r

  abbrev pub calls : List SinkCall → StorageSink W × Noted → StorageSink W × Noted
  calls [] state = state
  calls (c ∷ cs) state = calls cs (call c state).1

  abbrev Tidy : StorageSink W × Noted → Type 0
  Tidy state = OnlyOpen state.0.current state.1.1

  opened-Tidy :
      (r : Result E W) (s : S) (es : List (Event W))
      → OnlyOpen none es
      → Tidy (opened noted (r, (s, note_opening r es))).1
  opened-Tidy (ok w) s es t = starts t
  opened-Tidy (err e) s es t = t

  call-Tidy :
      (c : SinkCall) (current : Option W) (s : S) (es : List (Event W))
      → OnlyOpen current es
      → Tidy (call c (record { current = current }, (s, es))).1
  unfolding enable disable sink_write_request sink_write_response sink_flush
  call-Tidy on none s es t = opened-Tidy (files.factory s).0 (files.factory s).1 es t
  call-Tidy on (some w) s es t = t
  call-Tidy off none s es t = t
  call-Tidy off (some w) s es t = ends t
  call-Tidy flushing none s es t = t
  call-Tidy flushing (some w) s es t = one_flush t
  call-Tidy (request r) none s es t = t
  call-Tidy (request r) (some w) s es t = one_request t
  call-Tidy (response r) none s es t = t
  call-Tidy (response r) (some w) s es t = one_response t

  calls-Tidy :
      (cs : List SinkCall) (state : StorageSink W × Noted) → Tidy state → Tidy (calls cs state)
  calls-Tidy [] state t = t
  calls-Tidy (c ∷ cs) (sink, (s, es)) t = calls-Tidy cs _ (call-Tidy c sink.current s es t)

  -- Whatever calls a new sink gets and whatever the files answer, at most one session is open at a
  -- time, records are written to the session that is open and to no other, and every session is
  -- closed before the next one is opened.
  pub new_storage_sink-OnlyOpen :
      (cs : List SinkCall) (s : S)
      → (let state = calls cs (new_storage_sink, (s, [])) in OnlyOpen state.0.current state.1.1)
  new_storage_sink-OnlyOpen cs s = calls-Tidy cs (new_storage_sink, (s, [])) nothing
