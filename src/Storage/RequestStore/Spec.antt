-- ===== src/Storage/RequestStore/Spec.antt =====
-- What the store promises: the last exchanges, oldest first. A part that arrives for an exchange
-- that is remembered joins it in its place; any other opens a new exchange, and only the newest
-- `bound` exchanges stay.
use http_stack_lens.Base.{
  ℕ, ◌-◌, Option, none, some, List, [], ◌∷◌, ◌++◌, Bytes, length, drop, if◌then◌else◌, equal,
}
use http_stack_lens.Storage.CaptureRecord.{RequestRecord, ResponseRecord}
use http_stack_lens.Storage.RequestStore.{
  CapturedExchange, RequestStore, Timing, put_request, put_response, put_timing, clear,
}

pub data Op : Type 0 where
  request : Bytes → RequestRecord → ℕ → Op
  response : Bytes → ResponseRecord → ℕ → Op
  timing : Bytes → Timing → ℕ → Op
  clear_all : Op

abbrev pub apply : Op → RequestStore → RequestStore
apply (request id rec now) s = put_request id rec now s
apply (response id rec now) s = put_response id rec now s
apply (timing id t now) s = put_timing id t now s
apply clear_all s = clear s

unfoldable pub run : List Op → RequestStore → RequestStore
run [] s = s
run (op ∷ ops) s = run ops (apply op s)

abbrev pub History : Type 0
History = List CapturedExchange

unfoldable pub find : Bytes → History → Option CapturedExchange
find id [] = none
find id (e ∷ h) = if equal e.correlation_id id then some e else find id h

abbrev pub blank : Bytes → ℕ → CapturedExchange
blank id now = record {
  correlation_id = id;
  request = none;
  response = none;
  created_at = now;
  timing = none;
}

abbrev pub keep_last : ℕ → History → History
keep_last bound h = drop (length h - bound) h

unfoldable pub revise : Bytes → (CapturedExchange → CapturedExchange) → History → History
revise id change [] = []
revise id change (e ∷ h) =
    if equal e.correlation_id id then change e ∷ h else e ∷ revise id change h

-- One arrival.
unfoldable pub arrive : ℕ → Bytes → ℕ → (CapturedExchange → CapturedExchange) → History → History
arrive bound id now change h = elim (find id h) [
  | some e ↦ revise id change h
  | none ↦ keep_last bound (h ++ change (blank id now) ∷ [])
]

abbrev pub set_request : RequestRecord → CapturedExchange → CapturedExchange
set_request rec e = record e { request = some rec }

abbrev pub set_response : ResponseRecord → CapturedExchange → CapturedExchange
set_response rec e = record e { response = some rec }

abbrev pub set_timing : Timing → CapturedExchange → CapturedExchange
set_timing t e = record e { timing = some t }

abbrev pub expected : ℕ → Op → History → History
expected bound (request id rec now) h = arrive bound id now (set_request rec) h
expected bound (response id rec now) h = arrive bound id now (set_response rec) h
expected bound (timing id t now) h = arrive bound id now (set_timing t) h
expected bound clear_all h = []

unfoldable pub run_spec : ℕ → List Op → History → History
run_spec bound [] h = h
run_spec bound (op ∷ ops) h = run_spec bound ops (expected bound op h)
