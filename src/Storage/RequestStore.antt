-- ===== src/Storage/RequestStore.antt =====
-- storage/request_store.go. Each method holds the lock throughout, so it is one step. The pointers
-- of an exchange lead to copies that nobody writes to again.
pub mod Spec
pub mod Refinement
use http_stack_lens.Base.{
  ℕ, Bool, true, false, Option, none, some, List, [], ◌∷◌, ◌++◌, Bytes, length, ltb, if◌then◌else◌,
  lookup, insert, delete,
}
use http_stack_lens.Storage.CaptureRecord.{RequestRecord, ResponseRecord}

-- time.Duration, in nanoseconds.
pub record Timing : Type 0 where
  pub dns : ℕ
  pub connect : ℕ
  pub tls : ℕ
  pub ttfb : ℕ
  pub download : ℕ
  pub total : ℕ

pub record CapturedExchange : Type 0 where
  pub correlation_id : Bytes
  pub request : Option RequestRecord
  pub response : Option ResponseRecord
  pub created_at : ℕ
  pub timing : Option Timing

pub record RequestStore : Type 0 where
  pub max : ℕ
  pub queue : List Bytes
  pub entries : List (Bytes × CapturedExchange)

-- The argument is an int; those below 1 are the number 0 here.
unfoldable pub new_request_store : ℕ → RequestStore
new_request_store max = record { max = (if ltb max 1 then 1 else max); queue = []; entries = [] }

-- The loop of enqueue.
unfoldable pub evict :
    ℕ → List Bytes → List (Bytes × CapturedExchange) → List Bytes × List (Bytes × CapturedExchange)
evict max [] entries = ([], entries)
evict max (oldest ∷ queue) entries =
    let rest = evict max queue (delete oldest entries) in
    if ltb max (length (oldest ∷ queue)) then rest else (oldest ∷ queue, entries)

unfoldable pub enqueue : CapturedExchange → RequestStore → RequestStore
unfolding evict
enqueue e s =
    let (queue, entries) =
      evict s.max (s.queue ++ e.correlation_id ∷ []) (insert e.correlation_id e s.entries) in
    record s { queue = queue; entries = entries }

-- `e.Request = &r` through the pointer that the map holds.
abbrev assign : Bytes → CapturedExchange → RequestStore → RequestStore
assign id e s = record s { entries = insert id e s.entries }

-- The clock is the argument `now`.
unfoldable pub put_request : Bytes → RequestRecord → ℕ → RequestStore → RequestStore
unfolding enqueue
put_request id rec now s = elim (lookup id s.entries) [
  | some e ↦ assign id (record e { request = some rec }) s
  | none ↦
      enqueue
        (record {
          correlation_id = id;
          request = some rec;
          response = none;
          created_at = now;
          timing = none;
        })
        s
]

unfoldable pub put_response : Bytes → ResponseRecord → ℕ → RequestStore → RequestStore
unfolding enqueue
put_response id rec now s = elim (lookup id s.entries) [
  | some e ↦ assign id (record e { response = some rec }) s
  | none ↦
      enqueue
        (record {
          correlation_id = id;
          request = none;
          response = some rec;
          created_at = now;
          timing = none;
        })
        s
]

unfoldable pub put_timing : Bytes → Timing → ℕ → RequestStore → RequestStore
unfolding enqueue
put_timing id t now s = elim (lookup id s.entries) [
  | some e ↦ assign id (record e { timing = some t }) s
  | none ↦
      enqueue
        (record {
          correlation_id = id;
          request = none;
          response = none;
          created_at = now;
          timing = some t;
        })
        s
]

unfoldable pub get : Bytes → RequestStore → Option CapturedExchange
get id s = lookup id s.entries

unfoldable pub len : RequestStore → ℕ
len s = length s.entries

unfoldable pub clear : RequestStore → RequestStore
clear s = record s { queue = []; entries = [] }
