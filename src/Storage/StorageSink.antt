-- ===== src/Storage/StorageSink.antt =====
-- storage/storage_sink.go, capture_control.go and proxy_control.go: the switches of the process. A
-- lock lets one call in at a time, so a call is a step. The file behind a CaptureSessionWriter is
-- whatever the factory opens.
pub mod Trace
use http_stack_lens.Base.{Bool, true, false, Option, none, some, Bytes, Result, ok, err, Call}
use http_stack_lens.Storage.CaptureRecord.{RequestRecord, ResponseRecord}

-- The factory, and the methods of the CaptureSessionWriter that it opens.
pub record CaptureFiles (S E W : Type 0) : Type 0 where
  pub factory : Call S E W
  pub write_request : W → RequestRecord → Call S E (Unit {0})
  pub write_response : W → ResponseRecord → Call S E (Unit {0})
  pub flush : W → Call S E (Unit {0})
  pub close : W → Call S E (Unit {0})

-- `none` for the nil writer of a sink that is off.
pub record StorageSink (W : Type 0) : Type 0 where
  pub current : Option W

abbrev pub new_storage_sink : {W : Type 0} → StorageSink W
new_storage_sink = record { current = none }

module _ {S E W : Type 0} (files : CaptureFiles S E W) where
  abbrev pub opened : Result E W × S → Result E (Unit {0}) × (StorageSink W × S)
  opened (err e, s) = (err e, (record { current = none }, s))
  opened (ok w, s) = (ok tt, (record { current = some w }, s))

  abbrev pub kept : W → Result E (Unit {0}) × S → Result E (Unit {0}) × (StorageSink W × S)
  kept w (r, s) = (r, (record { current = some w }, s))

  abbrev pub closed : Result E (Unit {0}) × S → Result E (Unit {0}) × (StorageSink W × S)
  closed (r, s) = (r, (record { current = none }, s))

  unfoldable pub enabled : StorageSink W → Bool
  enabled sink = elim sink.current [ none ↦ false | some w ↦ true ]

  unfoldable pub enable : Call (StorageSink W × S) E (Unit {0})
  enable (sink, s) = elim sink.current [
    | some w ↦ (ok tt, (sink, s))
    | none ↦ opened (files.factory s)
  ]

  -- `closeCurrentLocked`, which is `Disable` and `Close`: the sink is off even when closing fails.
  unfoldable pub disable : Call (StorageSink W × S) E (Unit {0})
  disable (sink, s) = elim sink.current [
    | none ↦ (ok tt, (sink, s))
    | some w ↦ closed (files.close w s)
  ]

  -- What an open session does, if there is one.
  abbrev pub on_current : (W → Call S E (Unit {0})) → Call (StorageSink W × S) E (Unit {0})
  on_current action (sink, s) = elim sink.current [
    | none ↦ (ok tt, (sink, s))
    | some w ↦ kept w (action w s)
  ]

  unfoldable pub sink_write_request : RequestRecord → Call (StorageSink W × S) E (Unit {0})
  sink_write_request r = on_current (λ w. files.write_request w r)

  unfoldable pub sink_write_response : ResponseRecord → Call (StorageSink W × S) E (Unit {0})
  sink_write_response r = on_current (λ w. files.write_response w r)

  unfoldable pub sink_flush : Call (StorageSink W × S) E (Unit {0})
  sink_flush = on_current files.flush

-- CaptureController; a nil controller captures and ignores its commands.
pub record CaptureController : Type 0 where
  pub capturing : Bool

unfoldable pub is_capturing : Option CaptureController → Bool
is_capturing none = true
is_capturing (some c) = c.capturing

unfoldable pub set_capturing : Bool → Option CaptureController → Bool × Option CaptureController
set_capturing capturing none = (true, none)
set_capturing capturing (some c) = (capturing, some (record { capturing = capturing }))

-- ProxyController; the supervisor has one, so it is never nil here.
pub record ProxyController : Type 0 where
  pub running : Bool
  pub address : Bytes

unfoldable pub set_address : Bytes → ProxyController → ProxyController
set_address address c = record c { address = address }

unfoldable pub set_running : Bool → ProxyController → ProxyController
set_running running c = record c { running = running }
