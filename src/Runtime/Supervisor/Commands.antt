-- ===== src/Runtime/Supervisor/Commands.antt =====
-- runtime_supervisor.go: apply, the loop of Run over the commands that come in, and closeAllProxies.
use http_stack_lens.Base.{
  Bool, false, none, some, List, [], ◌∷◌, if◌then◌else◌, Result, ok, err, Call,
}
use http_stack_lens.Configuration.AccessControl.{Netip}
use http_stack_lens.Configuration.CaptureRules.{Float, DecryptHttpsConfig, update_capture_rules}
use http_stack_lens.Runtime.DecryptHttps.{DecryptHttpsRuntime, set_enabled}
use http_stack_lens.Runtime.Machine.{Machine, ProxyServer, stop_accepting}
use http_stack_lens.Runtime.Supervisor.{
  RuntimeCommand, set_storage_enabled, set_body_capture, set_decrypt_https, set_upstream_settings,
  set_access_settings, start, stop, unknown, RuntimeCommandResult, RuntimeSupervisor, State,
  start_proxy, stop_proxy, set_upstream, set_access_control,
}
use http_stack_lens.Storage.StorageSink.{StorageSink, set_running, enable, disable}

module _ {float : Float} (machine : Machine float) (netip : Netip) where
  open machine use {World, Failure, Writer}

  abbrev pub Applied : Type 0
  Applied = RuntimeCommandResult machine netip × State machine netip

  -- The result of a command that only has an error to report.
  abbrev pub replied : Result Failure (Unit {0}) × State machine netip → Applied
  replied (result, state) =
      (record { decrypt_https = none; proxy_running = false; result = result }, state)

  -- With the state of the listener behind the call.
  abbrev pub replied_running : Result Failure (Unit {0}) × State machine netip → Applied
  replied_running (result, (s, w)) = (
    record { decrypt_https = none; proxy_running = s.proxy_ctl.running; result = result },
    (s, w),
  )

  abbrev pub storage_persisted :
      Bool
      → RuntimeSupervisor machine netip
      → Result Failure (Unit {0}) × World
      → Result Failure (Unit {0}) × State machine netip
  storage_persisted enabled s (err e, w) = (err e, (s, w))
  storage_persisted enabled s (ok _, w) = (
    ok tt,
    (
      record s {
        config = record s.config { storage = record s.config.storage { enable = enabled } };
      },
      w,
    ),
  )

  abbrev pub storage_switched :
      Bool
      → RuntimeSupervisor machine netip
      → Result Failure (Unit {0}) × (StorageSink Writer × World)
      → Result Failure (Unit {0}) × State machine netip
  storage_switched enabled s (err e, (sink, w)) = (err e, (record s { storage_sink = sink }, w))
  storage_switched enabled s (ok _, (sink, w)) =
      storage_persisted enabled (record s { storage_sink = sink })
        (machine.persist_storage_enabled enabled w)

  unfoldable pub set_storage : Bool → Call (State machine netip) Failure (Unit {0})
  set_storage enabled (s, w) = storage_switched enabled s (
      if enabled
      then enable machine.files (s.storage_sink, w)
      else disable machine.files (s.storage_sink, w))

  abbrev pub capture_persisted :
      DecryptHttpsConfig float
      → RuntimeSupervisor machine netip
      → Result Failure (Unit {0}) × World
      → Result Failure (Unit {0}) × State machine netip
  capture_persisted rules s (err e, w) = (err e, (s, w))
  capture_persisted rules s (ok _, w) =
      let updated =
        update_capture_rules float rules.default_max_bytes rules.mime_types s.decrypt.settings in
      (
        ok tt,
        (
          record s {
            decrypt = record s.decrypt { settings = updated };
            config = record s.config { decrypt_https = updated };
          },
          w,
        ),
      )

  unfoldable pub set_capture_rules :
      DecryptHttpsConfig float → Call (State machine netip) Failure (Unit {0})
  set_capture_rules rules (s, w) = capture_persisted rules s (machine.persist_capture_rules rules w)

  -- SetEnabled returns the settings of before beside an error.
  abbrev pub decrypt_switched :
      RuntimeSupervisor machine netip
      → Result Failure (DecryptHttpsConfig float) × (DecryptHttpsRuntime machine × World)
      → Applied
  decrypt_switched s (err e, (d, w)) = (
    record { decrypt_https = some s.decrypt.settings; proxy_running = false; result = err e },
    (record s { decrypt = d }, w),
  )
  decrypt_switched s (ok updated, (d, w)) = (
    record { decrypt_https = some updated; proxy_running = false; result = ok tt },
    (record s { decrypt = d; config = record s.config { decrypt_https = updated } }, w),
  )

  unfoldable pub apply : RuntimeCommand float → State machine netip → Applied
  apply (set_storage_enabled enabled) state = replied (set_storage enabled state)
  apply (set_body_capture rules) state = replied (set_capture_rules rules state)
  apply (set_decrypt_https enabled) (s, w) =
      decrypt_switched s (set_enabled machine enabled (s.decrypt, w))
  apply (set_upstream_settings settings) state = replied (set_upstream machine netip settings state)
  apply (set_access_settings settings) state =
      replied (set_access_control machine netip settings state)
  apply start state = replied_running (start_proxy machine netip state)
  apply stop (s, w) = replied_running (ok tt, (stop_proxy machine netip s, w))
  apply unknown state = replied (err machine.unknown_command, state)

  -- The loop of Run, over the commands that come in until it is stopped.
  unfoldable pub run :
      List (RuntimeCommand float)
      → State machine netip
      → List (RuntimeCommandResult machine netip) × State machine netip
  run [] state = ([], state)
  run (command ∷ commands) state =
      let (reply, next) = apply command state in
      let (replies, last) = run commands next in (reply ∷ replies, last)

  abbrev stop_all : List (ProxyServer machine) → List (ProxyServer machine)
  stop_all [] = []
  stop_all (server ∷ servers) = stop_accepting machine server ∷ stop_all servers

  -- Close stops accepting too; the connections of a server are not part of it here.
  unfoldable pub close_all_proxies :
      RuntimeSupervisor machine netip → RuntimeSupervisor machine netip
  close_all_proxies s = record s {
    proxy = stop_accepting machine s.proxy;
    retired = stop_all s.retired;
    proxy_ctl = set_running false s.proxy_ctl;
  }
