-- ===== src/Runtime/Supervisor/Atomic.antt =====
-- What a command that fails leaves as it was, and what holds of the stores behind every command.
use http_stack_lens.Base.{◌≡◌, sym, ap, ◌∙◌, Bool, Result, err, ok≢err, if◌then◌else◌}
use http_stack_lens.Configuration.AccessControl.{Netip}
use http_stack_lens.Configuration.CaptureRules.{Float}
use http_stack_lens.Runtime.DecryptHttps.{DecryptHttpsRuntime, set_enabled, replace_base}
use http_stack_lens.Runtime.DecryptHttps.Wiring.{
  IsWired, succeeded, failed, set_enabled-Settled, replace_base-Settled,
}
use http_stack_lens.Runtime.Machine.{Machine, Middleware}
use http_stack_lens.Runtime.Supervisor.{
  RuntimeCommand, set_storage_enabled, set_body_capture, set_decrypt_https, set_upstream_settings,
  set_access_settings, start, stop, unknown, RuntimeSupervisor, State,
}
use http_stack_lens.Storage.StorageSink.{StorageSink, enable, disable}

module _ {float : Float} (machine : Machine float) (netip : Netip) where
  open machine use {World, Failure, Writer}

  abbrev S : Type 0
  S = RuntimeSupervisor machine netip

  abbrev Out : Type 0
  Out = Result Failure (Unit {0}) × State machine netip

  -- All the settings that the Web UI can read are as before, and the capture file is as in `sink`.
  pub record SameSettings (s : S) (sink : StorageSink Writer) (s' : S) : Type 0 where
    pub sink_same : s'.storage_sink ≡ sink
    pub config_same : s'.config ≡ s.config
    pub upstream_same : s'.upstream_store ≡ s.upstream_store
    pub access_same : s'.access_store ≡ s.access_store
    pub decrypt_same : s'.decrypt.settings ≡ s.decrypt.settings

  -- A failure keeps the settings.
  abbrev AtomicTo : S → StorageSink Writer → Out → Type 0
  AtomicTo s sink out = (e : Failure) → out.0 ≡ err e → SameSettings s sink out.1.0

  abbrev Atomic : S → Out → Type 0
  Atomic s out = AtomicTo s s.storage_sink out

  -- A new base leaves the settings of the runtime alone.
  pub replace_base-settings :
      (base : Middleware machine) (d : DecryptHttpsRuntime machine) (w : World)
      → (replace_base machine base (d, w)).1.0.settings ≡ d.settings
  replace_base-settings base d w = elim (replace_base-Settled machine base d w) [
    | succeeded _ _ (_, kept, _) ↦ kept
    | failed _ _ unmoved ↦ ap (λ (x : DecryptHttpsRuntime machine). x.settings) unmoved
  ]

  pub set_enabled_failed :
      (b : Bool) (d : DecryptHttpsRuntime machine) (w : World) (e : Failure)
      → IsWired machine d
      → (set_enabled machine b (d, w)).0 ≡ err e
      → (set_enabled machine b (d, w)).1.0 ≡ d
  set_enabled_failed b d w e k h = elim (set_enabled-Settled machine b d w k) [
    | succeeded a good _ ↦ ok≢err (sym good ∙ h)
    | failed _ _ unmoved ↦ unmoved
  ]

  -- The capture file behind a command: the storage switch opens or closes it before it is written to
  -- the file of the configuration, and no other command changes it.
  abbrev pub sink_after : RuntimeCommand float → S → World → StorageSink Writer
  sink_after (set_storage_enabled enabled) s w =
      (if enabled
        then enable machine.files (s.storage_sink, w)
        else disable machine.files (s.storage_sink, w)).1.0
  sink_after (set_body_capture c) s w = s.storage_sink
  sink_after (set_decrypt_https b) s w = s.storage_sink
  sink_after (set_upstream_settings u) s w = s.storage_sink
  sink_after (set_access_settings a) s w = s.storage_sink
  sink_after start s w = s.storage_sink
  sink_after stop s w = s.storage_sink
  sink_after unknown s w = s.storage_sink
