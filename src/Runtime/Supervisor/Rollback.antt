-- ===== src/Runtime/Supervisor/Rollback.antt =====
-- What SetUpstream puts back when the configuration file cannot be written.
use mathlib.Core.Path.{subst}
use http_stack_lens.Base.{◌≡◌, refl, sym, ap, ◌∙◌, false, Result, ok, err, ok≢err, false≢true}
use http_stack_lens.Configuration.AccessControl.{Netip}
use http_stack_lens.Configuration.CaptureRules.{Float}
use http_stack_lens.Runtime.DecryptHttps.{set_decrypting, DecryptHttpsRuntime, replace_base}
use http_stack_lens.Runtime.DecryptHttps.Wiring.{IsWired, plain, intercepted}
use http_stack_lens.Runtime.Machine.{Machine, Middleware, rebuild_os_specific_proxy_pipeline}
use http_stack_lens.Runtime.Settings.{UpstreamSettings}
use http_stack_lens.Runtime.Supervisor.{
  RuntimeSupervisor, restore_base, upstream_persisted, upstream_replaced, upstream_rebuilt,
  set_upstream, with_upstream,
}

module _ {float : Float} (machine : Machine float) (netip : Netip) where
  open machine use {World, Failure}

  abbrev S : Type 0
  S = RuntimeSupervisor machine netip

  abbrev Runtime : Type 0
  Runtime = DecryptHttpsRuntime machine

  -- The base in force with decryption off.
  abbrev moved : Middleware machine → Runtime → Runtime
  moved base d = set_decrypting machine base false (record d { base = base })

  replace_base-off :
      (base : Middleware machine) (d : Runtime) (w : World)
      → d.settings.enabled ≡ false
      → replace_base machine base (d, w) ≡ (ok tt, (moved base d, w))
  unfolding replace_base
  replace_base-off base d w off = simp off

  moved-back : (d : Runtime) → IsWired machine d → d.settings.enabled ≡ false → moved d.base d ≡ d
  moved-back d (plain _ active) off = ap (λ a. record d { active = a }) (sym active)
  moved-back d (intercepted c on active) off = absurd (false≢true (sym off ∙ on))

  restored :
      (s : S) (base : Middleware machine) (w : World)
      → IsWired machine s.decrypt
      → s.decrypt.settings.enabled ≡ false
      → (restore_base machine netip
          (ok s.decrypt.base)
          (record s { decrypt = moved base s.decrypt }, w)).0.decrypt
        ≡ s.decrypt
  restored s base w wired off =
      ap (λ (out : Result Failure (Unit {0}) × (Runtime × World)). out.1.0)
        (replace_base-off s.decrypt.base (moved base s.decrypt) w off)
      ∙ moved-back s.decrypt wired off

  persisted :
      (u : UpstreamSettings) (s : S) (base : Middleware machine) (e : Failure)
      (r : Result Failure (Unit {0}) × World)
      → IsWired machine s.decrypt
      → s.decrypt.settings.enabled ≡ false
      → rebuild_os_specific_proxy_pipeline machine s.config.proxy ≡ ok s.decrypt.base
      → (let out =
            upstream_persisted machine netip u (record s { decrypt = moved base s.decrypt }) r in
          out.0 ≡ err e → out.1.0.decrypt ≡ s.decrypt)
  persisted u s base e (err f, w) wired off built h = rw built (restored s base w wired off)
  persisted u s base e (ok _, w) wired off built h = ok≢err h

  rebuilt :
      (u : UpstreamSettings) (s : S) (w : World) (e : Failure)
      (r : Result Failure (Middleware machine))
      → IsWired machine s.decrypt
      → s.decrypt.settings.enabled ≡ false
      → rebuild_os_specific_proxy_pipeline machine s.config.proxy ≡ ok s.decrypt.base
      → (let out = upstream_rebuilt machine netip u (s, w) r in
          out.0 ≡ err e → out.1.0.decrypt ≡ s.decrypt)
  rebuilt u s w e (err f) wired off built = λ h. refl
  rebuilt u s w e (ok base) wired off built =
      subst
        (λ (moving : Result Failure (Unit {0}) × (Runtime × World)).
          (upstream_replaced machine netip u s moving).0 ≡ err e
          → (upstream_replaced machine netip u s moving).1.0.decrypt ≡ s.decrypt)
        (sym (replace_base-off base s.decrypt w off))
        (persisted u s base e (machine.persist_upstream_settings u w) wired off built)

  -- With decryption off and a pipeline that was built from the configuration, a change of the
  -- upstream settings that fails leaves the pipeline exactly as before: the new one is never left in
  -- force by a configuration file that cannot be written.
  pub set_upstream-restores :
      (u : UpstreamSettings) (s : S) (w : World) (e : Failure)
      → IsWired machine s.decrypt
      → s.decrypt.settings.enabled ≡ false
      → rebuild_os_specific_proxy_pipeline machine s.config.proxy ≡ ok s.decrypt.base
      → (set_upstream machine netip u (s, w)).0 ≡ err e
      → (set_upstream machine netip u (s, w)).1.0.decrypt ≡ s.decrypt
  unfolding set_upstream
  set_upstream-restores u s w e wired off built =
      rebuilt u s w e
        (rebuild_os_specific_proxy_pipeline machine (with_upstream machine netip u s.config.proxy))
        wired off built
