-- ===== src/Runtime/Supervisor/Coherence.antt =====
-- The configuration, the stores and the decryption runtime agree behind every command.
use mathlib.Core.Path.{subst}
use http_stack_lens.Base.{
  ◌≡◌, refl, sym, ap, ◌∙◌, inl, inr, Bool, true, false, List, [], ◌∷◌, Result, ok, err, ok≢err,
  Bool-cases,
}
use http_stack_lens.Configuration.AccessControl.{Netip, AccessControlSettings}
use http_stack_lens.Configuration.CaptureRules.{Float, DecryptHttpsConfig, update_capture_rules}
use http_stack_lens.Runtime.DecryptHttps.{DecryptHttpsRuntime, set_enabled, replace_base}
use http_stack_lens.Runtime.DecryptHttps.Wiring.{
  IsWired, plain, intercepted, Settled, succeeded, failed, Switched, set_enabled-Settled,
  replace_base-Settled,
}
use http_stack_lens.Runtime.Machine.{
  Machine, Middleware, ProxyServer, create_proxy_server, rebuild_os_specific_proxy_pipeline,
}
use http_stack_lens.Runtime.Settings.{
  UpstreamSettings, upstream_settings_from_proxy_config, clone_upstream_settings,
}
use http_stack_lens.Runtime.Supervisor.{
  RuntimeCommand, set_storage_enabled, set_body_capture, set_decrypt_https, set_upstream_settings,
  set_access_settings, start, stop, unknown, RuntimeSupervisor, State, started, start_proxy, retire,
  stop_proxy, restore_base, upstream_persisted, upstream_replaced, upstream_rebuilt, set_upstream,
  rolled_back, restarted, access_persisted, set_access_control,
}
use http_stack_lens.Runtime.Supervisor.Commands.{
  storage_persisted, storage_switched, set_storage, capture_persisted, set_capture_rules,
  decrypt_switched, apply, run,
}
use http_stack_lens.Storage.StorageSink.{StorageSink}

module _ {float : Float} (machine : Machine float) (netip : Netip) where
  open machine use {World, Failure, Writer}

  abbrev S : Type 0
  S = RuntimeSupervisor machine netip

  abbrev Out : Type 0
  Out = Result Failure (Unit {0}) × State machine netip

  -- The configuration has the access settings of the store.
  abbrev pub SameAccess : S → Type 0
  SameAccess s =
      (s.config.proxy.access_control ≡ s.access_store.proxy)
      × (s.config.web_ui.access_control ≡ s.access_store.web_ui)

  -- The snapshot of the configuration has the settings of the decryption runtime and of the two stores,
  -- and new requests pass the interceptor exactly with decryption on. The capture file and the base of
  -- the pipeline are not part of it: a command that fails can leave those behind the configuration.
  pub record IsCoherent (s : S) : Type 0 where
    pub decrypt_same : s.config.decrypt_https ≡ s.decrypt.settings
    pub wired : IsWired machine s.decrypt
    pub upstream_same :
        clone_upstream_settings (upstream_settings_from_proxy_config s.config.proxy)
        ≡ s.upstream_store
    pub access_same : SameAccess s

  storage_persisted-IsCoherent :
      (b : Bool) (s : S) (r : Result Failure (Unit {0}) × World)
      → IsCoherent s
      → IsCoherent (storage_persisted machine netip b s r).1.0
  storage_persisted-IsCoherent b s (err e, w) k = k
  storage_persisted-IsCoherent b s (ok _, w) k = record {
    decrypt_same = k.decrypt_same;
    wired = k.wired;
    upstream_same = k.upstream_same;
    access_same = k.access_same;
  }

  storage_switched-IsCoherent :
      (b : Bool) (s : S) (r : Result Failure (Unit {0}) × (StorageSink Writer × World))
      → IsCoherent s
      → IsCoherent (storage_switched machine netip b s r).1.0
  storage_switched-IsCoherent b s (err e, (sink, w)) k = record {
    decrypt_same = k.decrypt_same;
    wired = k.wired;
    upstream_same = k.upstream_same;
    access_same = k.access_same;
  }
  storage_switched-IsCoherent b s (ok _, (sink, w)) k =
      storage_persisted-IsCoherent b (record s { storage_sink = sink })
        (machine.persist_storage_enabled b w)
        (record {
          decrypt_same = k.decrypt_same;
          wired = k.wired;
          upstream_same = k.upstream_same;
          access_same = k.access_same;
        })

  update_capture_rules-IsWired :
      (c : DecryptHttpsConfig float) (d : DecryptHttpsRuntime machine)
      → IsWired machine d
      → IsWired machine (record d {
        settings = update_capture_rules float c.default_max_bytes c.mime_types d.settings;
      })
  unfolding update_capture_rules
  update_capture_rules-IsWired c d (plain off active) = plain off active
  update_capture_rules-IsWired c d (intercepted certificates on active) =
      intercepted certificates on active

  capture_persisted-IsCoherent :
      (c : DecryptHttpsConfig float) (s : S) (r : Result Failure (Unit {0}) × World)
      → IsCoherent s
      → IsCoherent (capture_persisted machine netip c s r).1.0
  capture_persisted-IsCoherent c s (err e, w) k = k
  capture_persisted-IsCoherent c s (ok _, w) k = record {
    decrypt_same = refl;
    wired = update_capture_rules-IsWired c s.decrypt k.wired;
    upstream_same = k.upstream_same;
    access_same = k.access_same;
  }

  decrypt_switched-IsCoherent :
      (b : Bool) (s : S)
      (r : Result Failure (DecryptHttpsConfig float) × (DecryptHttpsRuntime machine × World))
      → IsCoherent s
      → Settled machine s.decrypt r.1.0 r.0 (Switched machine s.decrypt b r.1.0)
      → IsCoherent (decrypt_switched machine netip s r).1.0
  decrypt_switched-IsCoherent b s (err e, (d, w)) k (succeeded a h _) = ok≢err (sym h)
  decrypt_switched-IsCoherent b s (err e, (d, w)) k (failed f h unmoved) = record {
    decrypt_same =
        k.decrypt_same ∙ ap (λ (x : DecryptHttpsRuntime machine). x.settings) (sym unmoved);
    wired = subst (IsWired machine) (sym unmoved) k.wired;
    upstream_same = k.upstream_same;
    access_same = k.access_same;
  }
  decrypt_switched-IsCoherent b s (ok c, (d, w)) k (succeeded a h (wired, same, _, _)) = record {
    decrypt_same = cc (h, same);
    wired = wired;
    upstream_same = k.upstream_same;
    access_same = k.access_same;
  }
  decrypt_switched-IsCoherent b s (ok c, (d, w)) k (failed f h _) = ok≢err h

  -- A runtime that a supervisor may have in place of its own.
  abbrev Fits : S → DecryptHttpsRuntime machine → Type 0
  Fits s d = IsWired machine d × (d.settings ≡ s.decrypt.settings)

  replace_base-Fits :
      (base : Middleware machine) (s : S) (d : DecryptHttpsRuntime machine) (w : World)
      → Fits s d
      → Fits s (replace_base machine base (d, w)).1.0
  replace_base-Fits base s d w (wired, same) = elim (replace_base-Settled machine base d w) [
    | succeeded _ _ (wired', same', _) ↦ (wired', same' ∙ same)
    | failed _ _ unmoved ↦ (
      subst (IsWired machine) (sym unmoved) wired,
      ap (λ (x : DecryptHttpsRuntime machine). x.settings) unmoved ∙ same,
    )
  ]

  fitting :
      (s : S) (d : DecryptHttpsRuntime machine)
      → IsCoherent s
      → Fits s d
      → IsCoherent (record s { decrypt = d })
  fitting s d k (wired, same) = record {
    decrypt_same = k.decrypt_same ∙ sym same;
    wired = wired;
    upstream_same = k.upstream_same;
    access_same = k.access_same;
  }

  restore_base-IsCoherent :
      (r : Result Failure (Middleware machine)) (s : S) (d : DecryptHttpsRuntime machine)
      (w : World)
      → IsCoherent s
      → Fits s d
      → IsCoherent (restore_base machine netip r (record s { decrypt = d }, w)).0
  restore_base-IsCoherent (err e) s d w k f = fitting s d k f
  restore_base-IsCoherent (ok base) s d w k f =
      fitting s (replace_base machine base (d, w)).1.0 k (replace_base-Fits base s d w f)

  upstream_persisted-IsCoherent :
      (u : UpstreamSettings) (s : S) (d : DecryptHttpsRuntime machine)
      (r : Result Failure (Unit {0}) × World)
      → IsCoherent s
      → Fits s d
      → IsCoherent (upstream_persisted machine netip u (record s { decrypt = d }) r).1.0
  upstream_persisted-IsCoherent u s d (err e, w) k f =
      restore_base-IsCoherent (rebuild_os_specific_proxy_pipeline machine s.config.proxy) s d w k f
  upstream_persisted-IsCoherent u s d (ok _, w) k (wired, same) = record {
    decrypt_same = k.decrypt_same ∙ sym same;
    wired = wired;
    upstream_same = refl;
    access_same = k.access_same;
  }

  upstream_replaced-IsCoherent :
      (u : UpstreamSettings) (s : S)
      (r : Result Failure (Unit {0}) × (DecryptHttpsRuntime machine × World))
      → IsCoherent s
      → Fits s r.1.0
      → IsCoherent (upstream_replaced machine netip u s r).1.0
  upstream_replaced-IsCoherent u s (err e, (d, w)) k f = fitting s d k f
  upstream_replaced-IsCoherent u s (ok _, (d, w)) k f =
      upstream_persisted-IsCoherent u s d (machine.persist_upstream_settings u w) k f

  upstream_rebuilt-IsCoherent :
      (u : UpstreamSettings) (s : S) (w : World) (r : Result Failure (Middleware machine))
      → IsCoherent s
      → IsCoherent (upstream_rebuilt machine netip u (s, w) r).1.0
  upstream_rebuilt-IsCoherent u s w (err e) k = k
  upstream_rebuilt-IsCoherent u s w (ok base) k =
      upstream_replaced-IsCoherent u s (replace_base machine base (s.decrypt, w)) k
        (replace_base-Fits base s s.decrypt w (k.wired, refl))

  -- A change that the settings of the pipeline do not see.
  abbrev SamePipeline : S → S → Type 0
  SamePipeline s s' =
      (s'.config.decrypt_https ≡ s.config.decrypt_https)
      × (s'.decrypt ≡ s.decrypt)
      × (s'.upstream_store ≡ s.upstream_store)
      × (upstream_settings_from_proxy_config s'.config.proxy
          ≡ upstream_settings_from_proxy_config s.config.proxy)

  IsCoherent-same : {s s' : S} → IsCoherent s → SameAccess s' → SamePipeline s s' → IsCoherent s'
  IsCoherent-same {s} {s'} k access (config, decrypt, upstream, proxy) = record {
    decrypt_same =
        config
        ∙ k.decrypt_same
        ∙ ap (λ (x : DecryptHttpsRuntime machine). x.settings) (sym decrypt);
    wired = subst (IsWired machine) (sym decrypt) k.wired;
    upstream_same = ap clone_upstream_settings proxy ∙ k.upstream_same ∙ sym upstream;
    access_same = access;
  }

  started-same :
      (s : S) (r : Result Failure (ProxyServer machine) × World)
      → SamePipeline s (started machine netip s r).1.0
  started-same s (err e, w) = (refl, refl, refl, refl)
  started-same s (ok p, w) = (refl, refl, refl, refl)

  start_proxy-same : (s : S) (w : World) → SamePipeline s (start_proxy machine netip (s, w)).1.0
  unfolding start_proxy
  start_proxy-same s w = elim (Bool-cases s.proxy_ctl.running) [
    | inl on ↦ simp on (refl, refl, refl, refl)
    | inr off ↦ simp off (started-same s (create_proxy_server machine netip s.access_store w))
  ]

  stop_proxy-same : (s : S) → SamePipeline s (stop_proxy machine netip s)
  unfolding stop_proxy
  stop_proxy-same s = elim (Bool-cases s.proxy_ctl.running) [
    | inl on ↦ simp on (refl, refl, refl, refl)
    | inr off ↦ simp off (refl, refl, refl, refl)
  ]

  rolled_back-same :
      (e : Failure) (s : S) (r : Result Failure (ProxyServer machine) × World)
      → SamePipeline s (rolled_back machine netip e (retire machine netip s) r).1.0
  rolled_back-same e s (err _, w) = (refl, refl, refl, refl)
  rolled_back-same e s (ok p, w) = (refl, refl, refl, refl)

  restarted-same :
      (a : AccessControlSettings) (s : S) (r : Result Failure (ProxyServer machine) × World)
      → SamePipeline s (restarted machine netip a s r).1.0
  restarted-same a s (err e, w) =
      let w' = (machine.persist_access_control_settings s.access_store w).1 in
      rolled_back-same e s (create_proxy_server machine netip s.access_store w')
  restarted-same a s (ok p, w) = (refl, refl, refl, refl)

  access_persisted-same :
      (a : AccessControlSettings) (b : Bool) (s : S) (r : Result Failure (Unit {0}) × World)
      → SamePipeline s (access_persisted machine netip a b s r).1.0
  access_persisted-same a b s (err e, w) = (refl, refl, refl, refl)
  access_persisted-same a true s (ok _, w) =
      restarted-same a s (create_proxy_server machine netip a w)
  access_persisted-same a false s (ok _, w) = (refl, refl, refl, refl)

  -- The access settings are in the configuration and the store, or in neither.
  started-SameAccess :
      (s : S) (r : Result Failure (ProxyServer machine) × World)
      → SameAccess s
      → SameAccess (started machine netip s r).1.0
  started-SameAccess s (err e, w) k = k
  started-SameAccess s (ok p, w) k = k

  start_proxy-SameAccess :
      (s : S) (w : World) → SameAccess s → SameAccess (start_proxy machine netip (s, w)).1.0
  unfolding start_proxy
  start_proxy-SameAccess s w k = elim (Bool-cases s.proxy_ctl.running) [
    | inl on ↦ simp on k
    | inr off ↦
        simp off (started-SameAccess s (create_proxy_server machine netip s.access_store w) k)
  ]

  stop_proxy-SameAccess : (s : S) → SameAccess s → SameAccess (stop_proxy machine netip s)
  unfolding stop_proxy
  stop_proxy-SameAccess s k = elim (Bool-cases s.proxy_ctl.running) [
    | inl on ↦ simp on k
    | inr off ↦ simp off k
  ]

  rolled_back-SameAccess :
      (e : Failure) (s : S) (r : Result Failure (ProxyServer machine) × World)
      → SameAccess s
      → SameAccess (rolled_back machine netip e (retire machine netip s) r).1.0
  rolled_back-SameAccess e s (err _, w) k = k
  rolled_back-SameAccess e s (ok p, w) k = k

  restarted-SameAccess :
      (a : AccessControlSettings) (s : S) (r : Result Failure (ProxyServer machine) × World)
      → SameAccess s
      → SameAccess (restarted machine netip a s r).1.0
  restarted-SameAccess a s (err e, w) k =
      let w' = (machine.persist_access_control_settings s.access_store w).1 in
      rolled_back-SameAccess e s (create_proxy_server machine netip s.access_store w') k
  restarted-SameAccess a s (ok p, w) k = (refl, refl)

  access_persisted-SameAccess :
      (a : AccessControlSettings) (b : Bool) (s : S) (r : Result Failure (Unit {0}) × World)
      → SameAccess s
      → SameAccess (access_persisted machine netip a b s r).1.0
  access_persisted-SameAccess a b s (err e, w) k = k
  access_persisted-SameAccess a true s (ok _, w) k =
      restarted-SameAccess a s (create_proxy_server machine netip a w) k
  access_persisted-SameAccess a false s (ok _, w) k = (refl, refl)

  apply-IsCoherent :
      (command : RuntimeCommand float) (s : S) (w : World)
      → IsCoherent s
      → IsCoherent (apply machine netip command (s, w)).1.0
  unfolding apply set_storage set_capture_rules set_upstream set_access_control
  apply-IsCoherent (set_storage_enabled b) s w k = storage_switched-IsCoherent b s _ k
  apply-IsCoherent (set_body_capture c) s w k =
      capture_persisted-IsCoherent c s (machine.persist_capture_rules c w) k
  apply-IsCoherent (set_decrypt_https b) s w k =
      decrypt_switched-IsCoherent b s (set_enabled machine b (s.decrypt, w)) k
        (set_enabled-Settled machine b s.decrypt w k.wired)
  apply-IsCoherent (set_upstream_settings u) s w k = upstream_rebuilt-IsCoherent u s w _ k
  apply-IsCoherent (set_access_settings a) s w k =
      let persisted = machine.persist_access_control_settings a w in
      IsCoherent-same k (access_persisted-SameAccess a _ s persisted k.access_same)
        (access_persisted-same a _ s persisted)
  apply-IsCoherent start s w k =
      IsCoherent-same k (start_proxy-SameAccess s w k.access_same) (start_proxy-same s w)
  apply-IsCoherent stop s w k =
      IsCoherent-same k (stop_proxy-SameAccess s k.access_same) (stop_proxy-same s)
  apply-IsCoherent unknown s w k = k

  -- Whatever commands come in and whichever of their calls fail, the configuration that the Web UI
  -- reads has the decryption settings of the running process, decryption is on or off as they say, new
  -- requests pass the interceptor exactly then, the store of the upstream settings is the
  -- configuration's with the URI trimmed, and the configuration has the access settings of their
  -- store, if all that held before the first command. The capture file and the base of the pipeline
  -- are not compared.
  pub run-IsCoherent :
      (commands : List (RuntimeCommand float)) (s : S) (w : World)
      → IsCoherent s
      → IsCoherent (run machine netip commands (s, w)).1.0
  unfolding run
  run-IsCoherent [] s w k = k
  run-IsCoherent (command ∷ commands) s w k =
      let (s', w') = (apply machine netip command (s, w)).1 in
      run-IsCoherent commands s' w' (apply-IsCoherent command s w k)
