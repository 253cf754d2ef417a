-- ===== src/Runtime/Supervisor/Listening.antt =====
-- Which listener accepts clients behind every command.
use http_stack_lens.Base.{
  ◌≡◌, refl, sym, ap, ◌∙◌, ◌⊎◌, inl, inr, arith, Bool, true, false, not, List, [], ◌∷◌, ◌++◌,
  Result, ok, err, ok≢err, false≢true, Bool-cases, equal, equal_iff, Bytes, ◌&&◌,
}
use http_stack_lens.Configuration.AccessControl.{Netip, AccessControlSettings, listen_host}
use http_stack_lens.Configuration.CaptureRules.{Float, DecryptHttpsConfig}
use http_stack_lens.Runtime.DecryptHttps.{DecryptHttpsRuntime, set_enabled, replace_base}
use http_stack_lens.Runtime.Machine.{
  Machine, Middleware, ProxyServer, stop_accepting, listening, create_proxy_server,
  rebuild_os_specific_proxy_pipeline,
}
use http_stack_lens.Runtime.Settings.{UpstreamSettings}
use http_stack_lens.Runtime.Supervisor.{
  RuntimeCommand, set_storage_enabled, set_body_capture, set_decrypt_https, set_upstream_settings,
  set_access_settings, start, stop, unknown, RuntimeSupervisor, State, started, start_proxy, retire,
  stop_proxy, restore_base, upstream_persisted, upstream_replaced, upstream_rebuilt, set_upstream,
  rolled_back, restarted, access_persisted, set_access_control,
}
use http_stack_lens.Runtime.Supervisor.Commands.{
  storage_persisted, storage_switched, set_storage, capture_persisted, set_capture_rules,
  decrypt_switched, apply,
}
use http_stack_lens.Storage.StorageSink.{StorageSink, set_running, set_address}

module _ {float : Float} (machine : Machine float) (netip : Netip) where
  open machine use {World, Failure, Writer}

  abbrev S : Type 0
  S = RuntimeSupervisor machine netip

  abbrev Out : Type 0
  Out = Result Failure (Unit {0}) × State machine netip

  pub data AllClosed : List (ProxyServer machine) → Type 0 where
    none_there : AllClosed []
    one_more :
        {p : ProxyServer machine} {ps : List (ProxyServer machine)}
        → p.closed ≡ true
        → AllClosed ps
        → AllClosed (p ∷ ps)

  -- The proxy accepts clients exactly when the controller says that it runs, then on the host of the
  -- access settings in force, and no retired proxy accepts any.
  pub record IsListening (s : S) : Type 0 where
    pub closed_iff : s.proxy.closed ≡ not s.proxy_ctl.running
    pub host_same :
        s.proxy_ctl.running ≡ true → s.proxy.host ≡ listen_host netip s.access_store.proxy
    pub retired_closed : AllClosed s.retired

  -- The controller says that the proxy runs, and nothing accepts clients.
  pub record IsStranded (s : S) : Type 0 where
    pub running : s.proxy_ctl.running ≡ true
    pub closed : s.proxy.closed ≡ true
    pub retired_closed : AllClosed s.retired

  AllClosed-append :
      {ps : List (ProxyServer machine)} (p : ProxyServer machine)
      → AllClosed ps
      → p.closed ≡ true
      → AllClosed (ps ++ p ∷ [])
  AllClosed-append p none_there c = one_more c none_there
  AllClosed-append p (one_more d cs) c = one_more d (AllClosed-append p cs c)

  -- The parts of a supervisor that the listener depends on.
  abbrev SameListener : S → S → Type 0
  SameListener s s' =
      (s'.proxy ≡ s.proxy)
      × (s'.retired ≡ s.retired)
      × (s'.proxy_ctl.running ≡ s.proxy_ctl.running)
      × (s'.access_store ≡ s.access_store)

  IsListening-same : {s s' : S} → IsListening s → SameListener s s' → IsListening s'
  IsListening-same {s} {s'} k (p, r, c, a) = record {
    closed_iff = cc (p, c, k.closed_iff);
    host_same = λ on. cc (p, a, k.host_same (sym c ∙ on));
    retired_closed = rw r k.retired_closed;
  }

  -- A proxy that was just created.
  abbrev IsFresh : AccessControlSettings → Result Failure (ProxyServer machine) → Type 0
  IsFresh a r =
      (p : ProxyServer machine)
      → r ≡ ok p
      → (p.closed ≡ false) × (p.host ≡ listen_host netip a.proxy)

  listening-IsFresh :
      (a : AccessControlSettings) (r : Result Failure Bytes × World)
      → IsFresh a (listening machine (listen_host netip a.proxy) r).0
  listening-IsFresh a (err e, w) p h = ok≢err (sym h)
  listening-IsFresh a (ok address, w) p h =
      let same : record { host = listen_host netip a.proxy; address = address; closed = false }
          ≡ p =
        cc h in
      (
        sym (ap (λ (x : ProxyServer machine). x.closed) same),
        sym (ap (λ (x : ProxyServer machine). x.host) same),
      )

  create_proxy_server-IsFresh :
      (a : AccessControlSettings) (w : World) → IsFresh a (create_proxy_server machine netip a w).0
  unfolding create_proxy_server
  create_proxy_server-IsFresh a w =
      listening-IsFresh a (machine.listen (listen_host netip a.proxy) w)

  started-IsListening :
      (s : S) (r : Result Failure (ProxyServer machine) × World)
      → IsListening s
      → IsFresh s.access_store r.0
      → IsListening (started machine netip s r).1.0
  unfolding set_running set_address
  started-IsListening s (err e, w) k fresh = k
  started-IsListening s (ok p, w) k fresh =
      let (opened, host) = fresh p refl in
      record { closed_iff = opened; host_same = λ on. host; retired_closed = k.retired_closed }

  start_proxy-IsListening :
      (s : S) (w : World) → IsListening s → IsListening (start_proxy machine netip (s, w)).1.0
  unfolding start_proxy
  start_proxy-IsListening s w k = elim (Bool-cases s.proxy_ctl.running) [
    | inl on ↦ simp on k
    | inr off ↦ simp off (
        started-IsListening s (create_proxy_server machine netip s.access_store w) k
          (create_proxy_server-IsFresh s.access_store w))
  ]

  retired-AllClosed : (s : S) → IsListening s → AllClosed (retire machine netip s).retired
  unfolding stop_accepting
  retired-AllClosed s k = AllClosed-append (stop_accepting machine s.proxy) k.retired_closed refl

  stop_proxy-IsListening : (s : S) → IsListening s → IsListening (stop_proxy machine netip s)
  unfolding stop_proxy set_running stop_accepting
  stop_proxy-IsListening s k = elim (Bool-cases s.proxy_ctl.running) [
    | inl on ↦ simp on (record {
      closed_iff = refl;
      host_same = λ e. absurd (false≢true e);
      retired_closed = retired-AllClosed s k;
    })
    | inr off ↦ simp off k
  ]

  -- A change of the access settings that fails with `e` behind this world, written to the file: the new
  -- listener cannot be opened with that error, and neither can the old one, behind an attempt to write
  -- the old settings again.
  pub record RollbackFailed (s : S) (a : AccessControlSettings) (w : World) (e : Failure)
      : Type 0 where
    pub new_failed : (create_proxy_server machine netip a w).0 ≡ err e
    pub failure : Failure
    pub old_failed :
        (create_proxy_server machine netip s.access_store
          (machine.persist_access_control_settings s.access_store
            (create_proxy_server machine netip a w).1).1).0
        ≡ err failure

  -- The listener is in order, or there is none, since a change of the access settings was written and
  -- neither the new listener nor the old one could be opened.
  pub data InOrder (command : RuntimeCommand float) (s : S) (w : World) : Out → Type 0 where
    in_order : {out : Out} → IsListening out.1.0 → InOrder command s w out
    stranded :
        {out : Out} (a : AccessControlSettings) (e : Failure)
        → command ≡ set_access_settings a
        → (machine.persist_access_control_settings a w).0 ≡ ok tt
        → RollbackFailed s a (machine.persist_access_control_settings a w).1 e
        → out.0 ≡ err e
        → IsStranded out.1.0
        → InOrder command s w out

  -- What a change that is written comes to.
  abbrev Restarted : S → AccessControlSettings → World → Out → Type 0
  Restarted s a w out =
      IsListening out.1.0
      ⊎ ((e : Failure) × RollbackFailed s a w e × (out.0 ≡ err e) × IsStranded out.1.0)

  rolled_back-Restarted :
      (e : Failure) (s : S) (a : AccessControlSettings) (w : World)
      (r : Result Failure (ProxyServer machine) × World)
      → IsListening s
      → s.proxy_ctl.running ≡ true
      → IsFresh s.access_store r.0
      → ((failure : Failure) → r.0 ≡ err failure → RollbackFailed s a w e)
      → Restarted s a w (rolled_back machine netip e (retire machine netip s) r)
  unfolding stop_accepting
  rolled_back-Restarted e s a w (err f, v) k on fresh why = inr (
    e,
    why f refl,
    refl,
    record { running = on; closed = refl; retired_closed = retired-AllClosed s k },
  )
  rolled_back-Restarted e s a w (ok p, v) k on fresh why =
      let (opened, host) = fresh p refl in
      inl (record {
        closed_iff = opened ∙ sym (ap not on);
        host_same = λ _. host;
        retired_closed = retired-AllClosed s k;
      })

  restarted-Restarted :
      (a : AccessControlSettings) (s : S) (w : World)
      (r : Result Failure (ProxyServer machine) × World)
      → IsListening s
      → s.proxy_ctl.running ≡ true
      → create_proxy_server machine netip a w ≡ r
      → Restarted s a w (restarted machine netip a s r)
  unfolding set_address
  restarted-Restarted a s w (err e, v) k on same =
      let w' = (machine.persist_access_control_settings s.access_store v).1 in
      rolled_back-Restarted e s a w (create_proxy_server machine netip s.access_store w') k on
        (create_proxy_server-IsFresh s.access_store w')
        (λ f h. record {
          new_failed = ap (λ (x : Result Failure (ProxyServer machine) × World). x.0) same;
          failure = f;
          old_failed = rw same h;
        })
  restarted-Restarted a s w (ok p, v) k on same =
      let (opened, host) =
        create_proxy_server-IsFresh a w p
          (ap (λ (x : Result Failure (ProxyServer machine) × World). x.0) same) in
      inl (record {
        closed_iff = opened ∙ sym (ap not on);
        host_same = λ _. host;
        retired_closed = retired-AllClosed s k;
      })

  access_persisted-InOrder :
      (a : AccessControlSettings) (b : Bool) (s : S) (w : World)
      (r : Result Failure (Unit {0}) × World)
      → IsListening s
      → (s.proxy_ctl.running
          && not (equal (listen_host netip s.access_store.proxy) (listen_host netip a.proxy)))
        ≡ b
      → machine.persist_access_control_settings a w ≡ r
      → InOrder (set_access_settings a) s w (access_persisted machine netip a b s r)
  unfolding set_address
  access_persisted-InOrder a b s w (err e, v) k same written = in_order k
  access_persisted-InOrder a true s w (ok _, v) k same written =
      elim (restarted-Restarted a s v (create_proxy_server machine netip a v) k (ground arith)
        refl) [
          | inl good ↦ in_order good
          | inr (e, why, failed, none_left) ↦
              stranded a e refl (ap (λ (x : Result Failure (Unit {0}) × World). x.0) written)
                (rw written why) failed none_left
        ]
  access_persisted-InOrder a false s w (ok _, v) k same written = in_order (record {
    closed_iff = k.closed_iff;
    host_same = λ on.
        k.host_same on
        ∙ (equal_iff (listen_host netip s.access_store.proxy) (listen_host netip a.proxy)).0
            (ground arith);
    retired_closed = k.retired_closed;
  })

  storage_persisted-same :
      (b : Bool) (s : S) (r : Result Failure (Unit {0}) × World)
      → SameListener s (storage_persisted machine netip b s r).1.0
  storage_persisted-same b s (err e, w) = (refl, refl, refl, refl)
  storage_persisted-same b s (ok _, w) = (refl, refl, refl, refl)

  storage_switched-same :
      (b : Bool) (s : S) (r : Result Failure (Unit {0}) × (StorageSink Writer × World))
      → SameListener s (storage_switched machine netip b s r).1.0
  storage_switched-same b s (err e, (sink, w)) = (refl, refl, refl, refl)
  storage_switched-same b s (ok _, (sink, w)) =
      storage_persisted-same b (record s { storage_sink = sink })
        (machine.persist_storage_enabled b w)

  capture_persisted-same :
      (c : DecryptHttpsConfig float) (s : S) (r : Result Failure (Unit {0}) × World)
      → SameListener s (capture_persisted machine netip c s r).1.0
  capture_persisted-same c s (err e, w) = (refl, refl, refl, refl)
  capture_persisted-same c s (ok _, w) = (refl, refl, refl, refl)

  decrypt_switched-same :
      (s : S)
      (r : Result Failure (DecryptHttpsConfig float) × (DecryptHttpsRuntime machine × World))
      → SameListener s (decrypt_switched machine netip s r).1.0
  decrypt_switched-same s (err f, (d, w)) = (refl, refl, refl, refl)
  decrypt_switched-same s (ok c, (d, w)) = (refl, refl, refl, refl)

  restore_base-same :
      (r : Result Failure (Middleware machine)) (s : S) (w : World)
      → SameListener s (restore_base machine netip r (s, w)).0
  restore_base-same (err e) s w = (refl, refl, refl, refl)
  restore_base-same (ok base) s w = (refl, refl, refl, refl)

  upstream_persisted-same :
      (u : UpstreamSettings) (s : S) (r : Result Failure (Unit {0}) × World)
      → SameListener s (upstream_persisted machine netip u s r).1.0
  upstream_persisted-same u s (err e, w) =
      restore_base-same (rebuild_os_specific_proxy_pipeline machine s.config.proxy) s w
  upstream_persisted-same u s (ok _, w) = (refl, refl, refl, refl)

  upstream_replaced-same :
      (u : UpstreamSettings) (s : S)
      (r : Result Failure (Unit {0}) × (DecryptHttpsRuntime machine × World))
      → SameListener s (upstream_replaced machine netip u s r).1.0
  upstream_replaced-same u s (err e, (d, w)) = (refl, refl, refl, refl)
  upstream_replaced-same u s (ok _, (d, w)) =
      upstream_persisted-same u (record s { decrypt = d }) (machine.persist_upstream_settings u w)

  upstream_rebuilt-same :
      (u : UpstreamSettings) (s : S) (w : World) (r : Result Failure (Middleware machine))
      → SameListener s (upstream_rebuilt machine netip u (s, w) r).1.0
  upstream_rebuilt-same u s w (err e) = (refl, refl, refl, refl)
  upstream_rebuilt-same u s w (ok base) =
      upstream_replaced-same u s (replace_base machine base (s.decrypt, w))

  -- Behind every command the proxy accepts clients exactly when the controller says that it runs, on
  -- the host that the access settings in force ask for, and no retired proxy accepts any. The one
  -- exception is a change of the access settings that was written to the file, and for which neither
  -- the new listener nor, behind it, the old one could be opened: it ends with the error of the new
  -- listener, leaves none, and a controller that says it runs. All of that held before the command.
  pub apply-IsListening :
      (command : RuntimeCommand float) (s : S) (w : World)
      → IsListening s
      → (let (reply, state) = apply machine netip command (s, w) in
          InOrder command s w (reply.result, state))
  unfolding apply set_storage set_capture_rules set_upstream set_access_control
  apply-IsListening (set_storage_enabled b) s w k =
      in_order (IsListening-same k (storage_switched-same b s _))
  apply-IsListening (set_body_capture c) s w k =
      in_order (IsListening-same k (capture_persisted-same c s (machine.persist_capture_rules c w)))
  apply-IsListening (set_decrypt_https b) s w k =
      in_order (IsListening-same k (decrypt_switched-same s (set_enabled machine b (s.decrypt, w))))
  apply-IsListening (set_upstream_settings u) s w k =
      in_order (IsListening-same k (upstream_rebuilt-same u s w _))
  apply-IsListening (set_access_settings a) s w k =
      access_persisted-InOrder a _ s w (machine.persist_access_control_settings a w) k refl refl
  apply-IsListening start s w k = in_order (start_proxy-IsListening s w k)
  apply-IsListening stop s w k = in_order (stop_proxy-IsListening s k)
  apply-IsListening unknown s w k = in_order k
