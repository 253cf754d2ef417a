-- ===== src/Runtime/Supervisor.antt =====
-- runtime_supervisor.go: the commands of the Web UI, applied one at a time. The supervisor's stores are
-- their values; decryptStore is the store of the runtime, in one field. What goes wrong beside the
-- error that is returned only changes its text, and the text is left out.
pub mod Commands
pub mod Atomic
pub mod Listening
pub mod Coherence
pub mod Rollback
use http_stack_lens.Base.{
  Bool, true, false, not, ◌&&◌, Option, none, some, List, [], ◌∷◌, ◌++◌, Bytes, equal,
  if◌then◌else◌, Result, ok, err, Call,
}
use http_stack_lens.Configuration.AccessControl.{Netip, AccessControlSettings, listen_host}
use http_stack_lens.Configuration.CaptureRules.{Float, DecryptHttpsConfig, update_capture_rules}
use http_stack_lens.Runtime.DecryptHttps.{DecryptHttpsRuntime, set_enabled, replace_base}
use http_stack_lens.Runtime.Machine.{
  Machine, Middleware, ProxyServer, stop_accepting, create_proxy_server,
  rebuild_os_specific_proxy_pipeline,
}
use http_stack_lens.Runtime.Settings.{
  AppConfig, ProxyConfig, UpstreamSettings, clone_upstream_settings,
}
use http_stack_lens.Storage.StorageSink.{
  StorageSink, ProxyController, set_address, set_running, enable, disable,
}

-- RuntimeCommand, by its kind.
pub data RuntimeCommand (float : Float) : Type 0 where
  set_storage_enabled : Bool → RuntimeCommand float
  set_body_capture : DecryptHttpsConfig float → RuntimeCommand float
  set_decrypt_https : Bool → RuntimeCommand float
  set_upstream_settings : UpstreamSettings → RuntimeCommand float
  set_access_settings : AccessControlSettings → RuntimeCommand float
  start stop unknown : RuntimeCommand float

module _ {float : Float} (machine : Machine float) (netip : Netip) where
  open machine use {World, Failure, Writer}

  -- RuntimeCommandResult; `none` for the zero value of the configuration.
  pub record RuntimeCommandResult : Type 0 where
    pub decrypt_https : Option (DecryptHttpsConfig float)
    pub proxy_running : Bool
    pub result : Result Failure (Unit {0})

  -- Main gives the supervisor a proxy before its first command.
  pub record RuntimeSupervisor : Type 0 where
    pub config : AppConfig float
    pub proxy : ProxyServer machine
    pub retired : List (ProxyServer machine)
    pub proxy_ctl : ProxyController
    pub decrypt : DecryptHttpsRuntime machine
    pub upstream_store : UpstreamSettings
    pub access_store : AccessControlSettings
    pub storage_sink : StorageSink Writer

  abbrev pub State : Type 0
  State = RuntimeSupervisor × World

  abbrev pub started :
      RuntimeSupervisor
      → Result Failure (ProxyServer machine) × World
      → Result Failure (Unit {0}) × State
  started s (err e, w) = (err e, (s, w))
  started s (ok proxy, w) = (
    ok tt,
    (
      record s {
        proxy = proxy;
        proxy_ctl = set_running true (set_address proxy.address s.proxy_ctl);
      },
      w,
    ),
  )

  unfoldable pub start_proxy : Call State Failure (Unit {0})
  start_proxy (s, w) =
      if s.proxy_ctl.running
      then (ok tt, (s, w))
      else started s (create_proxy_server machine netip s.access_store w)

  -- StopAccepting on the proxy, which is one of the retired from then on.
  abbrev pub retire : RuntimeSupervisor → RuntimeSupervisor
  retire s = record s {
    proxy = stop_accepting machine s.proxy;
    retired = s.retired ++ stop_accepting machine s.proxy ∷ [];
  }

  unfoldable pub stop_proxy : RuntimeSupervisor → RuntimeSupervisor
  stop_proxy s =
      if not s.proxy_ctl.running
      then s
      else record (retire s) { proxy_ctl = set_running false s.proxy_ctl }

  abbrev pub with_upstream : UpstreamSettings → ProxyConfig → ProxyConfig
  with_upstream settings config = record config {
    output_proxy_uri = settings.output_proxy_uri;
    no_proxy = settings.no_proxy;
    add_windows_authentication_to_output_proxy = settings.add_windows_authentication;
  }

  -- Put the pipeline of the configuration back; the error of that is dropped.
  abbrev pub restore_base : Result Failure (Middleware machine) → State → State
  restore_base (err e) (s, w) = (s, w)
  restore_base (ok base) (s, w) =
      let (_, (d, w')) = replace_base machine base (s.decrypt, w) in (record s { decrypt = d }, w')

  abbrev pub upstream_persisted :
      UpstreamSettings
      → RuntimeSupervisor
      → Result Failure (Unit {0}) × World
      → Result Failure (Unit {0}) × State
  upstream_persisted settings s (err e, w) =
      (err e, restore_base (rebuild_os_specific_proxy_pipeline machine s.config.proxy) (s, w))
  upstream_persisted settings s (ok _, w) = (
    ok tt,
    (
      record s {
        upstream_store = clone_upstream_settings settings;
        config = record s.config { proxy = with_upstream settings s.config.proxy };
      },
      w,
    ),
  )

  abbrev pub upstream_replaced :
      UpstreamSettings
      → RuntimeSupervisor
      → Result Failure (Unit {0}) × (DecryptHttpsRuntime machine × World)
      → Result Failure (Unit {0}) × State
  upstream_replaced settings s (err e, (d, w)) = (err e, (record s { decrypt = d }, w))
  upstream_replaced settings s (ok _, (d, w)) =
      upstream_persisted settings (record s { decrypt = d })
        (machine.persist_upstream_settings settings w)

  abbrev pub upstream_rebuilt :
      UpstreamSettings
      → State
      → Result Failure (Middleware machine)
      → Result Failure (Unit {0}) × State
  upstream_rebuilt settings (s, w) (err e) = (err e, (s, w))
  upstream_rebuilt settings (s, w) (ok base) =
      upstream_replaced settings s (replace_base machine base (s.decrypt, w))

  unfoldable pub set_upstream : UpstreamSettings → Call State Failure (Unit {0})
  set_upstream settings (s, w) =
      upstream_rebuilt settings (s, w)
        (rebuild_os_specific_proxy_pipeline machine (with_upstream settings s.config.proxy))

  abbrev pub access_updated : AccessControlSettings → RuntimeSupervisor → RuntimeSupervisor
  access_updated settings s = record s {
    config = record s.config {
      proxy = record s.config.proxy { access_control = settings.proxy };
      web_ui = record s.config.web_ui { access_control = settings.web_ui };
    };
    proxy_ctl = set_address (machine.with_port (listen_host netip settings.proxy)) s.proxy_ctl;
  }

  abbrev pub rolled_back :
      Failure
      → RuntimeSupervisor
      → Result Failure (ProxyServer machine) × World
      → Result Failure (Unit {0}) × State
  rolled_back e s (err _, w) = (err e, (s, w))
  rolled_back e s (ok rollback, w) = (err e, (record s { proxy = rollback }, w))

  -- The old settings are back in the store, and in the file if that can be written.
  abbrev pub roll_back : Failure → RuntimeSupervisor → World → Result Failure (Unit {0}) × State
  roll_back e s w =
      let (_, w') = machine.persist_access_control_settings s.access_store w in
      rolled_back e s (create_proxy_server machine netip s.access_store w')

  abbrev pub restarted :
      AccessControlSettings
      → RuntimeSupervisor
      → Result Failure (ProxyServer machine) × World
      → Result Failure (Unit {0}) × State
  restarted settings s (err e, w) = roll_back e (retire s) w
  restarted settings s (ok proxy, w) = (
    ok tt,
    (access_updated settings (record (retire s) { access_store = settings; proxy = proxy }), w),
  )

  abbrev pub access_persisted :
      AccessControlSettings
      → Bool
      → RuntimeSupervisor
      → Result Failure (Unit {0}) × World
      → Result Failure (Unit {0}) × State
  access_persisted settings restart s (err e, w) = (err e, (s, w))
  access_persisted settings true s (ok _, w) =
      restarted settings s (create_proxy_server machine netip settings w)
  access_persisted settings false s (ok _, w) =
      (ok tt, (access_updated settings (record s { access_store = settings }), w))

  unfoldable pub set_access_control : AccessControlSettings → Call State Failure (Unit {0})
  set_access_control settings (s, w) =
      let restart =
        s.proxy_ctl.running
        && not
            (equal (listen_host netip s.access_store.proxy) (listen_host netip settings.proxy)) in
      access_persisted settings restart s (machine.persist_access_control_settings settings w)
