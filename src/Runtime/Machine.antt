-- ===== src/Runtime/Machine.antt =====
-- What the supervisor calls: the operating system and packages of Go as a parameter, and the
-- pipelines that proxy/proxy_server.go, proxy_server_unix.go and app_unix.go put together.
use http_stack_lens.Base.{
  Bool, true, false, List, [], ◌∷◌, Bytes, equal, if◌then◌else◌, Result, ok, err, Call,
}
use http_stack_lens.Configuration.AccessControl.{AccessControlSettings, Netip, listen_host}
use http_stack_lens.Configuration.CaptureRules.{Float, DecryptHttpsConfig}
use http_stack_lens.Runtime.Settings.{ProxyConfig, UpstreamSettings}
use http_stack_lens.Storage.StorageSink.{CaptureFiles}

-- `World` is the state of the files and sockets, `Failure` an error, `Writer` an open capture file.
-- The persist functions are those of configuration/config_persistence.go, which edit config.yaml.
pub record Machine (float : Float) : Type 1 where
  pub World : Type 0
  pub Failure : Type 0
  pub Url : Type 0
  pub Certificates : Type 0
  pub Writer : Type 0
  pub unknown_command : Failure
  pub parse_url : Bytes → Result Failure Url
  -- certManager.GetHttpsDebugRootCertificates, and the installation, whose failure is logged alone
  pub root_certificates : Call World Failure Certificates
  -- net.Listen on a host, at the port of the process: the address of the listener as a text
  pub listen : Bytes → Call World Failure Bytes
  pub persist_storage_enabled : Bool → Call World Failure (Unit {0})
  pub persist_decrypt_https_enabled : Bool → Call World Failure (Unit {0})
  pub persist_capture_rules : DecryptHttpsConfig float → Call World Failure (Unit {0})
  pub persist_upstream_settings : UpstreamSettings → Call World Failure (Unit {0})
  pub persist_access_control_settings : AccessControlSettings → Call World Failure (Unit {0})
  pub files : CaptureFiles World Failure Writer
  -- the text "host:port" of an address
  pub with_port : Bytes → Bytes

module _ {float : Float} (machine : Machine float) where
  open machine use {Failure, Url, Certificates, parse_url}

  -- The implementations of Middleware that a pipeline is made of.
  pub data Middleware : Type 0 where
    tunnel_server : Middleware
    forward_proxy_server : Url → Middleware
    no_proxy_router : List Bytes → Middleware → Middleware → Middleware
    https_interceptor : Certificates → Middleware → Middleware

  unfoldable pub wrap_no_proxy : Middleware → List Bytes → Middleware
  wrap_no_proxy upstream [] = upstream
  wrap_no_proxy upstream (rule ∷ rules) = no_proxy_router (rule ∷ rules) upstream tunnel_server

  -- ConfigureOsSpecificProxyPipeline: `useOutputProxy` holds with a URL, and without one WrapNoProxy
  -- changes nothing.
  unfoldable pub rebuild_os_specific_proxy_pipeline : ProxyConfig → Result Failure Middleware
  rebuild_os_specific_proxy_pipeline config =
      if equal config.output_proxy_uri []
      then ok tunnel_server
      else elim (parse_url config.output_proxy_uri) [
        | err e ↦ err e
        | ok url ↦ ok (wrap_no_proxy (forward_proxy_server url) config.no_proxy)
      ]

  -- A ProxyServer: the host it was told to listen on, the address of its listener, and whether
  -- StopAccepting was called.
  pub record ProxyServer : Type 0 where
    pub host : Bytes
    pub address : Bytes
    pub closed : Bool

  unfoldable pub stop_accepting : ProxyServer → ProxyServer
  stop_accepting server = record server { closed = true }

  abbrev pub listening :
      Bytes → Result Failure Bytes × machine.World → Result Failure ProxyServer × machine.World
  listening host (err e, w) = (err e, w)
  listening host (ok address, w) =
      (ok (record { host = host; address = address; closed = false }), w)

  -- With an access control store, whose settings decide on the host.
  unfoldable pub create_proxy_server :
      Netip → AccessControlSettings → Call machine.World Failure ProxyServer
  create_proxy_server netip access w =
      listening (listen_host netip access.proxy) (machine.listen (listen_host netip access.proxy) w)
