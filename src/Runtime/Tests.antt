-- ===== src/Runtime/Tests.antt =====
-- Concrete runs of the supervisor, and its theorems at concrete inputs.
use http_stack_lens.Base.{
  equal_fold, to_lower, lower, some, ℕ, ◌≡◌, ◌*◌, ◌==◌, refl, Bool, true, false, none, List, [],
  ◌∷◌, ◌++◌, Bytes, codes, equal, trim_space, trim_left, trim_right, is_space, ok, err, pos, Call,
}
use http_stack_lens.Configuration.AccessControl.{
  Netip, AccessControlConfig, AccessControlSettings, clean_networks, normalize_access_control,
  listen_host,
}
use http_stack_lens.Configuration.CaptureRules.{Float, DecryptHttpsConfig}
use http_stack_lens.Http.Decimal.{digits, itoa}
use http_stack_lens.Http.Messages.{ProxyRequest, is_connect}
use http_stack_lens.Runtime.Recording.{Recorder, record_url, record_top_level_request}
use http_stack_lens.Runtime.Recording.Independence.{
  viewed, persisted, record_top_level_request-independent,
}
use http_stack_lens.Storage.RequestStore.{new_request_store}
use http_stack_lens.Runtime.DecryptHttps.{DecryptHttpsRuntime, set_enabled, replace_base}
use http_stack_lens.Runtime.DecryptHttps.Wiring.{
  IsWired, plain, Settled, Switched, Replaced, set_enabled-Settled, replace_base-Settled,
}
use http_stack_lens.Runtime.Machine.{
  Machine, stop_accepting, create_proxy_server, tunnel_server, rebuild_os_specific_proxy_pipeline,
}
use http_stack_lens.Runtime.Settings.{AppConfig, UpstreamSettings, clone_upstream_settings}
use http_stack_lens.Runtime.Supervisor.{
  RuntimeCommand, set_decrypt_https, set_access_settings, start, stop, RuntimeSupervisor,
  set_upstream, set_access_control,
}
use http_stack_lens.Runtime.Supervisor.Coherence.{IsCoherent, run-IsCoherent}
use http_stack_lens.Runtime.Supervisor.Commands.{apply, run}
use http_stack_lens.Runtime.Supervisor.Listening.{
  InOrder, IsListening, IsStranded, none_there, one_more, apply-IsListening,
}
use http_stack_lens.Runtime.Supervisor.Rollback.{set_upstream-restores}
use http_stack_lens.Storage.StorageSink.{CaptureFiles}

abbrev float : Float
float = record { Number = ℕ; times = λ x n. x * n; to_int64 = λ x. pos x }

-- No address is known.
abbrev netip : Netip
netip = record {
  Addr = ℕ;
  Prefix = ℕ;
  parse_addr = λ text. none;
  parse_prefix = λ text. none;
  whole_prefix = λ a. [];
  is_4_in_6 = λ a. false;
  unmap = λ a. a;
  is_loopback = λ a. a == 0;
  is_private = λ a. a == 1;
  is_valid = λ a. true;
  is_unspecified = λ a. false;
  is_multicast = λ a. false;
  without_zone = λ a. a;
  prefix_contains = λ p a. p == a;
  bits = λ p. 32;
  prefix_addr = λ p. p;
  split_host_port = λ text. none;
}

-- The world is the answers to come: a call fails where the next one is `false`, and succeeds when
-- there is none left.
abbrev answer : {A : Type 0} → A → Call (List Bool) ℕ A
answer a [] = (ok a, [])
answer a (true ∷ answers) = (ok a, answers)
answer a (false ∷ answers) = (err 7, answers)

abbrev scripted_files : CaptureFiles (List Bool) ℕ ℕ
scripted_files = record {
  factory = answer 3;
  write_request = λ w r. answer tt;
  write_response = λ w r. answer tt;
  flush = λ w. answer tt;
  close = λ w. answer tt;
}

abbrev scripted : Machine float
scripted = record {
  World = List Bool;
  Failure = ℕ;
  Url = Bytes;
  Certificates = ℕ;
  Writer = ℕ;
  unknown_command = 8;
  parse_url = λ text. ok text;
  root_certificates = answer 5;
  listen = λ host. answer host;
  persist_storage_enabled = λ b. answer tt;
  persist_decrypt_https_enabled = λ b. answer tt;
  persist_capture_rules = λ c. answer tt;
  persist_upstream_settings = λ u. answer tt;
  persist_access_control_settings = λ a. answer tt;
  files = scripted_files;
  with_port = λ host. host ++ codes ":3128";
}

abbrev decrypt_config : Bool → DecryptHttpsConfig float
decrypt_config enabled = record {
  enabled = enabled;
  ca_cert_file = [];
  ca_key_file = [];
  domain_certs_folder = [];
  mime_types = [];
  default_max_bytes = none;
}

abbrev mode_of : Bytes → AccessControlConfig
mode_of mode = record { mode = mode; networks = [] }

abbrev loopback : AccessControlSettings
loopback = record { proxy = mode_of (codes "loopback"); web_ui = mode_of (codes "loopback") }

abbrev lan : AccessControlSettings
lan = record { proxy = mode_of (codes "lan"); web_ui = mode_of (codes "loopback") }

abbrev decrypt_off : DecryptHttpsRuntime scripted
decrypt_off = record {
  base = tunnel_server;
  active = record { middleware = tunnel_server; decrypt_https = false };
  settings = decrypt_config false;
}

abbrev app_config : AppConfig float
app_config = record {
  proxy = record {
    port = 3128;
    enable_remote_connection = false;
    access_control = mode_of (codes "loopback");
    output_proxy_uri = [];
    add_windows_authentication_to_output_proxy = false;
    treat_401_as_proxy_authentication = false;
    require_windows_authentication = false;
    no_proxy = [];
  };
  web_ui = record {
    port = 9000;
    enable_remote_connection = false;
    access_control = mode_of (codes "loopback");
  };
  storage = record { enable = false; folder = [] };
  decrypt_https = decrypt_config false;
}

abbrev supervisor : RuntimeSupervisor scripted netip
supervisor = record {
  config = app_config;
  proxy = record { host = codes "127.0.0.1"; address = codes "127.0.0.1:3128"; closed = false };
  retired = [];
  proxy_ctl = record { running = true; address = codes "127.0.0.1:3128" };
  decrypt = decrypt_off;
  upstream_store = record {
    output_proxy_uri = [];
    no_proxy = [];
    add_windows_authentication = false;
  };
  access_store = loopback;
  storage_sink = record { current = none };
}

wired : IsWired scripted decrypt_off
wired = plain refl refl

set_enabled-Settled_example :
    Settled scripted decrypt_off
      (set_enabled scripted true (decrypt_off, true ∷ false ∷ [])).1.0
      (set_enabled scripted true (decrypt_off, true ∷ false ∷ [])).0
      (Switched scripted decrypt_off true
        (set_enabled scripted true (decrypt_off, true ∷ false ∷ [])).1.0)
set_enabled-Settled_example =
    set_enabled-Settled scripted true decrypt_off (true ∷ false ∷ []) wired

replace_base-Settled_example :
    Settled scripted decrypt_off
      (replace_base scripted tunnel_server (decrypt_off, [])).1.0
      (replace_base scripted tunnel_server (decrypt_off, [])).0
      (Replaced scripted decrypt_off tunnel_server
        (replace_base scripted tunnel_server (decrypt_off, [])).1.0)
replace_base-Settled_example = replace_base-Settled scripted tunnel_server decrypt_off []

coherent : IsCoherent scripted netip supervisor
unfolding clone_upstream_settings trim_space trim_left trim_right
coherent = record {
  decrypt_same = refl;
  wired = wired;
  upstream_same = refl;
  access_same = (refl, refl);
}

abbrev commands : List (RuntimeCommand float)
commands = set_decrypt_https true ∷ set_access_settings lan ∷ stop ∷ start ∷ []

run-IsCoherent_example :
    IsCoherent scripted netip (run scripted netip commands (supervisor, true ∷ false ∷ [])).1.0
run-IsCoherent_example =
    run-IsCoherent scripted netip commands supervisor (true ∷ false ∷ []) coherent

listening : IsListening scripted netip supervisor
unfolding listen_host normalize_access_control trim_space trim_left trim_right is_space equal
listening = record { closed_iff = refl; host_same = λ e. refl; retired_closed = none_there }

-- Persisted, and then neither listener can be opened.
abbrev outage : List Bool
outage = true ∷ false ∷ true ∷ false ∷ []

apply-IsListening_example : InOrder scripted netip (set_access_settings lan) supervisor outage (
  (apply scripted netip (set_access_settings lan) (supervisor, outage)).0.result,
  (apply scripted netip (set_access_settings lan) (supervisor, outage)).1,
)
apply-IsListening_example =
    apply-IsListening scripted netip (set_access_settings lan) supervisor outage listening

-- The controller still says that the proxy runs.
outage_strands :
    IsStranded scripted netip
      (apply scripted netip (set_access_settings lan) (supervisor, outage)).1.0
unfolding apply set_access_control listen_host normalize_access_control clean_networks
    create_proxy_server stop_accepting trim_space trim_left trim_right is_space equal
outage_strands = record { running = refl; closed = refl; retired_closed = one_more refl none_there }

abbrev upstream : UpstreamSettings
upstream = record {
  output_proxy_uri = codes "http://p:80";
  no_proxy = codes "a" ∷ [];
  add_windows_authentication = false;
}

built : rebuild_os_specific_proxy_pipeline scripted app_config.proxy ≡ ok tunnel_server
unfolding rebuild_os_specific_proxy_pipeline equal
built = refl

unwritten : (set_upstream scripted netip upstream (supervisor, false ∷ [])).0 ≡ err 7
unfolding set_upstream rebuild_os_specific_proxy_pipeline replace_base equal
unwritten = refl

set_upstream-restores_example :
    (set_upstream scripted netip upstream (supervisor, false ∷ [])).1.0.decrypt ≡ decrypt_off
set_upstream-restores_example =
    set_upstream-restores scripted netip upstream supervisor (false ∷ []) 7 wired refl built
      unwritten

abbrev tunnel : ProxyRequest
tunnel = record {
  http_request_line = record {
    http_method = codes "CONNECT";
    endpoint = record { scheme = []; host = codes "a"; port = pos 443; path_and_query = [] };
    version = record { major = pos 1; minor = pos 1 };
  };
  headers = [];
}

abbrev recorder : Recorder ℕ
recorder = record {
  capture = some (record { current = some 3 });
  store = some (new_request_store 2);
  capture_ctl = some (record { capturing = false });
}

tunnel_url : record_url tunnel ≡ codes "a:443"
unfolding record_url is_connect itoa digits equal_fold equal to_lower lower
tunnel_url = refl

record_top_level_request-independent_example :
    (let (recorder', s') =
        record_top_level_request scripted_files (codes "id") tunnel true 9 (recorder, false ∷ []) in
      (recorder'.store ≡ viewed (codes "id") tunnel true 9 recorder.capture_ctl recorder.store)
      × ((recorder'.capture, s')
          ≡ persisted scripted_files (codes "id") tunnel true recorder.capture (false ∷ []))
      × (recorder'.capture_ctl ≡ recorder.capture_ctl))
record_top_level_request-independent_example =
    record_top_level_request-independent scripted_files (codes "id") tunnel true 9 recorder
      (false ∷ [])
