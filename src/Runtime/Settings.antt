-- ===== src/Runtime/Settings.antt =====
-- The parts of configuration.AppConfig that the supervisor reads and writes, and
-- configuration/upstream_settings.go. Logging, updates and the folder of .http files stay as they are
-- read at the start and have no field here.
use http_stack_lens.Base.{ℕ, Bool, Bytes, List, trim_space}
use http_stack_lens.Configuration.AccessControl.{AccessControlConfig}
use http_stack_lens.Configuration.CaptureRules.{Float, DecryptHttpsConfig}

pub record ProxyConfig : Type 0 where
  pub port : ℕ
  pub enable_remote_connection : Bool
  pub access_control : AccessControlConfig
  pub output_proxy_uri : Bytes
  pub add_windows_authentication_to_output_proxy : Bool
  pub treat_401_as_proxy_authentication : Bool
  pub require_windows_authentication : Bool
  pub no_proxy : List Bytes

pub record WebUiConfig : Type 0 where
  pub port : ℕ
  pub enable_remote_connection : Bool
  pub access_control : AccessControlConfig

pub record StorageConfig : Type 0 where
  pub enable : Bool
  pub folder : Bytes

pub record AppConfig (float : Float) : Type 0 where
  pub proxy : ProxyConfig
  pub web_ui : WebUiConfig
  pub storage : StorageConfig
  pub decrypt_https : DecryptHttpsConfig float

pub record UpstreamSettings : Type 0 where
  pub output_proxy_uri : Bytes
  pub no_proxy : List Bytes
  pub add_windows_authentication : Bool

abbrev pub upstream_settings_from_proxy_config : ProxyConfig → UpstreamSettings
upstream_settings_from_proxy_config config = record {
  output_proxy_uri = config.output_proxy_uri;
  no_proxy = config.no_proxy;
  add_windows_authentication = config.add_windows_authentication_to_output_proxy;
}

-- cloneUpstreamSettings, which trims the URI; the store keeps and returns such clones.
unfoldable pub clone_upstream_settings : UpstreamSettings → UpstreamSettings
clone_upstream_settings settings = record settings {
  output_proxy_uri = trim_space settings.output_proxy_uri;
}
