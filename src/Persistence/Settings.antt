-- ===== src/Persistence/Settings.antt =====
-- configuration/config_persistence.go: what is written of the settings, and the edits of the file. The
-- file is a parameter, and so are the formats of package strconv, `quote` and `format_float`.
use http_stack_lens.Base.{
  ℕ, ◌+◌, Bool, false, true, Option, none, some, List, [], ◌∷◌, ◌++◌, Bytes, codes, trim_space,
  Call, Result, ok, err,
}
use http_stack_lens.Http.Messages.{decimal}
use http_stack_lens.Configuration.CaptureRules.{Float, MimeTypeRule, DecryptHttpsConfig}
use http_stack_lens.Configuration.AccessControl.{AccessControlConfig, AccessControlSettings}
use http_stack_lens.Runtime.Settings.{UpstreamSettings}
use http_stack_lens.Persistence.{
  Lines, split_after, spaces, line_end, truth, joined, edit_lines, replace_section,
}

-- A line of YAML with its line break.
abbrev pub yaml_line : ℕ → Bytes → Bytes
yaml_line indent text = spaces indent ++ (text ++ line_end)

abbrev pub upstream_keys : List Bytes
upstream_keys =
    codes "output_proxy_uri"
    ∷ codes "add_windows_authentication_to_output_proxy"
    ∷ codes "no_proxy"
    ∷ []

abbrev pub access_control_keys : List Bytes
access_control_keys = codes "enable_remote_connection" ∷ codes "access_control" ∷ []

abbrev pub capture_rule_keys : List Bytes
capture_rule_keys = codes "default_max_bytes" ∷ codes "mime_types" ∷ []

module _ (quote : Bytes → Bytes) where
  unfoldable pub item_lines : ℕ → List Bytes → Lines
  item_lines indent [] = []
  item_lines indent (item ∷ items) =
      yaml_line indent (codes "- " ++ quote item) ∷ item_lines indent items

  abbrev pub uri_line : ℕ → Bytes → Bytes
  uri_line indent [] = yaml_line indent (codes "output_proxy_uri:")
  uri_line indent (c ∷ uri) = yaml_line indent (codes "output_proxy_uri: " ++ quote (c ∷ uri))

  abbrev pub no_proxy_lines : ℕ → List Bytes → Lines
  no_proxy_lines indent [] = yaml_line indent (codes "no_proxy: []") ∷ []
  no_proxy_lines indent (host ∷ hosts) =
      yaml_line indent (codes "no_proxy:") ∷ item_lines (indent + 2) (host ∷ hosts)

  unfoldable pub render_upstream_lines : UpstreamSettings → ℕ → Lines
  render_upstream_lines settings indent =
      uri_line indent (trim_space settings.output_proxy_uri)
      ∷ yaml_line indent (
          codes "add_windows_authentication_to_output_proxy: "
          ++ truth settings.add_windows_authentication)
      ∷ no_proxy_lines indent settings.no_proxy

  abbrev pub network_lines : ℕ → List Bytes → Lines
  network_lines indent [] = yaml_line (indent + 2) (codes "networks: []") ∷ []
  network_lines indent (network ∷ networks) =
      yaml_line (indent + 2) (codes "networks:") ∷ item_lines (indent + 4) (network ∷ networks)

  unfoldable pub render_access_control_lines : AccessControlConfig → ℕ → Lines
  render_access_control_lines config indent =
      yaml_line indent (codes "access_control:")
      ∷ yaml_line (indent + 2) (codes "mode: " ++ quote config.mode)
      ∷ network_lines indent config.networks

  unfoldable pub upstream_edit : UpstreamSettings → Bytes → Option Bytes
  upstream_edit settings text = joined (
      replace_section (codes "proxy:") upstream_keys (render_upstream_lines settings)
        (split_after text))

  unfoldable pub replace_access_control_section : Bytes → AccessControlConfig → Lines → Option Lines
  replace_access_control_section section config lines =
      replace_section (section ++ codes ":") access_control_keys
        (render_access_control_lines config) lines

  abbrev pub and_web_ui : AccessControlConfig → Option Lines → Option Lines
  and_web_ui config none = none
  and_web_ui config (some lines) = replace_access_control_section (codes "webui") config lines

  unfoldable pub access_control_edit : AccessControlSettings → Bytes → Option Bytes
  access_control_edit settings text = joined (
      and_web_ui settings.web_ui
        (replace_access_control_section (codes "proxy") settings.proxy (split_after text)))

  module _ (float : Float) (format_float : float.Number → Bytes) where
    abbrev pub default_lines : ℕ → DecryptHttpsConfig float → Lines
    default_lines indent config = elim config.default_max_bytes [
      | none ↦ []
      | some size ↦ yaml_line indent (codes "default_max_bytes: " ++ decimal size) ∷ []
    ]

    -- The first size that the rule has.
    abbrev pub size_lines : ℕ → MimeTypeRule float → Lines
    size_lines indent rule = elim rule.max_size_bytes [
      | some size ↦ yaml_line (indent + 4) (codes "max_size_bytes: " ++ decimal size) ∷ []
      | none ↦ elim rule.max_size_kb [
        | some size ↦ yaml_line (indent + 4) (codes "max_size_kb: " ++ format_float size) ∷ []
        | none ↦ elim rule.max_size_mb [
          | some size ↦ yaml_line (indent + 4) (codes "max_size_mb: " ++ format_float size) ∷ []
          | none ↦ []
        ]
      ]
    ]

    unfoldable pub rule_lines : ℕ → List (MimeTypeRule float) → Lines
    rule_lines indent [] = []
    rule_lines indent (rule ∷ rules) =
        yaml_line (indent + 2) (codes "- name: " ++ quote rule.name)
        ∷ (size_lines indent rule ++ rule_lines indent rules)

    unfoldable pub render_capture_rule_lines : DecryptHttpsConfig float → ℕ → Lines
    render_capture_rule_lines config indent =
        default_lines indent config
        ++ (yaml_line indent (codes "mime_types:") ∷ rule_lines indent config.mime_types)

    unfoldable pub capture_rules_edit : DecryptHttpsConfig float → Bytes → Option Bytes
    capture_rules_edit config text = joined (
        replace_section (codes "decrypt_https:") capture_rule_keys
          (render_capture_rule_lines config) (split_after text))

unfoldable pub storage_edit : Bool → Bytes → Option Bytes
storage_edit enabled text =
    joined
      (edit_lines false (codes "storage:") (codes "enable") (truth enabled) none (split_after text))

unfoldable pub decrypt_https_edit : Bool → Bytes → Option Bytes
decrypt_https_edit enabled text = joined (
    edit_lines true (codes "decrypt_https:") (codes "enabled") (truth enabled) none
      (split_after text))

-- os.ReadFile and os.WriteFile of config.yaml.
pub record ConfigFile (W E : Type 0) : Type 0 where
  pub read_file : Call W E Bytes
  pub write_file : Bytes → Call W E (Unit {0})

pub data PersistError (E : Type 0) : Type 0 where
  io : E → PersistError E
  not_found : PersistError E

module _ {W E : Type 0} (file : ConfigFile W E) where
  abbrev pub written : Result E (Unit {0}) × W → Result (PersistError E) (Unit {0}) × W
  written (ok u, w) = (ok u, w)
  written (err e, w) = (err (io e), w)

  abbrev pub write_edited : Option Bytes → W → Result (PersistError E) (Unit {0}) × W
  write_edited none w = (err not_found, w)
  write_edited (some text) w = written (file.write_file text w)

  abbrev pub edit_read :
      (Bytes → Option Bytes) → Result E Bytes × W → Result (PersistError E) (Unit {0}) × W
  edit_read edit (err e, w) = (err (io e), w)
  edit_read edit (ok text, w) = write_edited (edit text) w

  -- What the five functions share: read, edit, and write where the edit succeeds.
  unfoldable pub persist : (Bytes → Option Bytes) → Call W (PersistError E) (Unit {0})
  persist edit w = edit_read edit (file.read_file w)
