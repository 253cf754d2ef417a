-- ===== src/Configuration/CaptureRules.antt =====
-- configuration/config.go: how much of a body is kept, by content type. The YAML may give a size as
-- a float64, whose arithmetic is the parameter `Float`; a value of a store is copied in Go, where a
-- value here needs no copy.

pub mod Limits
use http_stack_lens.Base.{
  ℕ, Bool, true, false, ◌&&◌, ◌||◌, Option, none, some, List, [], ◌∷◌, Bytes, codes, equal,
  to_lower, trim_space, has_suffix, cut, if◌then◌else◌, ℤ, pos,
}

-- float64: multiplication by a constant, and conversion to int64.
pub record Float : Type 1 where
  pub Number : Type 0
  pub times : Number → ℕ → Number
  pub to_int64 : Number → ℤ

module _ (float : Float) where
  open float use {Number, times, to_int64}

  pub record MimeTypeRule : Type 0 where
    pub name : Bytes
    pub max_size_bytes : Option ℤ
    pub max_size_kb : Option Number
    pub max_size_mb : Option Number

-- 500 * 1024
abbrev pub default_capture_size_bytes : ℤ
default_capture_size_bytes = pos 512_000

-- Lowercase, with the parameters behind ';' taken off.
unfoldable pub normalize_content_type : Bytes → Bytes
normalize_content_type content_type = elim (cut b';' content_type) [
  | none ↦ to_lower (trim_space content_type)
  | some (before, after) ↦ to_lower (trim_space before)
]

unfoldable pub content_type_matches : Bytes → Bytes → Bool
content_type_matches rule_name content_type =
    let rule = to_lower (trim_space rule_name) in
    if equal rule content_type || equal rule (codes "*/*") then true else elim (cut b'/' rule) [
      | none ↦ false
      | some (rt, _) ↦ elim (cut b'/' content_type) [
        | none ↦ false
        | some (st, _) ↦ has_suffix rule (codes "/*") && equal rt st
      ]
    ]

module _ (float : Float) where
  pub record DecryptHttpsConfig : Type 0 where
    pub enabled : Bool
    pub ca_cert_file : Bytes
    pub ca_key_file : Bytes
    pub domain_certs_folder : Bytes
    pub mime_types : List (MimeTypeRule float)
    pub default_max_bytes : Option ℤ

  unfoldable pub explicit_limit : MimeTypeRule float → Option ℤ
  explicit_limit r = elim r.max_size_bytes [
    | some size ↦ some size
    | none ↦ elim r.max_size_kb [
      | some size ↦ some (float.to_int64 (float.times size 1024))
      | none ↦ elim r.max_size_mb [
        | some size ↦ some (float.to_int64 (float.times (float.times size 1024) 1024))
        | none ↦ none
      ]
    ]
  ]

  unfoldable pub limit_bytes : MimeTypeRule float → ℤ
  limit_bytes r = elim (explicit_limit r) [ some l ↦ l | none ↦ default_capture_size_bytes ]

  unfoldable pub default_limit_bytes : DecryptHttpsConfig → ℤ
  default_limit_bytes c = elim c.default_max_bytes [
    | some l ↦ l
    | none ↦ default_capture_size_bytes
  ]

  -- The loop of LimitForContentType, with the limit for what no rule names.
  unfoldable pub limit_for : List (MimeTypeRule float) → ℤ → Bytes → ℤ × Bool
  limit_for [] default ct = (default, false)
  limit_for (rule ∷ rules) default ct =
      let rest = limit_for rules default ct in
      if content_type_matches rule.name ct
      then (elim (explicit_limit rule) [ some l ↦ l | none ↦ default ], true)
      else rest

  unfoldable pub limit_for_content_type : DecryptHttpsConfig → Bytes → ℤ × Bool
  limit_for_content_type c content_type =
      limit_for c.mime_types (default_limit_bytes c) (normalize_content_type content_type)

  -- DecryptHttpsConfigStore
  unfoldable pub update_capture_rules :
      Option ℤ → List (MimeTypeRule float) → DecryptHttpsConfig → DecryptHttpsConfig
  update_capture_rules default_max_bytes rules config = record config {
    mime_types = rules;
    default_max_bytes = default_max_bytes;
  }

  unfoldable pub update_enabled : Bool → DecryptHttpsConfig → DecryptHttpsConfig
  update_enabled enabled config = record config { enabled = enabled }
