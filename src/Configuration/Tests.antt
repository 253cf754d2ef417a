-- ===== src/Configuration/Tests.antt =====
-- Concrete runs of the package configuration, and its theorems at concrete inputs.
use http_stack_lens.Base.{
  ℕ, zero, suc, Option, false, ◌==◌, if◌then◌else◌, ok, ◌≡◌, ◌*◌, refl, ◌↔◌, true, none, some, [],
  ◌∷◌, ◌++◌, Bytes, codes, to_lower, pos, cut, equal, has_suffix, trim_space, trim_right, trim_left,
  is_space, lower,
}
use http_stack_lens.Configuration.AccessControl.{
  Netip, AccessControlConfig, clean_networks, normalize_access_control, first_invalid,
  validate_access_control, parse_prefixes, new_access_policy, any_prefix, plain_ip, allows_ip,
  listen_host,
}
use http_stack_lens.Configuration.AccessControl.Allowed.{
  Allowed, allows_ip-Allowed_iff, allows_ip-listen_host, validate_access_control_idem,
}
use http_stack_lens.Configuration.AccessControl.Policy.{PrefixTexts}
use http_stack_lens.Configuration.CaptureRules.{
  Float, MimeTypeRule, DecryptHttpsConfig, default_limit_bytes, limit_for, limit_for_content_type,
  content_type_matches, normalize_content_type, explicit_limit,
}
use http_stack_lens.Configuration.CaptureRules.Limits.{Chosen, limit_for_content_type-Chosen}

-- float64 on the whole numbers.
abbrev whole_float : Float
whole_float = record { Number = ℕ; times = λ x n. x * n; to_int64 = λ x. pos x }

abbrev kb_rule : Bytes → ℕ → MimeTypeRule whole_float
kb_rule name size = record {
  name = name;
  max_size_bytes = none;
  max_size_kb = some size;
  max_size_mb = none;
}

abbrev bare_rule : Bytes → MimeTypeRule whole_float
bare_rule name = record {
  name = name;
  max_size_bytes = none;
  max_size_kb = none;
  max_size_mb = none;
}

abbrev config : DecryptHttpsConfig whole_float
config = record {
  enabled = true;
  ca_cert_file = [];
  ca_key_file = [];
  domain_certs_folder = [];
  mime_types = bare_rule (codes "image/*") ∷ kb_rule (codes " Text/* ") 2 ∷ [];
  default_max_bytes = some (pos 100);
}

limit_for_text :
    limit_for_content_type whole_float config (codes "text/HTML; charset=utf-8") ≡ (pos 2048, true)
unfolding limit_for_content_type limit_for content_type_matches normalize_content_type
    explicit_limit to_lower cut equal has_suffix trim_space trim_right trim_left is_space lower
limit_for_text = refl

limit_for_content_type-Chosen_example :
    Chosen whole_float config.mime_types
      (default_limit_bytes whole_float config)
      (normalize_content_type (codes "text/html"))
      (limit_for_content_type whole_float config (codes "text/html"))
limit_for_content_type-Chosen_example =
    limit_for_content_type-Chosen whole_float config (codes "text/html")

-- Package netip on two addresses, 127.0.0.1 as 0 and 10.0.0.5 as 1.
abbrev address_text : ℕ → Bytes
address_text zero = codes "127.0.0.1"
address_text (suc _) = codes "10.0.0.5"

abbrev address : Bytes → Option ℕ
address text =
    if equal text (codes "127.0.0.1")
    then some 0
    else if equal text (codes "10.0.0.5")
    then some 1
    else none

abbrev prefix : Bytes → Option ℕ
prefix text =
    if equal text (codes "127.0.0.1/32")
    then some 0
    else if equal text (codes "10.0.0.5/32")
    then some 1
    else none

abbrev netip : Netip
netip = record {
  Addr = ℕ;
  Prefix = ℕ;
  parse_addr = address;
  parse_prefix = prefix;
  whole_prefix = λ a. address_text a ++ codes "/32";
  is_4_in_6 = λ a. false;
  unmap = λ a. a;
  is_loopback = λ a. a == 0;
  is_private = λ a. a == 1;
  is_valid = λ a. true;
  is_unspecified = λ a. false;
  is_multicast = λ a. false;
  without_zone = λ a. a;
  prefix_contains = λ p a. p == a;
  bits = λ p. 32;
  prefix_addr = λ p. p;
  split_host_port = λ text. none;
}

no_address : (a : ℕ) → address (address_text a ++ codes "/32") ≡ none
unfolding equal
no_address zero = refl
no_address (suc a) = refl

text_trimmed : (a : ℕ) → trim_space (address_text a ++ codes "/32") ≡ address_text a ++ codes "/32"
unfolding trim_space trim_right trim_left is_space
text_trimmed zero = refl
text_trimmed (suc a) = refl

text_filled : (a : ℕ) → equal (address_text a ++ codes "/32") [] ≡ false
unfolding equal
text_filled zero = refl
text_filled (suc a) = refl

netip-PrefixTexts : PrefixTexts netip
netip-PrefixTexts = record { no_addr = no_address; trimmed = text_trimmed; filled = text_filled }

abbrev given : AccessControlConfig
given = record { mode = codes " allowlist"; networks = codes " 10.0.0.5" ∷ codes " " ∷ [] }

abbrev accepted : AccessControlConfig
accepted = record { mode = codes "allowlist"; networks = codes "10.0.0.5/32" ∷ [] }

given_accepted : validate_access_control netip given ≡ ok accepted
unfolding validate_access_control clean_networks first_invalid trim_space trim_right trim_left
    is_space equal
given_accepted = refl

allows_ip-Allowed_iff_example :
    (allows_ip netip (new_access_policy netip none accepted) 1 ≡ true)
    ↔ Allowed netip none accepted (plain_ip netip 1)
allows_ip-Allowed_iff_example =
    allows_ip-Allowed_iff netip netip-PrefixTexts none given accepted 1 given_accepted

validate_access_control_idem_example :
    (validate_access_control netip accepted ≡ ok accepted)
    × (normalize_access_control netip accepted false ≡ accepted)
validate_access_control_idem_example =
    validate_access_control_idem netip netip-PrefixTexts given accepted given_accepted

let_in : allows_ip netip (new_access_policy netip none accepted) 1 ≡ true
unfolding allows_ip new_access_policy normalize_access_control parse_prefixes any_prefix
    clean_networks plain_ip trim_space trim_right trim_left is_space equal
let_in = refl

not_local : (plain_ip netip 1 == 0) ≡ false
unfolding plain_ip
not_local = refl

allows_ip-listen_host_example : listen_host netip accepted ≡ codes "0.0.0.0"
allows_ip-listen_host_example = allows_ip-listen_host netip none accepted 1 let_in not_local
