-- ===== src/Configuration/AccessControl.antt =====
-- configuration/access_control.go: who may connect, and the address to listen on. Package netip is
-- a parameter; a store is its settings, copied in Go where a value here needs no copy.
pub mod Policy
pub mod Allowed
use http_stack_lens.Base.{
  ℕ, Bool, true, false, ◌&&◌, ◌||◌, not, Option, none, some, List, [], ◌∷◌, Bytes, codes, equal,
  trim_space, if◌then◌else◌, ◌==◌, Result, ok, err,
}

-- Package netip, and net.SplitHostPort.
pub record Netip : Type 1 where
  pub Addr : Type 0
  pub Prefix : Type 0
  pub parse_addr : Bytes → Option Addr
  pub parse_prefix : Bytes → Option Prefix
  -- netip.PrefixFrom(addr, addr.BitLen()).String()
  pub whole_prefix : Addr → Bytes
  pub is_4_in_6 : Addr → Bool
  pub unmap : Addr → Addr
  pub is_loopback : Addr → Bool
  pub is_private : Addr → Bool
  pub is_valid : Addr → Bool
  pub is_unspecified : Addr → Bool
  pub is_multicast : Addr → Bool
  pub without_zone : Addr → Addr
  pub prefix_contains : Prefix → Addr → Bool
  pub bits : Prefix → ℕ
  pub prefix_addr : Prefix → Addr
  pub split_host_port : Bytes → Option Bytes

-- AccessControlMode, a string.
abbrev pub access_control_loopback : Bytes
access_control_loopback = codes "loopback"

abbrev pub access_control_lan : Bytes
access_control_lan = codes "lan"

abbrev pub access_control_interfaces : Bytes
access_control_interfaces = codes "interfaces"

abbrev pub access_control_allowlist : Bytes
access_control_allowlist = codes "allowlist"

abbrev pub access_control_open : Bytes
access_control_open = codes "open"

pub record AccessControlConfig : Type 0 where
  pub mode : Bytes
  pub networks : List Bytes

pub record AccessControlSettings : Type 0 where
  pub proxy : AccessControlConfig
  pub web_ui : AccessControlConfig

-- The errors of ValidateAccessControl.
pub data AccessError : Type 0 where
  empty_allowlist unknown_mode : AccessError
  invalid_network : Bytes → AccessError

-- A net.Addr of net.InterfaceAddrs: an *net.IPNet with its text, or another type.
pub data InterfaceAddr : Type 0 where
  ip_net : Bytes → InterfaceAddr
  other_addr : InterfaceAddr

module _ (netip : Netip) where
  open netip use {
    Addr, Prefix, parse_addr, parse_prefix, whole_prefix, is_4_in_6, unmap, is_loopback, is_private,
    is_valid, is_unspecified, is_multicast, without_zone, prefix_contains, bits, prefix_addr,
    split_host_port,
  }

  abbrev pub clean_network : Bytes → Bytes
  clean_network value = elim (parse_addr value) [ some addr ↦ whole_prefix addr | none ↦ value ]

  unfoldable pub clean_networks : List Bytes → List Bytes
  clean_networks [] = []
  clean_networks (value ∷ values) =
      let rest = clean_networks values in
      let v = trim_space value in if equal v [] then rest else clean_network v ∷ rest

  unfoldable pub normalize_access_control : AccessControlConfig → Bool → AccessControlConfig
  normalize_access_control config enable_remote_connection =
      let mode = trim_space config.mode in
      record {
        mode =
            (if equal mode []
              then (if enable_remote_connection
                  then access_control_open
                  else access_control_loopback)
              else mode);
        networks = clean_networks config.networks;
      }

  -- The loop of ValidateAccessControl: the first network that is no prefix.
  unfoldable pub first_invalid : List Bytes → Option Bytes
  first_invalid [] = none
  first_invalid (network ∷ networks) = elim (parse_prefix network) [
    | none ↦ some network
    | some p ↦ first_invalid networks
  ]

  abbrev pub is_plain_mode : Bytes → Bool
  is_plain_mode mode =
      equal mode access_control_loopback
      || equal mode access_control_lan
      || equal mode access_control_interfaces
      || equal mode access_control_open

  abbrev pub check_networks : AccessControlConfig → Result AccessError AccessControlConfig
  check_networks config = elim (first_invalid config.networks) [
    | some network ↦ err (invalid_network network)
    | none ↦ ok config
  ]

  abbrev pub check_allowlist :
      List Bytes → AccessControlConfig → Result AccessError AccessControlConfig
  check_allowlist [] config = err empty_allowlist
  check_allowlist (_ ∷ _) config = check_networks config

  abbrev pub cleaned : AccessControlConfig → AccessControlConfig
  cleaned config = record {
    mode = trim_space config.mode;
    networks = clean_networks config.networks;
  }

  unfoldable pub validate_access_control :
      AccessControlConfig → Result AccessError AccessControlConfig
  validate_access_control config =
      let c = cleaned config in
      if is_plain_mode c.mode
      then check_networks c
      else if equal c.mode access_control_allowlist
      then check_allowlist c.networks c
      else err unknown_mode

  -- `interface_addrs` is what the function answers when it is called, `some none` an error; `none`
  -- stands for a nil function.
  pub record AccessPolicy : Type 0 where
    pub mode : Bytes
    pub prefixes : List Prefix
    pub interface_addrs : Option (Option (List InterfaceAddr))

  unfoldable pub parse_prefixes : List Bytes → List Prefix
  parse_prefixes [] = []
  parse_prefixes (network ∷ networks) = elim (parse_prefix network) [
    | some prefix ↦ prefix ∷ parse_prefixes networks
    | none ↦ parse_prefixes networks
  ]

  unfoldable pub new_access_policy :
      Option (List InterfaceAddr) → AccessControlConfig → AccessPolicy
  new_access_policy interface_addrs config =
      let normal = normalize_access_control config false in
      record {
        mode = normal.mode;
        prefixes = parse_prefixes normal.networks;
        interface_addrs = some interface_addrs;
      }

  unfoldable pub access_interface_prefix : InterfaceAddr → Option Prefix
  access_interface_prefix other_addr = none
  access_interface_prefix (ip_net text) = elim (parse_prefix text) [
    | none ↦ none
    | some prefix ↦
        if bits prefix == 0
          || is_unspecified (prefix_addr prefix)
          || is_multicast (prefix_addr prefix)
        then none
        else some prefix
  ]

  unfoldable pub any_interface : List InterfaceAddr → Addr → Bool
  any_interface [] ip = false
  any_interface (addr ∷ addrs) ip =
      let rest = any_interface addrs ip in
      elim (access_interface_prefix addr) [
        | none ↦ rest
        | some prefix ↦ if prefix_contains prefix ip then true else rest
      ]

  unfoldable pub allows_interface_ip : AccessPolicy → Addr → Bool
  allows_interface_ip p ip =
      if not (is_valid ip) || is_unspecified ip || is_multicast ip
      then false
      else elim p.interface_addrs [
        | none ↦ false
        | some none ↦ false
        | some (some addrs) ↦ any_interface addrs (without_zone ip)
      ]

  unfoldable pub any_prefix : List Prefix → Addr → Bool
  any_prefix [] ip = false
  any_prefix (prefix ∷ prefixes) ip =
      let rest = any_prefix prefixes ip in if prefix_contains prefix ip then true else rest

  -- An IPv4 address inside an IPv6 one is taken out.
  unfoldable pub plain_ip : Addr → Addr
  plain_ip ip = if is_4_in_6 ip then unmap ip else ip

  unfoldable pub allows_ip : AccessPolicy → Addr → Bool
  allows_ip p address =
      let ip = plain_ip address in
      if equal p.mode access_control_open
      then true
      else if equal p.mode access_control_lan
      then is_loopback ip || is_private ip
      else if equal p.mode access_control_interfaces
      then is_loopback ip || allows_interface_ip p ip
      else if equal p.mode access_control_allowlist
      then (if is_loopback ip then true else any_prefix p.prefixes ip)
      else if equal p.mode access_control_loopback || equal p.mode []
      then is_loopback ip
      else false

  abbrev host_of : Bytes → Bytes
  host_of text = elim (split_host_port text) [ some h ↦ h | none ↦ text ]

  -- The address by its text, `none` for a nil net.Addr.
  unfoldable pub allows_addr : AccessPolicy → Option Bytes → Bool
  allows_addr p none = false
  allows_addr p (some text) = elim (parse_addr (host_of text)) [
    | none ↦ false
    | some ip ↦ allows_ip p ip
  ]

  unfoldable pub listen_host : AccessControlConfig → Bytes
  listen_host c =
      let mode = (normalize_access_control c false).mode in
      if equal mode access_control_lan
        || equal mode access_control_interfaces
        || equal mode access_control_allowlist
        || equal mode access_control_open
      then codes "0.0.0.0"
      else codes "127.0.0.1"

  -- AccessControlSettingsStore.AllowsProxy and AllowsWebUi.
  unfoldable pub allows_proxy :
      Option (List InterfaceAddr) → AccessControlSettings → Option Bytes → Bool
  allows_proxy interface_addrs settings addr =
      allows_addr (new_access_policy interface_addrs settings.proxy) addr

  unfoldable pub allows_web_ui :
      Option (List InterfaceAddr) → AccessControlSettings → Option Bytes → Bool
  allows_web_ui interface_addrs settings addr =
      allows_addr (new_access_policy interface_addrs settings.web_ui) addr
