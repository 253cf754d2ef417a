-- ===== src/Proxy/NoProxy.antt =====
-- proxy/middlewares/no_proxy_router.go. What package net makes of an address and of a CIDR network
-- is a parameter.
pub mod Rules
use http_stack_lens.Base.{
  ℕ, Bool, true, false, ◌&&◌, ◌||◌, not, Option, none, some, List, [], ◌∷◌, ◌++◌, Bytes, codes,
  equal, to_lower, trim_space, has_prefix, has_suffix, contains, if◌then◌else◌, ◌==◌,
}

-- net.ParseIP, net.ParseCIDR and IPNet.Contains.
pub record Net : Type 1 where
  pub Ip : Type 0
  pub Network : Type 0
  pub parse_ip : Bytes → Option Ip
  pub parse_cidr : Bytes → Option Network
  pub network_contains : Network → Ip → Bool

-- strings.TrimSuffix(s, ".")
unfoldable pub trim_dot : Bytes → Bytes
trim_dot [] = []
trim_dot (c ∷ s) = if equal (c ∷ s) (codes ".") then [] else c ∷ trim_dot s

unfoldable pub normal_host : Bytes → Bytes
normal_host host = to_lower (trim_dot (trim_space host))

unfoldable pub normal_rule : Bytes → Bytes
normal_rule rule = to_lower (trim_space rule)

module _ (net : Net) where
  abbrev pub in_network : Option net.Network → net.Ip → Bool
  in_network none ip = false
  in_network (some network) ip = net.network_contains network ip

  -- A rule that is no CIDR network, against a host: `rule[1:]` and the two suffixes.
  abbrev pub name_matches : Bytes → Bytes → Bool
  name_matches host [] = false
  name_matches host (c ∷ rule) =
      if c == b'.'
      then equal host rule || has_suffix host (c ∷ rule)
      else equal host (c ∷ rule) || has_suffix host (b'.' ∷ c ∷ rule)

  abbrev pub addressed : Option net.Ip → Bytes → Bytes → Bool
  addressed none host rule = name_matches host rule
  addressed (some ip) host rule =
      if contains rule (codes "/")
      then in_network (net.parse_cidr rule) ip
      else name_matches host rule

  -- One round of the loop, on a rule in normal form: whether it returns true.
  unfoldable pub rule_matches : Option net.Ip → Bytes → Bytes → Bool
  rule_matches host_ip host rule =
      if equal rule []
      then false
      else if equal rule (codes "*")
      then true
      else addressed host_ip host rule

  unfoldable pub any_matches : Option net.Ip → Bytes → List Bytes → Bool
  any_matches host_ip host [] = false
  any_matches host_ip host (rule ∷ rules) =
      if rule_matches host_ip host (normal_rule rule) then true else any_matches host_ip host rules

  unfoldable pub matches_no_proxy : Bytes → List Bytes → Bool
  matches_no_proxy host rules =
      let h = normal_host host in if equal h [] then false else any_matches (net.parse_ip h) h rules
