-- ===== src/Configuration/AccessControl/Policy.antt =====
-- What a validated configuration of access_control.go lets in, and where it listens.
use mathlib.Core.Path.{subst}
use http_stack_lens.Base.{
  ◌≡◌, ◌≢◌, refl, sym, ap, ◌∙◌, ◌⊎◌, inl, inr, arith, Bool, true, false, Option, none, some, List,
  [], ◌∷◌, Bytes, equal, equal_iff, trim_space, trim_space_idem, if◌then◌else◌, ok, err, Bool-cases,
  Option-cases, false≢true,
}
use http_stack_lens.Configuration.AccessControl.{
  Netip, access_control_loopback, access_control_lan, access_control_interfaces,
  access_control_allowlist, access_control_open, AccessControlConfig, InterfaceAddr, clean_network,
  clean_networks, normalize_access_control, first_invalid, is_plain_mode, check_networks,
  check_allowlist, cleaned, validate_access_control, AccessPolicy, parse_prefixes,
  new_access_policy, any_prefix,
}

-- What package netip says of the text of PrefixFrom(addr, addr.BitLen()): it is a prefix and no
-- address, and there is no white space round it.
pub record PrefixTexts (netip : Netip) : Type 0 where
  pub no_addr : (a : netip.Addr) → netip.parse_addr (netip.whole_prefix a) ≡ none
  pub trimmed : (a : netip.Addr) → trim_space (netip.whole_prefix a) ≡ netip.whole_prefix a
  pub filled : (a : netip.Addr) → equal (netip.whole_prefix a) [] ≡ false

refused : {E A : Type 0} {e : E} {a : A} → err e ≢ ok a
refused h = cc

module _ (netip : Netip) where
  open netip use {Addr, Prefix, parse_addr, parse_prefix, is_loopback, is_private, prefix_contains}

  -- The address is inside one of the networks.
  pub data InNetworks (ip : Addr) : List Bytes → Type 0 where
    here :
        {network : Bytes} {networks : List Bytes} (prefix : Prefix)
        → parse_prefix network ≡ some prefix
        → prefix_contains prefix ip ≡ true
        → InNetworks ip (network ∷ networks)
    there :
        {network : Bytes} {networks : List Bytes}
        → InNetworks ip networks
        → InNetworks ip (network ∷ networks)

  pub any_prefix-InNetworks :
      (ip : Addr) (networks : List Bytes)
      → any_prefix netip (parse_prefixes netip networks) ip ≡ true
      → InNetworks ip networks
  unfolding any_prefix parse_prefixes
  any_prefix-InNetworks ip [] h = absurd (false≢true h)
  any_prefix-InNetworks ip (network ∷ networks) h = elim (Option-cases (parse_prefix network)) [
    | inl e ↦ there (any_prefix-InNetworks ip networks (rw (parse_prefixes, e) at h))
    | inr (prefix, e) ↦ elim (Bool-cases (prefix_contains prefix ip)) [
      | inl inside ↦ here prefix e inside
      | inr outside ↦
          there (any_prefix-InNetworks ip networks (rw outside at (rw (parse_prefixes, e) at h)))
    ]
  ]

  pub InNetworks-any_prefix :
      {ip : Addr} {networks : List Bytes}
      → InNetworks ip networks
      → any_prefix netip (parse_prefixes netip networks) ip ≡ true
  unfolding any_prefix parse_prefixes
  InNetworks-any_prefix (here prefix e inside) = rw (parse_prefixes, e, inside) refl
  InNetworks-any_prefix {ip} (there {network} {networks} later) =
      elim (Option-cases (parse_prefix network)) [
        | inl e ↦ rw (parse_prefixes, e) (InNetworks-any_prefix later)
        | inr (prefix, e) ↦
            rw (parse_prefixes, e, InNetworks-any_prefix later) (either (prefix_contains prefix ip))
      ]
    where
      either : (b : Bool) → (if b then true else true) ≡ true
      either true = refl
      either false = refl

  -- A configuration that cleaning leaves as it is, with a known mode.
  pub record IsClean (c : AccessControlConfig) : Type 0 where
    pub mode_trimmed : trim_space c.mode ≡ c.mode
    pub networks_clean : clean_networks netip c.networks ≡ c.networks
    pub known :
        (is_plain_mode netip c.mode ≡ true)
        ⊎ ((c.mode ≡ access_control_allowlist) × (c.networks ≢ []))
    pub all_valid : first_invalid netip c.networks ≡ none

  module _ (texts : PrefixTexts netip) where
    clean_network-filled :
        (v : Bytes) → equal v [] ≡ false → equal (clean_network netip v) [] ≡ false
    clean_network-filled v h = elim (Option-cases (parse_addr v)) [
      | inl e ↦ rw (clean_network, e) h
      | inr (a, e) ↦ rw (clean_network, e) (texts.filled a)
    ]

    clean_network-trimmed :
        (v : Bytes) → trim_space v ≡ v → trim_space (clean_network netip v) ≡ clean_network netip v
    clean_network-trimmed v h = elim (Option-cases (parse_addr v)) [
      | inl e ↦ rw (clean_network, e) h
      | inr (a, e) ↦ rw (clean_network, e) (texts.trimmed a)
    ]

    clean_network-none : (v : Bytes) → parse_addr v ≡ none → clean_network netip v ≡ v
    clean_network-none v e = rw (clean_network, e) refl

    clean_network-some :
        (v : Bytes) (a : Addr)
        → parse_addr v ≡ some a
        → clean_network netip v ≡ netip.whole_prefix a
    clean_network-some v a e = rw (clean_network, e) refl

    clean_network_idem :
        (v : Bytes) → clean_network netip (clean_network netip v) ≡ clean_network netip v
    clean_network_idem v = elim (Option-cases (parse_addr v)) [
      | inl e ↦ ap (clean_network netip) (clean_network-none v e)
      | inr (a, e) ↦
          ap (clean_network netip) (clean_network-some v a e)
          ∙ clean_network-none (netip.whole_prefix a) (texts.no_addr a)
          ∙ sym (clean_network-some v a e)
    ]

    clean_networks_idem :
        (vs : List Bytes) → clean_networks netip (clean_networks netip vs) ≡ clean_networks netip vs
    unfolding clean_networks
    clean_networks_idem [] = refl
    clean_networks_idem (v ∷ vs) = elim (Bool-cases (equal (trim_space v) [])) [
      | inl e ↦ rw e (clean_networks_idem vs)
      | inr e ↦
          rw
            (
              e,
              clean_network-trimmed (trim_space v) (trim_space_idem v),
              clean_network-filled (trim_space v) e,
              clean_network_idem (trim_space v),
              clean_networks_idem vs,
            )
            refl
    ]

    checked :
        (c d : AccessControlConfig)
        → check_networks netip c ≡ ok d
        → (c ≡ d) × (first_invalid netip c.networks ≡ none)
    checked c d h = ground arith

    allowlisted :
        (networks : List Bytes) (c d : AccessControlConfig)
        → check_allowlist netip networks c ≡ ok d
        → (networks ≢ []) × (check_networks netip c ≡ ok d)
    allowlisted [] c d h = absurd (refused h)
    allowlisted (_ ∷ _) c d h = (λ e. cc, h)

    cleaned-IsClean :
        (c d : AccessControlConfig)
        → (is_plain_mode netip (cleaned netip c).mode ≡ true)
          ⊎ (((cleaned netip c).mode ≡ access_control_allowlist)
              × ((cleaned netip c).networks ≢ []))
        → check_networks netip (cleaned netip c) ≡ ok d
        → IsClean d
    cleaned-IsClean c d known h =
        let (same, valid) = checked (cleaned netip c) d h in
        subst IsClean same (record {
          mode_trimmed = trim_space_idem c.mode;
          networks_clean = clean_networks_idem c.networks;
          known = known;
          all_valid = valid;
        })

    -- What validation accepts.
    pub validate_access_control-IsClean :
        (c d : AccessControlConfig) → validate_access_control netip c ≡ ok d → IsClean d
    unfolding validate_access_control
    validate_access_control-IsClean c d h =
        elim (Bool-cases (is_plain_mode netip (cleaned netip c).mode)) [
          | inl plain ↦ cleaned-IsClean c d (inl plain) (rw plain at h)
          | inr other ↦ elim (Bool-cases (equal (cleaned netip c).mode access_control_allowlist)) [
            | inl allow ↦
                let (filled, rest) =
                  allowlisted (cleaned netip c).networks (cleaned netip c) d
                    (rw allow at (rw other at h)) in
                cleaned-IsClean c d
                  (inr
                    ((equal_iff (cleaned netip c).mode access_control_allowlist).0 allow, filled))
                  rest
            | inr bad ↦ absurd (refused (rw bad at (rw other at h)))
          ]
        ]

  -- The policy of a configuration that is clean.
  abbrev pub policy_of : Option (List InterfaceAddr) → AccessControlConfig → AccessPolicy netip
  policy_of ifs c = record {
    mode = c.mode;
    prefixes = parse_prefixes netip c.networks;
    interface_addrs = some ifs;
  }

  clean-filled : (c : AccessControlConfig) → IsClean c → equal c.mode [] ≡ false
  unfolding equal
  clean-filled c k = elim k.known [
    | inl plain ↦ ground (
      arith,
      equal_iff c.mode access_control_loopback,
      equal_iff c.mode access_control_lan,
      equal_iff c.mode access_control_interfaces,
      equal_iff c.mode access_control_open,
    )
    | inr (e, _) ↦ rw e refl
  ]

  allowlist-filled :
      (networks : List Bytes) (c : AccessControlConfig)
      → networks ≢ []
      → check_allowlist netip networks c ≡ check_networks netip c
  allowlist-filled [] c ne = absurd (ne refl)
  allowlist-filled (_ ∷ _) c ne = refl

  check-IsClean : (c : AccessControlConfig) → IsClean c → check_networks netip c ≡ ok c
  check-IsClean c k = rw (check_networks, k.all_valid) refl

  allowlist-IsClean :
      (c : AccessControlConfig)
      → IsClean c
      → c.mode ≡ access_control_allowlist
      → c.networks ≢ []
      → validate_access_control netip c ≡ ok c
  unfolding validate_access_control
  allowlist-IsClean c k mode ne =
      rw (k.mode_trimmed, k.networks_clean)
        (ground (
          arith,
          allowlist-filled c.networks c ne,
          check-IsClean c k,
          equal_iff c.mode access_control_allowlist,
        ))

  -- What is clean passes validation unchanged.
  pub IsClean-validate_access_control :
      (c : AccessControlConfig) → IsClean c → validate_access_control netip c ≡ ok c
  unfolding validate_access_control
  IsClean-validate_access_control c k = elim k.known [
    | inl plain ↦ rw (k.mode_trimmed, k.networks_clean, plain) (check-IsClean c k)
    | inr (mode, ne) ↦ allowlist-IsClean c k mode ne
  ]

  pub normalize-IsClean :
      (c : AccessControlConfig) → IsClean c → normalize_access_control netip c false ≡ c
  unfolding normalize_access_control
  normalize-IsClean c k = rw (k.mode_trimmed, clean-filled c k, k.networks_clean) refl

  pub new_access_policy-IsClean :
      (ifs : Option (List InterfaceAddr)) (c : AccessControlConfig)
      → IsClean c
      → new_access_policy netip ifs c ≡ policy_of ifs c
  unfolding new_access_policy
  new_access_policy-IsClean ifs c k = ap (policy_of ifs) (normalize-IsClean c k)
