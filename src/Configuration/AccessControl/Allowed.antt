-- ===== src/Configuration/AccessControl/Allowed.antt =====
-- The addresses that access_control.go lets in, told apart from how it tests them.
use http_stack_lens.Base.{
  ◌≡◌, refl, inl, inr, ◌↔◌, arith, Bool, true, false, ◌||◌, Option, some, List, [], ◌∷◌, codes,
  equal, equal_iff, if◌then◌else◌, ok, Bool-cases, Option-cases, false≢true,
}
use http_stack_lens.Configuration.AccessControl.{
  Netip, access_control_lan, access_control_interfaces, access_control_allowlist,
  access_control_open, AccessControlConfig, InterfaceAddr, normalize_access_control,
  validate_access_control, new_access_policy, access_interface_prefix, any_interface,
  allows_interface_ip, any_prefix, plain_ip, allows_ip, listen_host,
}
use http_stack_lens.Configuration.AccessControl.Policy.{
  PrefixTexts, InNetworks, any_prefix-InNetworks, InNetworks-any_prefix, IsClean,
  validate_access_control-IsClean, IsClean-validate_access_control, policy_of, normalize-IsClean,
  new_access_policy-IsClean,
}

or_true : (b : Bool) → (b || true) ≡ true
or_true true = refl
or_true false = refl

either : (b : Bool) → (if b then true else true) ≡ true
either true = refl
either false = refl

module _ (netip : Netip) where
  open netip use {
    Addr, Prefix, is_loopback, is_private, is_valid, is_unspecified, is_multicast, without_zone,
    prefix_contains,
  }

  -- The address is in the network of one of the interfaces.
  pub data InInterfaces (ip : Addr) : List InterfaceAddr → Type 0 where
    here :
        {addr : InterfaceAddr} {addrs : List InterfaceAddr} (prefix : Prefix)
        → access_interface_prefix netip addr ≡ some prefix
        → prefix_contains prefix ip ≡ true
        → InInterfaces ip (addr ∷ addrs)
    there :
        {addr : InterfaceAddr} {addrs : List InterfaceAddr}
        → InInterfaces ip addrs
        → InInterfaces ip (addr ∷ addrs)

  any_interface-InInterfaces :
      (ip : Addr) (addrs : List InterfaceAddr)
      → any_interface netip addrs ip ≡ true
      → InInterfaces ip addrs
  unfolding any_interface
  any_interface-InInterfaces ip [] h = absurd (false≢true h)
  any_interface-InInterfaces ip (addr ∷ addrs) h =
      elim (Option-cases (access_interface_prefix netip addr)) [
        | inl e ↦ there (any_interface-InInterfaces ip addrs (rw (any_interface, e) at h))
        | inr (prefix, e) ↦ elim (Bool-cases (prefix_contains prefix ip)) [
          | inl inside ↦ here prefix e inside
          | inr outside ↦
              there
                (any_interface-InInterfaces ip addrs (rw outside at (rw (any_interface, e) at h)))
        ]
      ]

  InInterfaces-any_interface :
      {ip : Addr} {addrs : List InterfaceAddr}
      → InInterfaces ip addrs
      → any_interface netip addrs ip ≡ true
  unfolding any_interface
  InInterfaces-any_interface (here prefix e inside) = rw (any_interface, e, inside) refl
  InInterfaces-any_interface {ip} (there {addr} {addrs} later) =
      let below = InInterfaces-any_interface later in ground arith

  -- The conditions on an address of a foreign host for the mode "interfaces".
  pub record OnInterface (ifs : Option (List InterfaceAddr)) (ip : Addr) : Type 0 where
    pub valid : is_valid ip ≡ true
    pub specified : is_unspecified ip ≡ false
    pub unicast : is_multicast ip ≡ false
    pub addrs : List InterfaceAddr
    pub known : ifs ≡ some addrs
    pub inside : InInterfaces (without_zone ip) addrs

  -- Who is let in by a configuration; `ip` has no IPv4 address wrapped in it.
  pub data Allowed (ifs : Option (List InterfaceAddr)) (c : AccessControlConfig) (ip : Addr)
      : Type 0 where
    local : is_loopback ip ≡ true → Allowed ifs c ip
    anyone : c.mode ≡ access_control_open → Allowed ifs c ip
    private_lan : c.mode ≡ access_control_lan → is_private ip ≡ true → Allowed ifs c ip
    on_interface : c.mode ≡ access_control_interfaces → OnInterface ifs ip → Allowed ifs c ip
    listed : c.mode ≡ access_control_allowlist → InNetworks netip ip c.networks → Allowed ifs c ip

  module _ (ifs : Option (List InterfaceAddr)) (c : AccessControlConfig) (ip : Addr) where
    allows_interface_ip-OnInterface :
        allows_interface_ip netip (policy_of netip ifs c) ip ≡ true → OnInterface ifs ip
    unfolding allows_interface_ip
    allows_interface_ip-OnInterface h = elim (Option-cases ifs) [
      | inl e ↦ absurd (false≢true (ground arith))
      | inr (addrs, e) ↦ record {
        valid = ground arith;
        specified = ground arith;
        unicast = ground arith;
        addrs = addrs;
        known = e;
        inside = any_interface-InInterfaces (without_zone ip) addrs (ground arith);
      }
    ]

    OnInterface-allows_interface_ip :
        OnInterface ifs ip → allows_interface_ip netip (policy_of netip ifs c) ip ≡ true
    unfolding allows_interface_ip
    OnInterface-allows_interface_ip o =
        rw (o.valid, o.specified, o.unicast, o.known) (InInterfaces-any_interface o.inside)

  module _ (ifs : Option (List InterfaceAddr)) (c : AccessControlConfig) (address : Addr) where
    abbrev ip : Addr
    ip = plain_ip netip address

    allowlist-Allowed :
        c.mode ≡ access_control_allowlist
        → (if is_loopback ip then true else any_prefix netip (policy_of netip ifs c).prefixes ip)
          ≡ true
        → Allowed ifs c ip
    allowlist-Allowed mode h = elim (Bool-cases (is_loopback ip)) [
      | inl near ↦ local near
      | inr away ↦ listed mode (any_prefix-InNetworks netip ip c.networks (rw away at h))
    ]

    interfaces-Allowed :
        c.mode ≡ access_control_interfaces
        → (is_loopback ip || allows_interface_ip netip (policy_of netip ifs c) ip) ≡ true
        → Allowed ifs c ip
    interfaces-Allowed mode h = elim (Bool-cases (is_loopback ip)) [
      | inl near ↦ local near
      | inr away ↦ on_interface mode (allows_interface_ip-OnInterface ifs c ip (rw away at h))
    ]

    lan-Allowed :
        c.mode ≡ access_control_lan → (is_loopback ip || is_private ip) ≡ true → Allowed ifs c ip
    lan-Allowed mode h = elim (Bool-cases (is_loopback ip)) [
      | inl near ↦ local near
      | inr away ↦ private_lan mode (rw away at h)
    ]

    allows_ip-Allowed : allows_ip netip (policy_of netip ifs c) address ≡ true → Allowed ifs c ip
    unfolding allows_ip
    allows_ip-Allowed h = elim (Bool-cases (equal c.mode access_control_open)) [
      | inl e ↦ anyone ((equal_iff c.mode _).0 e)
      | inr not_open ↦ elim (Bool-cases (equal c.mode access_control_lan)) [
        | inl e ↦ lan-Allowed ((equal_iff c.mode _).0 e) (rw (e) at (rw not_open at h))
        | inr not_lan ↦ elim (Bool-cases (equal c.mode access_control_interfaces)) [
          | inl e ↦
              interfaces-Allowed ((equal_iff c.mode _).0 e)
                (rw e at (rw not_lan at (rw not_open at h)))
          | inr not_ifs ↦ elim (Bool-cases (equal c.mode access_control_allowlist)) [
            | inl e ↦
                allowlist-Allowed ((equal_iff c.mode _).0 e)
                  (rw e at (rw not_ifs at (rw not_lan at (rw not_open at h))))
            | inr not_list ↦ local (ground arith)
          ]
        ]
      ]
    ]

    local-allows_ip :
        IsClean netip c
        → is_loopback ip ≡ true
        → allows_ip netip (policy_of netip ifs c) address ≡ true
    unfolding allows_ip
    local-allows_ip k near = elim k.known [
      | inl plain ↦ ground arith
      | inr (mode, _) ↦ ground (arith, equal_iff c.mode access_control_allowlist)
    ]

    Allowed-allows_ip :
        IsClean netip c → Allowed ifs c ip → allows_ip netip (policy_of netip ifs c) address ≡ true
    unfolding allows_ip equal plain_ip allows_interface_ip
    Allowed-allows_ip k (local near) = local-allows_ip k near
    Allowed-allows_ip k (anyone mode) = rw mode refl
    Allowed-allows_ip k (private_lan mode inside) = rw (mode, inside) (or_true (is_loopback ip))
    Allowed-allows_ip k (on_interface mode inside) =
        rw (mode, OnInterface-allows_interface_ip ifs c ip inside) (or_true (is_loopback ip))
    Allowed-allows_ip k (listed mode inside) =
        rw (mode, InNetworks-any_prefix netip inside) (either (is_loopback ip))

  module _ (texts : PrefixTexts netip) where
    -- A configuration that was validated lets an address in exactly when it is a loopback address,
    -- or the mode is open, or it is a private address in the mode lan, an address of one of the
    -- networks of this machine in the mode interfaces, or an address of one of the listed networks in
    -- the mode allowlist. An IPv4 address inside an IPv6 one counts as itself.
    -- Package netip prints a prefix as PrefixTexts says.
    pub allows_ip-Allowed_iff :
        (ifs : Option (List InterfaceAddr)) (given c : AccessControlConfig) (address : Addr)
        → validate_access_control netip given ≡ ok c
        → (allows_ip netip (new_access_policy netip ifs c) address ≡ true)
          ↔ Allowed ifs c (plain_ip netip address)
    allows_ip-Allowed_iff ifs given c address accepted =
        let k = validate_access_control-IsClean netip texts given c accepted in
        rw (new_access_policy-IsClean netip ifs c k)
          (allows_ip-Allowed ifs c address, Allowed-allows_ip ifs c address k)

    -- Validating a configuration that was validated changes nothing, and neither does the
    -- normalization on its way to a policy. Package netip prints a prefix as PrefixTexts says.
    pub validate_access_control_idem :
        (given c : AccessControlConfig)
        → validate_access_control netip given ≡ ok c
        → (validate_access_control netip c ≡ ok c) × (normalize_access_control netip c false ≡ c)
    validate_access_control_idem given c accepted =
        let k = validate_access_control-IsClean netip texts given c accepted in
        (IsClean-validate_access_control netip c k, normalize-IsClean netip c k)

  -- A policy that lets in any address but a loopback address is one whose listener is open to all
  -- interfaces; a listener on 127.0.0.1 has a policy for loopback addresses alone.
  pub allows_ip-listen_host :
      (ifs : Option (List InterfaceAddr)) (c : AccessControlConfig) (address : Addr)
      → allows_ip netip (new_access_policy netip ifs c) address ≡ true
      → is_loopback (plain_ip netip address) ≡ false
      → listen_host netip c ≡ codes "0.0.0.0"
  unfolding allows_ip listen_host new_access_policy
  allows_ip-listen_host ifs c address h away = ground arith
