-- ===== src/Proxy/NoProxy/Rules.antt =====
-- Which hosts a no_proxy list names.
use http_stack_lens.Base.{
  ℕ, ◌≡◌, ◌≢◌, refl, sym, ◌∙◌, ◌⊎◌, inl, inr, ◌↔◌, arith, true, false, ◌||◌, none, some, List, [],
  ◌∷◌, ◌++◌, append_assoc, Bytes, codes, equal, equal_iff, has_suffix, has_suffix_sound,
  has_suffix-append, has_prefix, contains, if◌then◌else◌, ◌==◌, Bool-cases, Option-cases,
  false≢true,
}
use http_stack_lens.Proxy.NoProxy.{
  Net, normal_host, normal_rule, rule_matches, any_matches, matches_no_proxy, name_matches,
  addressed, in_network,
}

-- `host` is `domain`, or a name below it.
pub data IsWithin (host domain : Bytes) : Type 0 where
  same : host ≡ domain → IsWithin host domain
  below : (front : Bytes) → host ≡ front ++ b'.' ∷ domain → IsWithin host domain

dot_sound :
    (c : ℕ) (host rule : Bytes)
    → (c == b'.') ≡ true
    → (if c == b'.'
        then equal host rule || has_suffix host (c ∷ rule)
        else equal host (c ∷ rule) || has_suffix host (b'.' ∷ c ∷ rule))
      ≡ true
    → (equal host rule || has_suffix host (b'.' ∷ rule)) ≡ true
dot_sound c host rule dot h = ground arith

module _ (net : Net) where
  -- A rule is compared as a name, unless it looks like a network and the host is an address.
  abbrev pub ByName : Bytes → Bytes → Type 0
  ByName host rule = (net.parse_ip host ≡ none) ⊎ (contains rule (codes "/") ≡ false)

  -- The documented meaning of a rule, in normal form, for a host in normal form.
  pub data Names (host rule : Bytes) : Type 0 where
    every : rule ≡ codes "*" → Names host rule
    cidr :
        (ip : net.Ip) (network : net.Network)
        → net.parse_ip host ≡ some ip
        → contains rule (codes "/") ≡ true
        → net.parse_cidr rule ≡ some network
        → net.network_contains network ip ≡ true
        → Names host rule
    suffix :
        (domain : Bytes)
        → ByName host rule
        → rule ≡ b'.' ∷ domain
        → IsWithin host domain
        → Names host rule
    plain : ByName host rule → rule ≢ [] → IsWithin host rule → Names host rule

  IsWithin-sound :
      (host domain : Bytes)
      → (equal host domain || has_suffix host (b'.' ∷ domain)) ≡ true
      → IsWithin host domain
  IsWithin-sound host domain h = elim (Bool-cases (equal host domain)) [
    | inl e ↦ same ((equal_iff host domain).0 e)
    | inr e ↦
        let (front, split) = has_suffix_sound host (b'.' ∷ domain) (ground arith) in
        below front split
  ]

  IsWithin-complete :
      {host domain : Bytes}
      → IsWithin host domain
      → (equal host domain || has_suffix host (b'.' ∷ domain)) ≡ true
  IsWithin-complete {host} {domain} (same e) = ground (arith, equal_iff host domain)
  IsWithin-complete {host} {domain} (below front e) =
      ground (arith, has_suffix-append front (b'.' ∷ domain))

  name_matches_sound :
      (host rule : Bytes) → ByName host rule → name_matches net host rule ≡ true → Names host rule
  name_matches_sound host [] by h = absurd (false≢true h)
  name_matches_sound host (c ∷ rule) by h = elim (Bool-cases (c == b'.')) [
    | inl dot ↦
        suffix rule by (ground arith) (IsWithin-sound host rule (dot_sound c host rule dot h))
    | inr other ↦ plain by (λ e. cc) (IsWithin-sound host (c ∷ rule) (rw other at h))
  ]

  name_matches_suffix :
      (host rule domain : Bytes)
      → rule ≡ b'.' ∷ domain
      → IsWithin host domain
      → name_matches net host rule ≡ true
  name_matches_suffix host [] domain e w = cc
  name_matches_suffix host (c ∷ rule) domain e w = ground (arith, IsWithin-complete w)

  name_matches_plain :
      (host rule : Bytes) → rule ≢ [] → IsWithin host rule → name_matches net host rule ≡ true
  name_matches_plain host [] ne w = absurd (ne refl)
  name_matches_plain host (c ∷ rule) ne (same e) =
      ground (arith, has_suffix-append [] (c ∷ rule), equal_iff host (c ∷ rule))
  name_matches_plain host (c ∷ rule) ne (below front e) = ground (
    arith,
    has_suffix-append front (b'.' ∷ c ∷ rule),
    has_suffix-append (front ++ b'.' ∷ []) (c ∷ rule),
    append_assoc front (b'.' ∷ []) (c ∷ rule),
  )

  network_sound :
      (host rule : Bytes) (ip : net.Ip)
      → net.parse_ip host ≡ some ip
      → contains rule (codes "/") ≡ true
      → in_network net (net.parse_cidr rule) ip ≡ true
      → Names host rule
  network_sound host rule ip e slash h = elim (Option-cases (net.parse_cidr rule)) [
    | inl bad ↦ absurd (false≢true (rw bad at h))
    | inr (network, good) ↦ cidr ip network e slash good (rw good at h)
  ]

  addressed_sound :
      (host rule : Bytes) → addressed net (net.parse_ip host) host rule ≡ true → Names host rule
  addressed_sound host rule h = elim (Option-cases (net.parse_ip host)) [
    | inl e ↦ name_matches_sound host rule (inl e) (rw e at h)
    | inr (ip, e) ↦ elim (Bool-cases (contains rule (codes "/"))) [
      | inl slash ↦ network_sound host rule ip e slash (rw slash at (rw e at h))
      | inr none_there ↦
          name_matches_sound host rule (inr none_there) (rw none_there at (rw e at h))
    ]
  ]

  rule_matches_sound :
      (host rule : Bytes) → rule_matches net (net.parse_ip host) host rule ≡ true → Names host rule
  unfolding rule_matches
  rule_matches_sound host rule h = elim (Bool-cases (equal rule [])) [
    | inl empty ↦ absurd (false≢true (rw empty at h))
    | inr filled ↦ elim (Bool-cases (equal rule (codes "*"))) [
      | inl star ↦ every ((equal_iff rule (codes "*")).0 star)
      | inr other ↦ addressed_sound host rule (rw other at (rw filled at h))
    ]
  ]

  nonempty : (rule : Bytes) → rule ≢ [] → equal rule [] ≡ false
  unfolding equal
  nonempty [] ne = absurd (ne refl)
  nonempty (c ∷ rule) ne = refl

  ByName-addressed :
      (host rule : Bytes)
      → ByName host rule
      → name_matches net host rule ≡ true
      → addressed net (net.parse_ip host) host rule ≡ true
  ByName-addressed host rule (inl e) h = rw e h
  ByName-addressed host rule (inr e) h = elim (Option-cases (net.parse_ip host)) [
    | inl none_there ↦ rw none_there h
    | inr (ip, found) ↦ rw (found, e) h
  ]

  ByName-complete :
      (host rule : Bytes)
      → ByName host rule
      → rule ≢ []
      → name_matches net host rule ≡ true
      → rule_matches net (net.parse_ip host) host rule ≡ true
  unfolding rule_matches
  ByName-complete host rule by ne h = elim (Bool-cases (equal rule (codes "*"))) [
    | inl star ↦ rw (nonempty rule ne, star) refl
    | inr other ↦ rw (nonempty rule ne, other) (ByName-addressed host rule by h)
  ]

  slashed : (rule : Bytes) → contains rule (codes "/") ≡ true → equal rule [] ≡ false
  unfolding contains has_prefix equal
  slashed [] h = absurd (false≢true h)
  slashed (c ∷ rule) h = refl

  cons_nil : {c : ℕ} {s : Bytes} → (c ∷ s) ≢ []
  cons_nil e = cc

  rule_matches_complete :
      (host rule : Bytes) → Names host rule → rule_matches net (net.parse_ip host) host rule ≡ true
  unfolding rule_matches
  rule_matches_complete host rule (every e) =
      ground (arith, equal_iff rule [], equal_iff rule (codes "*"))
  rule_matches_complete host rule (cidr ip network e slash good inside) =
      elim (Bool-cases (equal rule (codes "*"))) [
        | inl star ↦ rw (slashed rule slash, star) refl
        | inr other ↦ rw (slashed rule slash, other, e, slash, good) inside
      ]
  rule_matches_complete host rule (suffix domain by e w) =
      ByName-complete host rule by (λ none_there. cons_nil (sym e ∙ none_there))
        (name_matches_suffix host rule domain e w)
  rule_matches_complete host rule (plain by ne w) =
      ByName-complete host rule by ne (name_matches_plain host rule ne w)

  -- One of the rules names the host.
  pub data NamesAny (host : Bytes) : List Bytes → Type 0 where
    here :
        {rule : Bytes} {rules : List Bytes}
        → Names host (normal_rule rule)
        → NamesAny host (rule ∷ rules)
    there : {rule : Bytes} {rules : List Bytes} → NamesAny host rules → NamesAny host (rule ∷ rules)

  any_matches_sound :
      (host : Bytes) (rules : List Bytes)
      → any_matches net (net.parse_ip host) host rules ≡ true
      → NamesAny host rules
  unfolding any_matches
  any_matches_sound host [] h = absurd (false≢true h)
  any_matches_sound host (rule ∷ rules) h =
      elim (Bool-cases (rule_matches net (net.parse_ip host) host (normal_rule rule))) [
        | inl named ↦ here (rule_matches_sound host (normal_rule rule) named)
        | inr unnamed ↦ there (any_matches_sound host rules (rw unnamed at h))
      ]

  any_matches_complete :
      {host : Bytes} {rules : List Bytes}
      → NamesAny host rules
      → any_matches net (net.parse_ip host) host rules ≡ true
  unfolding any_matches
  any_matches_complete {host} (here {rule} named) =
      rw (rule_matches_complete host (normal_rule rule) named) refl
  any_matches_complete {host} (there {rule} {rules} later) =
      elim (Bool-cases (rule_matches net (net.parse_ip host) host (normal_rule rule))) [
        | inl named ↦ rw named refl
        | inr unnamed ↦ rw unnamed (any_matches_complete later)
      ]

  -- A host bypasses the upstream proxy exactly when something is left of it in normal form and one
  -- of the rules, in normal form, names it: as every host, as an address inside the rule's network,
  -- or as the rule's domain or a name below that.
  pub matches_no_proxy-NamesAny :
      (host : Bytes) (rules : List Bytes)
      → (matches_no_proxy net host rules ≡ true)
        ↔ ((normal_host host ≢ []) × NamesAny (normal_host host) rules)
  unfolding matches_no_proxy
  matches_no_proxy-NamesAny host rules = (
    λ h. elim (Bool-cases (equal (normal_host host) [])) [
      | inl empty ↦ absurd (false≢true (rw empty at h))
      | inr filled ↦ (
        λ e. false≢true (sym filled ∙ (equal_iff (normal_host host) []).1 e),
        any_matches_sound (normal_host host) rules (rw filled at h),
      )
    ],
    λ both. rw (nonempty (normal_host host) both.0) (any_matches_complete both.1),
  )
