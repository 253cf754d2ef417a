-- ===== src/Runtime/DecryptHttps/Wiring.antt =====
-- The pipeline that is active is the one that the settings ask for.
use http_stack_lens.Base.{◌≡◌, refl, ap, inl, inr, Bool, true, false, Result, ok, err, Bool-cases}
use http_stack_lens.Configuration.CaptureRules.{Float, DecryptHttpsConfig, update_enabled}
use http_stack_lens.Runtime.DecryptHttps.{
  DecryptHttpsRuntime, intercepting, new_interceptor, switch_on, apply_initial, switched,
  persist_next, set_enabled, replace_base,
}
use http_stack_lens.Runtime.Machine.{Machine, Middleware, https_interceptor}

module _ {float : Float} (machine : Machine float) where
  open machine use {World, Failure, Certificates}

  -- New requests go to the base, or to an interceptor in front of the base, as the settings say.
  pub data IsWired (r : DecryptHttpsRuntime machine) : Type 0 where
    plain :
        r.settings.enabled ≡ false
        → r.active ≡ record { middleware = r.base; decrypt_https = false }
        → IsWired r
    intercepted :
        (c : Certificates)
        → r.settings.enabled ≡ true
        → r.active ≡ record { middleware = https_interceptor c r.base; decrypt_https = true }
        → IsWired r

  -- A call gave a value and the state is good, or it gave an error and the state is as before.
  pub data Settled {A : Type 0} (before after : DecryptHttpsRuntime machine)
      (result : Result Failure A) (Good : A → Type 0) : Type 0 where
    succeeded : (a : A) → result ≡ ok a → Good a → Settled before after result Good
    failed : (e : Failure) → result ≡ err e → after ≡ before → Settled before after result Good

  abbrev pub Switched :
      DecryptHttpsRuntime machine
      → Bool
      → DecryptHttpsRuntime machine
      → DecryptHttpsConfig float
      → Type 0
  Switched before enabled after config =
      IsWired after
      × (config ≡ after.settings)
      × (after.settings ≡ update_enabled float enabled before.settings)
      × (after.base ≡ before.base)

  abbrev Switching :
      DecryptHttpsRuntime machine
      → Bool
      → Result Failure (DecryptHttpsConfig float) × (DecryptHttpsRuntime machine × World)
      → Type 0
  Switching r enabled out = Settled r out.1.0 out.0 (Switched r enabled out.1.0)

  switched-plain :
      (r : DecryptHttpsRuntime machine) (persisted : Result Failure (Unit {0}) × World)
      → Switching r false (switched machine false r.base r persisted)
  unfolding update_enabled
  switched-plain r (err e, w) = failed e refl refl
  switched-plain r (ok _, w) = succeeded _ refl (plain refl refl, refl, refl, refl)

  switched-intercepted :
      (r : DecryptHttpsRuntime machine) (c : Certificates)
      (persisted : Result Failure (Unit {0}) × World)
      → Switching r true (switched machine true (https_interceptor c r.base) r persisted)
  unfolding update_enabled
  switched-intercepted r c (err e, w) = failed e refl refl
  switched-intercepted r c (ok _, w) = succeeded _ refl (intercepted c refl refl, refl, refl, refl)

  enabling :
      (r : DecryptHttpsRuntime machine) (certificates : Result Failure Certificates × World)
      → Switching r true (persist_next machine true r (intercepting machine r.base certificates))
  enabling r (err e, w) = failed e refl refl
  enabling r (ok c, w) = switched-intercepted r c (machine.persist_decrypt_https_enabled true w)

  unchanged :
      (r : DecryptHttpsRuntime machine) (enabled : Bool) (w : World)
      → IsWired r
      → r.settings.enabled ≡ enabled
      → Switching r enabled (ok r.settings, (r, w))
  unfolding update_enabled
  unchanged r enabled w k e =
      succeeded r.settings refl (k, refl, ap (λ b. record r.settings { enabled = b }) e, refl)

  -- Switching decryption on or off gives the settings that hold afterwards: those of before with the
  -- flag as asked, in front of the same base. Where certificates or the configuration file fail,
  -- the error comes out and nothing has changed. The pipeline is wired as the settings say before.
  pub set_enabled-Settled :
      (enabled : Bool) (r : DecryptHttpsRuntime machine) (w : World)
      → IsWired r
      → (let (result, (r', w')) = set_enabled machine enabled (r, w) in
          Settled r r' result (Switched r enabled r'))
  unfolding set_enabled new_interceptor
  set_enabled-Settled true r w k = elim (Bool-cases r.settings.enabled) [
    | inl on ↦ simp on (unchanged r true w k on)
    | inr off ↦ simp off (enabling r (machine.root_certificates w))
  ]
  set_enabled-Settled false r w k = elim (Bool-cases r.settings.enabled) [
    | inl on ↦ simp on (switched-plain r (machine.persist_decrypt_https_enabled false w))
    | inr off ↦ simp off (unchanged r false w k off)
  ]

  abbrev pub Replaced :
      DecryptHttpsRuntime machine
      → Middleware machine
      → DecryptHttpsRuntime machine
      → Unit {0}
      → Type 0
  Replaced before base after _ =
      IsWired after × (after.settings ≡ before.settings) × (after.base ≡ base)

  replacing :
      (r : DecryptHttpsRuntime machine) (base : Middleware machine)
      (certificates : Result Failure Certificates × World)
      → r.settings.enabled ≡ true
      → (let (result, (r', w')) =
            switch_on machine r
              (record r { base = base })
              (intercepting machine base certificates) in
          Settled r r' result (Replaced r base r'))
  replacing r base (err e, w) on = failed e refl refl
  replacing r base (ok c, w) on = succeeded tt refl (intercepted c on refl, refl, refl)

  -- A new base is in force at once, with decryption on or off as before; where there are no
  -- certificates for a new interceptor, the old base is in force still.
  pub replace_base-Settled :
      (base : Middleware machine) (r : DecryptHttpsRuntime machine) (w : World)
      → (let (result, (r', w')) = replace_base machine base (r, w) in
          Settled r r' result (Replaced r base r'))
  unfolding replace_base new_interceptor
  replace_base-Settled base r w = elim (Bool-cases r.settings.enabled) [
    | inl on ↦ simp on (replacing r base (machine.root_certificates w) on)
    | inr off ↦ simp off (succeeded tt refl (plain off refl, refl, refl))
  ]

  initially :
      (r : DecryptHttpsRuntime machine) (certificates : Result Failure Certificates × World)
      → r.settings.enabled ≡ true
      → (let (result, (r', w')) =
            switch_on machine r r (intercepting machine r.base certificates) in
          Settled r r' result (Replaced r r.base r'))
  initially r (err e, w) on = failed e refl refl
  initially r (ok c, w) on = succeeded tt refl (intercepted c on refl, refl, refl)

  -- At the start, the pipeline is wired as the configuration says or the start fails.
  pub apply_initial-Settled :
      (r : DecryptHttpsRuntime machine) (w : World)
      → (let (result, (r', w')) = apply_initial machine (r, w) in
          Settled r r' result (Replaced r r.base r'))
  unfolding apply_initial new_interceptor
  apply_initial-Settled r w = elim (Bool-cases r.settings.enabled) [
    | inl on ↦ simp on (initially r (machine.root_certificates w) on)
    | inr off ↦ simp off (succeeded tt refl (plain off refl, refl, refl))
  ]
