-- ===== src/Runtime/DecryptHttps.antt =====
-- decrypt_https_runtime.go: the switch between the forwarding pipeline and the HTTPS interceptor.
-- SwitchableMiddleware of proxy/middlewares/switchable_middleware.go is the pair that it holds.
pub mod Wiring
use http_stack_lens.Base.{
  Bool, true, false, not, Option, none, some, Bytes, if◌then◌else◌, Result, ok, err, Call,
}
use http_stack_lens.Configuration.CaptureRules.{Float, DecryptHttpsConfig, update_enabled}
use http_stack_lens.Runtime.Machine.{Machine, Middleware, https_interceptor}

-- Go's `==` on bool.
abbrev pub same_flag : Bool → Bool → Bool
same_flag true b = b
same_flag false b = not b

module _ {float : Float} (machine : Machine float) where
  open machine use {World, Failure, Certificates, root_certificates, persist_decrypt_https_enabled}

  -- switchableTarget
  pub record SwitchableTarget : Type 0 where
    pub middleware : Middleware machine
    pub decrypt_https : Bool

  -- `settings` is the DecryptHttpsConfigStore; what the interceptor shares with the process, its
  -- writer, events, store and controller, is fixed.
  pub record DecryptHttpsRuntime : Type 0 where
    pub base : Middleware machine
    pub active : SwitchableTarget
    pub settings : DecryptHttpsConfig float

  -- `a.SetDecrypting(next, decrypting)`
  abbrev pub set_decrypting : Middleware machine → Bool → DecryptHttpsRuntime → DecryptHttpsRuntime
  set_decrypting next decrypting r = record r {
    active = record { middleware = next; decrypt_https = decrypting };
  }

  abbrev pub intercepting :
      Middleware machine
      → Result Failure Certificates × World
      → Result Failure (Middleware machine) × World
  intercepting base (err e, w) = (err e, w)
  intercepting base (ok c, w) = (ok (https_interceptor c base), w)

  -- Over the world alone: newInterceptor reads the runtime and changes nothing of it.
  unfoldable pub new_interceptor : Middleware machine → Call World Failure (Middleware machine)
  new_interceptor base w = intercepting base (root_certificates w)

  -- Set the interceptor when there is one, and otherwise leave `otherwise` behind.
  abbrev pub switch_on :
      DecryptHttpsRuntime
      → DecryptHttpsRuntime
      → Result Failure (Middleware machine) × World
      → Result Failure (Unit {0}) × (DecryptHttpsRuntime × World)
  switch_on otherwise r (err e, w) = (err e, (otherwise, w))
  switch_on otherwise r (ok interceptor, w) = (ok tt, (set_decrypting interceptor true r, w))

  unfoldable pub apply_initial : Call (DecryptHttpsRuntime × World) Failure (Unit {0})
  apply_initial (r, w) =
      if not r.settings.enabled
      then (ok tt, (set_decrypting r.base false r, w))
      else switch_on r r (new_interceptor r.base w)

  abbrev pub switched :
      Bool
      → Middleware machine
      → DecryptHttpsRuntime
      → Result Failure (Unit {0}) × World
      → Result Failure (DecryptHttpsConfig float) × (DecryptHttpsRuntime × World)
  switched enabled next r (err e, w) = (err e, (r, w))
  switched enabled next r (ok _, w) =
      let updated = update_enabled float enabled r.settings in
      (ok updated, (set_decrypting next enabled (record r { settings = updated }), w))

  abbrev pub persist_next :
      Bool
      → DecryptHttpsRuntime
      → Result Failure (Middleware machine) × World
      → Result Failure (DecryptHttpsConfig float) × (DecryptHttpsRuntime × World)
  persist_next enabled r (err e, w) = (err e, (r, w))
  persist_next enabled r (ok next, w) =
      switched enabled next r (persist_decrypt_https_enabled enabled w)

  -- With an error the settings of before are returned too; they are those of the runtime.
  unfoldable pub set_enabled :
      Bool → Call (DecryptHttpsRuntime × World) Failure (DecryptHttpsConfig float)
  set_enabled enabled (r, w) =
      if same_flag r.settings.enabled enabled
      then (ok r.settings, (r, w))
      else persist_next enabled r (if enabled then new_interceptor r.base w else (ok r.base, w))

  -- A failure puts the old base back.
  unfoldable pub replace_base :
      Middleware machine → Call (DecryptHttpsRuntime × World) Failure (Unit {0})
  replace_base base (r, w) =
      let replaced : DecryptHttpsRuntime = record r { base = base } in
      if not r.settings.enabled
      then (ok tt, (set_decrypting base false replaced, w))
      else switch_on r replaced (new_interceptor base w)
