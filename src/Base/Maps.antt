-- ===== src/Base/Maps.antt =====
-- Go maps with string keys, as association lists. A new key goes to the end; nothing here depends
-- on the order but what is proved of it.
use mathlib.Core.Path.{◌≡◌, refl, ap}
use mathlib.Core.Bool.{Bool, false, ◌||◌}
use mathlib.Core.Option.{Option, none, some}
use mathlib.Core.List.{List, [], ◌∷◌, ◌++◌}
use native.Mathlib.Omega.{arith}
use http_stack_lens.Base.Tests.{if◌then◌else◌}
use http_stack_lens.Base.Lists.{Bytes, equal, equal_iff}

unfoldable pub has : Bytes → List Bytes → Bool
has k [] = false
has k (j ∷ ks) = equal j k || has k ks

abbrev pub Distinct : List Bytes → Type 0
Distinct [] = Unit
Distinct (k ∷ ks) = (has k ks ≡ false) × Distinct ks

abbrev pub GoMap {ℓ} : Type ℓ → Type ℓ
GoMap V = List (Bytes × V)

module _ {ℓ} {V : Type ℓ} where
  unfoldable pub lookup : Bytes → GoMap V → Option V
  lookup sought [] = none
  lookup sought ((key, found) ∷ more) = if equal key sought then some found else lookup sought more

  unfoldable pub insert : Bytes → V → GoMap V → GoMap V
  insert key new [] = (key, new) ∷ []
  insert key new ((other, old) ∷ more) =
      let rest = insert key new more in
      if equal other key then (other, new) ∷ more else (other, old) ∷ rest

  unfoldable pub delete : Bytes → GoMap V → GoMap V
  delete key [] = []
  delete key ((other, old) ∷ more) =
      let rest = delete key more in if equal other key then rest else (other, old) ∷ rest

  abbrev pub keys : GoMap V → List Bytes
  keys [] = []
  keys ((key, _) ∷ more) = key ∷ keys more

  pub lookup-none : (k : Bytes) (m : GoMap V) → lookup k m ≡ none → has k (keys m) ≡ false
  unfolding lookup has
  lookup-none k [] h = refl
  lookup-none k ((j, w) ∷ m) h = ground (arith, lookup-none k m)

  pub insert_new :
      (k : Bytes) (v : V) (m : GoMap V) → lookup k m ≡ none → insert k v m ≡ m ++ ((k, v) ∷ [])
  unfolding lookup insert
  insert_new k v [] h = refl
  insert_new k v ((j, w) ∷ m) h = ground (arith, insert_new k v m)

  pub keys-insert_old :
      (k : Bytes) (v : V) (m : GoMap V) (w : V) → lookup k m ≡ some w → keys (insert k v m) ≡ keys m
  unfolding lookup insert
  keys-insert_old k v [] w h = cc
  keys-insert_old k v ((j, u) ∷ m) w h = ground (arith, keys-insert_old k v m w)

  pub delete_absent : (k : Bytes) (m : GoMap V) → has k (keys m) ≡ false → delete k m ≡ m
  unfolding has delete
  delete_absent k [] h = refl
  delete_absent k ((j, w) ∷ m) h = ground (arith, delete_absent k m)

  pub keys-append : (m n : GoMap V) → keys (m ++ n) ≡ keys m ++ keys n
  keys-append [] n = refl
  keys-append ((j, v) ∷ m) n = ap (◌∷◌ j) (keys-append m n)

pub has-append : (k j : Bytes) (ks : List Bytes) → has k (ks ++ j ∷ []) ≡ (has k ks || equal j k)
unfolding has
has-append k j [] = ground arith
has-append k j (i ∷ ks) = ground (arith, has-append k j ks)

pub Distinct-append :
    (ks : List Bytes) (k : Bytes) → Distinct ks → has k ks ≡ false → Distinct (ks ++ k ∷ [])
unfolding has
Distinct-append [] k d h = (refl, tt)
Distinct-append (j ∷ ks) k (fresh, d) h = (
  ground (arith, has-append j k ks, equal_iff j k, equal_iff k j),
  Distinct-append ks k d (ground arith),
)
