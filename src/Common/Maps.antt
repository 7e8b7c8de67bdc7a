-- ===== src/Common/Maps.antt =====
-- Go maps as association lists. A range over a map visits the bindings in the list's order, one of
-- the orders that Go may take.
use mathlib.Core.Path.{◌≡◌, refl}
use mathlib.Core.Logic.{ite}
use mathlib.Core.Bool.{Bool, true, false}
use mathlib.Core.Option
use mathlib.Core.Option.{Option, none, some}
use mathlib.Core.List.{List, [], ◌∷◌}
use native.Mathlib.Omega.{arith}
use addon_controller.Common.Tests.{Eq, same}
use addon_controller.Common.Lists.{contains, Distinct}

abbrev pub is_some {ℓ} : {A : Type ℓ} → Option A → Bool
is_some none = false
is_some (some a) = true

module _ {ℓ} {K V : Type ℓ} where
  abbrev pub keys : List (K × V) → List K
  keys [] = []
  keys ((k, v) ∷ m) = k ∷ keys m

  -- The bindings with each value computed anew.
  abbrev pub map_values : (K → V → V) → List (K × V) → List (K × V)
  map_values f [] = []
  map_values f ((k, v) ∷ m) = (k, f k v) ∷ map_values f m

  pub keys-map_values : (f : K → V → V) (m : List (K × V)) → keys (map_values f m) ≡ keys m
  keys-map_values f [] = refl
  keys-map_values f ((k, v) ∷ m) = cc (keys-map_values f m)

module _ {ℓ} {K V : Type ℓ} ⦃e : Eq K⦄ where
  -- `v, ok := m[k]`
  abbrev pub lookup : K → List (K × V) → Option V
  lookup k [] = none
  lookup k ((j, v) ∷ m) = ite (same j k) (some v) (lookup k m)

  -- `m[k] = v`
  abbrev pub insert : K → V → List (K × V) → List (K × V)
  insert k v [] = (k, v) ∷ []
  insert k v ((j, w) ∷ m) = ite (same j k) ((k, v) ∷ m) ((j, w) ∷ insert k v m)

  -- `delete(m, k)`
  abbrev pub erase : K → List (K × V) → List (K × V)
  erase k [] = []
  erase k ((j, v) ∷ m) = let rest = erase k m in ite (same j k) rest ((j, v) ∷ rest)

  pub lookup-insert :
      (k j : K) (v : V) (m : List (K × V))
      → lookup j (insert k v m) ≡ ite (same k j) (some v) (lookup j m)
  lookup-insert k j v [] = refl
  lookup-insert k j v ((i, w) ∷ m) = ground (arith, lookup-insert k j v m)

  pub lookup-insert_self : (k : K) (v : V) (m : List (K × V)) → lookup k (insert k v m) ≡ some v
  lookup-insert_self k v m = ground (arith, lookup-insert k k v m)

  pub insert-insert :
      (k : K) (v w : V) (m : List (K × V)) → insert k v (insert k w m) ≡ insert k v m
  insert-insert k v w [] = ground arith
  insert-insert k v w ((i, x) ∷ m) = ground (arith, insert-insert k v w m)

  pub lookup-erase :
      (k j : K) (m : List (K × V)) → lookup j (erase k m) ≡ ite (same k j) none (lookup j m)
  lookup-erase k j [] = ground arith
  lookup-erase k j ((i, w) ∷ m) = ground (arith, lookup-erase k j m)

  pub lookup-map_values :
      (f : K → V → V) (k : K) (m : List (K × V))
      → lookup k (map_values f m) ≡ Option.map (f k) (lookup k m)
  lookup-map_values f k [] = refl
  lookup-map_values f k ((i, w) ∷ m) = ground (arith, lookup-map_values f k m)

module _ {K V : Type 0} ⦃e : Eq K⦄ where
  -- A key is in the list of keys just where it has a value.
  pub contains-keys : (k : K) (m : List (K × V)) → contains (keys m) k ≡ is_some (lookup k m)
  contains-keys k [] = refl
  contains-keys k ((i, w) ∷ m) = ground (arith, contains-keys k m)

  pub Distinct-keys-insert :
      (k : K) (v : V) (m : List (K × V)) → Distinct (keys m) → Distinct (keys (insert k v m))
  Distinct-keys-insert k v [] d = (refl, tt)
  Distinct-keys-insert k v ((i, w) ∷ m) d = ground (
    arith,
    Distinct-keys-insert k v m d.1,
    contains-keys i (insert k v m),
    contains-keys i m,
    lookup-insert k i v m,
  )
