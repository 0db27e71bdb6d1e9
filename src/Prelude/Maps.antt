-- ===== src/Prelude/Maps.antt =====
-- A JavaScript `Map`: an association list in insertion order, over any type of keys.
use Prim.Native.Nat.{◌≤◌}
use mathlib.Core.Path.{◌≡◌, refl}
use mathlib.Core.Logic.{◌⊎◌}
use mathlib.Core.Bool.{Bool, true, false}
use mathlib.Core.Option.{Option, none, some}
use mathlib.Core.List.{List, [], ◌∷◌, map}
use native.Mathlib.Omega.{arith}
use nova_connect.Prelude.Tests.{if◌then◌else◌}
use nova_connect.Prelude.Lists.{any, length}
use nova_connect.Prelude.Classes.{Eq, ◌==◌}

abbrev pub Map {ℓ κ} : Type ℓ → Type κ → Type (ℓ ⊔ κ)
Map K V = List (K × V)

module _ {ℓ κ} {K : Type ℓ} {V : Type κ} where
  abbrev pub values : Map K V → List V
  values = map (λ e. e.1)

  abbrev pub keys : Map K V → List K
  keys = map (λ e. e.0)

module _ {ℓ κ} {K : Type ℓ} {V : Type κ} ⦃e : Eq K⦄ where
  -- `m.get(k)`
  unfoldable pub lookup : K → Map K V → Option V
  lookup k [] = none
  lookup k ((j, v) ∷ m) = if j == k then some v else lookup k m

  -- `m.set(k, v)`: a key that is there keeps its place.
  unfoldable pub insert : K → V → Map K V → Map K V
  insert k v [] = (k, v) ∷ []
  insert k v ((j, w) ∷ m) = if j == k then (k, v) ∷ m else (j, w) ∷ insert k v m

  -- `m.delete(k)`
  unfoldable pub erase : K → Map K V → Map K V
  erase k [] = []
  erase k ((j, w) ∷ m) = if j == k then erase k m else (j, w) ∷ erase k m

  -- `m.has(k)`
  abbrev pub has : K → Map K V → Bool
  has k m = elim (lookup k m) [ none ↦ false | some _ ↦ true ]

  -- A write is read back, and every other key reads as before.
  pub lookup-insert :
      (key at : K) (new : V) (m : Map K V)
      → lookup at (insert key new m) ≡ (if key == at then some new else lookup at m)
  unfolding lookup insert
  lookup-insert key at new [] = refl
  lookup-insert key at new ((i, old) ∷ rest) =
      ground
        (arith, lookup-insert key at new rest, e.beq_iff i at, e.beq_iff i key, e.beq_iff key at)

  pub lookup-erase :
      (k j : K) (m : Map K V) → lookup j (erase k m) ≡ (if k == j then none else lookup j m)
  unfolding lookup erase
  lookup-erase k j [] = ground arith
  lookup-erase k j ((i, w) ∷ m) =
      ground (arith, e.beq_iff k j, e.beq_iff i k, e.beq_iff i j, lookup-erase k j m)

  -- A search through the values that finds nothing says so of each entry.
  pub any-values-lookup :
      (p : V → Bool) (m : Map K V) (k : K) (v : V)
      → any p (values m) ≡ false
      → lookup k m ≡ some v
      → p v ≡ false
  unfolding lookup
  any-values-lookup p [] k v h l = cc
  any-values-lookup p ((j, w) ∷ m) k v h l = ground (arith, any-values-lookup p m k v)

  pub length-erase-le : (k : K) (m : Map K V) → length (erase k m) ≤ length m
  unfolding erase
  length-erase-le k [] = omega arith
  length-erase-le k ((j, w) ∷ m) = ground (arith, length-erase-le k m)

  -- What holds of some value after a write holds of the written one or held of some before.
  pub any-values-insert :
      (p : V → Bool) (k : K) (v : V) (m : Map K V)
      → any p (values (insert k v m)) ≡ true
      → (p v ≡ true) ⊎ (any p (values m) ≡ true)
  unfolding insert
  any-values-insert p k v [] h = ground arith
  any-values-insert p k v ((j, w) ∷ m) h = ground (arith, any-values-insert p k v m)

  pub any-values-insert_self :
      (p : V → Bool) (k : K) (v : V) (m : Map K V)
      → p v ≡ true
      → any p (values (insert k v m)) ≡ true
  unfolding insert
  any-values-insert_self p k v [] h = ground arith
  any-values-insert_self p k v ((j, w) ∷ m) h = ground (arith, any-values-insert_self p k v m)

  -- A new entry of which `p` does not hold changes no search for `p`.
  pub any-values-insert_new :
      (p : V → Bool) (k : K) (v : V) (m : Map K V)
      → lookup k m ≡ none
      → p v ≡ false
      → any p (values (insert k v m)) ≡ any p (values m)
  unfolding insert lookup
  any-values-insert_new p k v [] l h = ground arith
  any-values-insert_new p k v ((j, w) ∷ m) l h = ground (arith, any-values-insert_new p k v m)
