-- ===== src/Prelude/UniqueKeys.antt =====
-- Maps in which no key stands twice, as `insert` and `erase` keep them.
use mathlib.Core.Path.{◌≡◌, refl}
use mathlib.Core.Bool.{Bool, true}
use mathlib.Core.Option.{none, some}
use mathlib.Core.List.{[], ◌∷◌}
use native.Mathlib.Omega.{arith}
use nova_connect.Prelude.Tests.{Bool-cases}
use mathlib.Core.Logic.{inl, inr}
use nova_connect.Prelude.Lists.{find}
use nova_connect.Prelude.Classes.{Eq, beq_refl}
use nova_connect.Prelude.Maps.{Map, lookup, insert, erase, lookup-insert, lookup-erase}

module _ {K V : Type 0} ⦃e : Eq K⦄ where
  abbrev pub DistinctKeys : Map K V → Type 0
  DistinctKeys [] = Unit {0}
  DistinctKeys ((k, v) ∷ m) = (lookup k m ≡ none) × DistinctKeys m

  pub DistinctKeys-insert :
      (k : K) (v : V) (m : Map K V) → DistinctKeys m → DistinctKeys (insert k v m)
  unfolding insert lookup
  DistinctKeys-insert k v [] d = (refl, tt)
  DistinctKeys-insert k v ((j, x) ∷ m) d =
      ground
        (arith, e.beq_iff j k, e.beq_iff k j, lookup-insert k j v m, DistinctKeys-insert k v m d.1)

  pub DistinctKeys-erase : (k : K) (m : Map K V) → DistinctKeys m → DistinctKeys (erase k m)
  unfolding erase
  DistinctKeys-erase k [] d = tt
  DistinctKeys-erase k ((j, x) ∷ m) d =
      ground (arith, lookup-erase k j m, DistinctKeys-erase k m d.1)

  -- An entry that a search finds is what its key leads to.
  pub find-lookup :
      (p : K × V → Bool) (m : Map K V) (k : K) (v : V)
      → DistinctKeys m
      → find p m ≡ some (k, v)
      → (lookup k m ≡ some v) × (p (k, v) ≡ true)
  unfolding lookup
  find-lookup p [] k v d h = cc
  find-lookup p ((j, x) ∷ m) k v d h = elim (Bool-cases (p (j, x))) [
    | inl yes_first ↦ ground (arith, yes_first, h, beq_refl k)
    | inr later ↦
        let rest = find-lookup p m k v d.1 (ground (arith, later, h)) in
        (ground (arith, rest.0, d.0, e.beq_iff j k), rest.1)
  ]
