-- ===== src/Prelude/KeptMaps.antt =====
-- Maps of which only some entries are kept, as a deletion by a condition leaves them.
use Prim.Native.Nat.{◌≤◌, ◌<◌, ◌+◌}
use mathlib.Core.Path.{◌≡◌, refl, sym, ◌∙◌, ap}
use mathlib.Core.Logic.{inl, inr}
use mathlib.Core.Bool.{Bool, true, false}
use mathlib.Core.Option.{Option, none, some}
use mathlib.Core.List.{[], ◌∷◌}
use native.Mathlib.Omega.{arith}
use nova_connect.Prelude.Tests.{if◌then◌else◌, Bool-cases}
use nova_connect.Prelude.Lists.{keep, length}
use nova_connect.Prelude.Classes.{Eq, beq_refl}
use nova_connect.Prelude.Maps.{Map, lookup, insert, erase, lookup-insert, lookup-erase}
use nova_connect.Prelude.Membership.{In}
use nova_connect.Prelude.UniqueKeys.{DistinctKeys}

module _ {K V : Type 0} ⦃e : Eq K⦄ (p : K × V → Bool) where
  pub lookup-keep-none : (k : K) (m : Map K V) → lookup k m ≡ none → lookup k (keep p m) ≡ none
  unfolding lookup
  lookup-keep-none k [] h = refl
  lookup-keep-none k ((j, v) ∷ m) h = ground (arith, lookup-keep-none k m)

  -- What a key leads to among the entries that are kept.
  pub lookup-keep :
      (k : K) (m : Map K V)
      → DistinctKeys m
      → lookup k (keep p m)
        ≡ (elim (lookup k m) [ none ↦ none | some v ↦ if p (k, v) then some v else none ])
  unfolding lookup
  lookup-keep k [] d = refl
  lookup-keep k ((j, v) ∷ m) d = ground (
    arith,
    e.beq_iff j k,
    ap (λ i. p (i, v)),
    ap (λ i. lookup i m),
    lookup-keep k m d.1,
    lookup-keep-none k m,
  )

  pub DistinctKeys-keep : (m : Map K V) → DistinctKeys m → DistinctKeys (keep p m)
  DistinctKeys-keep [] d = tt
  DistinctKeys-keep ((j, v) ∷ m) d = ground (arith, lookup-keep-none j m, DistinctKeys-keep m d.1)

  -- Where something is kept, some key leads to a value of the kind.
  pub keep_found :
      (m : Map K V)
      → DistinctKeys m
      → 0 < length (keep p m)
      → (k : K) × (v : V) × (lookup k m ≡ some v) × (p (k, v) ≡ true)
  unfolding lookup
  keep_found [] d h = absurd (omega (arith, h))
  keep_found ((j, v) ∷ m) d h = elim (Bool-cases (p (j, v))) [
    | inl hit ↦ (j, v, ground (arith, beq_refl j), hit)
    | inr miss ↦
        let (k, w, l, q) = keep_found m d.1 (ground (arith, miss, h)) in
        (k, w, ground (arith, l, d.0, e.beq_iff j k, ap (λ i. lookup i m)), q)
  ]

  pub erase-absent : (k : K) (m : Map K V) → lookup k m ≡ none → erase k m ≡ m
  unfolding lookup erase
  erase-absent k [] h = refl
  erase-absent k ((j, v) ∷ m) h = ground (arith, erase-absent k m)

  -- Erasing one key loses one entry at most.
  pub length-keep-erase :
      (k : K) (m : Map K V) → DistinctKeys m → length (keep p m) ≤ length (keep p (erase k m)) + 1
  unfolding erase
  length-keep-erase k [] d = omega arith
  length-keep-erase k ((j, v) ∷ m) d = ground (
    arith,
    e.beq_iff j k,
    length-keep-erase k m d.1,
    ap (λ i. lookup i m),
    ap (λ (x : Map K V). length (keep p x)),
    erase-absent k m,
  )

  -- An entry of the kind makes the count positive.
  pub length-keep_pos :
      (k : K) (v : V) (m : Map K V) → lookup k m ≡ some v → p (k, v) ≡ true → 0 < length (keep p m)
  unfolding lookup
  length-keep_pos k v [] h q = cc
  length-keep_pos k v ((j, w) ∷ m) h q =
      ground (arith, e.beq_iff j k, ap (λ i. p (i, w)), ap (λ x. p (k, x)), length-keep_pos k v m)

  pub length-keep_two :
      (k j : K) (v w : V) (m : Map K V)
      → e.beq k j ≡ false
      → lookup k m ≡ some v
      → p (k, v) ≡ true
      → lookup j m ≡ some w
      → p (j, w) ≡ true
      → 1 < length (keep p m)
  unfolding lookup
  length-keep_two k j v w [] n h q h' q' = cc
  length-keep_two k j v w ((i, x) ∷ m) n h q h' q' = ground (
    arith,
    e.beq_iff i k,
    e.beq_iff i j,
    e.beq_iff k j,
    ap (λ z. p (z, x)),
    ap (λ z. p (k, z)),
    ap (λ z. p (j, z)),
    length-keep_pos k v m,
    length-keep_pos j w m,
    length-keep_two k j v w m n,
  )

  pub kept_there :
      (k : K) (v : V) (m : Map K V)
      → DistinctKeys m
      → lookup k (keep p m) ≡ some v
      → (lookup k m ≡ some v) × (p (k, v) ≡ true)
  kept_there k v m d h = go (lookup k m) refl (sym (lookup-keep k m d) ∙ h)
    where
      go :
          (o : Option V)
          → lookup k m ≡ o
          → (elim o [ none ↦ none | some w ↦ if p (k, w) then some w else none ]) ≡ some v
          → (lookup k m ≡ some v) × (p (k, v) ≡ true)
      go none l q = cc
      go (some w) l q = ground (arith, l, q, ap (λ x. p (k, x)))

module _ {K V : Type 0} ⦃e : Eq K⦄ where
  -- A key that leads to something still does after a write.
  pub insert_there :
      (k j : K) (v w : V) (m : Map K V)
      → lookup j m ≡ some w
      → (x : V) × (lookup j (insert k v m) ≡ some x)
  insert_there k j v w m h = elim (Bool-cases (e.beq k j)) [
    | inl same ↦ (v, ground (arith, lookup-insert k j v m, same))
    | inr other ↦ (w, ground (arith, lookup-insert k j v m, other, h))
  ]

  pub erased_there :
      (j k : K) (v : V) (m : Map K V)
      → lookup k (erase j m) ≡ some v
      → (e.beq j k ≡ false) × (lookup k m ≡ some v)
  erased_there j k v m h = elim (Bool-cases (e.beq j k)) [
    | inl same ↦ ground (arith, h, same, lookup-erase j k m)
    | inr other ↦ (other, ground (arith, h, other, lookup-erase j k m))
  ]

module _ {K V : Type 0} ⦃e : Eq K⦄ where
  -- An entry and what its key leads to.
  pub In-lookup : (k : K) (v : V) (m : Map K V) → DistinctKeys m → In (k, v) m → lookup k m ≡ some v
  unfolding lookup
  In-lookup k v [] d i = absurd i
  In-lookup k v ((j, w) ∷ m) d (inl q) =
      let first : k ≡ j = ap (λ (x : K × V). x.0) q in
      let second : v ≡ w = ap (λ (x : K × V). x.1) q in
      ground (arith, sym first, second, e.beq_iff j k)
  In-lookup k v ((j, w) ∷ m) d (inr i) =
      let there = In-lookup k v m d.1 i in
      ground (arith, there, d.0, e.beq_iff j k, ap (λ x. lookup x m))

  pub lookup-In : (k : K) (v : V) (m : Map K V) → lookup k m ≡ some v → In (k, v) m
  unfolding lookup
  lookup-In k v [] l = cc
  lookup-In k v ((j, w) ∷ m) l = elim (Bool-cases (e.beq j k)) as (λ _. In (k, v) ((j, w) ∷ m)) [
    | inl same ↦ let q : j ≡ k = (e.beq_iff j k).0 same in inl (ground (arith, l, same, q))
    | inr other ↦ inr (lookup-In k v m (ground (arith, l, other)))
  ]
