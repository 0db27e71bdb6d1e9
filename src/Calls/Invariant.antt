-- ===== src/Calls/Invariant.antt =====
-- The invariant of the running calls, over every interleaving of the handlers.
use nova_connect.Prelude.{
  ℕ, ◌≡◌, ◌≢◌, inl, inr, true, none, some, arith, nat_eq, Map, lookup, insert, erase, lookup-insert,
  lookup-erase, ◌==◌, Bool-cases,
}
use nova_connect.Calls.State.{Scope, Member, Call, State, scope_eq}

-- A connected call is a 1:1 call, and has the time at which it connected.
pub record CallOk (c : Call) : Type 0 where
  pub is_direct : c.connected ≡ true → c.direct ≡ true
  pub has_time : c.connected ≡ true → c.connected_at ≢ none
  pub own_peers : (k : ℕ) (m : Member) → lookup k c.members ≡ some m → m.peer_id ≡ (m.user_id, k)

-- A call stands under its own id, and `byScope` leads only to running calls of the scope.
pub record Sound (calls : Map ℕ Call) (index : Map Scope ℕ) : Type 0 where
  pub every_call : (i : ℕ) (c : Call) → lookup i calls ≡ some c → (c.id ≡ i) × CallOk c
  pub indexed :
      (k : Scope) (i : ℕ)
      → lookup k index ≡ some i
      → (c : Call) × (lookup i calls ≡ some c) × (c.scope ≡ k)

pub record IsSound (s : State) : Type 0 where
  pub sound : Sound s.calls s.by_scope

module _ {m : Map ℕ Call} {index : Map Scope ℕ} (v : Sound m index) where
  pub Sound-update :
      (i : ℕ) (c d : Call)
      → lookup i m ≡ some c
      → CallOk d
      → d.id ≡ i
      → d.scope ≡ c.scope
      → Sound (insert i d m) index
  Sound-update i c d l fine e f = record {
    every_call = λ j x h. elim (Bool-cases (i == j)) [
      | inl same ↦ ground (arith, lookup-insert i j d m)
      | inr other ↦ v.every_call j x (ground (arith, lookup-insert i j d m))
    ];
    indexed = λ k j h.
        let (x, p, q) = v.indexed k j h in
        elim (Bool-cases (i == j)) [
          | inl same ↦ (d, ground (arith, lookup-insert i j d m), ground arith)
          | inr other ↦ (x, ground (arith, lookup-insert i j d m), q)
        ];
  }

  pub Sound-create :
      (c : Call)
      → lookup c.id m ≡ none
      → CallOk c
      → Sound (insert c.id c m) (insert c.scope c.id index)
  Sound-create c fresh fine = record {
    every_call = λ j x h. elim (Bool-cases (c.id == j)) [
      | inl same ↦ ground (arith, lookup-insert c.id j c m)
      | inr other ↦ v.every_call j x (ground (arith, lookup-insert c.id j c m))
    ];
    indexed = λ k j h. elim (Bool-cases (c.scope == k)) [
      | inl same ↦ (
        c,
        ground (arith, lookup-insert c.scope k c.id index, lookup-insert c.id j c m),
        (scope_eq.beq_iff c.scope k).0 same,
      )
      | inr other ↦
          let (x, p, q) = v.indexed k j (ground (arith, lookup-insert c.scope k c.id index)) in
          (x, ground (arith, lookup-insert c.id j c m), q)
    ];
  }

  pub Sound-erase :
      (i : ℕ) (c : Call) → lookup i m ≡ some c → Sound (erase i m) (erase c.scope index)
  Sound-erase i c l = record {
    every_call = λ j x h. v.every_call j x (ground (arith, lookup-erase i j m));
    indexed = λ k j h.
        let (x, p, q) = v.indexed k j (ground (arith, lookup-erase c.scope k index)) in
        (
          x,
          ground
              (arith, lookup-erase i j m, lookup-erase c.scope k index, scope_eq.beq_iff c.scope k),
          q,
        );
  }
