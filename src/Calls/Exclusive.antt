-- ===== src/Calls/Exclusive.antt =====
-- How many calls a person is in and a place has: 'gcall:start' and 'gcall:join' of
-- src/group-calls.js where nothing runs between the two halves of a handler.
use nova_connect.Prelude.{
  ℕ, ◌≡◌, refl, sym, ap, ◌≢◌, ◌⊎◌, inl, inr, Bool, true, false, none, some, List, arith, nat_eq,
  lookup, insert, lookup-insert, any-values-insert, any-values-lookup, beq_refl, ◌==◌, Bool-cases,
  nat_beq_iff, ◌∙◌, Result, ok, err, ◌>>=◌,
}
use nova_connect.Calls.State.{
  Scope, Mode, Member, Call, State, scope_eq, is_member, in_group_call, broadcast_state, tell_scope,
}
use nova_connect.Calls.Access.{Database, Person, Place, Error}
use nova_connect.Calls.Lifecycle.{persist}
use nova_connect.Calls.Handlers.{check_other, new_call, start_create, start_commit, running_in}
use nova_connect.Calls.Joining.{
  join_check, create_room, member_of, admit, persist_connected, enter, join_commit, join,
  join_checked,
}
use nova_connect.Calls.Steps.{after}
use nova_connect.Calls.Invariant.{IsSound}

-- Nobody is in two calls.
abbrev pub OneCall : State → Type 0
OneCall s =
    (i j u : ℕ) (c d : Call)
    → lookup i s.calls ≡ some c
    → lookup j s.calls ≡ some d
    → is_member u c ≡ true
    → is_member u d ≡ true
    → i ≡ j

is_member-admit :
    (c : Call) (socket u now : ℕ) (user : Person)
    → is_member u (admit c socket user now) ≡ true
    → (u ≡ user.id) ⊎ (is_member u c ≡ true)
unfolding is_member admit
is_member-admit c socket u now user h = ground (
  arith,
  any-values-insert (λ (m : Member). m.user_id == u) socket (member_of socket user) c.members h,
  nat_beq_iff user.id u,
)

-- The calls after a join.
pub join_commit-calls :
    (socket id now : ℕ) (user : Person) (c : Call) (s : State)
    → lookup id s.calls ≡ some c
    → (join_commit socket user id now s).0.calls ≡ insert c.id (admit c socket user now) s.calls
unfolding join_commit enter persist_connected persist create_room broadcast_state tell_scope
join_commit-calls socket id now user c s l = ground (arith, l)

-- Somebody who is in no call but `i` is in none of the others.
in_group_call-lookup :
    (u i j : ℕ) (d : Call) (s : State)
    → in_group_call u (some i) s ≡ false
    → lookup j s.calls ≡ some d
    → d.id ≢ i
    → is_member u d ≡ false
unfolding in_group_call
in_group_call-lookup u i j d s h l ne =
    ground (arith, any-values-lookup _ s.calls j d h l, nat_beq_iff d.id i)

-- What the checks of 'gcall:join' found.
record Checked (socket id : ℕ) (user : Person) (s : State) : Type 0 where
  pub call : Call
  pub running : lookup id s.calls ≡ some call
  elsewhere : in_group_call user.id (some call.id) s ≡ false

join_check-Checked :
    (db : Database) (socket id : ℕ) (user : Person) (c : Call) (s : State)
    → join_check db socket user id s ≡ ok c
    → Checked socket id user s
unfolding join_check
join_check-Checked db socket id user c s h = record {
  call = c;
  running = ground (arith, h);
  elsewhere = ground (arith, h);
}

module _ (socket id now : ℕ) (user : Person) (s : State) (v : IsSound s) (one : OneCall s) where
  -- A member of the call that is joined, old or new, is in no other call.
  other_call :
      (c d : Call) (j u : ℕ)
      → lookup id s.calls ≡ some c
      → in_group_call user.id (some c.id) s ≡ false
      → lookup j s.calls ≡ some d
      → is_member u (admit c socket user now) ≡ true
      → is_member u d ≡ true
      → id ≡ j
  other_call c d j u l free m h k = elim (is_member-admit c socket u now user h) [
    | inr old ↦ one id j u c d l m old k
    | inl same ↦ elim (Bool-cases (id == j)) [
      | inl e ↦ (nat_beq_iff id j).0 e
      | inr ne ↦ ground (
        arith,
        same,
        k,
        (v.sound.every_call id c l).0,
        (v.sound.every_call j d m).0,
        in_group_call-lookup user.id c.id j d s free m,
        ap (λ x. is_member x d) same,
      )
    ]
  ]

  -- A call after the join is the one that was joined or one from before.
  abbrev Entry : Call → ℕ → Call → Type 0
  Entry c i x = ((id ≡ i) × (x ≡ admit c socket user now)) ⊎ (lookup i s.calls ≡ some x)

  entry :
      (c x : Call) (i : ℕ)
      → lookup id s.calls ≡ some c
      → lookup i (join_commit socket user id now s).0.calls ≡ some x
      → Entry c i x
  entry c x i l p = elim (Bool-cases (c.id == i)) [
    | inl e ↦ inl (
      ground (arith, (v.sound.every_call id c l).0),
      ground (
        arith,
        join_commit-calls socket id now user c s l,
        lookup-insert c.id i (admit c socket user now) s.calls,
      ),
    )
    | inr e ↦ inr (
        ground (
          arith,
          join_commit-calls socket id now user c s l,
          lookup-insert c.id i (admit c socket user now) s.calls,
        ))
  ]

  commit-OneCall :
      (c : Call)
      → lookup id s.calls ≡ some c
      → in_group_call user.id (some c.id) s ≡ false
      → OneCall (join_commit socket user id now s).0
  commit-OneCall c l free i j u x y p q h k = go (entry c x i l p) (entry c y j l q)
    where
      go : Entry c i x → Entry c j y → i ≡ j
      go (inl (a, _)) (inl (b, _)) = sym a ∙ b
      go (inl (a, e)) (inr m) = sym a ∙ other_call c y j u l free m (ap (is_member u) (sym e) ∙ h) k
      go (inr m) (inl (b, e)) =
          sym (sym b ∙ other_call c x i u l free m (ap (is_member u) (sym e) ∙ k) h)
      go (inr m) (inr n) = one i j u x y m n h k

-- A join that nothing interrupts lets nobody into a second call: if nobody is in two calls before,
-- nobody is after, whether the join is granted or refused.
pub join-OneCall :
    (db : Database) (socket id now : ℕ) (user : Person) (s : State)
    → IsSound s
    → OneCall s
    → OneCall (join db socket user id now s).0
unfolding join
join-OneCall db socket id now user s v one = go (join_check db socket user id s) refl
  where
    go :
        (r : Result Error Call)
        → join_check db socket user id s ≡ r
        → OneCall (join_checked socket user id now s r).0
    go (err e) h = one
    go (ok c) h =
        let k = join_check-Checked db socket id user c s h in
        commit-OneCall socket id now user s v one k.call k.running k.elsewhere

-- No place has two calls: `byScope` leads to each call from its scope.
abbrev pub OnePerScope : State → Type 0
OnePerScope s = (i : ℕ) (c : Call) → lookup i s.calls ≡ some c → lookup c.scope s.by_scope ≡ some i

-- A start that found no call in the place, and that nothing interrupts, keeps one call to a place.
pub start-OnePerScope :
    (id now : ℕ) (online : Bool) (mode : Mode) (scope : Scope) (place : Place)
    (others : List Person) (user : Person) (s : State)
    → running_in scope s ≡ none
    → OnePerScope s
    → OnePerScope (after s (start_commit id now online mode scope place others user s))
unfolding start_commit start_create new_call running_in
start-OnePerScope id now online mode scope place others user s none_there one =
    go (check_other online place others s)
  where
    c : Call
    c = new_call id now mode scope place others user

    created : OnePerScope (start_create c user others s)
    created i d l = elim (Bool-cases (scope == d.scope)) [
      | inl same ↦ elim (Bool-cases (id == i)) [
        | inl e ↦ ground (arith, lookup-insert scope d.scope id s.by_scope, nat_beq_iff id i)
        | inr e ↦ ground (
          arith,
          lookup-insert id i c s.calls,
          one i d,
          none_there,
          scope_eq.beq_iff scope d.scope,
        )
      ]
      | inr other ↦ ground (
        arith,
        lookup-insert id i c s.calls,
        lookup-insert scope d.scope id s.by_scope,
        one i d,
        scope_eq.beq_iff scope d.scope,
        beq_refl scope,
      )
    ]

    go :
        (r : Result Error (Unit {0}))
        → OnePerScope (after s (r >>= λ _. ok (start_create c user others s)))
    go (ok _) = created
    go (err e) = one
