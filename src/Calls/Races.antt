-- ===== src/Calls/Races.antt =====
-- Handlers of src/group-calls.js whose halves are run apart.
use nova_connect.Prelude.{
  ℕ, ◌≡◌, refl, ap, ◌≢◌, true, Option, none, some, List, [], ◌∷◌, arith, nat_eq, lookup, insert,
  lookup-insert, any-values-insert_self, any-values-insert_new, beq_refl, ◌==◌, nat_beq_iff, ◌∙◌,
  ok,
}
use nova_connect.Calls.State.{Scope, Mode, Member, Call, State, scope_eq, is_member, in_group_call}
use nova_connect.Calls.Access.{Database, Person, Place}
use nova_connect.Calls.Lifecycle.{persist, recovery_of}
use nova_connect.Calls.State.{tell_scope, broadcast_state}
use nova_connect.Calls.Handlers.{
  start_finish, gone_object, posted, check_other, new_call, start_create, start_commit,
}
use nova_connect.Calls.Joining.{join_check, member_of, admit, join_commit}
use nova_connect.Calls.Steps.{after}
use nova_connect.Calls.Invariant.{IsSound}
use nova_connect.Calls.Exclusive.{OneCall, join_commit-calls, OnePerScope}

is_member-admit_self :
    (c : Call) (socket now : ℕ) (user : Person) → is_member user.id (admit c socket user now) ≡ true
unfolding is_member admit
is_member-admit_self c socket now user =
    any-values-insert_self (λ (m : Member). m.user_id == user.id) socket (member_of socket user)
      c.members (beq_refl user.id)

join_check-running :
    (db : Database) (socket id : ℕ) (user : Person) (c : Call) (s : State)
    → join_check db socket user id s ≡ ok c
    → lookup id s.calls ≡ some c
unfolding join_check
join_check-running db socket id user c s h = ground (arith, h)

-- Two joins at once: both pass the checks before either has entered, since the checks are made
-- before the wait for the SFU room and not again after it. Then the person is in both calls.
pub join_twice-not-OneCall :
    (db : Database) (k1 k2 a b now : ℕ) (user : Person) (c d : Call) (s : State)
    → IsSound s
    → a ≢ b
    → join_check db k1 user a s ≡ ok c
    → join_check db k2 user b s ≡ ok d
    → ¬ OneCall (join_commit k2 user b now (join_commit k1 user a now s).0).0
join_twice-not-OneCall db k1 k2 a b now user c d s v ne p q one =
    let l = join_check-running db k1 a user c s p in
    let m = join_check-running db k2 b user d s q in
    let ca = (v.sound.every_call a c l).0 in
    let db_id = (v.sound.every_call b d m).0 in
    let t = (join_commit k1 user a now s).0 in
    let first = join_commit-calls k1 a now user c s l in
    let m' : lookup b t.calls ≡ some d =
      ground (arith, m, first, lookup-insert c.id b (admit c k1 user now) s.calls) in
    let second = join_commit-calls k2 b now user d t m' in
    ne (
      one a b user.id (admit c k1 user now) (admit d k2 user now)
        (ground (
          arith,
          first,
          second,
          lookup-insert c.id a (admit c k1 user now) s.calls,
          lookup-insert d.id a (admit d k2 user now) t.calls,
        ))
        (ground (arith, second, lookup-insert d.id b (admit d k2 user now) t.calls))
        (is_member-admit_self c k1 now user) (is_member-admit_self d k2 now user))

in_group_call-start_create :
    (u : ℕ) (c : Call) (user : Person) (others : List Person) (s : State)
    → lookup c.id s.calls ≡ none
    → c.members ≡ []
    → in_group_call u none (start_create c user others s) ≡ in_group_call u none s
unfolding in_group_call start_create
in_group_call-start_create u c user others s fresh empty =
    any-values-insert_new _ c.id c s.calls fresh (unfold is_member in ground (arith, empty))

check_other-start_create :
    (place : Place) (people : List Person) (c : Call) (user : Person) (others : List Person)
    (s : State)
    → lookup c.id s.calls ≡ none
    → c.members ≡ []
    → check_other true place people (start_create c user others s) ≡ check_other true place people s
unfolding check_other
check_other-start_create place [] c user others s fresh empty = refl
check_other-start_create place (p ∷ ps) c user others s fresh empty =
    ground (arith, in_group_call-start_create p.id c user others s fresh empty)

two_created :
    (c d : Call) (user1 user2 : Person) (others1 others2 : List Person) (s : State)
    → c.id ≢ d.id
    → c.scope ≡ d.scope
    → ¬ OnePerScope (start_create d user2 others2 (start_create c user1 others1 s))
unfolding start_create
two_created c d user1 user2 others1 others2 s ne e one =
    let calls = insert c.id c s.calls in
    let in_c : lookup c.id (insert d.id d calls) ≡ some c = ground (
      arith,
      lookup-insert d.id c.id d calls,
      lookup-insert c.id c.id c s.calls,
      nat_beq_iff d.id c.id,
      beq_refl c.id,
    ) in
    let in_d : lookup d.id (insert d.id d calls) ≡ some d =
      ground (arith, lookup-insert d.id d.id d calls, beq_refl d.id) in
    ground (
      arith,
      one c.id c in_c,
      one d.id d in_d,
      ap (λ k. lookup k (insert d.scope d.id (insert c.scope c.id s.by_scope))) e,
    )

-- Two starts of a call in one 1:1 chat at once: each looked for a running call before the wait for
-- the other person's sockets, and not again after it. Then the place has two calls.
pub start_twice-not-OnePerScope :
    (a b now : ℕ) (mode : Mode) (scope : Scope) (place : Place) (others1 others2 : List Person)
    (user1 user2 : Person) (s : State)
    → a ≢ b
    → lookup a s.calls ≡ none
    → lookup b s.calls ≡ none
    → check_other true place others1 s ≡ ok tt
    → check_other true place others2 s ≡ ok tt
    → let t = after s (start_commit a now true mode scope place others1 user1 s) in
      ¬ OnePerScope (after t (start_commit b now true mode scope place others2 user2 t))
start_twice-not-OnePerScope a b now mode scope place others1 others2 user1 user2 s ne fa fb p q =
    let c = new_call a now mode scope place others1 user1 in
    let d = new_call b now mode scope place others2 user2 in
    let t = start_create c user1 others1 s in
    let first : after s (start_commit a now true mode scope place others1 user1 s) ≡ t =
      unfold start_commit in ground (arith, p) in
    let q' : check_other true place others2 t ≡ ok tt =
      check_other-start_create place others2 c user1 others1 s (unfold new_call in fa)
        (unfold new_call in refl)
      ∙ q in
    let second : after t (start_commit b now true mode scope place others2 user2 t)
        ≡ start_create d user2 others2 t =
      unfold start_commit in ground (arith, q') in
    rw (first, second)
      (two_created c d user1 user2 others1 others2 s (unfold new_call in ne)
        (unfold new_call in refl))

-- A channel's call that ended while its post was stored: the handler goes on with the object of the
-- ended call, and the call has a record in Redis again although it does not run.
pub start_finish-ended :
    (c d : Call) (post : Option ℕ) (now : ℕ) (s : State)
    → lookup c.id s.calls ≡ none
    → lookup c.id s.gone ≡ some d
    → d.id ≡ c.id
    → let t = start_finish c post now s in
      (lookup c.id t.calls ≡ none)
      × (lookup c.id t.recovery ≡ some (recovery_of (posted d post) now))
unfolding start_finish persist gone_object posted broadcast_state tell_scope recovery_of
start_finish-ended c d post now s l g e = (
  ground (arith, l, g),
  ground (
    arith,
    l,
    g,
    e,
    lookup-insert d.id c.id (recovery_of (posted d post) now) s.recovery,
    beq_refl c.id,
  ),
)
