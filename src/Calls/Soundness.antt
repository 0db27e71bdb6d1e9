-- ===== src/Calls/Soundness.antt =====
-- The invariant of the running calls of src/group-calls.js over events and runs.
use nova_connect.Prelude.{
  ℕ, ◌≡◌, ap, ◌∙◌, ◌&&◌, not, length, Bool, Option, none, some, List, [], ◌∷◌, arith, nat_eq,
  lookup, ◌==◌, has, values, ok, err, ◌>>=◌, Result, if_split, option_split,
}
use nova_connect.Rooms.{RoomId}
use nova_connect.Calls.State.{Scope, Mode, Reason, declined, cancelled, Call, State, scope_eq}
use nova_connect.Calls.Access.{Error, Person, Place}
use nova_connect.Calls.Lifecycle.{end_all, outcome_posted}
use nova_connect.Calls.Handlers.{
  Reply, start_create, start_commit, check_other, new_call, ring_fired,
}
use nova_connect.Calls.Joining.{join_commit, decline, hang_up, leave_calls, disconnect}
use nova_connect.Calls.Steps.{
  Event, creates, finishes, rings_out, joins, declines, hangs_up, disconnects, shuts_down,
  outcome_stored, heartbeat, after, step, run, initial,
}
use nova_connect.Calls.Frames.{persist_all-SameCalls}
use nova_connect.Calls.Invariant.{IsSound}
use nova_connect.Calls.Preservation.{
  SameCalls-IsSound, KnownScope, end_call-IsSound, leave-IsSound, start_finish-IsSound,
  start_create-IsSound, new_call-CallOk, ring_stops-IsSound, create_room-SameCalls, enter-IsSound,
}

own_id :
    (id : ℕ) (c : Call) (s : State)
    → IsSound s
    → lookup id s.calls ≡ some c
    → lookup c.id s.calls ≡ some c
own_id id c s v e = ap (λ i. lookup i s.calls) (v.sound.every_call id c e).0 ∙ e

join_commit-IsSound :
    (socket : ℕ) (user : Person) (id now : ℕ) (s : State)
    → IsSound s
    → IsSound (join_commit socket user id now s).0
unfolding join_commit
join_commit-IsSound socket user id now s v =
    option_split (λ (p : State × Result Error Reply). IsSound p.0) (lookup id s.calls)
      (λ _. SameCalls-IsSound (create_room-SameCalls _ s) v)
      λ c e.
        enter-IsSound c socket user now _ (SameCalls-IsSound (create_room-SameCalls _ s) v)
          (rw (create_room-SameCalls (RoomId.gcall id) s).calls (own_id id c s v e))

-- What `end_call` of a running call's own object needs to know.
running-KnownScope :
    (id : ℕ) (c : Call) (s : State) → IsSound s → lookup id s.calls ≡ some c → KnownScope c s.calls
running-KnownScope id c s v e d h = ground (arith, (v.sound.every_call id c e).0)

decline-IsSound : (user id now : ℕ) (s : State) → IsSound s → IsSound (decline user id now s)
unfolding decline
decline-IsSound user id now s v =
    option_split IsSound (lookup id s.calls) (λ _. v)
      λ c e.
        if_split IsSound (c.direct && not c.connected && not (c.started_by == user))
          (λ _. end_call-IsSound c (some declined) now s v (running-KnownScope id c s v e))
          (λ _. record { sound = v.sound })

hang_up-IsSound : (socket id now : ℕ) (s : State) → IsSound s → IsSound (hang_up socket id now s)
unfolding hang_up
hang_up-IsSound socket id now s v =
    option_split IsSound (lookup id s.calls) (λ _. v)
      λ c e.
        if_split IsSound
          (c.direct && not c.connected && has socket c.members && length c.members == 1)
          (λ _. end_call-IsSound c (some cancelled) now s v (running-KnownScope id c s v e))
          (λ _. leave-IsSound socket c now s v (own_id id c s v e))

ring_fired-IsSound : (id now : ℕ) (s : State) → IsSound s → IsSound (ring_fired id now s)
unfolding ring_fired
ring_fired-IsSound id now s v =
    option_split IsSound (lookup id s.calls) (λ _. v)
      λ c e.
        if_split IsSound c.ring_timer (λ _. ring_stops-IsSound c now s v (own_id id c s v e))
          (λ _. v)

leave_calls-IsSound :
    (socket : ℕ) (cs : List Call) (now : ℕ) (s : State)
    → IsSound s
    → IsSound (leave_calls socket cs now s)
unfolding leave_calls
leave_calls-IsSound socket [] now s v = v
leave_calls-IsSound socket (c ∷ cs) now s v = leave_calls-IsSound socket cs now _ (
    option_split IsSound (lookup c.id s.calls) (λ _. v)
      (λ d e. leave-IsSound socket d now s v (own_id c.id d s v e)))

end_all-IsSound :
    (cs : List Call) (reason : Option Reason) (now : ℕ) (s : State)
    → IsSound s
    → IsSound (end_all cs reason now s)
unfolding end_all
end_all-IsSound [] reason now s v = v
end_all-IsSound (c ∷ cs) reason now s v = end_all-IsSound cs reason now _ (
    option_split IsSound (lookup c.id s.calls) (λ _. v)
      (λ d e. end_call-IsSound d reason now s v (running-KnownScope c.id d s v e)))

start_commit-IsSound :
    (id now : ℕ) (online : Bool) (mode : Mode) (scope : Scope) (place : Place)
    (others : List Person) (user : Person) (s : State)
    → IsSound s
    → lookup id s.calls ≡ none
    → IsSound (after s (start_commit id now online mode scope place others user s))
unfolding start_commit
start_commit-IsSound id now online mode scope place others user s v fresh =
    go (check_other online place others s)
  where
    c : Call
    c = new_call id now mode scope place others user

    go :
        (r : Result Error (Unit {0}))
        → IsSound (after s (r >>= λ _. ok (start_create c user others s)))
    go (ok _) =
        start_create-IsSound c user others s v (unfold new_call in fresh)
          (new_call-CallOk id now mode scope place others user)
    go (err e) = v

-- `randomUUID` gives a call an id that no running call has.
abbrev pub IsFresh : Event → State → Type 0
IsFresh (creates id now online mode scope place others user) s = lookup id s.calls ≡ none
IsFresh _ s = Unit {0}

-- Whatever event comes next, a call stands under its own id, `byScope` leads only to running calls
-- of the scope, a connected call is a 1:1 call that has its time, and each member's peer id is that
-- of its socket, given that a new call's id is fresh.
pub step-IsSound : (e : Event) (s : State) → IsFresh e s → IsSound s → IsSound (step e s)
unfolding step disconnect outcome_posted
step-IsSound (creates id now online mode scope place others user) s f v =
    start_commit-IsSound id now online mode scope place others user s v f
step-IsSound (finishes c post now) s f v = start_finish-IsSound c post now s v
step-IsSound (rings_out id now) s f v = ring_fired-IsSound id now s v
step-IsSound (joins socket user id now) s f v = join_commit-IsSound socket user id now s v
step-IsSound (declines user id now) s f v = decline-IsSound user id now s v
step-IsSound (hangs_up socket id now) s f v = hang_up-IsSound socket id now s v
step-IsSound (disconnects socket now) s f v = leave_calls-IsSound socket (values s.calls) now s v
step-IsSound (shuts_down reason now) s f v = end_all-IsSound (values s.calls) reason now s v
step-IsSound (outcome_stored id) s f v = record { sound = v.sound }
step-IsSound (heartbeat now) s f v =
    SameCalls-IsSound (persist_all-SameCalls (values s.calls) now s) v

-- Every id that the events create is new when it is created.
abbrev pub AllFresh : List Event → State → Type 0
AllFresh [] s = Unit {0}
AllFresh (e ∷ es) s = IsFresh e s × AllFresh es (step e s)

run-IsSound : (es : List Event) (s : State) → AllFresh es s → IsSound s → IsSound (run es s)
unfolding run
run-IsSound [] s f v = v
run-IsSound (e ∷ es) s f v = run-IsSound es (step e s) f.1 (step-IsSound e s f.0 v)

-- So it is after any interleaving of the handlers from the start of the server.
pub run-initial-IsSound : (es : List Event) → AllFresh es initial → IsSound (run es initial)
unfolding initial lookup
run-initial-IsSound es f =
    run-IsSound es initial f
      (record { sound = record { every_call = λ i c h. cc; indexed = λ k i h. cc } })
