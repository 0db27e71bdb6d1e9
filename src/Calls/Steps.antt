-- ===== src/Calls/Steps.antt =====
-- Everything that changes the state of src/group-calls.js, one constructor for each stretch of code
-- that runs without a wait. An interleaving of handlers is a list of such events.
use nova_connect.Prelude.{ℕ, Bool, Option, List, [], ◌∷◌, values, Result, ok, err}
use nova_connect.Calls.State.{Scope, Mode, Reason, Call, State}
use nova_connect.Calls.Access.{Error, Person, Place}
use nova_connect.Calls.Lifecycle.{persist_all, outcome_posted, end_all}
use nova_connect.Calls.Handlers.{start_commit, start_finish, ring_fired}
use nova_connect.Calls.Joining.{join_commit, decline, hang_up, disconnect}

pub data Event : Type 0 where
  creates : ℕ → ℕ → Bool → Mode → Scope → Place → List Person → Person → Event
  finishes : Call → Option ℕ → ℕ → Event
  rings_out : ℕ → ℕ → Event
  joins : ℕ → Person → ℕ → ℕ → Event
  declines : ℕ → ℕ → ℕ → Event
  hangs_up : ℕ → ℕ → ℕ → Event
  disconnects : ℕ → ℕ → Event
  shuts_down : Option Reason → ℕ → Event
  outcome_stored : ℕ → Event
  heartbeat : ℕ → Event

-- A handler that throws leaves the state as it was.
abbrev pub after : State → Result Error State → State
after s (ok t) = t
after s (err e) = s

unfoldable pub step : Event → State → State
step (creates id now online mode scope place others user) s =
    after s (start_commit id now online mode scope place others user s)
step (finishes c post now) s = start_finish c post now s
step (rings_out id now) s = ring_fired id now s
step (joins socket user id now) s = (join_commit socket user id now s).0
step (declines user id now) s = decline user id now s
step (hangs_up socket id now) s = hang_up socket id now s
step (disconnects socket now) s = disconnect socket now s
step (shuts_down reason now) s = end_all (values s.calls) reason now s
step (outcome_stored id) s = outcome_posted id s
step (heartbeat now) s = persist_all (values s.calls) now s

unfoldable pub run : List Event → State → State
run [] s = s
run (e ∷ es) s = run es (step e s)

unfoldable pub initial : State
initial = record {
  calls = [];
  gone = [];
  by_scope = [];
  room_users = [];
  rooms = [];
  joined = [];
  recovery = [];
  out = [];
}
