-- ===== src/Calls/Frames.antt =====
-- What the parts of `end` and `leave` leave alone.
use nova_connect.Prelude.{ℕ, ◌≡◌, refl, Option, List, [], ◌∷◌, nat_eq, erase, arith, ◌∙◌}
use nova_connect.Rooms.{RoomId}
use nova_connect.Calls.State.{Member, Call, Reason, State, tell_scope, broadcast_state, scope_eq}
use nova_connect.Calls.Lifecycle.{
  drop_from_room, remove_members, delete_room, drop_call, end_running, persist_all, persist,
}

-- The calls and their index are the same.
pub record SameCalls (s t : State) : Type 0 where
  pub calls : t.calls ≡ s.calls
  pub by_scope : t.by_scope ≡ s.by_scope

pub drop_from_room-SameCalls : (k : ℕ) (r : RoomId) (s : State) → SameCalls s (drop_from_room k r s)
unfolding drop_from_room
drop_from_room-SameCalls k r s = ground arith

pub remove_members-SameCalls :
    (r : RoomId) (ms : List (ℕ × Member)) (s : State) → SameCalls s (remove_members r ms s)
unfolding remove_members
remove_members-SameCalls r [] s = record { calls = refl; by_scope = refl }
remove_members-SameCalls r ((k, m) ∷ ms) s =
    let first = drop_from_room-SameCalls k r s in
    let rest = remove_members-SameCalls r ms _ in
    record { calls = rest.calls ∙ first.calls; by_scope = rest.by_scope ∙ first.by_scope }

pub end_running-calls :
    (c : Call) (reason : Option Reason) (now : ℕ) (s : State)
    → ((end_running c reason now s).calls ≡ erase c.id s.calls)
      × ((end_running c reason now s).by_scope ≡ erase c.scope s.by_scope)
unfolding end_running drop_call broadcast_state tell_scope delete_room
end_running-calls c reason now s =
    let h = remove_members-SameCalls _ c.members _ in (h.calls, h.by_scope)

pub persist_all-SameCalls :
    (cs : List Call) (now : ℕ) (s : State) → SameCalls s (persist_all cs now s)
unfolding persist_all persist
persist_all-SameCalls [] now s = record { calls = refl; by_scope = refl }
persist_all-SameCalls (c ∷ cs) now s =
    let h = persist_all-SameCalls cs now (persist c now s) in
    record { calls = h.calls; by_scope = h.by_scope }
