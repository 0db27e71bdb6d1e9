-- ===== src/Calls/Ringing.antt =====
-- How a 1:1 call that is not answered ends.
use nova_connect.Prelude.{
  ℕ, ◌≡◌, ◌≢◌, true, false, none, some, List, [], ◌∷◌, ◌++◌, nat_eq, lookup, insert, has, length,
}
use nova_connect.Rooms.{room_eq}
use nova_connect.Calls.State.{
  dm, Outcome, call_declined, call_missed, call_cancelled, Effect, post_outcome, Call, State,
  push_all, scope_eq,
}
use nova_connect.Calls.Handlers.{ring_told}
use nova_connect.Calls.Steps.{Event, declines, hangs_up, rings_out}
use nova_connect.Calls.Posts.{posts}

-- A 1:1 call in a chat that nobody else has joined yet, under its id.
pub record IsUnanswered (c : Call) (conv : ℕ) (s : State) : Type 0 where
  pub running : lookup c.id s.calls ≡ some c
  pub in_chat : c.scope ≡ dm conv
  pub is_direct : c.direct ≡ true
  pub not_connected : c.connected ≡ false
  pub no_time : c.connected_at ≡ none

-- The post of the outcome `o` of a 1:1 call.
abbrev post_of : ℕ → Call → Outcome → Effect
post_of conv c o = post_outcome (dm conv) c.started_by o c.id

-- The call is gone from the calls and from its place, and of what happened since, the post of its
-- outcome in its chat is the only one.
abbrev pub EndsWith : Outcome → ℕ → Call → State → State → Type 0
EndsWith o conv c s t =
    (lookup c.id t.calls ≡ none)
    × (lookup c.scope t.by_scope ≡ none)
    × (new : List Effect) × (t.out ≡ s.out ++ new)
    × (posts new ≡ post_of conv c o ∷ [])

abbrev quiet : Call → Call
quiet c = record c { ring_timer = false }

-- The state in which a ring timer that went off looks who is in the call.
abbrev rung : Call → State → State
rung c s = push_all (ring_told (quiet c)) (record s { calls = insert c.id (quiet c) s.calls })

-- The events that end an unanswered 1:1 call, and how its chat is told: "declined" when anybody but
-- the caller declines, "cancelled" when the caller gives up, "missed" when the ring timer goes off
-- while the caller waits, and "cancelled" when it goes off and nobody is in the call.
pub data Ending (c : Call) (now : ℕ) : Event → Outcome → Type 0 where
  by_decline :
      (user : ℕ) → c.started_by ≢ user → Ending c now (declines user c.id now) call_declined
  by_caller :
      (socket : ℕ)
      → has socket c.members ≡ true
      → length c.members ≡ 1
      → Ending c now (hangs_up socket c.id now) call_cancelled
  by_timer : c.ring_timer ≡ true → c.members ≢ [] → Ending c now (rings_out c.id now) call_missed
  by_timer_alone :
      c.ring_timer ≡ true → c.members ≡ [] → Ending c now (rings_out c.id now) call_cancelled
