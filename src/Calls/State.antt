-- ===== src/Calls/State.antt =====
-- The state of src/group-calls.js and the questions that it asks of it.
use nova_connect.Prelude.{
  ℕ, suc, ◌≡◌, ◌↔◌, Bool, true, false, not, ◌&&◌, Option, none, some, String, List, [], ◌∷◌, ◌++◌,
  map, arith, Eq, ◌==◌, nat_eq, Map, values, lookup, any, if◌then◌else◌,
}
use nova_connect.Rooms.{RoomId, PeerId, RoomUser, Joined, room_eq}
use nova_connect.Calls.Duration.{Duration}

-- { type, id, key }: the key is 'dm:' or 'ch:' with the id, so scopes are compared whole.
pub data Scope : Type 0 where
  dm : ℕ → Scope
  channel : ℕ → Scope

abbrev pub scope_beq : Scope → Scope → Bool
scope_beq (dm a) (dm b) = a == b
scope_beq (channel a) (channel b) = a == b
scope_beq _ _ = false

pub scope_beq_iff : (a b : Scope) → (scope_beq a b ≡ true) ↔ (a ≡ b)
scope_beq_iff (dm a) (dm b) = ground arith
scope_beq_iff (channel a) (channel b) = ground arith
scope_beq_iff a b = ground arith

instance abbrev pub scope_eq : Eq Scope
scope_eq = record { beq = scope_beq; beq_iff = scope_beq_iff }

pub data Mode : Type 0 where
  audio video : Mode

-- Why a call ended: 'Call declined', 'No answer', 'Call cancelled', 'Call ended', a shutdown, or null.
pub data Reason : Type 0 where
  declined no_answer cancelled hung_up shutdown : Reason

pub record Member : Type 0 where
  pub user_id : ℕ
  pub peer_id : PeerId
  pub full_name : String

-- `ring_timer`: whether the timer is armed. `members` is keyed by socket.
pub record Call : Type 0 where
  pub id : ℕ
  pub scope : Scope
  pub mode : Mode
  pub started_by : ℕ
  pub direct : Bool
  pub connected : Bool
  pub started_at : ℕ
  pub connected_at : Option ℕ
  pub post_id : Option ℕ
  pub user_ids : List ℕ
  pub members : Map ℕ Member
  pub ring_timer : Bool
  pub title : String

pub record Summary : Type 0 where
  pub id : ℕ
  pub scope : Scope
  pub mode : Mode
  pub count : ℕ
  pub direct : Bool

-- The 'gcall:*' events that clients are sent.
pub data Notice : Type 0 where
  incoming : ℕ → ℕ → Mode → Bool → String → ℕ → String → Notice
  answered : ℕ → ℕ → Notice
  ring_stop : ℕ → Notice
  ended : ℕ → Option Reason → Notice
  state : Scope → Option Summary → Notice

-- The posts of a call, as `{ call: … }` in their metadata names them, with the length they show.
pub data Outcome : Type 0 where
  meeting_ended : Duration → Outcome
  call_ended : Duration → Outcome
  call_declined call_missed call_cancelled : Outcome
  group_ended : Duration → Outcome
  group_missed : Outcome

-- What the module does to the rest of the server, in order.
pub data Effect : Type 0 where
  emit_user : ℕ → Notice → Effect
  emit_channel : ℕ → Notice → Effect
  peer_left : RoomId → Member → Effect
  peer_joined : RoomId → ℕ → Member → Effect
  close_peer : RoomId → PeerId → Effect
  touch_presence : ℕ → Effect
  post_started : ℕ → ℕ → Mode → ℕ → Effect
  update_post : ℕ → ℕ → Outcome → ℕ → Effect
  post_outcome : Scope → ℕ → Outcome → ℕ → Effect

-- The record that `persist` writes to Redis.
pub record Recovery : Type 0 where
  pub id : ℕ
  pub scope : Scope
  pub started_by : ℕ
  pub direct : Bool
  pub started_at : ℕ
  pub connected_at : Option ℕ
  pub post_id : Option ℕ
  pub last_seen_at : ℕ

-- `gone`: the objects of calls that have ended, which a handler that waits may still hold.
-- `rooms`: the SFU rooms that exist. `joined`: the members of the socket.io rooms 'sfu:<room>'.
pub record State : Type 0 where
  pub calls : Map ℕ Call
  pub gone : Map ℕ Call
  pub by_scope : Map Scope ℕ
  pub room_users : Map ℕ RoomUser
  pub rooms : List RoomId
  pub joined : Joined
  pub recovery : Map ℕ Recovery
  pub out : List Effect

abbrev pub room_of : Call → RoomId
room_of c = RoomId.gcall c.id

abbrev pub push : Effect → State → State
push e s = record s { out = s.out ++ e ∷ [] }

abbrev pub push_all : List Effect → State → State
push_all es s = record s { out = s.out ++ es }

-- Whether a person is among the members of a call.
unfoldable pub is_member : ℕ → Call → Bool
is_member u c = any (λ m. m.user_id == u) (values c.members)

-- `call.id === exceptCallId`
abbrev pub is_excepted : Option ℕ → ℕ → Bool
is_excepted none i = false
is_excepted (some j) i = i == j

-- `inGroupCall`: in any call but the one that is excepted.
unfoldable pub in_group_call : ℕ → Option ℕ → State → Bool
in_group_call u except s =
    any (λ c. not (is_excepted except c.id) && is_member u c) (values s.calls)

-- `new Set(…).size`: how many different people.
unfoldable pub distinct : List ℕ → ℕ
distinct [] = 0
distinct (u ∷ us) = let rest = distinct us in if any (λ v. v == u) us then rest else suc rest

unfoldable pub distinct_users : Call → ℕ
distinct_users c = distinct (map (λ m. m.user_id) (values c.members))

unfoldable pub summary : Call → Summary
summary c = record {
  id = c.id;
  scope = c.scope;
  mode = c.mode;
  count = distinct_users c;
  direct = c.direct;
}

-- `tellScope`: to the channel's room, or to each person of the chat.
unfoldable pub told : Call → Notice → List Effect
told c n = elim c.scope [
  | channel ch ↦ emit_channel ch n ∷ []
  | dm _ ↦ map (λ u. emit_user u n) c.user_ids
]

unfoldable pub tell_scope : Call → Notice → State → State
tell_scope c n s = push_all (told c n) s

unfoldable pub broadcast_state : Call → Bool → State → State
broadcast_state c active s =
    tell_scope c (state c.scope (if active then some (summary c) else none)) s

-- `roomUserMap.get(sid)?.roomId === roomId`
unfoldable pub is_in_room : ℕ → RoomId → Map ℕ RoomUser → Bool
is_in_room k r users = elim (lookup k users) [ none ↦ false | some m ↦ m.room_id == r ]
