-- ===== src/Calls/Handlers.antt =====
-- 'gcall:start' and the ring timer of src/group-calls.js (`attach`). A handler that awaits in its middle is two
-- functions, what it does before and what it does after; the answers of the awaited call (the
-- database's rows, whether the other person has a socket, the stored post) are arguments.
use Prim.Native.String.{◌++◌ as append}
use nova_connect.Prelude.{
  ℕ, Bool, true, false, not, ◌&&◌, Option, none, some, String, List, [], ◌∷◌, ◌==◌, nat_eq,
  string_eq, map, lookup, insert, keep, if◌then◌else◌, Result, ok, err, ◌>>=◌, ◌>>◌, guard,
}
use nova_connect.Rooms.{RoomId, PeerId, room_eq}
use nova_connect.Calls.State.{
  Scope, dm, channel, Mode, no_answer, Call, Summary, Effect, incoming, ring_stop, emit_user,
  post_started, State, scope_eq, push_all, in_group_call, told, broadcast_state,
}
use nova_connect.Calls.Access.{
  Database, Error, invalid_request, finish_current, other_offline, other_busy, Person, Place,
  parse_scope, access,
}
use nova_connect.Calls.Lifecycle.{persist, end_call}

pub data Reply : Type 0 where
  call_info : ℕ → Mode → String → Reply
  entered : RoomId → PeerId → Mode → Bool → Reply
  status_info : Option Summary → Reply
  done : Reply

-- What 'gcall:start' goes on with: the call that runs there already, or a new one.
pub data Begun : Type 0 where
  running : Reply → Begun
  ready : Mode → Scope → Place → List Person → Begun

-- `(place.members || []).filter(m => m.id !== user.id)`
unfoldable pub others_of : Place → ℕ → List Person
others_of p user = elim p.members [ none ↦ [] | some ms ↦ keep (λ m. not (m.id == user)) ms ]

-- `calls.get(byScope.get(scope.key))`
unfoldable pub running_in : Scope → State → Option Call
running_in scope s = elim (lookup scope s.by_scope) [ none ↦ none | some id ↦ lookup id s.calls ]

unfoldable pub begin_new : Mode → Scope → Place → Person → State → Result Error Begun
begin_new mode scope place user s =
    if in_group_call user.id none s
    then err finish_current
    else ok (ready mode scope place (others_of place user.id))

-- 'gcall:start' up to the wait for the other person's sockets.
unfoldable pub start_begin :
    Database → Option Mode → Option ℕ → Option ℕ → Person → State → Result Error Begun
start_begin db none conversation_id channel_id user s = err invalid_request
start_begin db (some mode) conversation_id channel_id user s = do
  scope ← parse_scope conversation_id channel_id
  place ← access db scope user.id
  elim (running_in scope s) [
    | none ↦ begin_new mode scope place user s
    | some c ↦ ok (running (call_info c.id c.mode c.title))
  ]

-- The checks of the other person of a 1:1 chat, once it is known whether they have a socket.
unfoldable pub check_other : Bool → Place → List Person → State → Result Error (Unit {0})
check_other online place others s = elim others [
  | [] ↦ ok tt
  | other ∷ _ ↦
      if not place.direct
      then ok tt
      else if not online
      then err other_offline
      else guard (not (in_group_call other.id none s)) other_busy
]

-- `others.map(m => m.full_name).join(', ')`
unfoldable pub join_names : List Person → String
join_names [] = ""
join_names (p ∷ []) = p.full_name
join_names (p ∷ q ∷ r) = append p.full_name (append ", " (join_names (q ∷ r)))

-- `place.title || …`: an empty title counts as none.
unfoldable pub title_of : Place → List Person → String
title_of p others = elim p.title [
  | none ↦ join_names others
  | some t ↦ if t == "" then join_names others else t
]

unfoldable pub new_call : ℕ → ℕ → Mode → Scope → Place → List Person → Person → Call
new_call id now mode scope place others user = record {
  id = id;
  scope = scope;
  mode = mode;
  started_by = user.id;
  direct = place.direct;
  connected = false;
  started_at = now;
  connected_at = none;
  post_id = none;
  user_ids = elim place.members [ none ↦ [] | some ms ↦ map (λ m. m.id) ms ];
  members = [];
  ring_timer = false;
  title = title_of place others;
}

-- A chat is rung; a channel gets a post.
unfoldable pub announced : Call → Person → List Person → List Effect
announced c user others = elim c.scope [
  | dm conv ↦
      let title = if c.direct then user.full_name else c.title in
      map (λ m. emit_user m.id (incoming c.id conv c.mode c.direct title user.id user.full_name))
        others
  | channel ch ↦ post_started ch user.id c.mode c.id ∷ []
]

-- 'gcall:start' from the creation of the call up to the wait for the channel's post.
unfoldable pub start_create : Call → Person → List Person → State → State
start_create c user others s =
    push_all (announced c user others)
      (record s { calls = insert c.id c s.calls; by_scope = insert c.scope c.id s.by_scope })

-- `call.postId = post.id`, and the timer is armed.
unfoldable pub posted : Call → Option ℕ → Call
posted c post = record c { post_id = post; ring_timer = true }

-- The object of a call that has ended meanwhile, as the handler that waited still holds it.
unfoldable pub gone_object : Call → State → Call
gone_object c s = elim (lookup c.id s.gone) [ some d ↦ d | none ↦ c ]

-- The rest of 'gcall:start': `post` is the id of the channel's post, `none` where there is none.
-- The code does not look whether the call has ended while the post was stored.
unfoldable pub start_finish : Call → Option ℕ → ℕ → State → State
start_finish c post now s = elim (lookup c.id s.calls) [
  | none ↦
      let d = posted (gone_object c s) post in
      broadcast_state d true (persist d now (record s { gone = insert c.id d s.gone }))
  | some live ↦
      let d = posted live post in
      broadcast_state d true (persist d now (record s { calls = insert c.id d s.calls }))
]

-- A start in a chat, from its creation on, waits for nothing.
unfoldable pub start_commit :
    ℕ → ℕ → Bool → Mode → Scope → Place → List Person → Person → State → Result Error State
start_commit id now online mode scope place others user s = do
  check_other online place others s
  ok (start_create (new_call id now mode scope place others user) user others s)

-- The timer of 'gcall:start' goes off.
unfoldable pub ring_told : Call → List Effect
ring_told c = elim c.scope [ dm _ ↦ told c (ring_stop c.id) | channel _ ↦ [] ]

unfoldable pub ring_stops : Call → ℕ → State → State
ring_stops c now s =
    let quiet = record c { ring_timer = false } in
    let t = push_all (ring_told quiet) (record s { calls = insert c.id quiet s.calls }) in
    elim c.members [
      | [] ↦ end_call quiet none now t
      | _ ∷ _ ↦ if c.direct && not c.connected then end_call quiet (some no_answer) now t else t
    ]

unfoldable pub ring_fired : ℕ → ℕ → State → State
ring_fired id now s = elim (lookup id s.calls) [
  | none ↦ s
  | some c ↦ if c.ring_timer then ring_stops c now s else s
]
