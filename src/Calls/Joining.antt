-- ===== src/Calls/Joining.antt =====
-- Joining, declining and leaving a call: the socket events of src/group-calls.js (`attach`) after
-- 'gcall:start', in the manner of Handlers.
use nova_connect.Prelude.{
  ℕ, true, false, not, ◌&&◌, ◌||◌, Option, none, some, List, [], ◌∷◌, ◌++◌, ◌==◌, nat_eq, string_eq,
  values, lookup, insert, has, any, leb, if◌then◌else◌, Result, ok, err, ◌>>=◌, ◌>>◌, guard, length,
}
use nova_connect.Rooms.{RoomId, RoomUser, room_eq}
use nova_connect.Calls.State.{
  Scope, declined, cancelled, Member, Call, Summary, answered, ring_stop, emit_user, peer_joined,
  touch_presence, State, scope_eq, room_of, push, in_group_call, distinct_users, summary,
  broadcast_state,
}
use nova_connect.Calls.Access.{
  Database, Error, finish_current, has_ended, already_in, leave_meeting, Person, parse_scope,
  access,
}
use nova_connect.Calls.Lifecycle.{persist, end_call, leave}
use nova_connect.Calls.Handlers.{Reply, entered, running_in}

-- 'gcall:join' up to the wait for the SFU room.
unfoldable pub join_check : Database → ℕ → Person → ℕ → State → Result Error Call
join_check db socket user id s = elim (lookup id s.calls) [
  | none ↦ err has_ended
  | some c ↦ do
    access db c.scope user.id
    guard (not (has socket c.members)) already_in
    guard (not (in_group_call user.id (some c.id) s)) finish_current
    guard (not (has socket s.room_users)) leave_meeting
    ok c
]

-- `createRoom`
unfoldable pub create_room : RoomId → State → State
create_room r s = if any (λ q. q == r) s.rooms then s else record s { rooms = s.rooms ++ r ∷ [] }

abbrev pub member_of : ℕ → Person → Member
member_of socket user = record {
  user_id = user.id;
  peer_id = (user.id, socket);
  full_name = user.full_name;
}

abbrev pub room_user_of : RoomId → ℕ → Person → RoomUser
room_user_of r socket user = record {
  room_id = r;
  peer_id = (user.id, socket);
  user_id = user.id;
  full_name = user.full_name;
  owner_id = none;
  in_lobby = false;
  waiting = false;
  hand = false;
  mic_off = false;
  cam_off = false;
  captions = false;
}

-- The member enters: a call is connected once two different people have been in it.
unfoldable pub admit : Call → ℕ → Person → ℕ → Call
admit c socket user now =
    let d = record c { members = insert socket (member_of socket user) c.members } in
    let two = leb 2 (distinct_users d) in
    record d {
      connected_at = elim c.connected_at [
        | some t ↦ some t
        | none ↦ if two then some now else none
      ];
      connected = c.connected || (c.direct && two);
      ring_timer = if c.direct && two then false else c.ring_timer;
    }

-- The call is persisted when it becomes connected.
unfoldable pub persist_connected : Call → Call → ℕ → State → State
persist_connected before after now s = elim before.connected_at [
  | some _ ↦ s
  | none ↦ elim after.connected_at [ none ↦ s | some _ ↦ persist after now s ]
]

unfoldable pub enter : Call → ℕ → Person → ℕ → State → State
enter c socket user now s =
    let d = admit c socket user now in
    let r = room_of c in
    let t = persist_connected c d now (record s { calls = insert c.id d s.calls }) in
    let u = push (touch_presence user.id) (record t {
      room_users = insert socket (room_user_of r socket user) t.room_users;
      joined = (socket, r) ∷ t.joined;
    }) in
    broadcast_state d true (
      push (emit_user user.id (answered c.id socket))
        (push (peer_joined r socket (member_of socket user)) u))

-- The rest of 'gcall:join', once the room is there.
unfoldable pub join_commit : ℕ → Person → ℕ → ℕ → State → State × Result Error Reply
join_commit socket user id now s =
    let made = create_room (RoomId.gcall id) s in
    elim (lookup id s.calls) [
      | none ↦ (made, err has_ended)
      | some c ↦
          (enter c socket user now made, ok (entered (room_of c) (user.id, socket) c.mode c.direct))
    ]

-- 'gcall:join' where nothing runs between its two halves.
abbrev pub join_checked :
    ℕ → Person → ℕ → ℕ → State → Result Error Call → State × Result Error Reply
join_checked socket user id now s (err e) = (s, err e)
join_checked socket user id now s (ok _) = join_commit socket user id now s

unfoldable pub join : Database → ℕ → Person → ℕ → ℕ → State → State × Result Error Reply
join db socket user id now s = join_checked socket user id now s (join_check db socket user id s)

-- 'gcall:decline'
unfoldable pub decline : ℕ → ℕ → ℕ → State → State
decline user id now s = elim (lookup id s.calls) [
  | none ↦ s
  | some c ↦
      if c.direct && not c.connected && not (c.started_by == user)
      then end_call c (some declined) now s
      else push (emit_user user (ring_stop id)) s
]

-- 'gcall:leave'
unfoldable pub hang_up : ℕ → ℕ → ℕ → State → State
hang_up socket id now s = elim (lookup id s.calls) [
  | none ↦ s
  | some c ↦
      if c.direct && not c.connected && has socket c.members && length c.members == 1
      then end_call c (some cancelled) now s
      else leave socket c now s
]

-- 'gcall:status'
unfoldable pub status :
    Database → Option ℕ → Option ℕ → Person → State → Result Error (Option Summary)
status db conversation_id channel_id user s = do
  scope ← parse_scope conversation_id channel_id
  access db scope user.id
  ok (elim (running_in scope s) [ none ↦ none | some c ↦ some (summary c) ])

-- `for (const call of [...calls.values()]) leave(socket, call)`
unfoldable pub leave_calls : ℕ → List Call → ℕ → State → State
leave_calls socket [] now s = s
leave_calls socket (c ∷ cs) now s =
    leave_calls socket cs now
      (elim (lookup c.id s.calls) [ none ↦ s | some d ↦ leave socket d now s ])

unfoldable pub disconnect : ℕ → ℕ → State → State
disconnect socket now s = leave_calls socket (values s.calls) now s

-- `scopeForRoom`
unfoldable pub scope_for_room : RoomId → List Call → Option Scope
scope_for_room r [] = none
scope_for_room r (c ∷ cs) = if room_of c == r then some c.scope else scope_for_room r cs
