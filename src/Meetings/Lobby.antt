-- ===== src/Meetings/Lobby.antt =====
-- Joining a meeting through its lobby: `leave`, `admitSocket` and the events 'meet:join',
-- 'meet:request-join', 'meet:admit', 'meet:deny' and 'meet:lobby-list' of src/meet-signaling.js.
-- `link` is the row that the database has for the code (its owner), and `owner` the answer of
-- `meetingOwnerId`; a handler is the part that runs after its last wait.
use nova_connect.Prelude.{
  ℕ, Bool, true, false, not, ◌&&◌, ◌||◌, Option, none, some, String, List, [], ◌∷◌, find, keep,
  values, lookup, insert, erase, has, if◌then◌else◌, ◌==◌, nat_eq, string_eq, pair_eq, Result, ok,
  err,
}
use nova_connect.Rooms.{RoomId, meet, room_eq, PeerId, RoomUser, socket_leave}
use nova_connect.Meetings.State.{
  lobby_waiting, lobby_left, admitted_to, denied_from, peer_left, peer_joined, to_socket, to_room,
  to_others, State, main_of, emit, in_meeting, notify_owners, create_room, close_peer,
  delete_if_empty, announce_captions, conn_of,
}

pub data Error : Type 0 where
  not_in_room : Error
  not_in_lobby : Error
  not_owner : Error
  room_not_found : Error
  not_waiting : Error
  not_admitted : Error
  not_a_meeting : Error
  close_first : Error
  set_up_first : Error
  call_ended : Error
  person_left : Error
  unknown_reaction : Error
  not_available : Error

-- A row of `users` as `authorized` answers with it.
pub record User : Type 0 where
  pub id : ℕ
  pub full_name : String

-- `endBreakoutsIfEmpty`
unfoldable pub end_breakouts_if_empty : Option String → State → State
end_breakouts_if_empty none s = s
end_breakouts_if_empty (some code) s = elim (in_meeting code s) [
  | [] ↦ record s { breakouts = erase code s.breakouts }
  | _ ∷ _ ↦ s
]

-- The part of `leave` for a connection that has an entry.
unfoldable pub leave_entry : ℕ → RoomId → RoomUser → State → State
leave_entry k r m s =
    let t = record s { room_users = erase k s.room_users } in
    if m.in_lobby
    then notify_owners r m.owner_id (lobby_left m.peer_id) t
    else let u =
        emit (to_room r (peer_left m.peer_id m.user_id m.full_name)) (close_peer r m.peer_id t) in
      if m.captions then announce_captions r u else u

unfoldable pub drop_entry : ℕ → RoomId → State → State
drop_entry k r s = elim (lookup k s.room_users) [ none ↦ s | some m ↦ leave_entry k r m s ]

unfoldable pub leave_room : ℕ → RoomId → State → State
leave_room k r s =
    let t = delete_if_empty r (drop_entry k r s) in
    let u = record t {
      lobby_joined = socket_leave k r t.lobby_joined;
      sfu_joined = socket_leave k r t.sfu_joined;
    } in
    let v = end_breakouts_if_empty (main_of r) u in
    record v { conns = insert k (record { room_code = none; meeting_id = none }) v.conns }

-- `leave`
unfoldable pub leave : ℕ → State → State
leave k s = elim (conn_of k s).room_code [ none ↦ s | some r ↦ leave_room k r s ]

-- The connection is closed: it is in no socket.io room any more, and `leave` runs.
unfoldable pub close_conn : ℕ → State → State
close_conn k s =
    let t = leave k s in
    record t {
      conns = erase k t.conns;
      lobby_joined = keep (λ (e : ℕ × RoomId). not (e.0 == k)) t.lobby_joined;
      sfu_joined = keep (λ (e : ℕ × RoomId). not (e.0 == k)) t.sfu_joined;
    }

abbrev pub lobby_entry : RoomId → ℕ → User → ℕ → RoomUser
lobby_entry r k u owner = record {
  room_id = r;
  peer_id = (u.id, k);
  user_id = u.id;
  full_name = u.full_name;
  owner_id = some owner;
  in_lobby = true;
  waiting = false;
  hand = false;
  mic_off = false;
  cam_off = false;
  captions = false;
}

-- 'meet:join' of an active link, from `createRoom` on.
unfoldable pub join : ℕ → String → User → ℕ → State → State
join k code u owner s =
    let r = meet code in
    let t = leave k (create_room r s) in
    record t {
      conns = insert k (record { room_code = some r; meeting_id = some code }) t.conns;
      room_users = insert k (lobby_entry r k u owner) t.room_users;
      lobby_joined = (k, r) ∷ t.lobby_joined;
    }

-- `admitSocket`
unfoldable pub admit_socket : ℕ → RoomUser → State → State
admit_socket k m s =
    let t = record s {
      room_users = insert k (record m { in_lobby = false }) s.room_users;
      sfu_joined = (k, m.room_id) ∷ s.sfu_joined;
    } in
    emit (to_others m.room_id k (peer_joined m.peer_id m.user_id m.full_name))
      (emit (to_socket k (admitted_to m.room_id)) t)

-- `findInLobby`
unfoldable pub find_in_lobby : RoomId → PeerId → State → Option (ℕ × RoomUser)
find_in_lobby r p s =
    find (λ (e : ℕ × RoomUser). e.1.room_id == r && e.1.peer_id == p && e.1.in_lobby) s.room_users

-- `roomId !== 'meet:' + meetingId`
unfoldable pub is_own_meeting : ℕ → RoomId → State → Bool
is_own_meeting k r s = elim (conn_of k s).meeting_id [ none ↦ false | some c ↦ r == meet c ]

abbrev pub is_owner : Option ℕ → ℕ → Bool
is_owner none u = false
is_owner (some o) u = o == u

-- The rest of 'meet:request-join' for somebody in the lobby.
unfoldable pub ask : ℕ → RoomId → RoomUser → User → State → State × Bool
ask k r m u s = if is_owner m.owner_id u.id then (admit_socket k m s, true) else (
  notify_owners r m.owner_id (lobby_waiting m.peer_id u.id u.full_name)
      (record s { room_users = insert k (record m { waiting = true }) s.room_users }),
  false,
)

-- 'meet:request-join'; the answer says whether the person is in.
unfoldable pub request_join : ℕ → RoomId → User → State → Result Error (State × Bool)
request_join k r u s =
    if not (is_own_meeting k r s) then err not_in_room else elim (lookup k s.room_users) [
      | none ↦ err not_in_lobby
      | some m ↦ if m.in_lobby then ok (ask k r m u s) else ok (s, true)
    ]

-- The person of the lobby that 'meet:admit' and 'meet:deny' name, with the checks of both; `there`
-- is the answer of `getRoom`, which only 'meet:admit' asks for.
unfoldable pub waiting_person :
    ℕ → RoomId → PeerId → Option ℕ → Bool → User → State → Result Error (ℕ × RoomUser)
waiting_person k r p owner there u s =
    if not (is_own_meeting k r s)
    then err not_in_room
    else if not (is_owner owner u.id)
    then err not_owner
    else if not there
    then err room_not_found
    else elim (find_in_lobby r p s) [
      | none ↦ err not_waiting
      | some e ↦ if e.1.waiting then ok e else err not_waiting
    ]

-- 'meet:admit'
abbrev pub admitted_by :
    User → RoomId → PeerId → State → Result Error (ℕ × RoomUser) → Result Error State
admitted_by u r p s (err e) = err e
admitted_by u r p s (ok e) =
    ok (notify_owners r (some u.id) (lobby_left p) (admit_socket e.0 e.1 s))

unfoldable pub admit : ℕ → RoomId → PeerId → Option ℕ → User → State → Result Error State
admit k r p owner u s = admitted_by u r p s (waiting_person k r p owner (has r s.rooms) u s)

-- 'meet:deny'
abbrev pub denied_by :
    User → RoomId → PeerId → State → Result Error (ℕ × RoomUser) → Result Error State
denied_by u r p s (err e) = err e
denied_by u r p s (ok e) =
    let t = record s {
      room_users = erase e.0 s.room_users;
      lobby_joined = socket_leave e.0 r s.lobby_joined;
    } in
    ok (notify_owners r (some u.id) (lobby_left p) (emit (to_socket e.0 (denied_from r)) t))

unfoldable pub deny : ℕ → RoomId → PeerId → Option ℕ → User → State → Result Error State
deny k r p owner u s = denied_by u r p s (waiting_person k r p owner true u s)

-- 'meet:lobby-list'
unfoldable pub lobby_list : ℕ → RoomId → Option ℕ → User → State → Result Error (List RoomUser)
lobby_list k r owner u s =
    if not (is_own_meeting k r s)
    then err not_in_room
    else if not (is_owner owner u.id)
    then err not_owner
    else ok
        (keep (λ (m : RoomUser). m.room_id == r && m.in_lobby && m.waiting) (values s.room_users))

-- `admitted`
unfoldable pub admitted : ℕ → RoomId → State → Result Error RoomUser
admitted k r s = elim (lookup k s.room_users) [
  | none ↦ err not_admitted
  | some m ↦ if not (m.room_id == r) || m.in_lobby then err not_admitted else ok m
]
