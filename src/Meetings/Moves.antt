-- ===== src/Meetings/Moves.antt =====
-- Moving a connection between the rooms of its meeting: `moveSocket` and `closeBreakouts` of
-- src/meet-signaling.js. `move_begin` and `move_finish` are its parts before and after the wait for
-- `createRoom`; in `move` nothing comes between them.
use nova_connect.Prelude.{
  ℕ, false, ◌||◌, Option, none, some, String, List, [], ◌∷◌, lookup, insert, if◌then◌else◌, ◌==◌,
  nat_eq, string_eq,
}
use nova_connect.Rooms.{RoomId, meet, room_eq, RoomUser, socket_leave}
use nova_connect.Meetings.State.{
  peer_left, peer_joined, moved_to, breakout_state, breakout_notice, to_socket, to_others, State,
  emit, in_meeting, tell_meeting, create_room, close_peer, delete_if_empty, announce_captions,
}

-- Up to the wait for the SFU room.
unfoldable pub move_begin : ℕ → RoomUser → State → State
move_begin k m s =
    let from = m.room_id in
    let t =
      emit (to_others from k (peer_left m.peer_id m.user_id m.full_name))
        (close_peer from m.peer_id s) in
    record t {
      lobby_joined = socket_leave k from t.lobby_joined;
      sfu_joined = socket_leave k from t.sfu_joined;
    }

abbrev pub moved : RoomUser → RoomId → RoomUser
moved m target = record m {
  room_id = target;
  hand = false;
  mic_off = false;
  cam_off = false;
  captions = false;
}

-- `setRoomOf.get(sid)?.(target)` and `io.in(sid).socketsJoin(…)`, which a closed connection does
-- not take.
unfoldable pub place_in : ℕ → RoomId → State → State
place_in k target s = elim (lookup k s.conns) [
  | none ↦ s
  | some c ↦ record s {
    conns = insert k (record c { room_code = some target }) s.conns;
    lobby_joined = (k, target) ∷ s.lobby_joined;
    sfu_joined = (k, target) ∷ s.sfu_joined;
  }
]

-- From there on: `m` is the entry that was read before, and it is put back.
unfoldable pub move_finish : ℕ → RoomUser → RoomId → String → State → State
move_finish k m target name s =
    let from = m.room_id in
    let t = create_room target s in
    let u = place_in k target (record t { room_users = insert k (moved m target) t.room_users }) in
    let v = emit (to_others target k (peer_joined m.peer_id m.user_id m.full_name)) u in
    emit (to_socket k (moved_to target name)) (announce_captions from (delete_if_empty from v))

-- `moveSocket` up to the wait, with its first checks.
unfoldable pub move_begins : ℕ → RoomId → State → State
move_begins k target s = elim (lookup k s.room_users) [
  | none ↦ s
  | some m ↦ if m.in_lobby || m.room_id == target then s else move_begin k m s
]

-- `moveSocket`, with nothing between its parts.
unfoldable pub move : ℕ → RoomId → String → State → State
move k target name s = elim (lookup k s.room_users) [
  | none ↦ s
  | some m ↦
      if m.in_lobby || m.room_id == target
      then s
      else move_finish k m target name (move_begin k m s)
]

-- `for (const [sid, m] of inMeeting(code)) if (m.roomId !== main) await moveSocket(…)`
unfoldable pub move_all : List (ℕ × RoomUser) → RoomId → String → State → State
move_all [] target name s = s
move_all ((k, m) ∷ ms) target name s = move_all ms target name (move k target name s)

-- `closeBreakouts`
unfoldable pub close_breakouts : String → Option String → State → State
close_breakouts code why s = elim (lookup code s.breakouts) [
  | none ↦ s
  | some b ↦
      let closed = record s {
        breakouts =
            insert code (record b { timer = false; is_open = false; ends_at = none }) s.breakouts;
      } in
      let back = move_all (in_meeting code closed) (meet code) "Main meeting" closed in
      let told = tell_meeting code breakout_state back in
      elim why [ none ↦ told | some text ↦ tell_meeting code (breakout_notice text) told ]
]
