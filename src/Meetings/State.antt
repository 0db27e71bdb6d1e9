-- ===== src/Meetings/State.antt =====
-- The state that src/meet-signaling.js keeps, with the SFU rooms of src/sfu.js as it uses them, and
-- the small functions that all handlers share.
use nova_connect.Prelude.{
  ℕ, Bool, true, false, not, ◌&&◌, Option, none, some, String, List, [], ◌∷◌, ◌++◌, any, keep, map,
  values, Map, lookup, insert, erase, has, length, if◌then◌else◌, ◌==◌, nat_eq, string_eq, pair_eq,
}
use nova_connect.Rooms.{RoomId, meet, breakout, room_eq, PeerId, RoomUser, Joined}

pub data Notice : Type 0 where
  lobby_waiting : PeerId → ℕ → String → Notice
  lobby_left : PeerId → Notice
  admitted_to : RoomId → Notice
  denied_from : RoomId → Notice
  peer_left : PeerId → ℕ → String → Notice
  peer_joined : PeerId → ℕ → String → Notice
  captions_state : Bool → Notice
  hand_state : PeerId → Bool → Notice
  spotlight_state : Option PeerId → Notice
  together_state : Bool → Notice
  reaction_sent : PeerId → String → Notice
  moved_to : RoomId → String → Notice
  breakout_state : Notice
  breakout_notice : String → Notice

-- `io.to(sid).emit`, `io.to('sfu:' + room).emit` and the same `except` one socket.
pub data Effect : Type 0 where
  to_socket : ℕ → Notice → Effect
  to_room : RoomId → Notice → Effect
  to_others : RoomId → ℕ → Notice → Effect

-- The SFU's object of a room.
pub record Room : Type 0 where
  pub peers : List PeerId
  pub captions_wanted : Bool
  pub spotlight : Option PeerId
  pub together : Bool

pub record Breakout : Type 0 where
  pub names : List String
  pub assign : Map PeerId ℕ
  pub is_open : Bool
  pub ends_at : Option ℕ
  pub timer : Bool

-- What the closure of `attach` keeps for one connection; a connection is in the map until it is
-- closed (`setRoomOf`).
pub record Conn : Type 0 where
  pub room_code : Option RoomId
  pub meeting_id : Option String

pub record State : Type 0 where
  pub room_users : Map ℕ RoomUser
  pub rooms : Map RoomId Room
  pub breakouts : Map String Breakout
  pub conns : Map ℕ Conn
  -- The members of the socket.io rooms `<room>` and of `sfu:<room>`.
  pub lobby_joined : Joined
  pub sfu_joined : Joined
  pub out : List Effect

-- `mainOf`
unfoldable pub main_of : RoomId → Option String
main_of (meet c) = some c
main_of (breakout c _) = some c
main_of _ = none

-- `meetCode`
unfoldable pub meet_code : RoomId → Option String
meet_code (meet c) = some c
meet_code _ = none

abbrev pub is_some_text : String → Option String → Bool
is_some_text c none = false
is_some_text c (some d) = d == c

-- `mainOf(a) === mainOf(b)`
unfoldable pub same_main : RoomId → RoomId → Bool
same_main a b = elim (main_of b) [
  | none ↦ (elim (main_of a) [ none ↦ true | some _ ↦ false ])
  | some c ↦ is_some_text c (main_of a)
]

unfoldable pub emit : Effect → State → State
emit e s = record s { out = s.out ++ e ∷ [] }

-- `inMeeting`
unfoldable pub in_meeting : String → State → Map ℕ RoomUser
in_meeting code s =
    keep (λ (e : ℕ × RoomUser). not e.1.in_lobby && is_some_text code (main_of e.1.room_id))
      s.room_users

-- `tellMeeting`
unfoldable pub tell_meeting : String → Notice → State → State
tell_meeting code n s = record s {
  out = s.out ++ map (λ (e : ℕ × RoomUser). to_socket e.0 n) (in_meeting code s);
}

-- `notifyOwners`
unfoldable pub notify_owners : RoomId → Option ℕ → Notice → State → State
notify_owners r owner n s = record s {
  out =
      s.out
      ++ map (λ (e : ℕ × RoomUser). to_socket e.0 n)
          (keep
            (λ (e : ℕ × RoomUser).
              same_main e.1.room_id r
              && (elim owner [ none ↦ false | some o ↦ e.1.user_id == o ])
              && not e.1.in_lobby)
            s.room_users);
}

-- `createRoom` of src/sfu.js
unfoldable pub create_room : RoomId → State → State
create_room r s = if has r s.rooms then s else record s {
  rooms =
      insert r (record { peers = []; captions_wanted = false; spotlight = none; together = false })
        s.rooms;
}

-- `closePeerTransports` of src/sfu.js: the peer is gone from the room.
unfoldable pub close_peer : RoomId → PeerId → State → State
close_peer r p s = elim (lookup r s.rooms) [
  | none ↦ s
  | some room ↦ record s {
    rooms = insert r (record room { peers = keep (λ q. not (q == p)) room.peers }) s.rooms;
  }
]

-- `if (room && room.peers.size === 0) deleteRoom(roomId)`
unfoldable pub delete_if_empty : RoomId → State → State
delete_if_empty r s = elim (lookup r s.rooms) [
  | none ↦ s
  | some room ↦ if length room.peers == 0 then record s { rooms = erase r s.rooms } else s
]

-- `captionsWanted`
unfoldable pub captions_wanted : RoomId → State → Bool
captions_wanted r s =
    any (λ (m : RoomUser). m.room_id == r && not m.in_lobby && m.captions) (values s.room_users)

abbrev pub bool_beq : Bool → Bool → Bool
bool_beq true b = b
bool_beq false b = not b

-- `announceCaptions`
unfoldable pub announce_captions : RoomId → State → State
announce_captions r s = elim (lookup r s.rooms) [
  | none ↦ s
  | some room ↦
      let wanted = captions_wanted r s in
      if bool_beq room.captions_wanted wanted
      then s
      else emit (to_room r (captions_state wanted))
          (record s { rooms = insert r (record room { captions_wanted = wanted }) s.rooms })
]

abbrev pub no_conn : Conn
no_conn = record { room_code = none; meeting_id = none }

-- The variables `roomCode` and `meetingId` of the connection.
unfoldable pub conn_of : ℕ → State → Conn
conn_of k s = elim (lookup k s.conns) [ none ↦ no_conn | some c ↦ c ]
