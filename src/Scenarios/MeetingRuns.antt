-- ===== src/Scenarios/MeetingRuns.antt =====
-- A meeting of Olga (7), who owns it, and Gus (8), who waits in its lobby; and a board that they draw.
use nova_connect.Prelude.{
  ◌≡◌, refl, true, false, none, some, List, [], ◌∷◌, arith, lookup, insert, nat_eq,
}
use nova_connect.Rooms.{meet, breakout, RoomUser, is_joined}
use nova_connect.Meetings.State.{Conn, State, create_room, conn_of, emit, notify_owners}
use nova_connect.Meetings.Lobby.{
  User, leave, join, request_join, ask, admit_socket, is_own_meeting, lobby_entry,
}
use nova_connect.Meetings.Moves.{moved}
use nova_connect.Meetings.Steps.{
  Outside, Event, joins, asks, admits, move_starts, move_ends, step, run, initial,
}
use nova_connect.Meetings.State.{Breakout}
use nova_connect.Meetings.Breakouts.{arranged}
use nova_connect.Meetings.Ranges.{InRange}
use nova_connect.Meetings.Gate.{view, IsGated}
use nova_connect.Meetings.Overlap.{moves_overlap}
use nova_connect.Meetings.LobbyLaws.{
  step-IsGated, run-IsGated, initial-IsGated, lobby_hears-nothing,
}
use nova_connect.Meetings.Whiteboard.{xy, Key, Board, new_board, Batch, stroke}
use nova_connect.Meetings.Whiteboard.Points.{IsWithin, stroke-IsWithin}

abbrev olga : User
olga = record { id = 7; full_name = "Olga" }

abbrev gus : User
gus = record { id = 8; full_name = "Gus" }

abbrev outside : Outside
outside = record { label = λ n. "1"; shuffle = λ l. l; owner = λ code. some 7 }

-- Both join; Olga goes in, and Gus asks and waits.
abbrev morning : List Event
morning = joins 1 "a" olga ∷ joins 2 "a" gus ∷ asks 1 (meet "a") olga ∷ asks 2 (meet "a") gus ∷ []

abbrev meeting : State
meeting = run outside morning initial

abbrev gus_entry : RoomUser
gus_entry = record (lobby_entry (meet "a") 2 gus 7) { waiting = true }

gus-waits : lookup 2 meeting.room_users ≡ some gus_entry
unfolding lookup insert run step initial join leave conn_of create_room request_join is_own_meeting
    ask admit_socket emit notify_owners
gus-waits = refl

lobby_hears-nothing_example : is_joined 2 (meet "a") meeting.sfu_joined ≡ false
lobby_hears-nothing_example =
    lobby_hears-nothing outside morning 2 (meet "a") gus_entry refl gus-waits refl

meeting-IsGated : IsGated (view meeting)
meeting-IsGated = run-IsGated outside morning initial refl initial-IsGated

step-IsGated_example : IsGated (view (step outside (admits 1 (meet "a") (8, 2) olga) meeting))
step-IsGated_example =
    step-IsGated outside (admits 1 (meet "a") (8, 2) olga) meeting refl meeting-IsGated

-- Olga is in the meeting, and is sent to a breakout room while she goes to another.
abbrev olga_entry : RoomUser
olga_entry = record (lobby_entry (meet "a") 1 olga 7) { in_lobby = false }

abbrev olga_conn : Conn
olga_conn = record { room_code = some (meet "a"); meeting_id = none }

abbrev in_meeting : State
in_meeting = record initial {
  room_users = (1, olga_entry) ∷ [];
  conns = (1, olga_conn) ∷ [];
  sfu_joined = (1, meet "a") ∷ [];
}

moves_overlap_example :
    let t =
      run outside
        (move_starts 1 (breakout "a" 1)
          ∷ move_starts 1 (breakout "a" 2)
          ∷ move_ends 1 olga_entry (breakout "a" 1) "Room 1"
          ∷ move_ends 1 olga_entry (breakout "a" 2) "Room 2"
          ∷ [])
        in_meeting in
    (lookup 1 t.room_users ≡ some (moved olga_entry (breakout "a" 2)))
    × (is_joined 1 (breakout "a" 1) t.sfu_joined ≡ true)
    × (is_joined 1 (breakout "a" 2) t.sfu_joined ≡ true)
unfolding lookup
moves_overlap_example =
    moves_overlap 1 olga_entry olga_conn (breakout "a" 1) (breakout "a" 2) "Room 1" "Room 2" refl
      (λ e. cc (e)) (λ e. cc (e)) (λ e. cc (e)) outside in_meeting refl refl

-- A board with one stroke of two points.
abbrev line : Batch
line = record {
  id = "s1";
  id_length = 2;
  color = "#102030";
  color_ok = true;
  width = 4;
  points = xy 10 20 ∷ xy 500000 1000000 ∷ [];
}

abbrev drawn : Board
drawn = stroke (7, 1) line new_board

new_board-IsWithin : IsWithin new_board
unfolding new_board lookup
new_board-IsWithin = record {
  distinct = tt;
  counted = refl;
  capped = ground arith;
  each = λ k s l. cc;
}

stroke-IsWithin_example : IsWithin drawn
stroke-IsWithin_example = stroke-IsWithin (7, 1) line new_board new_board-IsWithin

drawn-IsWithin : IsWithin drawn
drawn-IsWithin = stroke-IsWithin (7, 1) line new_board new_board-IsWithin

abbrev line_key : Key
line_key = ((7, 1), "s1")

abbrev wiped : Board
wiped = record { open_for_all = false; strokes = []; points = 0 }

abbrev rooms_of_two : Breakout
rooms_of_two = arranged (λ n. "1") (λ l. l) 1 2 none "a" meeting

abbrev no_places : Breakout
no_places = record {
  names = "Room 1" ∷ "Room 2" ∷ [];
  assign = [];
  is_open = false;
  ends_at = none;
  timer = false;
}

no_places-InRange : InRange no_places
unfolding lookup
no_places-InRange p i l = cc
