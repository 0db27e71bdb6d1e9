-- ===== src/Meetings/Steps.antt =====
-- What changes who is in which room of a meeting, as one function of an event: the handlers of
-- src/meet-signaling.js with the user that `authorized` answers with. `owner` gives the owner of a
-- code, as the table `meet_links` does. A move between rooms waits for an SFU room in the middle: in
-- `move_starts` and `move_ends` its parts are events of their own, which others can come between, and in
-- the handlers that move people nothing comes between them. The sockets of group calls are not in this state.
use nova_connect.Prelude.{
  ℕ, Bool, Option, none, some, String, List, [], ◌∷◌, true, false, Map, Result, ok, err,
}
use nova_connect.Rooms.{RoomId, PeerId, RoomUser}
use nova_connect.Meetings.State.{State, main_of}
use nova_connect.Meetings.Lobby.{Error, User, leave, close_conn, join, request_join, admit, deny}
use nova_connect.Meetings.Moves.{move_begins, move_finish}
use nova_connect.Meetings.Breakouts.{
  setup, assign, open_rooms, close_rooms, time_is_up, visit, return_main,
}
use nova_connect.Meetings.Extras.{raise_hand, set_captions, pause_producer}

pub data Event : Type 0 where
  joins : ℕ → String → User → Event
  asks : ℕ → RoomId → User → Event
  admits : ℕ → RoomId → PeerId → User → Event
  denies : ℕ → RoomId → PeerId → User → Event
  leaves : ℕ → Event
  closes : ℕ → Event
  sets_up : ℕ → RoomId → User → ℕ → Option (Map PeerId ℕ) → Event
  assigns : ℕ → RoomId → User → PeerId → Option ℕ → Event
  opens : ℕ → RoomId → User → ℕ → ℕ → Event
  ends : ℕ → RoomId → User → Event
  times_out : String → Event
  visits : ℕ → RoomId → User → Option ℕ → Event
  returns : ℕ → RoomId → Event
  raises : ℕ → RoomId → Bool → Event
  captions : ℕ → RoomId → Bool → Event
  pauses : ℕ → RoomId → Bool → Bool → Event
  move_starts : ℕ → RoomId → Event
  move_ends : ℕ → RoomUser → RoomId → String → Event

-- All but the parts of a move, which the other events have as one.
abbrev pub is_whole : Event → Bool
is_whole (joins k code u) = true
is_whole (asks k r u) = true
is_whole (admits k r p u) = true
is_whole (denies k r p u) = true
is_whole (leaves k) = true
is_whole (closes k) = true
is_whole (sets_up k r u asked given) = true
is_whole (assigns k r u p index) = true
is_whole (opens k r u minutes now) = true
is_whole (ends k r u) = true
is_whole (times_out code) = true
is_whole (visits k r u index) = true
is_whole (returns k r) = true
is_whole (raises k r raised) = true
is_whole (captions k r on) = true
is_whole (pauses k r audio paused) = true
is_whole (move_starts k target) = false
is_whole (move_ends k m target name) = false

-- A request that is refused changes nothing.
abbrev pub kept_or : State → Result Error State → State
kept_or s (err e) = s
kept_or s (ok t) = t

abbrev pub kept_or_first : State → Result Error (State × Bool) → State
kept_or_first s (err e) = s
kept_or_first s (ok p) = p.0

-- The owner's id of a code.
abbrev pub Owners : Type 0
Owners = String → Option ℕ

-- 'meet:join' of a code that has no link is refused.
abbrev pub joined_or : ℕ → String → User → Option ℕ → State → State
joined_or k code u none s = s
joined_or k code u (some o) s = join k code u o s

-- What lies outside the program: how a number is written, the random order, and the links' owners.
pub record Outside : Type 0 where
  pub label : ℕ → String
  pub shuffle : List PeerId → List PeerId
  pub owner : Owners

abbrev code_of : Option String → String
code_of none = ""
code_of (some c) = c

unfoldable pub step : Outside → Event → State → State
step w (joins k code u) s = joined_or k code u (w.owner code) s
step w (asks k r u) s = kept_or_first s (request_join k r u s)
step w (admits k r p u) s = kept_or s (admit k r p (w.owner (code_of (main_of r))) u s)
step w (denies k r p u) s = kept_or s (deny k r p (w.owner (code_of (main_of r))) u s)
step w (leaves k) s = leave k s
step w (closes k) s = close_conn k s
step w (sets_up k r u asked given) s =
    kept_or s (setup w.label w.shuffle k r w.owner u asked given s)
step w (assigns k r u p index) s = kept_or s (assign k r w.owner u p index s)
step w (opens k r u minutes now) s = kept_or s (open_rooms k r w.owner u minutes now s)
step w (ends k r u) s = kept_or s (close_rooms k r w.owner u s)
step w (times_out code) s = time_is_up code s
step w (visits k r u index) s = kept_or s (visit k r w.owner u index s)
step w (returns k r) s = kept_or s (return_main k r s)
step w (raises k r raised) s = kept_or s (raise_hand k r raised s)
step w (captions k r on) s = kept_or_first s (set_captions k r on s)
step w (pauses k r audio paused) s = kept_or s (pause_producer k r audio paused s)
step w (move_starts k target) s = move_begins k target s
step w (move_ends k m target name) s = move_finish k m target name s

unfoldable pub run : Outside → List Event → State → State
run w [] s = s
run w (e ∷ es) s = run w es (step w e s)

unfoldable pub initial : State
initial = record {
  room_users = [];
  rooms = [];
  breakouts = [];
  conns = [];
  lobby_joined = [];
  sfu_joined = [];
  out = [];
}
