-- ===== src/Meetings/Breakouts.antt =====
-- The owner's actions on breakout rooms: the events 'sfu:breakout-…' of src/meet-signaling.js.
use Prim.Native.String.{◌++◌ as append}
use nova_connect.Prelude.{
  get, ℕ, zero, suc, ◌+◌, ◌*◌, ◌%◌, min, max, Bool, true, false, not, Option, none, some, String,
  List, [], ◌∷◌, Map, find, lookup, insert, erase, length, ltb, if◌then◌else◌, ◌==◌, nat_eq,
  string_eq, pair_eq, Result, ok, err, ◌>>=◌, ◌>>◌, keep, map, guard,
}
use nova_connect.Rooms.{RoomId, meet, breakout, room_eq, PeerId, RoomUser}
use nova_connect.Meetings.State.{
  breakout_state, breakout_notice, State, main_of, in_meeting, tell_meeting, Breakout,
}
use nova_connect.Meetings.Lobby.{
  Error, not_owner, not_a_meeting, close_first, set_up_first, User, is_owner, admitted,
}
use nova_connect.Meetings.Moves.{move, close_breakouts}

-- `breakoutOwner`: `owner` gives the owner of a code.
unfoldable pub breakout_owner :
    ℕ → RoomId → (String → Option ℕ) → User → State → Result Error String
breakout_owner k r owner u s = do
  admitted k r s
  elim (main_of r) [
    | none ↦ err not_a_meeting
    | some code ↦ if is_owner (owner code) u.id then ok code else err not_owner
  ]

-- `sidOfPeer`
unfoldable pub socket_of_peer : String → PeerId → State → Option ℕ
socket_of_peer code p s = elim (find (λ (e : ℕ × RoomUser). e.1.peer_id == p) (in_meeting code s)) [
  | none ↦ none
  | some e ↦ some e.0
]

-- The given places that are in range, in the order of the request; a later one for a peer wins.
unfoldable pub given_places : Map PeerId ℕ → ℕ → Map PeerId ℕ → Map PeerId ℕ
given_places [] n acc = acc
given_places ((p, i) ∷ ps) n acc = given_places ps n (if ltb i n then insert p i acc else acc)

-- `people.forEach((m, i) => map.set(m.peerId, i % n))`
unfoldable pub spread : List PeerId → ℕ → ℕ → Map PeerId ℕ → Map PeerId ℕ
spread [] i n acc = acc
spread (p ∷ ps) i n acc = spread ps (suc i) n (insert p (i % n) acc)

-- `Math.max(1, Math.min(20, Number(count) || 0))`
unfoldable pub room_count : ℕ → ℕ
room_count asked = max 1 (min 20 asked)

-- `Array.from({ length: n }, (_, i) => 'Room ' + (i + 1))`; `label` writes a number in decimals.
unfoldable pub room_names : (ℕ → String) → ℕ → ℕ → List String
room_names label i zero = []
room_names label i (suc n) = append "Room " (label (suc i)) ∷ room_names label (suc i) n

-- Everyone in the meeting but the connection `k`.
unfoldable pub people_but : ℕ → String → State → List PeerId
people_but k code s =
    let me : Option PeerId = elim (lookup k s.room_users) [
      | none ↦ none
      | some m ↦ some m.peer_id
    ] in
    map (λ (e : ℕ × RoomUser). e.1.peer_id)
      (keep (λ (e : ℕ × RoomUser). elim me [ none ↦ true | some p ↦ not (e.1.peer_id == p) ])
        (in_meeting code s))

unfoldable pub arranged :
    (ℕ → String)
    → (List PeerId → List PeerId)
    → ℕ
    → ℕ
    → Option (Map PeerId ℕ)
    → String
    → State
    → Breakout
arranged label shuffle k asked given code s =
    let n = room_count asked in
    record {
      names = room_names label 0 n;
      assign = elim given [
        | none ↦ spread (shuffle (people_but k code s)) 0 n []
        | some places ↦ given_places places n []
      ];
      is_open = false;
      ends_at = none;
      timer = false;
    }

abbrev pub is_running : String → State → Bool
is_running code s = elim (lookup code s.breakouts) [ none ↦ false | some b ↦ b.is_open ]

-- 'sfu:breakout-setup': `shuffle` is the random order.
unfoldable pub setup :
    (ℕ → String)
    → (List PeerId → List PeerId)
    → ℕ
    → RoomId
    → (String → Option ℕ)
    → User
    → ℕ
    → Option (Map PeerId ℕ)
    → State
    → Result Error State
setup label shuffle k r owner u asked given s = do
  code ← breakout_owner k r owner u s
  guard (not (is_running code s)) close_first
  ok (
      tell_meeting code breakout_state (record s {
        breakouts = insert code (arranged label shuffle k asked given code s) s.breakouts;
      }))

-- `Number.isInteger(index) && index >= 0 && index < b.rooms.length ? index : -1`
unfoldable pub in_range : Option ℕ → Breakout → Option ℕ
in_range none b = none
in_range (some i) b = if ltb i (length b.names) then some i else none

-- Where a place is: the main meeting, or a room with its name.
unfoldable pub target_of : String → Option ℕ → Breakout → RoomId × String
target_of code none b = (meet code, "Main meeting")
target_of code (some i) b =
    (breakout code i, elim (get i b.names) [ none ↦ "undefined" | some name ↦ name ])

-- Moves the peer there, if its connection is in the meeting.
unfoldable pub send : String → PeerId → Option ℕ → Breakout → State → State
send code p place b s = elim (socket_of_peer code p s) [
  | none ↦ s
  | some k ↦ let t = target_of code place b in move k t.0 t.1 s
]

unfoldable pub assigned : PeerId → Option ℕ → Breakout → Breakout
assigned p none b = record b { assign = erase p b.assign }
assigned p (some i) b = record b { assign = insert p i b.assign }

-- 'sfu:breakout-assign'
unfoldable pub assign :
    ℕ → RoomId → (String → Option ℕ) → User → PeerId → Option ℕ → State → Result Error State
assign k r owner u p index s = do
  code ← breakout_owner k r owner u s
  elim (lookup code s.breakouts) [
    | none ↦ err set_up_first
    | some b ↦
        let place = in_range index b in
        let c = assigned p place b in
        let t = record s { breakouts = insert code c s.breakouts } in
        ok (if b.is_open then send code p place c t else t)
  ]

unfoldable pub send_all : String → Map PeerId ℕ → Breakout → State → State
send_all code [] b s = s
send_all code ((p, i) ∷ ps) b s = send_all code ps b (send code p (some i) b s)

-- `Math.max(0, Math.min(240, Number(minutes) || 0))`
unfoldable pub timed : ℕ → ℕ → Breakout → Breakout
timed minutes now b =
    let mins = min 240 minutes in
    if mins == 0
    then record b { is_open = true; ends_at = none }
    else record b { is_open = true; ends_at = some (now + mins * 60000); timer = true }

-- 'sfu:breakout-open'; the notice that everyone gets also names the minutes.
unfoldable pub open_rooms :
    ℕ → RoomId → (String → Option ℕ) → User → ℕ → ℕ → State → Result Error State
open_rooms k r owner u minutes now s = do
  code ← breakout_owner k r owner u s
  elim (lookup code s.breakouts) [
    | none ↦ err set_up_first
    | some b ↦
        let c = timed minutes now b in
        let t = send_all code c.assign c (record s { breakouts = insert code c s.breakouts }) in
        ok (
          if b.is_open
          then s
          else tell_meeting code (breakout_notice "Breakout rooms are open")
              (tell_meeting code breakout_state t))
  ]

-- 'sfu:breakout-close'
unfoldable pub close_rooms : ℕ → RoomId → (String → Option ℕ) → User → State → Result Error State
close_rooms k r owner u s = do
  code ← breakout_owner k r owner u s
  ok (
      close_breakouts code
        (some "The breakout rooms are closed: everyone is back in the main meeting.") s)

-- The timer of 'sfu:breakout-open' goes off.
unfoldable pub time_is_up : String → State → State
time_is_up code s =
    close_breakouts code (some "Time is up: everyone is back in the main meeting.") s

abbrev no_rooms : Breakout
no_rooms = record { names = []; assign = []; is_open = false; ends_at = none; timer = false }

-- 'sfu:breakout-join'
unfoldable pub visit :
    ℕ → RoomId → (String → Option ℕ) → User → Option ℕ → State → Result Error State
visit k r owner u index s = do
  code ← breakout_owner k r owner u s
  let b : Breakout = elim (lookup code s.breakouts) [ none ↦ no_rooms | some b ↦ b ]
  let t = target_of code (if b.is_open then in_range index b else none) b
  ok (move k t.0 t.1 s)

-- 'sfu:breakout-return'
unfoldable pub return_main : ℕ → RoomId → State → Result Error State
return_main k r s = do
  m ← admitted k r s
  ok (elim (main_of r) [
    | none ↦ s
    | some code ↦ if m.room_id == meet code then s else move k (meet code) "Main meeting" s
  ])
