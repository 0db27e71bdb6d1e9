-- ===== src/Meetings/Extras.antt =====
-- In-call extras of src/meet-signaling.js: participants, hand, reactions, captions, spotlight,
-- Together mode, muted producers, the chat that a call keeps in memory, and where a recording goes.
use nova_connect.Prelude.{
  ℕ, suc, ◌-◌, Bool, true, not, ◌&&◌, ◌||◌, Option, none, some, String, List, [], ◌∷◌, ◌++◌, Map,
  find, any, lookup, insert, has, length, ltb, if◌then◌else◌, ◌==◌, nat_eq, string_eq, pair_eq,
  Result, ok, err, ◌>>=◌, ◌>>◌, keep, map, guard, values,
}
use nova_connect.Rooms.{RoomId, room_eq, PeerId, RoomUser}
use nova_connect.Calls.State.{Scope}
use nova_connect.Meetings.State.{
  hand_state, spotlight_state, together_state, reaction_sent, to_room, State, Room, main_of, emit,
  captions_wanted, announce_captions,
}
use nova_connect.Meetings.Lobby.{
  Error, not_owner, call_ended, person_left, unknown_reaction, not_available, User, is_owner,
  admitted,
}

-- 'sfu:hand'
unfoldable pub raise_hand : ℕ → RoomId → Bool → State → Result Error State
raise_hand k r raised s = do
  m ← admitted k r s
  ok (
      emit (to_room r (hand_state m.peer_id raised))
        (record s { room_users = insert k (record m { hand = raised }) s.room_users }))

-- 'sfu:captions'
unfoldable pub set_captions : ℕ → RoomId → Bool → State → Result Error (State × Bool)
set_captions k r on s = do
  m ← admitted k r s
  let t =
      announce_captions r
        (record s { room_users = insert k (record m { captions = on }) s.room_users })
  ok (t, captions_wanted r t)

-- 'sfu:pause-producer', once the SFU has paused a producer of this kind.
unfoldable pub pause_producer : ℕ → RoomId → Bool → Bool → State → Result Error State
pause_producer k r audio paused s = do
  m ← admitted k r s
  let n = if audio then record m { mic_off = paused } else record m { cam_off = paused }
  ok (record s { room_users = insert k n s.room_users })

-- The people that 'sfu:participants' lists.
unfoldable pub participants : RoomId → State → List RoomUser
participants r s = keep (λ (m : RoomUser). m.room_id == r && not m.in_lobby) (values s.room_users)

-- The spotlight that 'sfu:participants' answers with.
unfoldable pub shown_spotlight : RoomId → State → Option PeerId
shown_spotlight r s = elim (lookup r s.rooms) [
  | none ↦ none
  | some room ↦ elim room.spotlight [
    | none ↦ none
    | some p ↦ if any (λ (m : RoomUser). m.peer_id == p) (participants r s) then some p else none
  ]
]

-- `maySpotlight`
unfoldable pub may_spotlight : RoomId → (String → Option ℕ) → User → Bool
may_spotlight r owner u = elim (main_of r) [ none ↦ true | some code ↦ is_owner (owner code) u.id ]

-- The person whom 'sfu:spotlight' names, `none` for nobody.
unfoldable pub spotlight_target : RoomId → Option PeerId → State → Result Error (Option PeerId)
spotlight_target r none s = ok none
spotlight_target r (some p) s = elim (find (λ (m : RoomUser). m.peer_id == p) (participants r s)) [
  | none ↦ err person_left
  | some m ↦ ok (some m.peer_id)
]

unfoldable pub room_of_call : RoomId → State → Result Error Room
room_of_call r s = elim (lookup r s.rooms) [ none ↦ err call_ended | some room ↦ ok room ]

-- 'sfu:spotlight'
unfoldable pub spotlight :
    ℕ → RoomId → (String → Option ℕ) → User → Option PeerId → State → Result Error State
spotlight k r owner u peer s = do
  admitted k r s
  guard (may_spotlight r owner u) not_owner
  room ← room_of_call r s
  target ← spotlight_target r peer s
  ok (
      emit (to_room r (spotlight_state target))
        (record s { rooms = insert r (record room { spotlight = target }) s.rooms }))

-- 'sfu:together'
unfoldable pub together :
    ℕ → RoomId → (String → Option ℕ) → User → Bool → State → Result Error State
together k r owner u on s = do
  admitted k r s
  guard (may_spotlight r owner u) not_owner
  room ← room_of_call r s
  ok (
      emit (to_room r (together_state on))
        (record s { rooms = insert r (record room { together = on }) s.rooms }))

-- 'sfu:reaction'; `last` is the connection's `lastReaction`, and the answer its new value.
unfoldable pub reaction : ℕ → RoomId → String → Bool → ℕ → ℕ → State → Result Error (State × ℕ)
reaction k r emoji known last now s = do
  m ← admitted k r s
  guard known unknown_reaction
  ok (
      if ltb (now - last) 400
      then (s, last)
      else (emit (to_room r (reaction_sent m.peer_id emoji)) s, now))

-- The window of 'sfu:caption': when it started and how many lines came since.
pub record Window : Type 0 where
  pub start : ℕ
  pub count : ℕ

-- `if (now - captionWindow > 1000) …; if (++captionCount > 20) return`
unfoldable pub caption_allowed : ℕ → Window → Window × Bool
caption_allowed now w =
    let v : Window = if ltb 1000 (now - w.start) then record { start = now; count = 0 } else w in
    (record v { count = suc v.count }, not (ltb 20 (suc v.count)))

-- Who gets a caption line of `k`.
unfoldable pub caption_to : ℕ → RoomId → State → List ℕ
caption_to k r s = elim (lookup k s.room_users) [
  | none ↦ []
  | some m ↦
      if not (m.room_id == r) || m.in_lobby
      then []
      else map (λ (e : ℕ × RoomUser). e.0)
          (keep (λ (e : ℕ × RoomUser). e.1.room_id == r && not e.1.in_lobby && e.1.captions)
            s.room_users)
]

-- `rememberChat`: the histories of rooms that are gone are dropped, and a history keeps 200 lines.
unfoldable pub live_only : Map RoomId (List String) → State → Map RoomId (List String)
live_only h s = keep (λ (e : RoomId × List String). has e.0 s.rooms) h

unfoldable pub shifted : List String → List String
shifted [] = []
shifted (x ∷ xs) = if ltb 200 (length (x ∷ xs)) then xs else x ∷ xs

unfoldable pub remember_chat :
    RoomId → String → State → Map RoomId (List String) → Map RoomId (List String)
remember_chat r line s h =
    let live = live_only h s in
    let before : List String = elim (lookup r live) [ none ↦ [] | some l ↦ l ] in
    insert r (shifted (before ++ line ∷ [])) live

pub data Place : Type 0 where
  in_meeting_of : String → Place
  in_scope : Scope → Place

-- `recordingPlace`; `scope` is the answer of `scopeForRoom`.
unfoldable pub recording_place :
    ℕ → RoomId → (String → Option ℕ) → Option Scope → User → State → Result Error Place
recording_place k r owner scope u s = do
  admitted k r s
  elim (main_of r) [
    | some code ↦ if is_owner (owner code) u.id then ok (in_meeting_of code) else err not_owner
    | none ↦ elim scope [ none ↦ err not_available | some place ↦ ok (in_scope place) ]
  ]
