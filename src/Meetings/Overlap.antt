-- ===== src/Meetings/Overlap.antt =====
-- Two moves of one connection that overlap: `moveSocket` of src/meet-signaling.js waits for the SFU room
-- between reading the entry and joining the new room.
use nova_connect.Prelude.{
  ℕ, ◌≡◌, ◌≢◌, ap, ◌∙◌, true, false, some, String, [], ◌∷◌, arith, lookup, lookup-insert, nat_eq,
  beq_refl,
}
use nova_connect.Rooms.{RoomId, room_eq, room_beq_iff, RoomUser, socket_leave, is_joined}
use nova_connect.Meetings.State.{Conn, State}
use nova_connect.Meetings.Moves.{move_begin, moved, move_begins, move_finish}
use nova_connect.Meetings.Steps.{Outside, move_starts, move_ends, step, run}
use nova_connect.Meetings.Gate.{View, view}
use nova_connect.Meetings.Traffic.{move_begin-view, move_finish-view}

module _ (k : ℕ) (m : RoomUser) (c : Conn) (first second : RoomId) (one two : String)
    (in_there : m.in_lobby ≡ false) (apart : first ≢ second) (away : m.room_id ≢ first)
    (away_too : m.room_id ≢ second) where
  begun :
      (target : RoomId) (s : State)
      → m.room_id ≢ target
      → lookup k s.room_users ≡ some m
      → view (move_begins k target s)
        ≡ record (view s) { joined = socket_leave k m.room_id s.sfu_joined }
  unfolding move_begins
  begun target s ne l =
      let is_begun : move_begins k target s ≡ move_begin k m s =
        ground (arith, l, in_there, ne, room_beq_iff m.room_id target) in
      ap view is_begun ∙ move_begin-view k m s

  abbrev both_begun : State → State
  both_begun s = move_begins k second (move_begins k first s)

  both_begun-view :
      (s : State)
      → lookup k s.room_users ≡ some m
      → (view (both_begun s)).users ≡ s.room_users × ((view (both_begun s)).conns ≡ s.conns)
  both_begun-view s l =
      let e = begun first s away l in
      let there : lookup k (move_begins k first s).room_users ≡ some m =
        ap (λ (v : View). lookup k v.users) e ∙ l in
      let f = begun second (move_begins k first s) away_too there in
      (
        ap (λ (v : View). v.users) f ∙ ap (λ (v : View). v.users) e,
        ap (λ (v : View). v.conns) f ∙ ap (λ (v : View). v.conns) e,
      )

  -- A connection that is in a meeting, out of the lobby, and is moved to two other rooms at once,
  -- where the second move starts before the first has its SFU room: its entry is in the second room,
  -- but it is in the socket.io room of the first as well, and so hears both.
  pub moves_overlap :
      (w : Outside) (s : State)
      → lookup k s.room_users ≡ some m
      → lookup k s.conns ≡ some c
      → let t =
          run w
            (move_starts k first
              ∷ move_starts k second
              ∷ move_ends k m first one
              ∷ move_ends k m second two
              ∷ [])
            s in
        (lookup k t.room_users ≡ some (moved m second))
        × (is_joined k first t.sfu_joined ≡ true)
        × (is_joined k second t.sfu_joined ≡ true)
  unfolding run step is_joined
  moves_overlap w s l lc =
      let b = both_begun s in
      let c' : Conn = record c { room_code = some first } in
      let lb : lookup k b.conns ≡ some c = ap (λ x. lookup k x) (both_begun-view s l).1 ∙ lc in
      let half = move_finish k m first one b in
      let e = move_finish-view k m first one c b lb in
      let lh : lookup k half.conns ≡ some c' =
        ap (λ (v : View). lookup k v.conns) e
        ∙ ground (arith, lookup-insert k k c' b.conns, beq_refl k) in
      let f = move_finish-view k m second two c' half lh in
      (
        ap (λ (v : View). lookup k v.users) f
            ∙ ground (arith, lookup-insert k k (moved m second) half.room_users, beq_refl k),
        ap (λ (v : View). is_joined k first v.joined) f
            ∙ ap (λ j. is_joined k first ((k, second) ∷ j)) (ap (λ (v : View). v.joined) e)
            ∙ ground (arith, beq_refl k, beq_refl first),
        ap (λ (v : View). is_joined k second v.joined) f
            ∙ ground (arith, beq_refl k, beq_refl second),
      )
