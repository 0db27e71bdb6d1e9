-- ===== src/Meetings/Traffic.antt =====
-- Moves between the rooms of a meeting of src/meet-signaling.js and the gate.
use nova_connect.Prelude.{
  ℕ, ◌≡◌, refl, sym, ap, ◌∙◌, subst, ◌||◌, Option, some, String, List, [], ◌∷◌, arith, Map, lookup,
  insert, lookup-insert, if_split, option_split, ◌==◌, nat_eq, string_eq, pair_eq, beq_refl,
}
use nova_connect.Rooms.{RoomId, room_eq, PeerId, RoomUser, socket_leave}
use nova_connect.Meetings.State.{
  Notice, Conn, State, tell_meeting, create_room, close_peer, Breakout,
}
use nova_connect.Meetings.Moves.{
  move_begin, moved, place_in, move_finish, move, move_all, close_breakouts,
}
use nova_connect.Meetings.Breakouts.{send, send_all, socket_of_peer}
use nova_connect.Meetings.Gate.{
  View, view, IsGated, emit-view, tell_meeting-view, create_room-view, close_peer-view,
  delete_if_empty-view, announce_captions-view,
}
use nova_connect.Meetings.GateMoves.{
  new_entry-IsGated, enter-IsGated, unjoined-IsGated, unjoined_nowhere,
}

pub move_begin-view :
    (k : ℕ) (m : RoomUser) (s : State)
    → view (move_begin k m s) ≡ record (view s) { joined = socket_leave k m.room_id s.sfu_joined }
unfolding move_begin
move_begin-view k m s =
    ap (λ (v : View). record v { joined = socket_leave k m.room_id v.joined })
      (emit-view _ (close_peer m.room_id m.peer_id s) ∙ close_peer-view m.room_id m.peer_id s)

-- The view after a move of a connection that is there.
abbrev pub put_in : ℕ → RoomUser → Conn → RoomId → View → View
put_in k m c target v = record v {
  users = insert k (moved m target) v.users;
  conns = insert k (record c { room_code = some target }) v.conns;
  joined = (k, target) ∷ v.joined;
}

place_in-view :
    (k : ℕ) (target : RoomId) (c : Conn) (s : State)
    → lookup k s.conns ≡ some c
    → view (place_in k target s) ≡ record (view s) {
      conns = insert k (record c { room_code = some target }) s.conns;
      joined = (k, target) ∷ s.sfu_joined;
    }
unfolding place_in
place_in-view k target c s l = ground (arith, l)

pub move_finish-view :
    (k : ℕ) (m : RoomUser) (target : RoomId) (name : String) (c : Conn) (s : State)
    → lookup k s.conns ≡ some c
    → view (move_finish k m target name s) ≡ put_in k m c target (view s)
unfolding move_finish
move_finish-view k m target name c s l =
    let t = create_room target s in
    let w = record t { room_users = insert k (moved m target) t.room_users } in
    let made = create_room-view target s in
    let lt : lookup k t.conns ≡ some c = ap (λ (v : View). lookup k v.conns) made ∙ l in
    emit-view _ _
    ∙ announce_captions-view m.room_id _
    ∙ delete_if_empty-view m.room_id _
    ∙ emit-view _ (place_in k target w)
    ∙ place_in-view k target c w lt
    ∙ ap (put_in k m c target) made

pub move-IsGated :
    (k : ℕ) (target : RoomId) (name : String) (s : State)
    → IsGated (view s)
    → IsGated (view (move k target name s))
unfolding move
move-IsGated k target name s g =
    let P : State → Type 0 = λ t. IsGated (view t) in
    option_split P (lookup k s.room_users) (λ _. g)
      λ m l.
        if_split P (m.in_lobby || m.room_id == target) (λ _. g)
          λ free.
            let (c, lc, known) = g.knows k m l in
            let begun = move_begin k m s in
            let v = record (view s) { joined = socket_leave k m.room_id s.sfu_joined } in
            let c' = record c { room_code = some target } in
            let entered =
              new_entry-IsGated k (moved m target) c' v refl
                (unjoined-IsGated k m.room_id (view s) g) (unjoined_nowhere k m (view s) l g) in
            let first = move_begin-view k m s in
            subst IsGated
              (sym (
                move_finish-view k m target name c begun
                  (ap (λ (x : View). lookup k x.conns) first ∙ lc)
                ∙ ap (put_in k m c target) first))
              (enter-IsGated k (moved m target)
                (record v {
                  users = insert k (moved m target) v.users;
                  conns = insert k c' v.conns;
                })
                (ground (arith, lookup-insert k k (moved m target) s.room_users, beq_refl k))
                (ground (arith, free)) entered)

move_all-IsGated :
    (ms : List (ℕ × RoomUser)) (target : RoomId) (name : String) (s : State)
    → IsGated (view s)
    → IsGated (view (move_all ms target name s))
unfolding move_all
move_all-IsGated [] target name s g = g
move_all-IsGated ((k, m) ∷ ms) target name s g =
    move_all-IsGated ms target name (move k target name s) (move-IsGated k target name s g)

pub tell-IsGated :
    (code : String) (n : Notice) (s : State)
    → IsGated (view s)
    → IsGated (view (tell_meeting code n s))
tell-IsGated code n s g = subst IsGated (sym (tell_meeting-view code n s)) g

pub close_breakouts-IsGated :
    (code : String) (why : Option String) (s : State)
    → IsGated (view s)
    → IsGated (view (close_breakouts code why s))
unfolding close_breakouts
close_breakouts-IsGated code why s g =
    let P : State → Type 0 = λ t. IsGated (view t) in
    option_split P (lookup code s.breakouts) (λ _. g)
      λ b _.
        option_split P why (λ _. tell-IsGated code _ _ (move_all-IsGated _ _ _ _ g))
          (λ text _. tell-IsGated code _ _ (tell-IsGated code _ _ (move_all-IsGated _ _ _ _ g)))

pub send-IsGated :
    (code : String) (p : PeerId) (place : Option ℕ) (b : Breakout) (s : State)
    → IsGated (view s)
    → IsGated (view (send code p place b s))
unfolding send
send-IsGated code p place b s g =
    option_split (λ (t : State). IsGated (view t)) (socket_of_peer code p s) (λ _. g)
      (λ k _. move-IsGated k _ _ s g)

pub send_all-IsGated :
    (code : String) (ps : Map PeerId ℕ) (b : Breakout) (s : State)
    → IsGated (view s)
    → IsGated (view (send_all code ps b s))
unfolding send_all
send_all-IsGated code [] b s g = g
send_all-IsGated code ((p, i) ∷ ps) b s g =
    send_all-IsGated code ps b _ (send-IsGated code p (some i) b s g)
