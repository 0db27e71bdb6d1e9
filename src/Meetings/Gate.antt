-- ===== src/Meetings/Gate.antt =====
-- The lobby of src/meet-signaling.js as a gate, and what the shared helpers do to it.
use nova_connect.Prelude.{
  ℕ, ◌≡◌, refl, sym, ap, ◌∙◌, true, false, Option, none, some, String, [], ◌∷◌, arith, Map, lookup,
  insert, erase, has, if_split, option_split, list_split, ◌==◌, nat_eq, DistinctKeys, length,
}
use nova_connect.Rooms.{RoomId, room_eq, PeerId, RoomUser, Joined, socket_leave, is_joined}
use nova_connect.Meetings.State.{
  Notice, State, Conn, emit, notify_owners, create_room, close_peer, delete_if_empty,
  announce_captions, no_conn, main_of, in_meeting, tell_meeting, Effect,
}
use nova_connect.Meetings.Lobby.{end_breakouts_if_empty, leave_entry, drop_entry, leave_room}

-- What the gate is about: the entries, the connections and the members of `sfu:…`.
pub record View : Type 0 where
  pub users : Map ℕ RoomUser
  pub conns : Map ℕ Conn
  pub joined : Joined

abbrev pub view : State → View
view s = record { users = s.room_users; conns = s.conns; joined = s.sfu_joined }

-- A member of `sfu:r` has an entry in `r` that is not in the lobby, and the connection of each entry
-- knows the room of the entry.
pub record IsGated (v : View) : Type 0 where
  pub let_in :
      (k : ℕ) (r : RoomId)
      → is_joined k r v.joined ≡ true
      → (m : RoomUser) × (lookup k v.users ≡ some m) × (m.room_id ≡ r) × (m.in_lobby ≡ false)
  pub knows :
      (k : ℕ) (m : RoomUser)
      → lookup k v.users ≡ some m
      → (c : Conn) × (lookup k v.conns ≡ some c) × (c.room_code ≡ some m.room_id)
  pub one_entry : DistinctKeys v.users

-- The helpers that leave all of that alone.
pub notify_owners-view :
    (r : RoomId) (o : Option ℕ) (n : Notice) (s : State) → view (notify_owners r o n s) ≡ view s
unfolding notify_owners
notify_owners-view r o n s = refl

pub emit-view : (e : Effect) (s : State) → view (emit e s) ≡ view s
unfolding emit
emit-view e s = refl

pub tell_meeting-view :
    (code : String) (n : Notice) (s : State) → view (tell_meeting code n s) ≡ view s
unfolding tell_meeting
tell_meeting-view code n s = refl

pub create_room-view : (r : RoomId) (s : State) → view (create_room r s) ≡ view s
unfolding create_room
create_room-view r s =
    if_split (λ (t : State). view t ≡ view s) (has r s.rooms) (λ _. refl) (λ _. refl)

pub close_peer-view : (r : RoomId) (p : PeerId) (s : State) → view (close_peer r p s) ≡ view s
unfolding close_peer
close_peer-view r p s =
    option_split (λ (t : State). view t ≡ view s) (lookup r s.rooms) (λ _. refl) (λ _ _. refl)

pub delete_if_empty-view : (r : RoomId) (s : State) → view (delete_if_empty r s) ≡ view s
unfolding delete_if_empty
delete_if_empty-view r s =
    option_split (λ (t : State). view t ≡ view s) (lookup r s.rooms) (λ _. refl)
      λ room _.
        if_split (λ (t : State). view t ≡ view s) (length room.peers == 0) (λ _. refl) (λ _. refl)

pub announce_captions-view : (r : RoomId) (s : State) → view (announce_captions r s) ≡ view s
unfolding announce_captions emit
announce_captions-view r s =
    option_split (λ (t : State). view t ≡ view s) (lookup r s.rooms) (λ _. refl)
      λ room _. if_split (λ (t : State). view t ≡ view s) _ (λ _. refl) (λ _. refl)

end_breakouts_if_empty-view :
    (c : Option String) (s : State) → view (end_breakouts_if_empty c s) ≡ view s
unfolding end_breakouts_if_empty
end_breakouts_if_empty-view none s = refl
end_breakouts_if_empty-view (some code) s =
    list_split (λ (t : State). view t ≡ view s) (in_meeting code s) (λ _. refl) (λ _ _ _. refl)

leave_entry-view :
    (k : ℕ) (r : RoomId) (m : RoomUser) (s : State)
    → view (leave_entry k r m s) ≡ record (view s) { users = erase k s.room_users }
unfolding leave_entry
leave_entry-view k r m s =
    let goal : State → Type 0 = λ t. view t ≡ record (view s) { users = erase k s.room_users } in
    let t = record s { room_users = erase k s.room_users } in
    if_split goal m.in_lobby (λ _. notify_owners-view r m.owner_id _ t)
      λ _.
        let u = close_peer r m.peer_id t in
        if_split goal m.captions
          (λ _. announce_captions-view r _ ∙ emit-view _ u ∙ close_peer-view r m.peer_id t)
          (λ _. emit-view _ u ∙ close_peer-view r m.peer_id t)

erase_absent : (k : ℕ) (m : Map ℕ RoomUser) → lookup k m ≡ none → erase k m ≡ m
unfolding erase lookup
erase_absent k [] l = refl
erase_absent k ((j, x) ∷ m) l = ground (arith, erase_absent k m)

drop_entry-view :
    (k : ℕ) (r : RoomId) (s : State)
    → view (drop_entry k r s) ≡ record (view s) { users = erase k s.room_users }
unfolding drop_entry
drop_entry-view k r s =
    option_split (λ (t : State). view t ≡ record (view s) { users = erase k s.room_users })
      (lookup k s.room_users)
      (λ l. ap (λ u. record (view s) { users = u }) (sym (erase_absent k s.room_users l)))
      (λ m _. leave_entry-view k r m s)

-- After `leave`, nothing of the connection is left in the room.
unfoldable pub left : ℕ → RoomId → View → View
left k r v = record {
  users = erase k v.users;
  conns = insert k (record { room_code = none; meeting_id = none }) v.conns;
  joined = socket_leave k r v.joined;
}

pub leave_room-view : (k : ℕ) (r : RoomId) (s : State) → view (leave_room k r s) ≡ left k r (view s)
unfolding leave_room left
leave_room-view k r s =
    let t = delete_if_empty r (drop_entry k r s) in
    let u = record t {
      lobby_joined = socket_leave k r t.lobby_joined;
      sfu_joined = socket_leave k r t.sfu_joined;
    } in
    ap (λ (v : View). record v { conns = insert k no_conn v.conns })
      (end_breakouts_if_empty-view (main_of r) u
        ∙ ap (λ (v : View). record v { joined = socket_leave k r v.joined })
            (delete_if_empty-view r (drop_entry k r s) ∙ drop_entry-view k r s))
