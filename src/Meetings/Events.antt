-- ===== src/Meetings/Events.antt =====
-- The lobby's handlers of src/meet-signaling.js and the gate.
use nova_connect.Prelude.{
  ℕ, ◌≡◌, refl, sym, ◌∙◌, subst, Bool, true, false, not, ◌&&◌, Option, some, String, arith, lookup,
  insert, lookup-insert, if_split, option_split, ◌==◌, nat_eq, pair_eq, beq_refl, find-lookup,
  Result, ok, err, has,
}
use nova_connect.Rooms.{RoomId, meet, room_eq, PeerId, RoomUser}
use nova_connect.Meetings.State.{State, emit, create_room}
use nova_connect.Meetings.Lobby.{
  Error, User, leave, close_conn, lobby_entry, join, admit_socket, ask, request_join, is_owner,
  is_own_meeting, find_in_lobby, waiting_person, admitted_by, admit, denied_by, deny,
}
use nova_connect.Meetings.Gate.{view, IsGated, emit-view, notify_owners-view, create_room-view}
use nova_connect.Meetings.Leaving.{leave-view}
use nova_connect.Meetings.Steps.{kept_or, kept_or_first}
use nova_connect.Meetings.GateMoves.{
  new_entry-IsGated, update-IsGated, enter-IsGated, deny-IsGated, close-IsGated,
}

pub join-IsGated :
    (k : ℕ) (code : String) (u : User) (owner : ℕ) (s : State)
    → IsGated (view s)
    → IsGated (view (join k code u owner s))
unfolding join
join-IsGated k code u owner s g =
    let made = create_room (meet code) s in
    let (left_ok, out) =
      leave-view k made (subst IsGated (sym (create_room-view (meet code) s)) g) in
    new_entry-IsGated k (lobby_entry (meet code) k u owner) _ (view (leave k made)) refl left_ok
      out.no_room

pub close_conn-IsGated : (k : ℕ) (s : State) → IsGated (view s) → IsGated (view (close_conn k s))
unfolding close_conn
close_conn-IsGated k s g =
    let (left_ok, out) = leave-view k s g in close-IsGated k (view (leave k s)) left_ok out

admit_socket-IsGated :
    (k : ℕ) (m : RoomUser) (s : State)
    → lookup k s.room_users ≡ some m
    → IsGated (view s)
    → IsGated (view (admit_socket k m s))
unfolding admit_socket emit
admit_socket-IsGated k m s l g =
    let n = record m { in_lobby = false } in
    enter-IsGated k n (record (view s) { users = insert k n s.room_users })
      (ground (arith, lookup-insert k k n s.room_users, beq_refl k)) refl
      (update-IsGated k m n (view s) l refl (λ _. refl) g)

ask-IsGated :
    (k : ℕ) (r : RoomId) (m : RoomUser) (u : User) (s : State)
    → lookup k s.room_users ≡ some m
    → IsGated (view s)
    → IsGated (view (ask k r m u s).0)
unfolding ask
ask-IsGated k r m u s l g =
    if_split (λ (p : State × Bool). IsGated (view p.0)) (is_owner m.owner_id u.id)
      (λ _. admit_socket-IsGated k m s l g)
      (λ _.
        subst IsGated (sym (notify_owners-view r m.owner_id _ _))
          (update-IsGated k m (record m { waiting = true }) (view s) l refl (λ h. h) g))

pub request_join-IsGated :
    (k : ℕ) (r : RoomId) (u : User) (s : State)
    → IsGated (view s)
    → IsGated (view (kept_or_first s (request_join k r u s)))
unfolding request_join
request_join-IsGated k r u s g =
    let P : Result Error (State × Bool) → Type 0 = λ p. IsGated (view (kept_or_first s p)) in
    if_split P (not (is_own_meeting k r s)) (λ _. g)
      λ _.
        option_split P (lookup k s.room_users) (λ _. g)
          λ m l. if_split P m.in_lobby (λ _. ask-IsGated k r m u s l g) (λ _. g)

-- Whom the owner names stands in the lobby under that connection.
waiting_person-lookup :
    (k : ℕ) (r : RoomId) (p : PeerId) (owner : Option ℕ) (there : Bool) (u : User) (j : ℕ)
    (m : RoomUser) (s : State)
    → waiting_person k r p owner there u s ≡ ok (j, m)
    → IsGated (view s)
    → (lookup j s.room_users ≡ some m) × (m.in_lobby ≡ true)
unfolding waiting_person find_in_lobby
waiting_person-lookup k r p owner there u j m s h g =
    let test : ℕ × RoomUser → Bool = λ e. e.1.room_id == r && e.1.peer_id == p && e.1.in_lobby in
    let (l, found) = find-lookup test s.room_users j m g.one_entry (ground (arith, h)) in
    (l, ground (arith, found))

pub admit-IsGated :
    (k : ℕ) (r : RoomId) (p : PeerId) (owner : Option ℕ) (u : User) (s : State)
    → IsGated (view s)
    → IsGated (view (kept_or s (admit k r p owner u s)))
unfolding admit
admit-IsGated k r p owner u s g = go (waiting_person k r p owner (has r s.rooms) u s) refl
  where
    go :
        (w : Result Error (ℕ × RoomUser))
        → waiting_person k r p owner (has r s.rooms) u s ≡ w
        → IsGated (view (kept_or s (admitted_by u r p s w)))
    go (err e) h = g
    go (ok (j, m)) h = subst IsGated (sym (notify_owners-view r (some u.id) _ _)) (
        admit_socket-IsGated j m s (waiting_person-lookup k r p owner (has r s.rooms) u j m s h g).0
          g)

pub deny-kept-IsGated :
    (k : ℕ) (r : RoomId) (p : PeerId) (owner : Option ℕ) (u : User) (s : State)
    → IsGated (view s)
    → IsGated (view (kept_or s (deny k r p owner u s)))
unfolding deny
deny-kept-IsGated k r p owner u s g = go (waiting_person k r p owner true u s) refl
  where
    go :
        (w : Result Error (ℕ × RoomUser))
        → waiting_person k r p owner true u s ≡ w
        → IsGated (view (kept_or s (denied_by u r p s w)))
    go (err e) h = g
    go (ok (j, m)) h =
        let (l, b) = waiting_person-lookup k r p owner true u j m s h g in
        subst IsGated (sym (notify_owners-view r (some u.id) _ _ ∙ emit-view _ _))
          (deny-IsGated j m (view s) l b g)
