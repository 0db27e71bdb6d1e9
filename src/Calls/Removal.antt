-- ===== src/Calls/Removal.antt =====
-- What the loop of `end` of src/group-calls.js over the people in a call leaves of them, and leaves alone.
use nova_connect.Prelude.{
  ◌∙◌, ℕ, ◌≡◌, refl, ◌≢◌, ◌⊎◌, inl, inr, false, not, none, some, List, [], ◌∷◌, arith, nat_eq,
  lookup, lookup-erase, beq_refl, if◌then◌else◌, ◌==◌, Bool-cases, Option-cases, any, keep,
  nat_beq_iff,
}
use nova_connect.Rooms.{
  RoomId, RoomUser, room_eq, room_beq_iff, socket_leave, is_joined, is_joined-socket_leave,
}
use nova_connect.Calls.State.{Member, State, close_peer, push, scope_eq, is_in_room}
use nova_connect.Calls.Lifecycle.{drop_from_room, remove_members}

drop_from_room-is_in_room :
    (j k : ℕ) (r : RoomId) (s : State)
    → is_in_room k r (drop_from_room j r s).room_users
      ≡ (if j == k then false else is_in_room k r s.room_users)
unfolding drop_from_room is_in_room
drop_from_room-is_in_room j k r s = elim (Option-cases (lookup j s.room_users)) [
  | inl e ↦ ground (arith, e, nat_beq_iff j k, lookup-erase j k s.room_users)
  | inr (m, e) ↦ ground (arith, e, nat_beq_iff j k, lookup-erase j k s.room_users)
]

drop_from_room-other :
    (j k : ℕ) (r : RoomId) (s : State) (m : RoomUser)
    → m.room_id ≢ r
    → lookup k s.room_users ≡ some m
    → lookup k (drop_from_room j r s).room_users ≡ some m
unfolding drop_from_room
drop_from_room-other j k r s m ne l = elim (Option-cases (lookup j s.room_users)) [
  | inl e ↦ ground (arith, e)
  | inr (x, e) ↦
      ground (arith, e, nat_beq_iff j k, room_beq_iff x.room_id r, lookup-erase j k s.room_users)
]

-- Nothing of the room is left for a connection: no entry in `roomUserMap`, no socket.io membership.
pub record IsOut (k : ℕ) (r : RoomId) (s : State) : Type 0 where
  pub unmapped : is_in_room k r s.room_users ≡ false
  pub unjoined : is_joined k r s.joined ≡ false

drop_from_room-joined : (j : ℕ) (r : RoomId) (s : State) → (drop_from_room j r s).joined ≡ s.joined
unfolding drop_from_room
drop_from_room-joined j r s = ground arith

-- One turn of the loop over the members.
abbrev remove_one : ℕ → RoomId → Member → State → State
remove_one j r m s =
    let t = drop_from_room j r s in
    push (close_peer r m.peer_id) (record t { joined = socket_leave j r t.joined })

remove_one-IsOut :
    (j k : ℕ) (r : RoomId) (m : Member) (s : State)
    → (j ≡ k) ⊎ IsOut k r s
    → IsOut k r (remove_one j r m s)
remove_one-IsOut j k r m s (inl e) = record {
  unmapped = ground (arith, nat_beq_iff j k, drop_from_room-is_in_room j k r s);
  unjoined = ground (
    arith,
    nat_beq_iff j k,
    beq_refl r,
    is_joined-socket_leave j k r r (drop_from_room j r s).joined,
  );
}
remove_one-IsOut j k r m s (inr h) = record {
  unmapped = ground (arith, h.unmapped, drop_from_room-is_in_room j k r s);
  unjoined = ground (
    arith,
    h.unjoined,
    drop_from_room-joined j r s,
    is_joined-socket_leave j k r r (drop_from_room j r s).joined,
  );
}

module _ (r : RoomId) where
  remove_members-stays-IsOut :
      (ms : List (ℕ × Member)) (k : ℕ) (s : State) → IsOut k r s → IsOut k r (remove_members r ms s)
  unfolding remove_members
  remove_members-stays-IsOut [] k s h = h
  remove_members-stays-IsOut ((j, m) ∷ ms) k s h =
      remove_members-stays-IsOut ms k _ (remove_one-IsOut j k r m s (inr h))

  pub remove_members-IsOut :
      (ms : List (ℕ × Member)) (k : ℕ) (m : Member) (s : State)
      → lookup k ms ≡ some m
      → IsOut k r (remove_members r ms s)
  unfolding remove_members lookup
  remove_members-IsOut [] k m s h = cc
  remove_members-IsOut ((j, x) ∷ ms) k m s h = elim (Bool-cases (j == k)) [
    | inl e ↦
        remove_members-stays-IsOut ms k _ (remove_one-IsOut j k r x s (inl ((nat_beq_iff j k).0 e)))
    | inr e ↦ remove_members-IsOut ms k m _ (ground (arith, h, e))
  ]

  pub remove_members-other :
      (ms : List (ℕ × Member)) (k : ℕ) (m : RoomUser) (s : State)
      → m.room_id ≢ r
      → lookup k s.room_users ≡ some m
      → lookup k (remove_members r ms s).room_users ≡ some m
  unfolding remove_members
  remove_members-other [] k m s ne l = l
  remove_members-other ((j, x) ∷ ms) k m s ne l =
      remove_members-other ms k m _ ne (drop_from_room-other j k r s m ne l)

module _ (r : RoomId) where
  pub remove_members-joined :
      (ms : List (ℕ × Member)) (k : ℕ) (q : RoomId) (s : State)
      → q ≢ r
      → is_joined k q (remove_members r ms s).joined ≡ is_joined k q s.joined
  unfolding remove_members
  remove_members-joined [] k q s ne = refl
  remove_members-joined ((j, m) ∷ ms) k q s ne =
      remove_members-joined ms k q (remove_one j r m s) ne
      ∙ ground (
        arith,
        ne,
        room_beq_iff r q,
        drop_from_room-joined j r s,
        is_joined-socket_leave j k r q (drop_from_room j r s).joined,
      )

  pub remove_members-stranger :
      (ms : List (ℕ × Member)) (k : ℕ) (s : State)
      → lookup k ms ≡ none
      → is_joined k r (remove_members r ms s).joined ≡ is_joined k r s.joined
  unfolding remove_members lookup
  remove_members-stranger [] k s l = refl
  remove_members-stranger ((j, m) ∷ ms) k s l =
      remove_members-stranger ms k (remove_one j r m s) (ground (arith, l))
      ∙ ground (
        arith,
        l,
        drop_from_room-joined j r s,
        is_joined-socket_leave j k r r (drop_from_room j r s).joined,
      )

  pub remove_members-stranger_in :
      (ms : List (ℕ × Member)) (k : ℕ) (s : State)
      → lookup k ms ≡ none
      → is_in_room k r (remove_members r ms s).room_users ≡ is_in_room k r s.room_users
  unfolding remove_members lookup
  remove_members-stranger_in [] k s l = refl
  remove_members-stranger_in ((j, m) ∷ ms) k s l =
      remove_members-stranger_in ms k (remove_one j r m s) (ground (arith, l))
      ∙ ground (arith, l, drop_from_room-is_in_room j k r s)

  drop_from_room-rooms : (j : ℕ) (s : State) → (drop_from_room j r s).rooms ≡ s.rooms
  unfolding drop_from_room
  drop_from_room-rooms j s = ground arith

  pub remove_members-rooms :
      (ms : List (ℕ × Member)) (s : State) → (remove_members r ms s).rooms ≡ s.rooms
  unfolding remove_members
  remove_members-rooms [] s = refl
  remove_members-rooms ((j, m) ∷ ms) s =
      remove_members-rooms ms (remove_one j r m s) ∙ drop_from_room-rooms j s

pub any-keep-other :
    (r p : RoomId) (l : List RoomId)
    → p ≢ r
    → any (λ q. q == p) (keep (λ q. not (q == r)) l) ≡ any (λ q. q == p) l
any-keep-other r p [] ne = refl
any-keep-other r p (q ∷ l) ne =
    ground (arith, ne, room_beq_iff q r, room_beq_iff q p, any-keep-other r p l ne)

pub any-keep-not :
    (r : RoomId) (l : List RoomId) → any (λ q. q == r) (keep (λ q. not (q == r)) l) ≡ false
any-keep-not r [] = refl
any-keep-not r (q ∷ l) = ground (arith, any-keep-not r l)
