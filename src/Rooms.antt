-- ===== src/Rooms.antt =====
-- What calls and meetings share: the ids of SFU rooms and connections, and the entries of
-- `roomUserMap` (src/realtime.js), which says in which room each socket is.
use nova_connect.Prelude.{
  ℕ, ◌≡◌, ◌↔◌, Bool, true, false, ◌&&◌, Option, String, arith, Eq, ◌==◌, nat_eq, string_eq, List,
  [], ◌∷◌, if◌then◌else◌, nat_beq,
}

-- 'gcall:<id>', 'meet:<code>' and 'meet:<code>:br<n + 1>', the three forms that the code builds;
-- `other` is any other text that a client may send.
pub data RoomId : Type 0 where
  gcall : ℕ → RoomId
  meet : String → RoomId
  breakout : String → ℕ → RoomId
  other : String → RoomId

abbrev pub room_beq : RoomId → RoomId → Bool
room_beq (gcall a) (gcall b) = a == b
room_beq (meet c) (meet d) = c == d
room_beq (breakout c i) (breakout d j) = c == d && i == j
room_beq (other c) (other d) = c == d
room_beq _ _ = false

pub room_beq_iff : (a b : RoomId) → (room_beq a b ≡ true) ↔ (a ≡ b)
room_beq_iff (gcall a) (gcall b) = ground arith
room_beq_iff (meet c) (meet d) = ground (arith, string_eq.beq_iff c d)
room_beq_iff (breakout c i) (breakout d j) = ground (arith, string_eq.beq_iff c d)
room_beq_iff (other c) (other d) = ground (arith, string_eq.beq_iff c d)
room_beq_iff a b = ground arith

instance abbrev pub room_eq : Eq RoomId
room_eq = record { beq = room_beq; beq_iff = room_beq_iff }

-- `${user.id}-${socket.id}`
abbrev pub PeerId : Type 0
PeerId = ℕ × ℕ

-- An entry of `roomUserMap`. A call's entry has none of the meeting's fields set.
pub record RoomUser : Type 0 where
  pub room_id : RoomId
  pub peer_id : PeerId
  pub user_id : ℕ
  pub full_name : String
  pub owner_id : Option ℕ
  pub in_lobby : Bool
  pub waiting : Bool
  pub hand : Bool
  pub mic_off : Bool
  pub cam_off : Bool
  pub captions : Bool

-- The members of the socket.io rooms, as pairs of a socket and a room's name.
abbrev pub Joined : Type 0
Joined = List (ℕ × RoomId)

unfoldable pub socket_leave : ℕ → RoomId → Joined → Joined
socket_leave k r [] = []
socket_leave k r ((j, q) ∷ l) =
    if nat_beq j k && room_beq q r then socket_leave k r l else (j, q) ∷ socket_leave k r l

unfoldable pub is_joined : ℕ → RoomId → Joined → Bool
is_joined k r [] = false
is_joined k r ((j, q) ∷ l) = if nat_beq j k && room_beq q r then true else is_joined k r l

pub is_joined-socket_leave :
    (k j : ℕ) (r q : RoomId) (l : Joined)
    → is_joined j q (socket_leave k r l)
      ≡ (if nat_beq k j && room_beq r q then false else is_joined j q l)
unfolding socket_leave is_joined
is_joined-socket_leave k j r q [] = ground arith
is_joined-socket_leave k j r q ((i, p) ∷ l) = ground (
  arith,
  room_eq.beq_iff p r,
  room_eq.beq_iff p q,
  room_eq.beq_iff r q,
  is_joined-socket_leave k j r q l,
)
