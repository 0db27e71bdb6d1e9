-- ===== src/Calls/Posts.antt =====
-- The messages that a call posts or changes, among what src/group-calls.js does to the rest of the server.
use nova_connect.Prelude.{
  Bool, keep, map, ℕ, ◌≡◌, refl, true, false, List, [], ◌∷◌, ◌++◌, arith, nat_eq, lookup, ◌==◌,
  Option-cases, Bool-cases, inl, inr,
}
use mathlib.Core.List.{append_assoc}
use nova_connect.Rooms.{RoomId, room_eq}
use nova_connect.Calls.State.{
  Scope, channel, Notice, emit_user, emit_channel, peer_left, peer_joined, post_started,
  update_post, told, dm, Effect, post_outcome, Member, Call, State, touch_presence, close_peer,
  scope_eq,
}
use nova_connect.Calls.Lifecycle.{drop_from_room, remove_members}

-- What puts or changes a message of a call.
abbrev pub is_post : Effect → Bool
is_post (emit_user u n) = false
is_post (emit_channel c n) = false
is_post (peer_left r m) = false
is_post (peer_joined r k m) = false
is_post (close_peer r p) = false
is_post (touch_presence u) = false
is_post (post_started c u m i) = true
is_post (update_post c p o i) = true
is_post (post_outcome sc u o i) = true

abbrev pub posts : List Effect → List Effect
posts es = keep is_post es

pub posts-append : (xs ys : List Effect) → posts (xs ++ ys) ≡ posts xs ++ posts ys
posts-append [] ys = refl
posts-append (x ∷ xs) ys = ground (arith, posts-append xs ys)

pub quiet_append : (xs ys : List Effect) → posts xs ≡ [] → posts ys ≡ [] → posts (xs ++ ys) ≡ []
quiet_append xs ys a b = ground (arith, a, b, posts-append xs ys)

pub told-posts : (c : Call) (n : Notice) → posts (told c n) ≡ []
unfolding told
told-posts c n = go c.scope
  where
    to_all : (us : List ℕ) → posts (map (λ u. emit_user u n) us) ≡ []
    to_all [] = refl
    to_all (u ∷ us) = to_all us

    go :
        (sc : Scope)
        → posts (elim sc [
          | channel ch ↦ emit_channel ch n ∷ []
          | dm _ ↦ map (λ u. emit_user u n) c.user_ids
        ])
          ≡ []
    go (channel ch) = refl
    go (dm d) = to_all c.user_ids

-- What happened since a list of effects, without a post.
abbrev pub Since : List Effect → List Effect → Type 0
Since before out = (rest : List Effect) × (out ≡ before ++ rest) × (posts rest ≡ [])

drop_from_room-Since :
    (before : List Effect) (k : ℕ) (r : RoomId) (s : State)
    → Since before s.out
    → Since before (drop_from_room k r s).out
unfolding drop_from_room
drop_from_room-Since before k r s (rest, e, q) = elim (Option-cases (lookup k s.room_users)) [
  | inl none_there ↦ (rest, ground (arith, none_there, e), q)
  | inr (m, there) ↦ elim (Bool-cases (m.room_id == r)) [
    | inl same ↦ (
      rest ++ touch_presence m.user_id ∷ [],
      ground (arith, there, same, e, append_assoc before rest (touch_presence m.user_id ∷ [])),
      quiet_append rest (touch_presence m.user_id ∷ []) q refl,
    )
    | inr other ↦ (rest, ground (arith, there, other, e), q)
  ]
]

pub remove_members-Since :
    (before : List Effect) (r : RoomId) (ms : List (ℕ × Member)) (s : State)
    → Since before s.out
    → Since before (remove_members r ms s).out
unfolding remove_members
remove_members-Since before r [] s h = h
remove_members-Since before r ((k, m) ∷ ms) s h =
    let (rest, e, q) = drop_from_room-Since before k r s h in
    remove_members-Since before r ms _ (
      rest ++ close_peer r m.peer_id ∷ [],
      ground (arith, e, append_assoc before rest (close_peer r m.peer_id ∷ [])),
      quiet_append rest (close_peer r m.peer_id ∷ []) q refl,
    )

pub Since-append :
    (before out es : List Effect) → posts es ≡ [] → Since before out → Since before (out ++ es)
Since-append before out es n (rest, e, q) =
    (rest ++ es, ground (arith, e, append_assoc before rest es), quiet_append rest es q n)
