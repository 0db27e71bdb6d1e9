-- ===== src/Chats/Seats.antt =====
-- What requests do to somebody's place in a chat.
use nova_connect.Prelude.{
  ℕ, ◌≡◌, refl, subst, Bool, true, false, not, ◌&&◌, Option, none, some, inl, inr, String, List, [],
  ◌∷◌, Map, arith, map, keep, every, lookup, insert, has, leb, if_split, option_split, guard_split,
  found_split, ◌==◌, nat_eq, pair_eq, lookup-insert, Bool-cases, Option-cases, nat_beq_iff,
}
use nova_connect.Chats.State.{
  Level, Seat, new_seat, Chats, Effect, invalid_people, nobody_else, unavailable, blocked_person,
  not_part, all_there, invalid_preference, invalid_message, empty_message, storage_failed,
  distinct_ids, is_active, people_of,
}
use nova_connect.Chats.Handlers.{
  Answer, is_among, is_blocked, is_nobody, valid_ids, seat_all, existing_pair, store_chat, create,
  add_people, Patch, is_off, set_level, patched, set_preferences, is_further, mark_read, shown_to,
  post_message, Request, creates, adds_people, sets_preferences, marks_read, posts, handle,
  chats_after, run,
}

abbrev pub InStep : Seat → Type 0
InStep x = x.muted ≡ is_off x.level

abbrev pub AllInStep : Map (ℕ × ℕ) Seat → Type 0
AllInStep m = (i : ℕ × ℕ) (x : Seat) → lookup i m ≡ some x → InStep x

insert-AllInStep :
    (j : ℕ × ℕ) (y : Seat) (m : Map (ℕ × ℕ) Seat)
    → InStep y
    → AllInStep m
    → AllInStep (insert j y m)
insert-AllInStep j y m h all i x l = elim (Bool-cases (pair_eq.beq j i)) [
  | inl same ↦
      let is_y : y ≡ x = ground (arith, same, l, lookup-insert j i y m) in subst InStep is_y h
  | inr apart ↦ all i x (ground (arith, apart, l, lookup-insert j i y m))
]

seat_all-AllInStep :
    (d : ℕ) (us : List ℕ) (m : Map (ℕ × ℕ) Seat) → AllInStep m → AllInStep (seat_all d us m)
unfolding seat_all new_seat
seat_all-AllInStep d [] m all = all
seat_all-AllInStep d (u ∷ us) m all =
    seat_all-AllInStep d us (insert (d, u) new_seat m) (insert-AllInStep (d, u) new_seat m refl all)

patched-InStep : (p : Patch) (x : Seat) → InStep x → InStep (patched p x)
unfolding patched set_level
patched-InStep p x h = go p.level p.muted
  where
    go : (l : Option Level) (m : Option Bool) → InStep (set_level l m x)
    go (some l) m = refl
    go none (some true) = refl
    go none (some false) = refl
    go none none = h

pub shown-lookup :
    (d me : ℕ) (i : ℕ × ℕ) (m : Map (ℕ × ℕ) Seat)
    → lookup i (map (shown_to d me) m)
      ≡ (elim (lookup i m) [ none ↦ none | some x ↦ some (shown_to d me (i, x)).1 ])
unfolding lookup
shown-lookup d me i [] = refl
shown-lookup d me (e, u) (((c, v), x) ∷ m) =
    ground (arith, shown-lookup d me (e, u) m, nat_beq_iff c e, nat_beq_iff v u)

shown-AllInStep :
    (d me : ℕ) (m : Map (ℕ × ℕ) Seat) → AllInStep m → AllInStep (map (shown_to d me) m)
shown-AllInStep d me m all i x l = elim (Option-cases (lookup i m)) [
  | inl out ↦ ground (arith, out, l, shown-lookup d me i m)
  | inr (y, at) ↦
      let is_it : (shown_to d me (i, y)).1 ≡ x = ground (arith, at, l, shown-lookup d me i m) in
      subst InStep is_it (
        if_split (λ (z : (ℕ × ℕ) × Seat). InStep z.1) (i.0 == d) (λ _. all i y at)
          (λ _. all i y at))
]

module _ (me : ℕ) (s : Chats) (k : AllInStep s.seats) where
  abbrev Stays : Answer → Type 0
  Stays a = AllInStep (chats_after s a).seats

  create-AllInStep : (ids : List ℕ) (name : Option String) → Stays (create ids name me s)
  unfolding create store_chat
  create-AllInStep ids name =
      let others = distinct_ids (keep (λ u. not (u == me)) ids) in
      guard_split Stays (valid_ids ids) invalid_people _ k (λ _.
        guard_split Stays (not (is_nobody others)) nobody_else _ k (λ _.
          guard_split Stays (every (is_active s) others) unavailable _ k (λ _.
            guard_split Stays (not (is_blocked me others s)) blocked_person _ k (λ _.
              option_split (λ (z : Chats × List Effect). AllInStep z.0.seats)
                (existing_pair me others s) (λ _. seat_all-AllInStep s.next (me ∷ others) s.seats k)
                (λ d _. k)))))

  add_people-AllInStep : (d : ℕ) (ids : List ℕ) → Stays (add_people d ids me s)
  unfolding add_people
  add_people-AllInStep d ids =
      let added = keep (λ u. not (is_among (people_of d s) u)) (distinct_ids ids) in
      guard_split Stays (has (d, me) s.seats) not_part _ k (λ _.
        guard_split Stays (not (is_nobody ids) && valid_ids ids) invalid_people _ k (λ _.
          guard_split Stays (not (is_nobody added)) all_there _ k (λ _.
            guard_split Stays (every (is_active s) added) unavailable _ k (λ _.
              guard_split Stays (not (is_blocked me added s)) blocked_person _ k
                (λ _. seat_all-AllInStep d added s.seats k)))))

  set_preferences-AllInStep : (d : ℕ) (patch : Option Patch) → Stays (set_preferences d patch me s)
  unfolding set_preferences
  set_preferences-AllInStep d patch =
      found_split Stays (lookup (d, me) s.seats) not_part _ k (λ x l.
        found_split Stays patch invalid_preference _ k (λ p _.
          insert-AllInStep (d, me) (patched p x) s.seats (patched-InStep p x (k (d, me) x l)) k))

  mark_read-AllInStep : (d id : ℕ) → Stays (mark_read d id me s)
  unfolding mark_read
  mark_read-AllInStep d id = found_split Stays (lookup (d, me) s.seats) not_part _ k (λ x l.
      guard_split Stays (leb 1 id) invalid_message _ k (λ _.
        if_split (λ (z : Chats). AllInStep z.seats) (is_further id x.last_read)
          (λ _. insert-AllInStep (d, me) _ s.seats (k (d, me) x l) k) (λ _. k)))

  post_message-AllInStep : (d : ℕ) (says saved : Bool) → Stays (post_message d says saved me s)
  unfolding post_message
  post_message-AllInStep d says saved = guard_split Stays (has (d, me) s.seats) not_part _ k (λ _.
      guard_split Stays says empty_message _ k
        (λ _. guard_split Stays saved storage_failed _ k (λ _. shown-AllInStep d me s.seats k)))

  handle-AllInStep : (r : Request) → Stays (handle r me s)
  unfolding handle
  handle-AllInStep (creates ids name) = create-AllInStep ids name
  handle-AllInStep (adds_people d ids) = add_people-AllInStep d ids
  handle-AllInStep (sets_preferences d patch) = set_preferences-AllInStep d patch
  handle-AllInStep (marks_read d id) = mark_read-AllInStep d id
  handle-AllInStep (posts d says saved) = post_message-AllInStep d says saved

-- A chat is muted for a person exactly when their level for it is "off", after any requests on chats.
pub run-AllInStep :
    (rs : List (Request × ℕ)) (s : Chats) → AllInStep s.seats → AllInStep (run rs s).seats
unfolding run
run-AllInStep [] s k = k
run-AllInStep ((r, me) ∷ rs) s k =
    run-AllInStep rs (chats_after s (handle r me s)) (handle-AllInStep me s k r)
