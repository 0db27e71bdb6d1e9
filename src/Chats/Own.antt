-- ===== src/Chats/Own.antt =====
-- Nobody loses a place in a chat, and only the person changes it.
use nova_connect.Prelude.{
  ℕ, ◌<◌, ◌≤◌, ◌≡◌, refl, sym, ap, ◌∙◌, subst, Bool, true, false, not, ◌&&◌, Option, none, some,
  inl, inr, ◌⊎◌, String, List, [], ◌∷◌, Map, arith, map, keep, every, lookup, insert, has, leb,
  if_split, option_split, guard_split, found_split, ◌==◌, nat_eq, pair_eq, lookup-insert,
  nat_beq_iff, Bool-cases,
}
use nova_connect.Chats.State.{
  Level, Seat, new_seat, Chats, Effect, invalid_people, nobody_else, unavailable, blocked_person,
  not_part, all_there, invalid_preference, invalid_message, empty_message, storage_failed,
  distinct_ids, is_active, people_of,
}
use nova_connect.Chats.Seats.{shown-lookup}
use nova_connect.Chats.Handlers.{
  Answer, is_among, is_blocked, is_nobody, valid_ids, seat_all, existing_pair, store_chat, create,
  add_people, Patch, set_level, patched, set_preferences, is_further, mark_read, shown_to,
  post_message, Request, creates, adds_people, sets_preferences, marks_read, posts, handle,
  chats_after,
}

-- How far somebody has read never goes back.
abbrev pub NotBack : Option ℕ → Option ℕ → Type 0
NotBack none o = Unit {0}
NotBack (some a) none = ⊥
NotBack (some a) (some b) = a ≤ b

NotBack-refl : (o : Option ℕ) → NotBack o o
NotBack-refl none = tt
NotBack-refl (some a) = omega arith

further-NotBack : (id : ℕ) (o : Option ℕ) → is_further id o ≡ true → NotBack o (some id)
further-NotBack id none h = tt
further-NotBack id (some a) h = ground (arith, h)

patched-last_read : (p : Patch) (x : Seat) → (patched p x).last_read ≡ x.last_read
unfolding patched set_level
patched-last_read p x = go p.level p.muted
  where
    go : (l : Option Level) (m : Option Bool) → (set_level l m x).last_read ≡ x.last_read
    go (some l) m = refl
    go none (some b) = refl
    go none none = refl

seat_all-lookup :
    (e u d : ℕ) (us : List ℕ) (m : Map (ℕ × ℕ) Seat)
    → (d == e) && is_among us u ≡ false
    → lookup (e, u) (seat_all d us m) ≡ lookup (e, u) m
unfolding seat_all
seat_all-lookup e u d [] m h = refl
seat_all-lookup e u d (v ∷ us) m h =
    let rest = seat_all-lookup e u d us (insert (d, v) new_seat m) (ground (arith, h)) in
    rest ∙ ground (arith, h, lookup-insert (d, v) (e, u) new_seat m)

-- Whoever has a place in a chat is among its people.
seat-people :
    (d u : ℕ) (x : Seat) (m : Map (ℕ × ℕ) Seat)
    → lookup (d, u) m ≡ some x
    → is_among (map (λ (e : (ℕ × ℕ) × Seat). e.0.1) (keep (λ (e : (ℕ × ℕ) × Seat). e.0.0 == d) m)) u
      ≡ true
unfolding lookup
seat-people d u x [] l = cc
seat-people d u x ((j, y) ∷ m) l = ground (arith, l, seat-people d u x m)

-- Whether a request posts into the chat.
abbrev pub posts_to : ℕ → Request → Bool
posts_to d (creates ids name) = false
posts_to d (adds_people e ids) = false
posts_to d (sets_preferences e patch) = false
posts_to d (marks_read e id) = false
posts_to d (posts e says saved) = e == d

module _ (me : ℕ) (s : Chats) (d u : ℕ) (x : Seat) (at : lookup (d, u) s.seats ≡ some x) where
  -- As it was, or as a new message in the chat leaves it.
  abbrev KeptOf : Bool → Seat → Type 0
  KeptOf posting y = (y ≡ x) ⊎ ((posting ≡ true) × (y ≡ record x { hidden = false; unread = true }))

  abbrev KeptIn : Map (ℕ × ℕ) Seat → Type 0
  KeptIn m =
      (y : Seat) × (lookup (d, u) m ≡ some y)
      × NotBack x.last_read y.last_read
      × ((u == me) ≡ false → y ≡ x)

  abbrev Stays : Answer → Type 0
  Stays a = KeptIn (chats_after s a).seats

  same : (m : Map (ℕ × ℕ) Seat) → lookup (d, u) m ≡ lookup (d, u) s.seats → KeptIn m
  same m e = (x, e ∙ at, NotBack-refl x.last_read, λ other. refl)

  own_changed :
      (e : ℕ) (y : Seat)
      → ((z : Seat) → lookup (e, me) s.seats ≡ some z → NotBack z.last_read y.last_read)
      → KeptIn (insert (e, me) y s.seats)
  own_changed e y further =
      elim (Bool-cases (pair_eq.beq (e, me) (d, u))) as (λ _. KeptIn (insert (e, me) y s.seats)) [
        | inl is_it ↦
            let p : (e ≡ d) × (me ≡ u) = (ground (arith, is_it), ground (arith, is_it)) in
            let there : lookup (e, me) s.seats ≡ some x =
              ap (λ (i : ℕ × ℕ). lookup i s.seats) (λ t. (p.0 t, p.1 t)) ∙ at in
            (
              y,
              ground (arith, is_it, lookup-insert (e, me) (d, u) y s.seats),
              further x there,
              λ other. ground (arith, other, p.1),
            )
        | inr apart ↦
            same (insert (e, me) y s.seats)
              (ground (arith, apart, lookup-insert (e, me) (d, u) y s.seats))
      ]

  create-Stays : d < s.next → (ids : List ℕ) (name : Option String) → Stays (create ids name me s)
  unfolding create store_chat
  create-Stays old ids name =
      let others = distinct_ids (keep (λ v. not (v == me)) ids) in
      let kept = same s.seats refl in
      guard_split Stays (valid_ids ids) invalid_people _ kept (λ _.
        guard_split Stays (not (is_nobody others)) nobody_else _ kept (λ _.
          guard_split Stays (every (is_active s) others) unavailable _ kept (λ _.
            guard_split Stays (not (is_blocked me others s)) blocked_person _ kept (λ _.
              option_split (λ (z : Chats × List Effect). KeptIn z.0.seats)
                (existing_pair me others s)
                (λ _. same (seat_all s.next (me ∷ others) s.seats) (
                  seat_all-lookup d u s.next (me ∷ others) s.seats
                    (newer (is_among (me ∷ others) u))))
                (λ e _. kept)))))
    where
      newer : (b : Bool) → (s.next == d) && b ≡ false
      newer b = ground (arith, old)

  -- Those who are added are not there yet.
  is_among-keep : (p : ℕ → Bool) (us : List ℕ) → p u ≡ false → is_among (keep p us) u ≡ false
  is_among-keep p [] h = refl
  is_among-keep p (v ∷ us) h =
      let apart : p v ≡ true → (v == u) ≡ false =
        λ q. ground (arith, q, h, nat_beq_iff v u, ap p) in
      ground (arith, apart, is_among-keep p us h)

  add_people-Stays : (e : ℕ) (ids : List ℕ) → Stays (add_people e ids me s)
  unfolding add_people people_of
  add_people-Stays e ids =
      let newcomer : ℕ → Bool = λ v. not (is_among (people_of e s) v) in
      let added = keep newcomer (distinct_ids ids) in
      let kept = same s.seats refl in
      guard_split Stays (has (e, me) s.seats) not_part _ kept (λ _.
        guard_split Stays (not (is_nobody ids) && valid_ids ids) invalid_people _ kept (λ _.
          guard_split Stays (not (is_nobody added)) all_there _ kept (λ _.
            guard_split Stays (every (is_active s) added) unavailable _ kept (λ _.
              guard_split Stays (not (is_blocked me added s)) blocked_person _ kept (λ _.
                same (seat_all e added s.seats) (
                  seat_all-lookup d u e added s.seats (elim (Bool-cases (e == d)) [
                    | inl is_it ↦
                        let there : is_among (people_of e s) u ≡ true =
                          ap (λ (i : ℕ). is_among (people_of i s) u) ((nat_beq_iff e d).0 is_it)
                          ∙ seat-people d u x s.seats at in
                        let out : is_among added u ≡ false =
                          is_among-keep newcomer (distinct_ids ids) (ap not there) in
                        ground (arith, out)
                    | inr apart ↦ ground (arith, apart)
                  ])))))))

  set_preferences-Stays : (e : ℕ) (patch : Option Patch) → Stays (set_preferences e patch me s)
  unfolding set_preferences
  set_preferences-Stays e patch =
      let kept = same s.seats refl in
      found_split Stays (lookup (e, me) s.seats) not_part _ kept (λ z l.
        found_split Stays patch invalid_preference _ kept (λ p _.
          own_changed e (patched p z) (λ w h.
            let is_z : z ≡ w = ground (arith, l, h) in
            subst (λ (v : Seat). NotBack v.last_read (patched p z).last_read) is_z
              (subst (NotBack z.last_read) (sym (patched-last_read p z))
                (NotBack-refl z.last_read)))))

  mark_read-Stays : (e id : ℕ) → Stays (mark_read e id me s)
  unfolding mark_read
  mark_read-Stays e id =
      let kept = same s.seats refl in
      found_split Stays (lookup (e, me) s.seats) not_part _ kept (λ z l.
        guard_split Stays (leb 1 id) invalid_message _ kept (λ _.
          if_split (λ (v : Chats). KeptIn v.seats) (is_further id z.last_read)
            (λ further.
              own_changed e (record z { last_read = some id })
                (λ w h.
                  let is_z : z ≡ w = ground (arith, l, h) in
                  subst (λ (v : Seat). NotBack v.last_read (some id)) is_z
                    (further-NotBack id z.last_read further)))
            (λ _. kept)))

  abbrev KeptBut : Bool → Map (ℕ × ℕ) Seat → Type 0
  KeptBut posting m =
      (y : Seat) × (lookup (d, u) m ≡ some y)
      × NotBack x.last_read y.last_read
      × ((u == me) ≡ false → KeptOf posting y)

  weaker : (m : Map (ℕ × ℕ) Seat) (posting : Bool) → KeptIn m → KeptBut posting m
  weaker m posting (y, l, n, h) = (y, l, n, λ other. inl (h other))

  shown-Stays : (e : ℕ) → KeptBut (e == d) (map (shown_to e me) s.seats)
  shown-Stays e =
      let z = (shown_to e me ((d, u), x)).1 in
      (
        z,
        ground (arith, at, shown-lookup e me (d, u) s.seats),
        if_split (λ (w : (ℕ × ℕ) × Seat). NotBack x.last_read w.1.last_read) (d == e)
            (λ _. NotBack-refl x.last_read) (λ _. NotBack-refl x.last_read),
        λ other.
            if_split (λ (w : (ℕ × ℕ) × Seat). KeptOf (e == d) w.1) (d == e)
              (λ same.
                inr (
                  ground (arith, same),
                  ap (λ b. record x { hidden = false; unread = not b }) other,
                ))
              (λ _. inl refl),
      )

  post_message-Stays :
      (e : ℕ) (says saved : Bool)
      → KeptBut (e == d) (chats_after s (post_message e says saved me s)).seats
  unfolding post_message
  post_message-Stays e says saved =
      let kept = weaker s.seats (e == d) (same s.seats refl) in
      guard_split (λ a. KeptBut (e == d) (chats_after s a).seats) (has (e, me) s.seats) not_part _
        kept
        (λ _.
          guard_split (λ a. KeptBut (e == d) (chats_after s a).seats) says empty_message _ kept
            (λ _.
              guard_split (λ a. KeptBut (e == d) (chats_after s a).seats) saved storage_failed _
                kept (λ _. shown-Stays e)))

  -- Whatever anybody requests of chats (creating one, adding people, preferences, reading and
  -- posting): whoever is in a chat whose number has been given out stays in it, and how far they
  -- have read never goes back. If somebody else made the request, what they have set for the chat is
  -- as it was, but that a post in it shows the chat and marks it as unread.
  pub handle-Stays :
      d < s.next
      → (r : Request)
      → (y : Seat) × (lookup (d, u) (chats_after s (handle r me s)).seats ≡ some y)
        × NotBack x.last_read y.last_read
        × ((u == me) ≡ false → KeptOf (posts_to d r) y)
  unfolding handle
  handle-Stays old (creates ids name) = weaker _ false (create-Stays old ids name)
  handle-Stays old (adds_people e ids) = weaker _ false (add_people-Stays e ids)
  handle-Stays old (sets_preferences e patch) = weaker _ false (set_preferences-Stays e patch)
  handle-Stays old (marks_read e id) = weaker _ false (mark_read-Stays e id)
  handle-Stays old (posts e says saved) = post_message-Stays e says saved
