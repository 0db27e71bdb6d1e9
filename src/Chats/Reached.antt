-- ===== src/Chats/Reached.antt =====
-- What holds of the chats that requests lead to.
use nova_connect.Prelude.{
  ℕ, ◌+◌, ◌<◌, ◌≡◌, not, ◌&&◌, Bool, Option, some, String, List, [], ◌∷◌, Map, arith, keep, every,
  lookup, has, leb, if_split, option_split, ok, guard_split, found_split, nat_eq, pair_eq,
}
use nova_connect.Chats.State.{
  Seat, Chats, Effect, answered, invalid_people, nobody_else, unavailable, blocked_person, not_part,
  all_there, invalid_preference, invalid_message, empty_message, storage_failed, distinct_ids,
  is_active, people_of, initial,
}
use nova_connect.Chats.Handlers.{
  Answer, is_among, is_blocked, is_nobody, valid_ids, existing_pair, store_chat, create, add_people,
  Patch, patched, set_preferences, is_further, mark_read, post_message, Request, creates,
  adds_people, sets_preferences, marks_read, posts, handle, chats_after, run,
}
use nova_connect.Chats.Pairs.{
  AllOld, AllOld-insert, AllOld-seat_all, AllOld-more, AllOld-shown, old-seat, IsPairChat,
  others_of, create-again,
}

abbrev Old : Chats → Type 0
Old s = AllOld s.next s.seats

module _ (me : ℕ) (s : Chats) (k : AllOld s.next s.seats) where
  abbrev Keeps : Answer → Type 0
  Keeps a = Old (chats_after s a)

  sat_there : (d : ℕ) (x : Seat) → lookup (d, me) s.seats ≡ some x → d < s.next
  sat_there d x l = old-seat s.next d me s.seats k (ground (arith, l))

  create-Old : (ids : List ℕ) (name : Option String) → Keeps (create ids name me s)
  unfolding create store_chat
  create-Old ids name = guard_split Keeps (valid_ids ids) invalid_people _ k (λ _.
      guard_split Keeps (not (is_nobody (others_of me ids))) nobody_else _ k (λ _.
        guard_split Keeps (every (is_active s) (others_of me ids)) unavailable _ k (λ _.
          guard_split Keeps (not (is_blocked me (others_of me ids) s)) blocked_person _ k (λ _.
            option_split (λ (z : Chats × List Effect). Old z.0)
              (existing_pair me (others_of me ids) s)
              (λ _.
                AllOld-seat_all (s.next + 1) s.next (me ∷ others_of me ids) s.seats (omega arith)
                  (AllOld-more s.next s.seats k))
              (λ d _. k)))))

  add_people-Old : (d : ℕ) (ids : List ℕ) → Keeps (add_people d ids me s)
  unfolding add_people
  add_people-Old d ids =
      let added = keep (λ u. not (is_among (people_of d s) u)) (distinct_ids ids) in
      guard_split Keeps (has (d, me) s.seats) not_part _ k (λ there.
        guard_split Keeps (not (is_nobody ids) && valid_ids ids) invalid_people _ k (λ _.
          guard_split Keeps (not (is_nobody added)) all_there _ k (λ _.
            guard_split Keeps (every (is_active s) added) unavailable _ k (λ _.
              guard_split Keeps (not (is_blocked me added s)) blocked_person _ k (λ _.
                AllOld-seat_all s.next d added s.seats (old-seat s.next d me s.seats k there) k)))))

  set_preferences-Old : (d : ℕ) (patch : Option Patch) → Keeps (set_preferences d patch me s)
  unfolding set_preferences
  set_preferences-Old d patch = found_split Keeps (lookup (d, me) s.seats) not_part _ k (λ x l.
      found_split Keeps patch invalid_preference _ k
        (λ p _. AllOld-insert s.next (d, me) (patched p x) s.seats (sat_there d x l) k))

  mark_read-Old : (d id : ℕ) → Keeps (mark_read d id me s)
  unfolding mark_read
  mark_read-Old d id = found_split Keeps (lookup (d, me) s.seats) not_part _ k (λ x l.
      guard_split Keeps (leb 1 id) invalid_message _ k (λ _.
        if_split Old (is_further id x.last_read)
          (λ _.
            AllOld-insert s.next (d, me) (record x { last_read = some id }) s.seats
              (sat_there d x l) k)
          (λ _. k)))

  post_message-Old : (d : ℕ) (says saved : Bool) → Keeps (post_message d says saved me s)
  unfolding post_message
  post_message-Old d says saved = guard_split Keeps (has (d, me) s.seats) not_part _ k (λ _.
      guard_split Keeps says empty_message _ k
        (λ _. guard_split Keeps saved storage_failed _ k (λ _. AllOld-shown s.next d me s.seats k)))

  handle-Old : (r : Request) → Keeps (handle r me s)
  unfolding handle
  handle-Old (creates ids name) = create-Old ids name
  handle-Old (adds_people d ids) = add_people-Old d ids
  handle-Old (sets_preferences d patch) = set_preferences-Old d patch
  handle-Old (marks_read d id) = mark_read-Old d id
  handle-Old (posts d says saved) = post_message-Old d says saved

run-Old : (rs : List (Request × ℕ)) (s : Chats) → Old s → Old (run rs s)
unfolding run
run-Old [] s k = k
run-Old ((r, me) ∷ rs) s k = run-Old rs (chats_after s (handle r me s)) (handle-Old me s k r)

-- Whatever has been requested before: who asks again, with no request in between, for a chat with one
-- and the same person is answered with the id of a chat that is there, is no group chat, and has exactly
-- the two of them in it; nothing is stored and nobody is told, whether the first request made the chat
-- or found it.
pub run-create-again :
    (users : Map ℕ Bool) (blocked : List (ℕ × ℕ)) (rs : List (Request × ℕ)) (ids : List ℕ)
    (name again : Option String) (me other : ℕ) (t : Chats) (effects : List Effect)
    → others_of me ids ≡ other ∷ []
    → create ids name me (run rs (initial users blocked)) ≡ ok (t, effects)
    → (d : ℕ) × (create ids again me t ≡ ok (t, answered d ∷ [])) × IsPairChat me other d t
run-create-again users blocked rs ids name again me other t effects =
    create-again ids name again me other (run rs (initial users blocked)) t effects
      (run-Old rs (initial users blocked) (start users blocked))
  where
    start : (users : Map ℕ Bool) (blocked : List (ℕ × ℕ)) → Old (initial users blocked)
    start users blocked = unfold initial in tt
