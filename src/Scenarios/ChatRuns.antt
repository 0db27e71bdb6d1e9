-- ===== src/Scenarios/ChatRuns.antt =====
-- Ann (1) makes a chat with Bob (2), who mutes it, and adds Cleo (3).
use nova_connect.Prelude.{
  ℕ, ◌≡◌, refl, Bool, true, false, none, some, List, [], ◌∷◌, Map, arith, ok, ◌⊎◌, lookup, insert,
  nat_eq, pair_eq,
}
use nova_connect.Chats.State.{
  off, answered, Seat, new_seat, Chats, distinct_ids, people_of, initial,
}
use nova_connect.Chats.Handlers.{
  is_blocked, seat_all, existing_pair, store_chat, create, add_people, Patch, set_level, patched,
  set_preferences, mark_read, Request, creates, adds_people, sets_preferences, marks_read, posts,
  handle, chats_after, run,
}
use nova_connect.Chats.Seats.{AllInStep, run-AllInStep}
use nova_connect.Chats.Own.{NotBack, posts_to, handle-Stays}
use nova_connect.Chats.Pairs.{IsPairChat}
use nova_connect.Chats.Reached.{run-create-again}

abbrev users : Map ℕ Bool
users = (1, true) ∷ (2, true) ∷ (3, true) ∷ []

abbrev mutes : Patch
mutes = record { favorite = none; muted = some true; unread = none; hidden = none; level = none }

abbrev requests : List (Request × ℕ)
requests =
    (creates (2 ∷ 2 ∷ []) none, 1)
    ∷ (sets_preferences 1 (some mutes), 2)
    ∷ (marks_read 1 9, 2)
    ∷ (adds_people 1 (3 ∷ []), 1)
    ∷ (marks_read 1 7, 2)
    ∷ []

abbrev muted_seat : Seat
muted_seat = record new_seat { muted = true; level = off; last_read = some 9 }

-- Bob's place is muted, and he has read up to message 9 still.
requests-seat : lookup (1, 2) (run requests (initial users [])).seats ≡ some muted_seat
unfolding run handle create add_people set_preferences mark_read initial new_seat distinct_ids
    people_of is_blocked seat_all existing_pair store_chat patched set_level lookup insert
requests-seat = refl

run-AllInStep_example : AllInStep (run requests (initial users [])).seats
unfolding initial lookup
run-AllInStep_example = run-AllInStep requests (initial users []) (λ i x l. cc (l))

abbrev chats : Chats
chats = record {
  conversations = (1, record { group = false; name = none; created_by = 1 }) ∷ [];
  seats = ((1, 1), new_seat) ∷ ((1, 2), muted_seat) ∷ [];
  next = 2;
  users = users;
  blocked = [];
}

handle-Stays_example :
    (y : Seat) × (lookup (1, 2) (chats_after chats (handle (posts 1 true true) 1 chats)).seats
      ≡ some y)
    × NotBack (some 9) y.last_read
    × (nat_eq.beq 2 1 ≡ false
        → (y ≡ muted_seat)
          ⊎ ((posts_to 1 (posts 1 true true) ≡ true)
              × (y ≡ record muted_seat { hidden = false; unread = true })))
unfolding lookup
handle-Stays_example = handle-Stays 1 chats 1 2 muted_seat refl (omega arith) (posts 1 true true)

-- Bob asks for a chat with Cleo, twice.
abbrev asked : Chats
asked = (store_chat (3 ∷ []) none 2 (initial users [])).0

run-create-again_example :
    (d : ℕ) × (create (3 ∷ []) none 2 asked ≡ ok (asked, answered d ∷ [])) × IsPairChat 2 3 d asked
unfolding run create distinct_ids is_blocked existing_pair store_chat initial lookup
run-create-again_example =
    run-create-again users [] [] (3 ∷ []) none none 2 3 asked
      (store_chat (3 ∷ []) none 2 (initial users [])).1 refl refl
