-- ===== src/Chats/Handlers.antt =====
-- The requests of src/routes/dm.js that change a chat or somebody's place in it.
use nova_connect.Prelude.{
  ℕ, ◌+◌, Bool, true, false, not, ◌&&◌, ◌||◌, Option, none, some, String, List, [], ◌∷◌, ◌++◌, Map,
  map, keep, any, every, find, length, lookup, insert, has, leb, ltb, if◌then◌else◌, Result, ok,
  err, ◌>>=◌, ◌>>◌, guard, found, ◌==◌, nat_eq, pair_eq,
}
use nova_connect.Chats.State.{
  Level, everything, mentions, off, Conversation, Seat, new_seat, Chats, Effect, resync, created,
  said_added, preferences, read_to, posted, answered, Error, invalid_people, nobody_else,
  unavailable, blocked_person, not_part, all_there, invalid_preference, invalid_message,
  empty_message, storage_failed, distinct_ids, is_active, seats_of, people_of,
}

abbrev pub Answer : Type 0
Answer = Result Error (Chats × List Effect)

abbrev pub is_among : List ℕ → ℕ → Bool
is_among xs x = any (λ y. y == x) xs

-- The query on `blocked_users`, in both directions.
unfoldable pub is_blocked : ℕ → List ℕ → Chats → Bool
is_blocked me others s =
    any (λ (b : ℕ × ℕ). (b.0 == me && is_among others b.1) || (b.1 == me && is_among others b.0))
      s.blocked

-- A row for each of `us`.
unfoldable pub seat_all : ℕ → List ℕ → Map (ℕ × ℕ) Seat → Map (ℕ × ℕ) Seat
seat_all d [] seats = seats
seat_all d (u ∷ us) seats = seat_all d us (insert (d, u) new_seat seats)

-- The query for a 1:1 chat of two people.
abbrev pub is_pair : ℕ → ℕ → Chats → ℕ × Conversation → Bool
is_pair me other s e =
    not e.1.group
    && (has (e.0, me) s.seats && (has (e.0, other) s.seats && length (seats_of e.0 s) == 2))

unfoldable pub existing_pair : ℕ → List ℕ → Chats → Option ℕ
existing_pair me [] s = none
existing_pair me (other ∷ []) s = elim (find (is_pair me other s) s.conversations) [
  | none ↦ none
  | some e ↦ some e.0
]
existing_pair me (a ∷ b ∷ us) s = none

abbrev pub is_several : List ℕ → Bool
is_several [] = false
is_several (x ∷ []) = false
is_several (x ∷ y ∷ xs) = true

-- What POST /api/dm stores.
unfoldable pub store_chat : List ℕ → Option String → ℕ → Chats → Chats × List Effect
store_chat others name me s = (
  record s {
    conversations =
        insert s.next
          (record {
            group = is_several others;
            name = if is_several others then name else none;
            created_by = me;
          })
          s.conversations;
    seats = seat_all s.next (me ∷ others) s.seats;
    next = s.next + 1;
  },
  map resync (me ∷ others) ++ (map (λ u. created u s.next) (me ∷ others) ++ answered s.next ∷ []),
)

abbrev pub is_nobody : List ℕ → Bool
is_nobody [] = true
is_nobody (x ∷ xs) = false

abbrev pub valid_ids : List ℕ → Bool
valid_ids ids = leb (length ids) 50 && every (leb 1) ids

-- POST /api/dm
unfoldable pub create : List ℕ → Option String → ℕ → Chats → Answer
create ids name me s = do
  guard (valid_ids ids) invalid_people
  let others = distinct_ids (keep (λ u. not (u == me)) ids)
  guard (not (is_nobody others)) nobody_else
  guard (every (is_active s) others) unavailable
  guard (not (is_blocked me others s)) blocked_person
  ok (elim (existing_pair me others s) [
    | some d ↦ (s, answered d ∷ [])
    | none ↦ store_chat others name me s
  ])

abbrev pub as_group : Conversation → Conversation
as_group c = record c { group = true }

-- POST /api/dm/:id/participants
unfoldable pub add_people : ℕ → List ℕ → ℕ → Chats → Answer
add_people d ids me s = do
  guard (has (d, me) s.seats) not_part
  guard (not (is_nobody ids) && valid_ids ids) invalid_people
  let existing = people_of d s
  let added = keep (λ u. not (is_among existing u)) (distinct_ids ids)
  guard (not (is_nobody added)) all_there
  guard (every (is_active s) added) unavailable
  guard (not (is_blocked me added s)) blocked_person
  ok (
    record s {
      seats = seat_all d added s.seats;
      conversations = elim (lookup d s.conversations) [
        | none ↦ s.conversations
        | some c ↦ if c.group then s.conversations else insert d (as_group c) s.conversations
      ];
    },
    map resync (existing ++ added) ++ (map (λ u. created u d) added ++ said_added d me added ∷ []),
  )

-- The keys of a request that sets preferences.
pub record Patch : Type 0 where
  pub favorite : Option Bool
  pub muted : Option Bool
  pub unread : Option Bool
  pub hidden : Option Bool
  pub level : Option Level

abbrev pub is_off : Level → Bool
is_off everything = false
is_off mentions = false
is_off off = true

abbrev pub or_else {ℓ} : {A : Type ℓ} → Option A → A → A
or_else none b = b
or_else (some a) b = a

-- Mute is the "off" level: setting either keeps the other in step.
unfoldable pub set_level : Option Level → Option Bool → Seat → Seat
set_level (some l) muted x = record x { level = l; muted = is_off l }
set_level none (some m) x = record x { level = if m then off else everything; muted = m }
set_level none none x = x

unfoldable pub patched : Patch → Seat → Seat
patched p x = record (set_level p.level p.muted x) {
  favorite = or_else p.favorite x.favorite;
  unread = or_else p.unread x.unread;
  hidden = or_else p.hidden x.hidden;
}

-- PATCH /api/dm/:id/preferences, `none` for a request that has no key, a wrong one or a wrong value.
unfoldable pub set_preferences : ℕ → Option Patch → ℕ → Chats → Answer
set_preferences d patch me s = do
  x ← found not_part (lookup (d, me) s.seats)
  p ← found invalid_preference patch
  let y = patched p x
  ok (record s { seats = insert (d, me) y s.seats }, preferences me d y ∷ [])

abbrev pub is_further : ℕ → Option ℕ → Bool
is_further id none = true
is_further id (some at) = ltb at id

-- POST /api/dm/:id/read
unfoldable pub mark_read : ℕ → ℕ → ℕ → Chats → Answer
mark_read d id me s = do
  x ← found not_part (lookup (d, me) s.seats)
  guard (leb 1 id) invalid_message
  ok (
    if is_further id x.last_read
        then record s { seats = insert (d, me) (record x { last_read = some id }) s.seats }
        else s,
    read_to d me id ∷ [],
  )

-- What a new message does to a row of its chat.
abbrev pub shown_to : ℕ → ℕ → (ℕ × ℕ) × Seat → (ℕ × ℕ) × Seat
shown_to d me e =
    if e.0.0 == d then (e.0, record e.1 { hidden = false; unread = not (e.0.1 == me) }) else e

-- POST /api/dm/:id/messages: `says` is whether there is a text, a file or a GIF, and `saved` whether the
-- file, if there is one, could be stored. The message itself is in the messages' own tables.
unfoldable pub post_message : ℕ → Bool → Bool → ℕ → Chats → Answer
post_message d says saved me s = do
  guard (has (d, me) s.seats) not_part
  guard says empty_message
  guard saved storage_failed
  ok (record s { seats = map (shown_to d me) s.seats }, posted d me ∷ [])

pub data Request : Type 0 where
  creates : List ℕ → Option String → Request
  adds_people : ℕ → List ℕ → Request
  sets_preferences : ℕ → Option Patch → Request
  marks_read : ℕ → ℕ → Request
  posts : ℕ → Bool → Bool → Request

unfoldable pub handle : Request → ℕ → Chats → Answer
handle (creates ids name) me s = create ids name me s
handle (adds_people d ids) me s = add_people d ids me s
handle (sets_preferences d patch) me s = set_preferences d patch me s
handle (marks_read d id) me s = mark_read d id me s
handle (posts d says saved) me s = post_message d says saved me s

-- A refused request changes nothing.
abbrev pub chats_after : Chats → Answer → Chats
chats_after s (ok (t, effects)) = t
chats_after s (err e) = s

-- Requests with who makes them, one after the other.
unfoldable pub run : List (Request × ℕ) → Chats → Chats
run [] s = s
run ((r, me) ∷ rs) s = run rs (chats_after s (handle r me s))
