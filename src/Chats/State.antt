-- ===== src/Chats/State.antt =====
-- The tables of chats that src/routes/dm.js reads and writes, with the columns it uses.
use nova_connect.Prelude.{
  ℕ, Bool, false, not, Option, none, some, String, List, [], ◌∷◌, Map, map, keep, lookup, ◌==◌,
  nat_eq, pair_eq,
}

pub data Level : Type 0 where
  everything : Level
  mentions : Level
  off : Level

pub record Conversation : Type 0 where
  pub group : Bool
  pub name : Option String
  pub created_by : ℕ

-- A row of `dm_participants`.
pub record Seat : Type 0 where
  pub favorite : Bool
  pub muted : Bool
  pub unread : Bool
  pub hidden : Bool
  pub level : Level
  pub last_read : Option ℕ

-- The row of somebody who was just added: the defaults of the columns.
unfoldable pub new_seat : Seat
new_seat = record {
  favorite = false;
  muted = false;
  unread = false;
  hidden = false;
  level = everything;
  last_read = none;
}

-- The key of `seats` is (chat, person); `users` says who is active, `blocked` who blocks whom.
pub record Chats : Type 0 where
  pub conversations : Map ℕ Conversation
  pub seats : Map (ℕ × ℕ) Seat
  pub next : ℕ
  pub users : Map ℕ Bool
  pub blocked : List (ℕ × ℕ)

pub data Effect : Type 0 where
  resync : ℕ → Effect
  created : ℕ → ℕ → Effect
  said_added : ℕ → ℕ → List ℕ → Effect
  preferences : ℕ → ℕ → Seat → Effect
  read_to : ℕ → ℕ → ℕ → Effect
  posted : ℕ → ℕ → Effect
  answered : ℕ → Effect

pub data Error : Type 0 where
  invalid_people : Error
  nobody_else : Error
  unavailable : Error
  blocked_person : Error
  not_part : Error
  all_there : Error
  invalid_preference : Error
  invalid_message : Error
  empty_message : Error
  storage_failed : Error

-- `[...new Set(xs)]`
unfoldable pub distinct_ids : List ℕ → List ℕ
distinct_ids [] = []
distinct_ids (x ∷ xs) = let rest = distinct_ids xs in x ∷ keep (λ y. not (y == x)) rest

abbrev pub is_active : Chats → ℕ → Bool
is_active s u = elim (lookup u s.users) [ none ↦ false | some a ↦ a ]

-- The rows of a chat.
abbrev pub seats_of : ℕ → Chats → List ((ℕ × ℕ) × Seat)
seats_of d s = keep (λ (e : (ℕ × ℕ) × Seat). e.0.0 == d) s.seats

unfoldable pub people_of : ℕ → Chats → List ℕ
people_of d s = map (λ (e : (ℕ × ℕ) × Seat). e.0.1) (seats_of d s)

-- Before the first chat.
unfoldable pub initial : Map ℕ Bool → List (ℕ × ℕ) → Chats
initial users blocked = record {
  conversations = [];
  seats = [];
  next = 1;
  users = users;
  blocked = blocked;
}
