-- ===== src/Calls/Access.antt =====
-- Who may be in a call: `parseScope`, `access` and `activeUser` of src/group-calls.js, over the
-- rows of the database that they read.
use Prim.Native.String.{◌++◌ as append}
use nova_connect.Prelude.{
  ℕ, suc, Bool, false, not, ◌&&◌, ◌||◌, Option, none, some, String, List, [], ◌∷◌, ◌==◌, nat_eq,
  Map, lookup, any, length, if◌then◌else◌, pair_eq, Result, ok, err, ◌>>◌, guard,
}
use nova_connect.Calls.State.{Scope, dm, channel}

pub record User : Type 0 where
  pub full_name : String
  pub active : Bool

pub record Channel : Type 0 where
  pub name : String
  pub team_id : ℕ
  pub is_private : Bool

pub record Conversation : Type 0 where
  pub name : Option String
  pub is_group : Bool

-- The tables `users`, `channels`, `team_members`, `channel_members`, `dm_conversations` and
-- `dm_participants`; a membership row is a pair of the place and the user.
pub record Database : Type 0 where
  pub users : Map ℕ User
  pub channels : Map ℕ Channel
  pub team_members : List (ℕ × ℕ)
  pub channel_members : List (ℕ × ℕ)
  pub conversations : Map ℕ Conversation
  pub participants : List (ℕ × ℕ)

pub data Error : Type 0 where
  sign_in_again inactive invalid_request channel_not_found channel_members_only : Error
  chat_members_only two_members_needed finish_current other_offline other_busy : Error
  has_ended already_in leave_meeting : Error

-- A person of a place: the id and the name.
pub record Person : Type 0 where
  pub id : ℕ
  pub full_name : String

-- `members` is null for a channel.
pub record Place : Type 0 where
  pub title : Option String
  pub members : Option (List Person)
  pub direct : Bool

-- `Number(…)` of what the client sent, where that is a safe integer above 0.
unfoldable pub parse_scope : Option ℕ → Option ℕ → Result Error Scope
parse_scope conversation_id (some (suc ch)) = ok (channel (suc ch))
parse_scope (some (suc c)) _ = ok (dm (suc c))
parse_scope _ _ = err invalid_request

unfoldable pub row : ℕ → ℕ → List (ℕ × ℕ) → Bool
row place user rows = any (λ r. r == (place, user)) rows

-- The active people of a chat: `dm_participants` joined with `users`.
unfoldable pub active_people : Database → ℕ → List (ℕ × ℕ) → List Person
active_people db c [] = []
active_people db c ((place, u) ∷ rows) =
    let rest = active_people db c rows in
    elim (lookup u db.users) [
      | none ↦ rest
      | some p ↦
          if place == c && p.active then record { id = u; full_name = p.full_name } ∷ rest else rest
    ]

unfoldable pub channel_access : Database → ℕ → ℕ → Channel → Result Error Place
channel_access db ch user c = do
  guard (row c.team_id user db.team_members && (not c.is_private || row ch user db.channel_members))
      channel_members_only
  ok (record { title = some (append "#" c.name); members = none; direct = false })

unfoldable pub chat_access : Database → ℕ → ℕ → Option Conversation → Result Error Place
chat_access db c user none = err chat_members_only
chat_access db c user (some convo) =
    let members = active_people db c db.participants in
    do
      guard (any (λ m. m.id == user) members) chat_members_only
      guard (convo.is_group || length members == 2) two_members_needed
      ok (record { title = convo.name; members = some members; direct = not convo.is_group })

unfoldable pub access : Database → Scope → ℕ → Result Error Place
access db (channel ch) user = elim (lookup ch db.channels) [
  | none ↦ err channel_not_found
  | some c ↦ channel_access db ch user c
]
access db (dm c) user = chat_access db c user (lookup c db.conversations)

-- `session_user`: the user of the reloaded session, `none` where the reload failed or has none.
unfoldable pub active_user : Database → Option ℕ → ℕ → Result Error Person
active_user db none socket_user = err sign_in_again
active_user db (some s) socket_user =
    if not (s == socket_user) then err sign_in_again else elim (lookup socket_user db.users) [
      | none ↦ err inactive
      | some u ↦
          if u.active
          then ok (record { id = socket_user; full_name = u.full_name })
          else err inactive
    ]
