-- ===== src/Teams/State.antt =====
-- The tables of teams and channels that src/routes/teams.js and src/routes/membership.js read and
-- write, with the columns they use, and the questions that both files ask of them.
use nova_connect.Prelude.{
  ℕ, Bool, true, false, not, ◌&&◌, Option, none, some, String, List, [], Map, lookup, erase, keep,
  map, length, has, ◌==◌, nat_eq, pair_eq,
}

-- `team_members.role` and `channel_members.role`
pub data Role : Type 0 where
  owner : Role
  admin : Role
  member : Role

abbrev pub is_owner : Role → Bool
is_owner owner = true
is_owner admin = false
is_owner member = false

-- `role === 'owner' || role === 'admin'`
abbrev pub is_manager : Role → Bool
is_manager owner = true
is_manager admin = true
is_manager member = false

pub record Team : Type 0 where
  pub name : String
  pub require_approval : Bool

pub record Channel : Type 0 where
  pub team : ℕ
  pub name : String
  pub private : Bool

pub record Account : Type 0 where
  pub username : String
  pub active : Bool

pub data Level : Type 0 where
  mentions : Level
  off : Level

-- The tables, by their keys; the two counters are the sequences of `teams.id` and `channels.id`. The
-- key of `members` is (team, user), that of `channel_members`, `levels` (channel, user).
pub record Db : Type 0 where
  pub teams : Map ℕ Team
  pub members : Map (ℕ × ℕ) Role
  pub requests : List (ℕ × ℕ)
  pub channels : Map ℕ Channel
  pub channel_members : Map (ℕ × ℕ) Role
  pub levels : Map (ℕ × ℕ) Level
  pub users : Map ℕ Account
  pub next_team : ℕ
  pub next_channel : ℕ

pub data Action : Type 0 where
  team_create : Action
  member_add : Action
  member_remove : Action
  team_leave : Action
  team_settings : Action
  team_delete : Action
  channel_create : Action
  channel_delete : Action

pub data Kind : Type 0 where
  join_request : Kind
  join_approved : Kind
  join_rejected : Kind

-- What a request does beside these tables: rows of `notifications` and of the audit log, events for
-- a person's sockets, and `resyncUserRooms`.
pub data Effect : Type 0 where
  stored : ℕ → Kind → ℕ → Effect
  audited : ℕ → Action → ℕ → Effect
  notified : ℕ → Effect
  pending : ℕ → ℕ → ℕ → Effect
  membership_changed : ℕ → ℕ → Effect
  team_gone : ℕ → ℕ → Effect
  channel_gone : ℕ → ℕ → ℕ → Effect
  level_set : ℕ → ℕ → Option Level → Effect
  resync : ℕ → Effect

pub data Error : Type 0 where
  name_required : Error
  no_team : Error
  owners_only : Error
  no_request : Error
  only_owner : Error
  not_member : Error
  no_user : Error
  demote_first : Error
  name_taken : Error
  on_hold : Error
  no_channel : Error
  channel_private : Error
  managers_only : Error
  keep_owner : Error
  add_to_team_first : Error
  bad_name : Error

-- `isTeamOwner`
unfoldable pub is_team_owner : ℕ → ℕ → Db → Bool
is_team_owner t u s = elim (lookup (t, u) s.members) [ none ↦ false | some r ↦ is_manager r ]

-- `isTeamMember`
abbrev pub is_team_member : ℕ → ℕ → Db → Bool
is_team_member t u s = has (t, u) s.members

-- `SELECT COUNT(*) … WHERE team_id = ? AND role = 'owner'`
unfoldable pub owners_count : ℕ → Db → ℕ
owners_count t s = length (keep (λ (e : (ℕ × ℕ) × Role). e.0.0 == t && is_owner e.1) s.members)

-- `SELECT user_id … WHERE team_id = ? AND role IN ('owner','admin')`
unfoldable pub managers_of : ℕ → Db → List ℕ
managers_of t s =
    map (λ (e : (ℕ × ℕ) × Role). e.0.1)
      (keep (λ (e : (ℕ × ℕ) × Role). e.0.0 == t && is_manager e.1) s.members)

unfoldable pub members_of : ℕ → Db → List ℕ
members_of t s =
    map (λ (e : (ℕ × ℕ) × Role). e.0.1) (keep (λ (e : (ℕ × ℕ) × Role). e.0.0 == t) s.members)

-- `tellOwnersPending`
unfoldable pub tell_owners_pending : ℕ → Db → List Effect
tell_owners_pending t s =
    let count = length (keep (λ (r : ℕ × ℕ). r.0 == t) s.requests) in
    map (λ o. pending o t count) (managers_of t s)

-- `channel_id IN (SELECT id FROM channels WHERE team_id = ?)`
abbrev pub in_team : ℕ → ℕ → Db → Bool
in_team t c s = elim (lookup c s.channels) [ none ↦ false | some ch ↦ ch.team == t ]

-- The two deletions of leaving and removing: the row of the team, and those of its channels.
unfoldable pub drop_member : ℕ → ℕ → Db → Db
drop_member t u s = record s {
  members = erase (t, u) s.members;
  channel_members =
      keep (λ (e : (ℕ × ℕ) × Role). not (e.0.1 == u && in_team t e.0.0 s)) s.channel_members;
}

-- `DELETE FROM channels WHERE id = ?` with what hangs on the row.
unfoldable pub drop_channel : ℕ → Db → Db
drop_channel c s = record s {
  channels = erase c s.channels;
  channel_members = keep (λ (e : (ℕ × ℕ) × Role). not (e.0.0 == c)) s.channel_members;
  levels = keep (λ (e : (ℕ × ℕ) × Level). not (e.0.0 == c)) s.levels;
}

-- `DELETE FROM teams WHERE id = ?` with what hangs on the row.
unfoldable pub drop_team : ℕ → Db → Db
drop_team t s = record s {
  teams = erase t s.teams;
  members = keep (λ (e : (ℕ × ℕ) × Role). not (e.0.0 == t)) s.members;
  requests = keep (λ (r : ℕ × ℕ). not (r.0 == t)) s.requests;
  channels = keep (λ (e : ℕ × Channel). not (e.1.team == t)) s.channels;
  channel_members = keep (λ (e : (ℕ × ℕ) × Role). not (in_team t e.0.0 s)) s.channel_members;
  levels = keep (λ (e : (ℕ × ℕ) × Level). not (in_team t e.0.0 s)) s.levels;
}

unfoldable pub initial : Map ℕ Account → Db
initial users = record {
  teams = [];
  members = [];
  requests = [];
  channels = [];
  channel_members = [];
  levels = [];
  users = users;
  next_team = 1;
  next_channel = 1;
}
