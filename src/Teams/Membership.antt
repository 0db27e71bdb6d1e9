-- ===== src/Teams/Membership.antt =====
-- src/routes/membership.js, and the requests of both files as one function. A request holds the
-- team's row locked, so that it runs alone.
use nova_connect.Prelude.{
  ℕ, Bool, true, false, not, ◌&&◌, ◌||◌, Option, none, some, String, List, [], ◌∷◌, lookup, insert,
  any, leb, Result, ok, err, ◌>>=◌, ◌>>◌, guard, found, ◌==◌, nat_eq, pair_eq, string_eq,
}
use nova_connect.Teams.State.{
  Role, owner, member, is_owner, is_manager, Channel, Level, Db, resync, membership_changed, Error,
  no_channel, no_team, not_member, channel_private, managers_only, no_user, keep_owner,
  add_to_team_first, bad_name, name_taken, is_team_member, owners_count,
}
use nova_connect.Teams.Handlers.{
  Answer, add_member, create_team, join, approve, reject, set_approval, leave, add, owner_there,
  remove, create_channel, delete_team, set_level, delete_channel,
}

-- What `context` returns, less the rows.
pub record Rights : Type 0 where
  pub team : ℕ
  pub manager : Bool
  pub manages : Bool

abbrev pub there_of : Option Role → Bool
there_of none = false
there_of (some r) = true

abbrev pub owns : Option Role → Bool
owns none = false
owns (some r) = is_owner r

-- `context` for a team.
unfoldable pub team_context : ℕ → ℕ → Db → Result Error Rights
team_context t me s = do
  row ← found no_team (lookup t s.teams)
  role ← found not_member (lookup (t, me) s.members)
  ok (record { team = t; manager = is_manager role; manages = is_manager role })

-- `context` for a channel.
unfoldable pub channel_context : ℕ → ℕ → Db → Result Error Rights
channel_context c me s = do
  channel ← found no_channel (lookup c s.channels)
  row ← found no_team (lookup channel.team s.teams)
  role ← found not_member (lookup (channel.team, me) s.members)
  let mine = lookup (c, me) s.channel_members
  guard (not (channel.private && not (there_of mine) && not (is_manager role))) channel_private
  ok (record {
    team = channel.team;
    manager = is_manager role;
    manages = is_manager role || owns mine;
  })

abbrev pub active_account : ℕ → Db → Bool
active_account u s = elim (lookup u s.users) [ none ↦ false | some a ↦ a.active ]

-- `role` of the request: 'member' or 'owner'.
abbrev pub asked_role : Bool → Role
asked_role true = owner
asked_role false = member

-- POST /api/teams/:id/membership
unfoldable pub set_team_role : ℕ → ℕ → Bool → ℕ → Db → Answer
set_team_role t u as_owner me s = do
  c ← team_context t me s
  guard c.manages managers_only
  guard (active_account u s) no_user
  guard (not (owner_there t u s && not as_owner && leb (owners_count t s) 1)) keep_owner
  ok (
    record s { members = insert (t, u) (asked_role as_owner) s.members },
    resync u ∷ membership_changed u t ∷ [],
  )

-- POST /api/channels/:id/membership
unfoldable pub set_channel_role : ℕ → ℕ → Bool → ℕ → Db → Answer
set_channel_role c u as_owner me s = do
  x ← channel_context c me s
  guard x.manages managers_only
  guard (active_account u s) no_user
  guard (is_team_member x.team u s || x.manager) add_to_team_first
  let s' = add_member x.team u s
  ok (
    record s' { channel_members = insert (c, u) (asked_role as_owner) s'.channel_members },
    resync u ∷ membership_changed u x.team ∷ [],
  )

-- The unique key of `channels`: another channel of the team has the name.
abbrev pub name_elsewhere : ℕ → ℕ → String → Db → Bool
name_elsewhere c t name s =
    any (λ (e : ℕ × Channel). not (e.0 == c) && (e.1.team == t && e.1.name == name)) s.channels

-- PATCH /api/channels/:id/settings; `valid` is what the test of the name and the description says.
unfoldable pub rename_channel : ℕ → String → Bool → ℕ → Db → Answer
rename_channel c name valid me s = do
  guard valid bad_name
  x ← channel_context c me s
  guard x.manages managers_only
  channel ← found no_channel (lookup c s.channels)
  guard (not (name_elsewhere c channel.team name s)) name_taken
  ok (record s { channels = insert c (record channel { name = name }) s.channels }, [])

pub data Request : Type 0 where
  creates_team : String → Request
  joins : ℕ → Request
  approves : ℕ → ℕ → Request
  rejects : ℕ → ℕ → Request
  sets_approval : ℕ → Bool → Request
  leaves : ℕ → Request
  adds : ℕ → String → Request
  removes : ℕ → ℕ → Request
  creates_channel : ℕ → String → Bool → Request
  deletes_team : ℕ → Bool → Request
  sets_level : ℕ → Option Level → Request
  deletes_channel : ℕ → Bool → Request
  sets_team_role : ℕ → ℕ → Bool → Request
  sets_channel_role : ℕ → ℕ → Bool → Request
  renames_channel : ℕ → String → Bool → Request

unfoldable pub handle : Request → ℕ → Db → Answer
handle (creates_team name) me s = create_team name me s
handle (joins t) me s = join t me s
handle (approves t u) me s = approve t u me s
handle (rejects t u) me s = reject t u me s
handle (sets_approval t b) me s = set_approval t b me s
handle (leaves t) me s = leave t me s
handle (adds t name) me s = add t name me s
handle (removes t u) me s = remove t u me s
handle (creates_channel t name private) me s = create_channel t name private me s
handle (deletes_team t held) me s = delete_team t held me s
handle (sets_level c level) me s = set_level c level me s
handle (deletes_channel c held) me s = delete_channel c held me s
handle (sets_team_role t u as_owner) me s = set_team_role t u as_owner me s
handle (sets_channel_role c u as_owner) me s = set_channel_role c u as_owner me s
handle (renames_channel c name valid) me s = rename_channel c name valid me s

-- A refused request changes nothing.
abbrev pub db_after : Db → Answer → Db
db_after s (ok (s', effects)) = s'
db_after s (err e) = s

-- Requests one after another, each with its person.
unfoldable pub run : List (Request × ℕ) → Db → Db
run [] s = s
run ((r, me) ∷ rs) s = run rs (db_after s (handle r me s))
