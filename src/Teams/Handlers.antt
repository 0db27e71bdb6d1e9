-- ===== src/Teams/Handlers.antt =====
-- The requests of src/routes/teams.js that change something, each run without another between its
-- statements. `me` is the person of the session. A name is what is left of it after `trim` (of a
-- channel's, after the replacements too), and `held` is the answer of `channelDeleteBlock` or
-- `teamDeleteBlock`.
use nova_connect.Prelude.{
  ℕ, ◌+◌, Bool, false, not, ◌&&◌, ◌||◌, Option, none, some, String, List, [], ◌∷◌, ◌++◌, lookup,
  insert, erase, keep, any, has, leb, if◌then◌else◌, Result, ok, err, ◌>>=◌, ◌>>◌, guard, found,
  ◌==◌, nat_eq, pair_eq, string_eq,
}
use nova_connect.Teams.State.{
  Role, owner, member, is_owner, Channel, Account, Level, Db, team_create, member_add,
  member_remove, team_leave, team_settings, team_delete, channel_create, channel_delete,
  join_request, join_approved, join_rejected, Effect, stored, audited, notified, membership_changed,
  team_gone, channel_gone, level_set, resync, Error, name_required, no_team, owners_only,
  no_request, only_owner, not_member, no_user, demote_first, name_taken, on_hold, no_channel,
  is_team_owner, is_team_member, owners_count, managers_of, members_of, tell_owners_pending,
  drop_member, drop_channel, drop_team,
}

abbrev pub Answer : Type 0
Answer = Result Error (Db × List Effect)

-- `INSERT INTO team_members … 'member' … ON CONFLICT DO NOTHING`
unfoldable pub add_member : ℕ → ℕ → Db → Db
add_member t u s =
    if is_team_member t u s then s else record s { members = insert (t, u) member s.members }

-- POST /api/teams
unfoldable pub create_team : String → ℕ → Db → Answer
create_team name me s = do
  guard (not (name == "")) name_required
  ok (
    record s {
      teams = insert s.next_team (record { name = name; require_approval = false }) s.teams;
      members = insert (s.next_team, me) owner s.members;
      channels =
          insert s.next_channel (record { team = s.next_team; name = "general"; private = false })
            s.channels;
      next_team = s.next_team + 1;
      next_channel = s.next_channel + 1;
    },
    audited me team_create s.next_team ∷ resync me ∷ [],
  )

-- The request to join a team that wants approval.
unfoldable pub ask_to_join : ℕ → ℕ → Db → Db × List Effect
ask_to_join t me s =
    let s' : Db =
      if any (λ r. r == (t, me)) s.requests
      then s
      else record s { requests = s.requests ++ (t, me) ∷ [] } in
    let asked = managers_of t s' in (s', told_each asked ++ tell_owners_pending t s')
  where
    told_each : List ℕ → List Effect
    told_each [] = []
    told_each (o ∷ os) = stored o join_request t ∷ notified o ∷ told_each os

-- POST /api/teams/:id/join
unfoldable pub join : ℕ → ℕ → Db → Answer
join t me s = do
  team ← found no_team (lookup t s.teams)
  ok (
      if is_team_member t me s
      then (s, [])
      else if team.require_approval
      then ask_to_join t me s
      else (add_member t me s, resync me ∷ []))

unfoldable pub drop_request : ℕ → ℕ → Db → Db
drop_request t u s = record s { requests = keep (λ r. not (r == (t, u))) s.requests }

-- POST /api/teams/:id/join-requests/:userId/approve
unfoldable pub approve : ℕ → ℕ → ℕ → Db → Answer
approve t u me s = do
  guard (is_team_owner t me s) owners_only
  guard (any (λ r. r == (t, u)) s.requests) no_request
  let s' = drop_request t u (add_member t u s)
  ok (
    s',
    (stored u join_approved t ∷ resync u ∷ membership_changed u t ∷ notified u ∷ [])
        ++ (tell_owners_pending t s' ++ audited me member_add u ∷ []),
  )

-- POST /api/teams/:id/join-requests/:userId/reject
unfoldable pub reject : ℕ → ℕ → ℕ → Db → Answer
reject t u me s = do
  guard (is_team_owner t me s) owners_only
  guard (any (λ r. r == (t, u)) s.requests) no_request
  let s' = drop_request t u s
  ok (s', stored u join_rejected t ∷ notified u ∷ tell_owners_pending t s')

-- PATCH /api/teams/:id/settings
unfoldable pub set_approval : ℕ → Bool → ℕ → Db → Answer
set_approval t approval me s = do
  guard (is_team_owner t me s) owners_only
  ok (
    record s {
      teams = elim (lookup t s.teams) [
        | none ↦ s.teams
        | some team ↦ insert t (record team { require_approval = approval }) s.teams
      ];
    },
    audited me team_settings t ∷ [],
  )

-- POST /api/teams/:id/leave up to its refusal: the count of owners and the role are read, and then
-- the rows are deleted.
unfoldable pub leave_check : ℕ → ℕ → Db → Result Error (Option Role)
leave_check t me s = elim (lookup (t, me) s.members) [
  | none ↦ ok none
  | some r ↦ if is_owner r && leb (owners_count t s) 1 then err only_owner else ok (some r)
]

unfoldable pub leave_commit : ℕ → ℕ → Option Role → Db → Db × List Effect
leave_commit t me mine s = (
  drop_member t me s,
  resync me ∷ (elim mine [ none ↦ [] | some r ↦ audited me team_leave t ∷ [] ]),
)

unfoldable pub leave : ℕ → ℕ → Db → Answer
leave t me s = do mine ← leave_check t me s; ok (leave_commit t me mine s)

-- `SELECT id FROM users WHERE username = ? AND active = 1`
unfoldable pub user_named : String → List (ℕ × Account) → Option ℕ
user_named name [] = none
user_named name ((i, u) ∷ us) =
    if u.username == name && u.active then some i else user_named name us

-- POST /api/teams/:id/members
unfoldable pub add : ℕ → String → ℕ → Db → Answer
add t username me s = do
  guard (is_team_owner t me s) owners_only
  u ← found no_user (user_named username s.users)
  ok (
    add_member t u s,
    resync u ∷ (if is_team_member t u s then [] else audited me member_add u ∷ []),
  )

-- `target?.role === 'owner'`
abbrev pub owner_there : ℕ → ℕ → Db → Bool
owner_there t u s = elim (lookup (t, u) s.members) [ none ↦ false | some r ↦ is_owner r ]

-- DELETE /api/teams/:id/members/:userId
unfoldable pub remove : ℕ → ℕ → ℕ → Db → Answer
remove t u me s = do
  guard (u == me || is_team_owner t me s) owners_only
  guard (not (owner_there t u s)) demote_first
  let action = if u == me then team_leave else member_remove
  ok (drop_member t u s, resync u ∷ (if is_team_member t u s then audited me action u ∷ [] else []))

abbrev pub name_in_team : ℕ → String → Db → Bool
name_in_team t name s = any (λ (e : ℕ × Channel). e.1.team == t && e.1.name == name) s.channels

-- The sockets and sidebars of the others in the team.
unfoldable pub tell_members : ℕ → ℕ → List ℕ → List Effect
tell_members t me [] = []
tell_members t me (u ∷ us) =
    if u == me
    then tell_members t me us
    else resync u ∷ membership_changed u t ∷ tell_members t me us

-- POST /api/teams/:id/channels
unfoldable pub create_channel : ℕ → String → Bool → ℕ → Db → Answer
create_channel t name private me s = do
  guard (is_team_member t me s) not_member
  guard (not (name == "")) name_required
  guard (not (name_in_team t name s)) name_taken
  ok (
    record s {
      channels =
          insert s.next_channel (record { team = t; name = name; private = private }) s.channels;
      channel_members = insert (s.next_channel, me) owner s.channel_members;
      next_channel = s.next_channel + 1;
    },
    resync me
        ∷ audited me channel_create s.next_channel
        ∷ (if private then [] else tell_members t me (members_of t s)),
  )

-- DELETE /api/teams/:id
unfoldable pub delete_team : ℕ → Bool → ℕ → Db → Answer
delete_team t held me s = do
  guard (is_team_owner t me s) owners_only
  guard (not held) on_hold
  ok (drop_team t s, audited me team_delete t ∷ told_each (members_of t s))
  where
    told_each : List ℕ → List Effect
    told_each [] = []
    told_each (u ∷ us) = team_gone u t ∷ resync u ∷ told_each us

-- The condition of PUT /api/channels/:id/notifications.
unfoldable pub is_visible : ℕ → ℕ → Db → Bool
is_visible c u s = elim (lookup c s.channels) [
  | none ↦ false
  | some ch ↦ is_team_member ch.team u s && (not ch.private || has (c, u) s.channel_members)
]

-- PUT /api/channels/:id/notifications; `none` is the level 'all'.
unfoldable pub set_level : ℕ → Option Level → ℕ → Db → Answer
set_level c level me s = do
  guard (is_visible c me s) no_channel
  ok (
    record s {
      levels = elim level [ none ↦ erase (c, me) s.levels | some l ↦ insert (c, me) l s.levels ];
    },
    level_set me c level ∷ [],
  )

-- DELETE /api/channels/:id
unfoldable pub delete_channel : ℕ → Bool → ℕ → Db → Answer
delete_channel c held me s = do
  ch ← found no_channel (lookup c s.channels)
  guard (is_team_owner ch.team me s) owners_only
  guard (not held) on_hold
  ok (drop_channel c s, audited me channel_delete c ∷ told_each ch.team (members_of ch.team s))
  where
    told_each : ℕ → List ℕ → List Effect
    told_each t [] = []
    told_each t (u ∷ us) = channel_gone u t c ∷ resync u ∷ told_each t us
