-- ===== src/Teams/Soundness.antt =====
-- Every request keeps the invariant of the tables, and so does every sequence of requests.
use nova_connect.Prelude.{
  ℕ, ◌≡◌, refl, sym, ap, ◌∙◌, Bool, true, false, not, ◌&&◌, ◌||◌, Option, some, inl, inr, ◌⊎◌,
  String, List, [], ◌∷◌, arith, lookup, leb, if_split, ok, guard_split, found_split, chain_split,
  Map, nat_eq, pair_eq, string_eq, Bool-cases, Option-cases, lookup-insert,
}
use nova_connect.Teams.State.{
  owner, member, Team, Channel, Account, Level, Db, no_user, name_taken, no_channel, managers_only,
  keep_owner, add_to_team_first, bad_name, is_team_member, owners_count, initial,
}
use nova_connect.Teams.Handlers.{add_member, owner_there, is_visible, set_level}
use nova_connect.Teams.Membership.{
  Rights, team_context, channel_context, active_account, asked_role, set_team_role,
  set_channel_role, name_elsewhere, rename_channel, Request, creates_team, joins, approves, rejects,
  sets_approval, leaves, adds, removes, creates_channel, deletes_team, sets_level, deletes_channel,
  sets_team_role, sets_channel_role, renames_channel, handle, db_after, run,
}
use nova_connect.Teams.Invariant.{
  IsKept, OwnedBesides, InTeam, other_owner, owner_besides, insert_member-IsKept,
}
use nova_connect.Teams.Writes.{insert_channel_member-IsKept, update_channel-IsKept}
use nova_connect.Teams.Preservation.{
  Keeps, add_member-IsKept, create_team-Keeps, join-Keeps, approve-Keeps, reject-Keeps,
  set_approval-Keeps, leave-Keeps, add-Keeps, remove-Keeps, create_channel-Keeps, delete_team-Keeps,
  delete_channel-Keeps,
}

module _ (s : Db) (k : IsKept s) where
  set_level-Keeps : (c : ℕ) (level : Option Level) (me : ℕ) → Keeps s (set_level c level me s)
  unfolding set_level
  set_level-Keeps c level me = guard_split (Keeps s) (is_visible c me s) no_channel _ k (λ _. k)

  team_context-there :
      (t me : ℕ) (x : Rights)
      → team_context t me s ≡ ok x
      → (team : Team) × (lookup t s.teams ≡ some team)
  unfolding team_context
  team_context-there t me x h = elim (Option-cases (lookup t s.teams)) [
    | inl out ↦ ground (arith, h, out)
    | inr there ↦ there
  ]

  -- The channel is there, and its team.
  channel_context-there :
      (c me : ℕ) (x : Rights)
      → channel_context c me s ≡ ok x
      → (ch : Channel) × (team : Team) × (lookup c s.channels ≡ some ch)
        × (lookup ch.team s.teams ≡ some team)
        × (x.team ≡ ch.team)
  unfolding channel_context
  channel_context-there c me x h = elim (Option-cases (lookup c s.channels)) [
    | inl out ↦ ground (arith, h, out)
    | inr (ch, at) ↦ elim (Option-cases (lookup ch.team s.teams)) [
      | inl out ↦ ground (arith, h, at, out)
      | inr (team, there) ↦ elim (Option-cases (lookup (ch.team, me) s.members)) [
        | inl out ↦ ground (arith, h, at, there, out)
        | inr (role, mine) ↦ (ch, team, at, there, ground (arith, h, at, there, mine))
      ]
    ]
  ]

  set_team_role-Keeps :
      (t u : ℕ) (as_owner : Bool) (me : ℕ) → Keeps s (set_team_role t u as_owner me s)
  unfolding set_team_role
  set_team_role-Keeps t u as_owner me =
      chain_split (Keeps s) (team_context t me s) _ (λ _ _. k)
        (λ x h. guard_split (Keeps s) x.manages managers_only _ k (λ _.
          guard_split (Keeps s) (active_account u s) no_user _ k (λ _.
            guard_split (Keeps s)
              (not (owner_there t u s && not as_owner && leb (owners_count t s) 1)) keep_owner _ k
              (λ q.
                let (team, there) = team_context-there t me x h in
                insert_member-IsKept s k t u (asked_role as_owner) team there
                  (kept_owner as_owner q team there)))))
    where
      kept_owner :
          (b : Bool)
          → not (owner_there t u s && not b && leb (owners_count t s) 1) ≡ true
          → (team : Team) → lookup t s.teams ≡ some team
          → (asked_role b ≡ owner) ⊎ OwnedBesides s.members t u
      kept_owner true h team there = inl refl
      kept_owner false h team there = elim (Bool-cases (leb (owners_count t s) 1)) [
        | inl last ↦ inr (owner_besides t u s team k there (λ q. ground (arith, h, last, q)))
        | inr many ↦ inr (other_owner t u s k.member_keys (ground (arith, many)))
      ]

  added-InTeam :
      (t c u : ℕ) (ch : Channel)
      → lookup c s.channels ≡ some ch
      → t ≡ ch.team
      → InTeam (add_member t u s).members (add_member t u s).channels c u
  unfolding add_member
  added-InTeam t c u ch at e =
      if_split (λ (x : Db). InTeam x.members x.channels c u) (is_team_member t u s)
        (λ h. elim (Option-cases (lookup (t, u) s.members)) [
          | inl out ↦ ground (arith, h, out)
          | inr (r, q) ↦ (ch, r, at, ap (λ x. lookup (x, u) s.members) (sym e) ∙ q)
        ])
        (λ _.
          (ch, member, at, ground (arith, e, lookup-insert (t, u) (ch.team, u) member s.members)))

  set_channel_role-Keeps :
      (c u : ℕ) (as_owner : Bool) (me : ℕ) → Keeps s (set_channel_role c u as_owner me s)
  unfolding set_channel_role
  set_channel_role-Keeps c u as_owner me =
      chain_split (Keeps s) (channel_context c me s) _ (λ _ _. k)
        (λ x h.
          let (ch, team, at, there, e) = channel_context-there c me x h in
          guard_split (Keeps s) x.manages managers_only _ k (λ _.
            guard_split (Keeps s) (active_account u s) no_user _ k (λ _.
              guard_split (Keeps s) (is_team_member x.team u s || x.manager) add_to_team_first _ k
                (λ _.
                  insert_channel_member-IsKept (add_member x.team u s)
                    (add_member-IsKept s k x.team u team (ap (λ z. lookup z s.teams) e ∙ there)) c u
                    (asked_role as_owner) (added-InTeam x.team c u ch at e)))))

  rename_channel-Keeps :
      (c : ℕ) (name : String) (valid : Bool) (me : ℕ) → Keeps s (rename_channel c name valid me s)
  unfolding rename_channel
  rename_channel-Keeps c name valid me = guard_split (Keeps s) valid bad_name _ k (λ _.
      chain_split (Keeps s) (channel_context c me s) _ (λ _ _. k)
        (λ x _. guard_split (Keeps s) x.manages managers_only _ k (λ _.
          found_split (Keeps s) (lookup c s.channels) no_channel _ k (λ old at.
            guard_split (Keeps s) (not (name_elsewhere c old.team name s)) name_taken _ k
              (λ _. update_channel-IsKept s k c old (record old { name = name }) at refl)))))

  handle-Keeps : (r : Request) (me : ℕ) → Keeps s (handle r me s)
  unfolding handle
  handle-Keeps (creates_team name) me = create_team-Keeps s k name me
  handle-Keeps (joins t) me = join-Keeps s k t me
  handle-Keeps (approves t u) me = approve-Keeps s k t u me
  handle-Keeps (rejects t u) me = reject-Keeps s k t u me
  handle-Keeps (sets_approval t b) me = set_approval-Keeps s k t b me
  handle-Keeps (leaves t) me = leave-Keeps s k t me
  handle-Keeps (adds t name) me = add-Keeps s k t name me
  handle-Keeps (removes t u) me = remove-Keeps s k t u me
  handle-Keeps (creates_channel t name private) me = create_channel-Keeps s k t name private me
  handle-Keeps (deletes_team t held) me = delete_team-Keeps s k t held me
  handle-Keeps (sets_level c level) me = set_level-Keeps c level me
  handle-Keeps (deletes_channel c held) me = delete_channel-Keeps s k c held me
  handle-Keeps (sets_team_role t u as_owner) me = set_team_role-Keeps t u as_owner me
  handle-Keeps (sets_channel_role c u as_owner) me = set_channel_role-Keeps c u as_owner me
  handle-Keeps (renames_channel c name valid) me = rename_channel-Keeps c name valid me

run-IsKept : (rs : List (Request × ℕ)) (s : Db) → IsKept s → IsKept (run rs s)
unfolding run
run-IsKept [] s k = k
run-IsKept ((r, me) ∷ rs) s k = run-IsKept rs (db_after s (handle r me s)) (handle-Keeps s k r me)

-- After any sequence of requests that run one at a time, from an empty database on, every team has an
-- owner, the members of a team belong to a team that is there, and whoever is in a channel is in the
-- team of that channel.
pub run-initial-IsKept :
    (users : Map ℕ Account) (rs : List (Request × ℕ)) → IsKept (run rs (initial users))
unfolding initial lookup
run-initial-IsKept users rs = run-IsKept rs (initial users) (record {
  member_keys = tt;
  channel_keys = tt;
  channel_member_keys = tt;
  owned = λ t team l. cc;
  homed = λ t u r l. cc;
  inside = λ c u r l. cc;
  counted = λ c ch l. cc;
})
