-- ===== src/Teams/Preservation.antt =====
-- The requests of src/routes/teams.js keep the invariant of the tables.
use nova_connect.Prelude.{
  ℕ, ◌+◌, ◌≡◌, refl, ap, ◌∙◌, Bool, true, false, not, ◌&&◌, ◌||◌, Option, none, some, inl, inr,
  String, arith, lookup, insert, any, leb, if◌then◌else◌, if_split, Result, ok, err, ◌>>=◌,
  guard_split, found_split, ◌==◌, nat_eq, pair_eq, string_eq, Bool-cases, Option-cases,
  lookup-insert, option_split,
}
use nova_connect.Teams.State.{
  Role, owner, admin, member, is_owner, Team, Channel, Db, Error, owners_only, no_team, no_request,
  only_owner, name_required, no_user, demote_first, not_member, name_taken, on_hold, no_channel,
  is_team_owner, is_team_member, owners_count,
}
use nova_connect.Teams.Handlers.{
  Answer, add_member, create_team, ask_to_join, join, drop_request, approve, reject, set_approval,
  leave_check, leave_commit, leave, user_named, add, owner_there, remove, name_in_team,
  create_channel, delete_team, delete_channel,
}
use nova_connect.Teams.Membership.{db_after}
use nova_connect.Teams.Invariant.{
  IsKept, InTeam, other_owner, owner_besides, insert_member-IsKept, drop_member-IsKept,
}
use nova_connect.Teams.Writes.{
  insert_channel_member-IsKept, insert_channel-IsKept, drop_channel-IsKept, drop_team-IsKept,
  insert_team-IsKept, update_team-IsKept,
}

abbrev pub Keeps : Db → Answer → Type 0
Keeps s a = IsKept (db_after s a)

module _ (s : Db) (k : IsKept s) where
  -- Who manages a team belongs to it, so that it is there.
  pub managed_there :
      (t me : ℕ) → is_team_owner t me s ≡ true → (team : Team) × (lookup t s.teams ≡ some team)
  unfolding is_team_owner
  managed_there t me h = elim (Option-cases (lookup (t, me) s.members)) [
    | inl e ↦ ground (arith, h, e)
    | inr (r, e) ↦ k.homed t me r e
  ]

  pub add_member-IsKept :
      (t u : ℕ) (team : Team) → lookup t s.teams ≡ some team → IsKept (add_member t u s)
  unfolding add_member
  add_member-IsKept t u team there =
      if_split IsKept (is_team_member t u s) (λ _. k)
        (λ out.
          insert_member-IsKept s k t u member team there
            (inr (owner_besides t u s team k there (λ e. ground (arith, out, e)))))

  pub create_team-Keeps : (name : String) (me : ℕ) → Keeps s (create_team name me s)
  unfolding create_team
  create_team-Keeps name me = guard_split (Keeps s) (not (name == "")) name_required _ k (λ _.
      let u = record s {
        teams = insert s.next_team (record { name = name; require_approval = false }) s.teams;
        members = insert (s.next_team, me) owner s.members;
      } in
      insert_channel-IsKept u (insert_team-IsKept s k s.next_team me _)
        (record { team = s.next_team; name = "general"; private = false }))

  ask_to_join-IsKept : (t me : ℕ) → IsKept (ask_to_join t me s).0
  unfolding ask_to_join
  ask_to_join-IsKept t me = if_split IsKept (any (λ r. r == (t, me)) s.requests) (λ _. k) (λ _. k)

  pub join-Keeps : (t me : ℕ) → Keeps s (join t me s)
  unfolding join
  join-Keeps t me = found_split (Keeps s) (lookup t s.teams) no_team _ k (λ team there.
      if_split (λ x. Keeps s (ok x)) (is_team_member t me s) (λ _. k)
        (λ _.
          if_split (λ x. Keeps s (ok x)) team.require_approval (λ _. ask_to_join-IsKept t me)
            (λ _. add_member-IsKept t me team there)))

  pub approve-Keeps : (t u me : ℕ) → Keeps s (approve t u me s)
  unfolding approve drop_request
  approve-Keeps t u me = guard_split (Keeps s) (is_team_owner t me s) owners_only _ k (λ h.
      guard_split (Keeps s) (any (λ r. r == (t, u)) s.requests) no_request _ k
        (λ _. let (team, there) = managed_there t me h in add_member-IsKept t u team there))

  pub reject-Keeps : (t u me : ℕ) → Keeps s (reject t u me s)
  unfolding reject drop_request
  reject-Keeps t u me =
      guard_split (Keeps s) (is_team_owner t me s) owners_only _ k
        (λ h. guard_split (Keeps s) (any (λ r. r == (t, u)) s.requests) no_request _ k (λ _. k))

  pub set_approval-Keeps : (t : ℕ) (b : Bool) (me : ℕ) → Keeps s (set_approval t b me s)
  unfolding set_approval
  set_approval-Keeps t b me = guard_split (Keeps s) (is_team_owner t me s) owners_only _ k (λ h.
      option_split (λ x. IsKept (record s { teams = x })) (lookup t s.teams) (λ _. k)
        (λ old there. update_team-IsKept s k t old _ there))

  pub leave-Keeps : (t me : ℕ) → Keeps s (leave t me s)
  unfolding leave leave_check leave_commit
  leave-Keeps t me = go (lookup (t, me) s.members) refl
    where
      go :
          (o : Option Role)
          → lookup (t, me) s.members ≡ o
          → Keeps s (
              (elim o as (λ _. Result Error (Option Role)) [
                | none ↦ ok none
                | some r ↦
                    if is_owner r && leb (owners_count t s) 1 then err only_owner else ok (some r)
              ])
              >>= λ mine. ok (leave_commit t me mine s))
      go none e =
          drop_member-IsKept s k t me
            (λ team there. owner_besides t me s team k there (λ q. cc (e, q)))
      go (some owner) e = elim (Bool-cases (leb (owners_count t s) 1)) [
        | inl last ↦ rw last k
        | inr many ↦ rw many (
            drop_member-IsKept s k t me
              (λ team there. other_owner t me s k.member_keys (ground (arith, many))))
      ]
      go (some admin) e =
          drop_member-IsKept s k t me
            (λ team there. owner_besides t me s team k there (λ q. cc (e, q)))
      go (some member) e =
          drop_member-IsKept s k t me
            (λ team there. owner_besides t me s team k there (λ q. cc (e, q)))

  pub add-Keeps : (t : ℕ) (name : String) (me : ℕ) → Keeps s (add t name me s)
  unfolding add
  add-Keeps t name me = guard_split (Keeps s) (is_team_owner t me s) owners_only _ k (λ h.
      found_split (Keeps s) (user_named name s.users) no_user _ k
        (λ u _. let (team, there) = managed_there t me h in add_member-IsKept t u team there))

  pub remove-Keeps : (t u me : ℕ) → Keeps s (remove t u me s)
  unfolding remove
  remove-Keeps t u me =
      guard_split (Keeps s) (u == me || is_team_owner t me s) owners_only _ k (λ h.
        guard_split (Keeps s) (not (owner_there t u s)) demote_first _ k (λ n.
          drop_member-IsKept s k t u
            (λ team there. owner_besides t u s team k there (λ q. ground (arith, n, q)))))

  -- In a channel that was just made, whoever is in the team is in the channel's team.
  new_member-InTeam :
      (t me : ℕ) (ch : Channel)
      → ch.team ≡ t
      → is_team_member t me s ≡ true
      → InTeam s.members (insert s.next_channel ch s.channels) s.next_channel me
  new_member-InTeam t me ch e h = elim (Option-cases (lookup (t, me) s.members)) [
    | inl out ↦ ground (arith, h, out)
    | inr (r, at) ↦ (
      ch,
      r,
      ground (arith, lookup-insert s.next_channel s.next_channel ch s.channels),
      ap (λ x. lookup (x, me) s.members) e ∙ at,
    )
  ]

  pub create_channel-Keeps :
      (t : ℕ) (name : String) (private : Bool) (me : ℕ)
      → Keeps s (create_channel t name private me s)
  unfolding create_channel
  create_channel-Keeps t name private me =
      guard_split (Keeps s) (is_team_member t me s) not_member _ k (λ h.
        guard_split (Keeps s) (not (name == "")) name_required _ k (λ _.
          guard_split (Keeps s) (not (name_in_team t name s)) name_taken _ k (λ _.
            let ch : Channel = record { team = t; name = name; private = private } in
            let u = record s {
              channels = insert s.next_channel ch s.channels;
              next_channel = s.next_channel + 1;
            } in
            insert_channel_member-IsKept u (insert_channel-IsKept s k ch) s.next_channel me owner
              (new_member-InTeam t me ch refl h))))

  pub delete_team-Keeps : (t : ℕ) (held : Bool) (me : ℕ) → Keeps s (delete_team t held me s)
  unfolding delete_team
  delete_team-Keeps t held me =
      guard_split (Keeps s) (is_team_owner t me s) owners_only _ k
        (λ _. guard_split (Keeps s) (not held) on_hold _ k (λ _. drop_team-IsKept s k t))

  pub delete_channel-Keeps : (c : ℕ) (held : Bool) (me : ℕ) → Keeps s (delete_channel c held me s)
  unfolding delete_channel
  delete_channel-Keeps c held me =
      found_split (Keeps s) (lookup c s.channels) no_channel _ k (λ ch _.
        guard_split (Keeps s) (is_team_owner ch.team me s) owners_only _ k
          (λ _. guard_split (Keeps s) (not held) on_hold _ k (λ _. drop_channel-IsKept s k c)))
