-- ===== src/Teams/Authority.antt =====
-- Who may change whose place in a team.
use nova_connect.Prelude.{
  ℕ, ◌≡◌, refl, ap, Bool, true, false, not, ◌&&◌, ◌||◌, arith, lookup, insert, any, leb, if_split,
  ok, guard_split, found_split, chain_split, ◌==◌, nat_eq, pair_eq, string_eq, Bool-cases,
  Option-cases, lookup-insert, lookup-erase, lookup-keep, nat_beq_iff, inl, inr,
}
use nova_connect.Teams.State.{
  Role, owner, member, Db, owners_only, no_team, no_request, name_required, no_user, demote_first,
  not_member, name_taken, on_hold, no_channel, managers_only, keep_owner, add_to_team_first,
  bad_name, is_team_owner, is_team_member, owners_count, drop_member, drop_channel, drop_team,
}
use nova_connect.Teams.Handlers.{
  Answer, add_member, create_team, ask_to_join, join, drop_request, approve, reject, set_approval,
  leave_check, leave_commit, leave, user_named, add, owner_there, remove, name_in_team,
  create_channel, delete_team, is_visible, set_level, delete_channel,
}
use nova_connect.Teams.Membership.{
  Rights, team_context, channel_context, active_account, asked_role, set_team_role,
  set_channel_role, name_elsewhere, rename_channel, Request, creates_team, joins, approves, rejects,
  sets_approval, leaves, adds, removes, creates_channel, deletes_team, sets_level, deletes_channel,
  sets_team_role, sets_channel_role, renames_channel, handle, db_after,
}
use nova_connect.Teams.Invariant.{IsKept}

module _ (s : Db) (k : IsKept s) (t u me : ℕ) (other : (u == me) ≡ false)
    (powerless : is_team_owner t me s ≡ false) where
  abbrev Same : Answer → Type 0
  Same a = lookup (t, u) (db_after s a).members ≡ lookup (t, u) s.members

  -- A team that `me` manages is another one.
  apart : (t' : ℕ) → is_team_owner t' me s ≡ true → (t' == t) ≡ false
  apart t' h = elim (Bool-cases (t' == t)) [
    | inl same ↦ cc (ap (λ x. is_team_owner x me s) ((nat_beq_iff t' t).0 same))
    | inr no_more ↦ no_more
  ]

  insert-Same :
      (t' u' : ℕ) (r : Role)
      → (t' == t && u' == u) ≡ false
      → lookup (t, u) (insert (t', u') r s.members) ≡ lookup (t, u) s.members
  insert-Same t' u' r h = ground (arith, h, lookup-insert (t', u') (t, u) r s.members)

  add_member-Same :
      (t' u' : ℕ)
      → (t' == t && u' == u) ≡ false
      → lookup (t, u) (add_member t' u' s).members ≡ lookup (t, u) s.members
  unfolding add_member
  add_member-Same t' u' h =
      if_split (λ (x : Db). lookup (t, u) x.members ≡ lookup (t, u) s.members)
        (is_team_member t' u' s) (λ _. refl) (λ _. insert-Same t' u' member h)

  drop_member-Same :
      (t' u' : ℕ)
      → (t' == t && u' == u) ≡ false
      → lookup (t, u) (drop_member t' u' s).members ≡ lookup (t, u) s.members
  unfolding drop_member
  drop_member-Same t' u' h = ground (arith, h, lookup-erase (t', u') (t, u) s.members)

  not_me : (t' : ℕ) → (t' == t && me == u) ≡ false
  not_me t' = ground (arith, other)

  elsewhere : (t' u' : ℕ) → is_team_owner t' me s ≡ true → (t' == t && u' == u) ≡ false
  elsewhere t' u' h = ground (arith, apart t' h)

  team_context-manager :
      (t' : ℕ) (x : Rights)
      → team_context t' me s ≡ ok x
      → x.manages ≡ true
      → is_team_owner t' me s ≡ true
  unfolding team_context is_team_owner
  team_context-manager t' x h m = elim (Option-cases (lookup t' s.teams)) [
    | inl out ↦ ground (arith, h, out)
    | inr (team, there) ↦ elim (Option-cases (lookup (t', me) s.members)) [
      | inl out ↦ ground (arith, h, there, out)
      | inr (role, mine) ↦ ground (arith, h, m, there, mine)
    ]
  ]

  channel_context-manager :
      (c : ℕ) (x : Rights)
      → channel_context c me s ≡ ok x
      → x.manager ≡ true
      → is_team_owner x.team me s ≡ true
  unfolding channel_context is_team_owner
  channel_context-manager c x h m = elim (Option-cases (lookup c s.channels)) [
    | inl out ↦ ground (arith, h, out)
    | inr (ch, at) ↦ elim (Option-cases (lookup ch.team s.teams)) [
      | inl out ↦ ground (arith, h, at, out)
      | inr (team, there) ↦ elim (Option-cases (lookup (ch.team, me) s.members)) [
        | inl out ↦ ground (arith, h, at, there, out)
        | inr (role, mine) ↦
            ground (arith, h, m, at, there, mine, ap (λ z. lookup (z, me) s.members))
      ]
    ]
  ]

  -- Where somebody is added to the team of a channel, `me` manages that team or nobody is added.
  channel_role-Same :
      (x : Rights) (u' : ℕ)
      → (is_team_member x.team u' s || x.manager) ≡ true
      → (x.manager ≡ true → is_team_owner x.team me s ≡ true)
      → lookup (t, u) (add_member x.team u' s).members ≡ lookup (t, u) s.members
  unfolding add_member
  channel_role-Same x u' h m =
      if_split (λ (y : Db). lookup (t, u) y.members ≡ lookup (t, u) s.members)
        (is_team_member x.team u' s) (λ _. refl)
        (λ out. insert-Same x.team u' member (elsewhere x.team u' (m (ground (arith, h, out)))))

  drop_team-Same :
      (t' : ℕ)
      → (t' == t) ≡ false
      → lookup (t, u) (drop_team t' s).members ≡ lookup (t, u) s.members
  unfolding drop_team
  drop_team-Same t' h =
      let p : (ℕ × ℕ) × Role → Bool = λ e. not (e.0.0 == t') in
      elim (Option-cases (lookup (t, u) s.members)) [
        | inl out ↦ ground (arith, out, lookup-keep p (t, u) s.members k.member_keys)
        | inr (r, at) ↦ ground (arith, at, h, lookup-keep p (t, u) s.members k.member_keys)
      ]

  leave-Same : (t' : ℕ) → Same (leave t' me s)
  unfolding leave leave_commit
  leave-Same t' =
      chain_split Same (leave_check t' me s) _ (λ _ _. refl)
        (λ mine _. drop_member-Same t' me (not_me t'))

  join-Same : (t' : ℕ) → Same (join t' me s)
  unfolding join ask_to_join
  join-Same t' = found_split Same (lookup t' s.teams) no_team _ refl (λ team _.
      if_split (λ x. Same (ok x)) (is_team_member t' me s) (λ _. refl)
        (λ _.
          if_split (λ x. Same (ok x)) team.require_approval
            (λ _.
              if_split (λ (x : Db). lookup (t, u) x.members ≡ lookup (t, u) s.members)
                (any (λ r. r == (t', me)) s.requests) (λ _. refl) (λ _. refl))
            (λ _. add_member-Same t' me (not_me t'))))

  remove-Same : (t' u' : ℕ) → Same (remove t' u' me s)
  unfolding remove
  remove-Same t' u' = guard_split Same (u' == me || is_team_owner t' me s) owners_only _ refl (λ h.
      guard_split Same (not (owner_there t' u' s)) demote_first _ refl (λ _.
        drop_member-Same t' u' (elim (Bool-cases (is_team_owner t' me s)) [
          | inl m ↦ elsewhere t' u' m
          | inr out ↦ ground (arith, h, out, other)
        ])))

  -- Whoever neither is the person in question nor an owner or admin of the team changes nothing about
  -- the person's place in the team, whatever the request, given that the tables keep their invariant.
  pub handle-authority : (r : Request) → Same (handle r me s)
  unfolding handle create_team approve reject set_approval add create_channel delete_team set_level
      delete_channel set_team_role set_channel_role rename_channel drop_request drop_channel
  handle-authority (creates_team name) =
      guard_split Same (not (name == "")) name_required _ refl
        (λ _. insert-Same s.next_team me owner (not_me s.next_team))
  handle-authority (joins t') = join-Same t'
  handle-authority (approves t' u') =
      guard_split Same (is_team_owner t' me s) owners_only _ refl (λ h.
        guard_split Same (any (λ r. r == (t', u')) s.requests) no_request _ refl
          (λ _. add_member-Same t' u' (elsewhere t' u' h)))
  handle-authority (rejects t' u') =
      guard_split Same (is_team_owner t' me s) owners_only _ refl
        (λ h. guard_split Same (any (λ r. r == (t', u')) s.requests) no_request _ refl (λ _. refl))
  handle-authority (sets_approval t' b) =
      guard_split Same (is_team_owner t' me s) owners_only _ refl (λ _. refl)
  handle-authority (leaves t') = leave-Same t'
  handle-authority (adds t' name) =
      guard_split Same (is_team_owner t' me s) owners_only _ refl (λ h.
        found_split Same (user_named name s.users) no_user _ refl
          (λ u' _. add_member-Same t' u' (elsewhere t' u' h)))
  handle-authority (removes t' u') = remove-Same t' u'
  handle-authority (creates_channel t' name private) =
      guard_split Same (is_team_member t' me s) not_member _ refl (λ _.
        guard_split Same (not (name == "")) name_required _ refl
          (λ _. guard_split Same (not (name_in_team t' name s)) name_taken _ refl (λ _. refl)))
  handle-authority (deletes_team t' held) =
      guard_split Same (is_team_owner t' me s) owners_only _ refl
        (λ h. guard_split Same (not held) on_hold _ refl (λ _. drop_team-Same t' (apart t' h)))
  handle-authority (sets_level c level) =
      guard_split Same (is_visible c me s) no_channel _ refl (λ _. refl)
  handle-authority (deletes_channel c held) =
      found_split Same (lookup c s.channels) no_channel _ refl (λ ch _.
        guard_split Same (is_team_owner ch.team me s) owners_only _ refl
          (λ _. guard_split Same (not held) on_hold _ refl (λ _. refl)))
  handle-authority (sets_team_role t' u' as_owner) =
      chain_split Same (team_context t' me s) _ (λ _ _. refl)
        (λ x h. guard_split Same x.manages managers_only _ refl (λ m.
          guard_split Same (active_account u' s) no_user _ refl (λ _.
            guard_split Same
              (not (owner_there t' u' s && not as_owner && leb (owners_count t' s) 1)) keep_owner _
              refl
              (λ _.
                insert-Same t' u' (asked_role as_owner)
                  (elsewhere t' u' (team_context-manager t' x h m))))))
  handle-authority (sets_channel_role c u' as_owner) =
      chain_split Same (channel_context c me s) _ (λ _ _. refl)
        (λ x h. guard_split Same x.manages managers_only _ refl (λ _.
          guard_split Same (active_account u' s) no_user _ refl (λ _.
            guard_split Same (is_team_member x.team u' s || x.manager) add_to_team_first _ refl
              (λ q. channel_role-Same x u' q (channel_context-manager c x h)))))
  handle-authority (renames_channel c name valid) = guard_split Same valid bad_name _ refl (λ _.
      chain_split Same (channel_context c me s) _ (λ _ _. refl)
        (λ x _. guard_split Same x.manages managers_only _ refl (λ _.
          found_split Same (lookup c s.channels) no_channel _ refl (λ old _.
            guard_split Same (not (name_elsewhere c old.team name s)) name_taken _ refl
              (λ _. refl)))))
