-- ===== src/Scenarios/TeamRuns.antt =====
-- Ann (1) makes a team and a private channel, Bob (2) asks to join, is let in and becomes an owner,
-- and Cleo (3) joins a team that needs no approval.
use nova_connect.Prelude.{
  ℕ, ◌≡◌, refl, true, false, some, List, [], ◌∷◌, arith, ok, Map, lookup, insert, erase, nat_eq,
  pair_eq, subst,
}
use nova_connect.Teams.State.{
  owner, member, is_team_owner, owners_count, managers_of, members_of, tell_owners_pending, Account,
  Db, drop_member, initial,
}
use nova_connect.Teams.Handlers.{
  add_member, create_team, ask_to_join, join, drop_request, approve, set_approval, leave_check,
  leave_commit, leave, remove, tell_members, create_channel,
}
use nova_connect.Teams.Membership.{
  team_context, set_team_role, Request, creates_team, joins, approves, sets_approval, leaves,
  removes, creates_channel, sets_team_role, handle, db_after, run,
}
use nova_connect.Teams.Invariant.{IsKept, Owned}
use nova_connect.Teams.Soundness.{run-initial-IsKept}
use nova_connect.Teams.Authority.{handle-authority}
use nova_connect.Teams.LeaveRace.{leave_twice-not-Owned}

abbrev pub users : Map ℕ Account
users =
    (1, record { username = "ann"; active = true })
    ∷ (2, record { username = "bob"; active = true })
    ∷ (3, record { username = "cleo"; active = true })
    ∷ []

abbrev pub requests : List (Request × ℕ)
requests =
    (creates_team "Lab", 1)
    ∷ (creates_channel 1 "plans" true, 1)
    ∷ (joins 1, 3)
    ∷ (leaves 1, 1)
    ∷ (sets_approval 1 true, 1)
    ∷ (joins 1, 2)
    ∷ (approves 1 2, 1)
    ∷ (removes 1 1, 2)
    ∷ (sets_team_role 1 2 true, 1)
    ∷ []

-- Ann cannot leave as the only owner, and Bob, then a member, cannot remove her.
abbrev pub state : Db
state = record {
  teams = (1, record { name = "Lab"; require_approval = true }) ∷ [];
  members = ((1, 1), owner) ∷ ((1, 3), member) ∷ ((1, 2), owner) ∷ [];
  requests = [];
  channels =
      (1, record { team = 1; name = "general"; private = false })
      ∷ (2, record { team = 1; name = "plans"; private = true })
      ∷ [];
  channel_members = ((2, 1), owner) ∷ [];
  levels = [];
  users = users;
  next_team = 2;
  next_channel = 3;
}

requests-state : run requests (initial users) ≡ state
unfolding run handle create_team create_channel join set_approval approve remove set_team_role leave
    leave_check leave_commit drop_member initial lookup insert erase is_team_owner owners_count
    managers_of members_of tell_owners_pending add_member ask_to_join drop_request team_context
    tell_members
requests-state = refl

run-initial-IsKept_example : IsKept (run requests (initial users))
run-initial-IsKept_example = run-initial-IsKept users requests

pub state-IsKept : IsKept state
state-IsKept = subst IsKept requests-state (run-initial-IsKept users requests)

-- Cleo, a member, tries to make Bob a member again.
handle-authority_example :
    lookup (1, 2) (db_after state (handle (sets_team_role 1 2 false) 3 state)).members
    ≡ lookup (1, 2) state.members
unfolding is_team_owner lookup
handle-authority_example =
    handle-authority state state-IsKept 1 2 3 refl refl (sets_team_role 1 2 false)

leave_twice-not-Owned_example :
    (leave_check 1 1 state ≡ ok (some owner))
    × (leave_check 1 2 state ≡ ok (some owner))
    × (¬ Owned (leave_commit 1 2 (some owner) (leave_commit 1 1 (some owner) state).0).0.members 1)
unfolding lookup
leave_twice-not-Owned_example =
    leave_twice-not-Owned 1 1 2 state refl refl refl (λ w e. ground (arith, e))
