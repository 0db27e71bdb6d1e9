-- ===== src/Teams/LeaveRace.antt =====
-- What two requests to leave a team at once do.
use nova_connect.Prelude.{
  ℕ, ◌≡◌, true, false, ◌&&◌, ◌||◌, some, arith, lookup, ok, ◌==◌, nat_eq, pair_eq, string_eq, erase,
  lookup-erase, length-keep_two,
}
use nova_connect.Teams.State.{owner, is_owner, Db, owners_count, drop_member}
use nova_connect.Teams.Handlers.{leave_check, leave_commit}
use nova_connect.Teams.Invariant.{Owned}

leave_check_passes :
    (t u v : ℕ) (s : Db)
    → (u == v) ≡ false
    → lookup (t, u) s.members ≡ some owner
    → lookup (t, v) s.members ≡ some owner
    → leave_check t u s ≡ ok (some owner)
unfolding leave_check owners_count
leave_check_passes t u v s n h q = ground (
  arith,
  n,
  h,
  length-keep_two (λ e. e.0.0 == t && is_owner e.1) (t, u) (t, v) owner owner s.members
      (ground (arith, n)) h (ground arith) q (ground arith),
)

-- The only two owners of a team may leave at once: each passes the check while the other is still
-- there, and once both are gone the team has no owner.
pub leave_twice-not-Owned :
    (t u v : ℕ) (s : Db)
    → (u == v) ≡ false
    → lookup (t, u) s.members ≡ some owner
    → lookup (t, v) s.members ≡ some owner
    → ((w : ℕ) → lookup (t, w) s.members ≡ some owner → (w == u || w == v) ≡ true)
    → (leave_check t u s ≡ ok (some owner))
      × (leave_check t v s ≡ ok (some owner))
      × (¬ Owned (leave_commit t v (some owner) (leave_commit t u (some owner) s).0).0.members t)
unfolding leave_commit drop_member
leave_twice-not-Owned t u v s n h q only = (
  leave_check_passes t u v s n h q,
  leave_check_passes t v u s (ground (arith, n)) q h,
  λ (w, o). ground (
    arith,
    o,
    only w,
    lookup-erase (t, v) (t, w) (erase (t, u) s.members),
    lookup-erase (t, u) (t, w) s.members,
  ),
)
