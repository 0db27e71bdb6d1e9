-- ===== src/Calls/Restart.antt =====
-- What src/group-calls.js does soon after a start: the timer at its end, which posts the outcomes of
-- calls that a crash interrupted, and marks posts of meetings that no longer run.
use nova_connect.Prelude.{
  ℕ, Bool, true, false, not, ◌&&◌, Option, none, some, List, [], ◌∷◌, Map, map, lookup, has,
  if◌then◌else◌, nat_eq,
}
use nova_connect.Calls.State.{Effect, Recovery, State, push_all, scope_eq}
use nova_connect.Calls.Lifecycle.{outcome_posts, outcome_posted}

-- The outcome of an interrupted call, whose length counts to the last heartbeat; the reason
-- 'Interrupted' is none of those that a 1:1 call shows, and the length says that it is a guess.
abbrev pub interrupted_posts : Recovery → List Effect
interrupted_posts r = outcome_posts r none r.last_seen_at

-- One round of the loop over the keys.
unfoldable pub recover_one : ℕ → State → State
recover_one key s = elim (lookup key s.recovery) [
  | none ↦ s
  | some r ↦ if has r.id s.calls then s else outcome_posted key (push_all (interrupted_posts r) s)
]

unfoldable pub recover : List ℕ → State → State
recover [] s = s
recover (k ∷ ks) s = recover ks (recover_one k s)

-- A channel's message whose text says that a meeting was started, with its metadata.
pub data Mark : Type 0 where
  started : Mark
  over : Mark

pub record Post : Type 0 where
  pub says_started : Bool
  pub in_channel : Bool
  pub deleted : Bool
  pub call : Option Mark
  pub call_id : Option ℕ

abbrev pub is_over : Option Mark → Bool
is_over none = false
is_over (some started) = false
is_over (some over) = true

abbrev pub still_runs : Option ℕ → State → Bool
still_runs none s = false
still_runs (some id) s = has id s.calls

-- The rows that the query finds and that neither `continue` leaves out.
abbrev pub is_stale : State → Post → Bool
is_stale s p =
    p.in_channel
    && (not p.deleted && (p.says_started && (not (is_over p.call) && not (still_runs p.call_id s))))

unfoldable pub mark_ended : Post → Post
mark_ended p = record p { says_started = false; call = some over }

abbrev pub swept : State → ℕ × Post → ℕ × Post
swept s e = if is_stale s e.1 then (e.0, mark_ended e.1) else e

unfoldable pub sweep_posts : State → Map ℕ Post → Map ℕ Post
sweep_posts s posts = map (swept s) posts
