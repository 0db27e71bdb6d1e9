-- ===== src/Scenarios/CallRuns.antt =====
-- Calls of three people: Bob has a 1:1 chat with Ann (7) and one with Cleo (8), and there is a private
-- channel (5).
use nova_connect.Prelude.{
  ℕ, In, ◌++◌, has, ap, ◌≡◌, refl, Bool, true, false, none, some, List, [], ◌∷◌, arith, lookup,
  insert, nat_eq,
}
use nova_connect.Calls.State.{
  dm, channel, audio, video, hung_up, Recovery, Call, State, is_member, in_group_call, distinct,
  distinct_users, summary, told, tell_scope, broadcast_state,
}
use nova_connect.Calls.Access.{Database, Person, Place, active_people, chat_access, access}
use nova_connect.Calls.Lifecycle.{recovery_of, persist, end_call}
use nova_connect.Calls.Handlers.{
  running_in, posted, start_finish, check_other, join_names, title_of, new_call, announced,
  start_create, start_commit,
}
use nova_connect.Calls.Joining.{
  join_check, create_room, admit, persist_connected, enter, join_commit, join,
}
use nova_connect.Calls.Steps.{Event, creates, joins, after, step, run, initial}
use nova_connect.Calls.Invariant.{IsSound}
use nova_connect.Calls.Soundness.{AllFresh, step-IsSound, run-initial-IsSound}
use nova_connect.Calls.Cleanup.{IsGone, end_call-IsGone}
use nova_connect.Calls.Exclusive.{OneCall, OnePerScope, join-OneCall}
use nova_connect.Calls.Restart.{recover}
use nova_connect.Calls.RestartLaws.{posts_for, Settled, recover-posts}
use nova_connect.Calls.Races.{join_twice-not-OneCall, start_twice-not-OnePerScope}

abbrev ann : Person
ann = record { id = 1; full_name = "Ann" }

abbrev bob : Person
bob = record { id = 2; full_name = "Bob" }

abbrev cleo : Person
cleo = record { id = 3; full_name = "Cleo" }

abbrev direct_place : Person → Person → Place
direct_place p q = record { title = none; members = some (p ∷ q ∷ []); direct = true }

abbrev db : Database
db = record {
  users =
      (1, record { full_name = "Ann"; active = true })
      ∷ (2, record { full_name = "Bob"; active = true })
      ∷ (3, record { full_name = "Cleo"; active = true })
      ∷ [];
  channels = (5, record { name = "ops"; team_id = 4; is_private = true }) ∷ [];
  team_members = (4, 1) ∷ (4, 2) ∷ [];
  channel_members = (5, 1) ∷ [];
  conversations =
      (7, record { name = none; is_group = false })
      ∷ (8, record { name = none; is_group = false })
      ∷ [];
  participants = (7, 1) ∷ (7, 2) ∷ (8, 2) ∷ (8, 3) ∷ [];
}

-- Ann calls Bob, and Cleo calls Bob.
abbrev ann_calls : Event
ann_calls = creates 70 1000 true video (dm 7) (direct_place ann bob) (bob ∷ []) ann

abbrev cleo_calls : Event
cleo_calls = creates 80 2000 true audio (dm 8) (direct_place bob cleo) (bob ∷ []) cleo

abbrev two_calls : List Event
two_calls = ann_calls ∷ cleo_calls ∷ []

abbrev ringing : State
ringing = run two_calls initial

two_calls-AllFresh : AllFresh two_calls initial
unfolding initial lookup step start_commit check_other in_group_call start_create new_call announced
    run insert
two_calls-AllFresh = (refl, (refl, tt))

ringing-IsSound : IsSound ringing
ringing-IsSound = run-initial-IsSound two_calls two_calls-AllFresh

step-IsSound_example : IsSound (step (joins 21 bob 70 3000) ringing)
step-IsSound_example = step-IsSound (joins 21 bob 70 3000) ringing tt ringing-IsSound

ringing-OneCall : OneCall ringing
unfolding initial lookup step start_commit check_other in_group_call start_create new_call announced
    run insert is_member
ringing-OneCall i j u c d p q m n = ground (arith, p, m)

join-OneCall_example : OneCall (join db 21 bob 70 3000 ringing).0
join-OneCall_example = join-OneCall db 21 70 3000 bob ringing ringing-IsSound ringing-OneCall

nothing_runs : running_in (dm 7) initial ≡ none
unfolding running_in initial lookup
nothing_runs = refl

initial-OnePerScope : OnePerScope initial
unfolding initial lookup
initial-OnePerScope i c l = cc

-- Ann is in the call that she started, and its ring timer is armed.
abbrev ann_call : Call
ann_call = record {
  id = 70;
  scope = dm 7;
  mode = video;
  started_by = 1;
  direct = true;
  connected = false;
  started_at = 1000;
  connected_at = none;
  post_id = none;
  user_ids = 1 ∷ 2 ∷ [];
  members = (11, record { user_id = 1; peer_id = (1, 11); full_name = "Ann" }) ∷ [];
  ring_timer = true;
  title = "Bob";
}

abbrev waiting : State
waiting =
    (join_commit 11 ann 70 1500 (
      start_finish (new_call 70 1000 video (dm 7) (direct_place ann bob) (bob ∷ []) ann) none 1000
        ringing)).0

waiting-lookup : lookup 70 waiting.calls ≡ some ann_call
unfolding initial lookup step start_commit check_other in_group_call start_create new_call announced
    run insert is_member join_commit create_room enter admit distinct_users distinct
    persist_connected broadcast_state tell_scope told summary start_finish posted persist
    recovery_of title_of join_names
waiting-lookup = refl

waiting-has : has 70 waiting.calls ≡ true
waiting-has = ap (λ o. elim o as (λ _. Bool) [ none ↦ false | some _ ↦ true ]) waiting-lookup

end_call-IsGone_example :
    let t = end_call ann_call (some hung_up) 9000 waiting in
    IsGone ann_call waiting t × (end_call ann_call none 9500 t ≡ t)
end_call-IsGone_example = end_call-IsGone ann_call (some hung_up) none 9000 9500 waiting waiting-has

-- Bob accepts both calls, one on each device.
join_twice-not-OneCall_example :
    ¬ OneCall (join_commit 22 bob 80 3000 (join_commit 21 bob 70 3000 ringing).0).0
unfolding initial lookup step start_commit check_other in_group_call start_create new_call announced
    run insert is_member join_check access chat_access active_people title_of join_names
join_twice-not-OneCall_example =
    join_twice-not-OneCall db 21 22 70 80 3000 bob
      (new_call 70 1000 video (dm 7) (direct_place ann bob) (bob ∷ []) ann)
      (new_call 80 2000 audio (dm 8) (direct_place bob cleo) (bob ∷ []) cleo) ringing
      ringing-IsSound (ground arith) refl refl

-- Ann and Bob call each other at the same time.
start_twice-not-OnePerScope_example :
    let t =
      after initial
        (start_commit 70 1000 true video (dm 7) (direct_place ann bob) (bob ∷ []) ann initial) in
    ¬ OnePerScope
      (after t (start_commit 71 1000 true video (dm 7) (direct_place ann bob) (ann ∷ []) bob t))
unfolding initial lookup check_other in_group_call
start_twice-not-OnePerScope_example =
    start_twice-not-OnePerScope 70 71 1000 video (dm 7) (direct_place ann bob) (bob ∷ []) (ann ∷ [])
      ann bob initial (ground arith) refl refl refl refl

-- A channel's call that ended while its post was stored.
abbrev channel_call : Call
channel_call =
    new_call 90 1000 video (channel 5)
      (record { title = some "#ops"; members = none; direct = false }) [] ann

abbrev ended_state : State
ended_state = record {
  calls = [];
  gone = (90, channel_call) ∷ [];
  by_scope = [];
  room_users = [];
  rooms = [];
  joined = [];
  recovery = [];
  out = [];
}

-- The server died during a 1:1 call of Ann's that had connected.
abbrev lost_call : Recovery
lost_call = record {
  id = 90;
  scope = dm 7;
  started_by = 1;
  direct = true;
  started_at = 1000;
  connected_at = some 5000;
  post_id = none;
  last_seen_at = 65000;
}

abbrev crashed : State
crashed = record initial { recovery = (90, lost_call) ∷ [] }

recover-posts_example :
    ((recover (90 ∷ []) crashed).out ≡ crashed.out ++ posts_for (90 ∷ []) crashed)
    × (((k : ℕ) → In k (90 ∷ []) → Settled k (recover (90 ∷ []) crashed))
        × (recover (90 ∷ []) (recover (90 ∷ []) crashed) ≡ recover (90 ∷ []) crashed))
recover-posts_example = recover-posts (90 ∷ []) crashed ((λ j i. absurd i), tt)
