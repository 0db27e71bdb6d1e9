-- ===== src/Meetings/LobbyLaws.antt =====
-- The gate of src/meet-signaling.js over any sequence of events.
use nova_connect.Prelude.{
  ℕ, ◌≡◌, refl, sym, subst, Bool, true, false, not, Option, none, some, String, List, [], ◌∷◌,
  every, arith, Map, lookup, insert, if_split, option_split, ◌==◌, nat_eq, string_eq, pair_eq,
  Bool-cases, Result, ok, err, ◌>>=◌, ◌>>◌, guard, inl, inr,
}
use nova_connect.Rooms.{RoomId, meet, room_eq, PeerId, RoomUser, is_joined}
use nova_connect.Meetings.State.{State, breakout_state, main_of, emit}
use nova_connect.Meetings.Lobby.{Error, close_first, User, admitted}
use nova_connect.Meetings.Breakouts.{
  is_running, breakout_owner, setup, assign, open_rooms, close_rooms, time_is_up, visit,
  return_main, arranged,
}
use nova_connect.Meetings.Extras.{raise_hand, set_captions, pause_producer}
use nova_connect.Meetings.Steps.{
  Outside, Event, joins, asks, admits, denies, leaves, closes, sets_up, assigns, opens, ends,
  times_out, visits, returns, raises, captions, pauses, move_starts, move_ends, is_whole, kept_or,
  kept_or_first, joined_or, step, run, initial,
}
use nova_connect.Meetings.Gate.{view, IsGated, announce_captions-view}
use nova_connect.Meetings.Leaving.{leave-view}
use nova_connect.Meetings.GateMoves.{update-IsGated}
use nova_connect.Meetings.Events.{
  join-IsGated, close_conn-IsGated, request_join-IsGated, admit-IsGated, deny-kept-IsGated,
}
use nova_connect.Meetings.Traffic.{
  move-IsGated, close_breakouts-IsGated, send-IsGated, send_all-IsGated, tell-IsGated,
}

-- A request keeps the gate if it does whenever its check is passed.
checked {ℓ} :
    {A : Type ℓ} (s : State) (r : Result Error A) (f : A → Result Error State)
    → IsGated (view s)
    → ((a : A) → r ≡ ok a → IsGated (view (kept_or s (f a))))
    → IsGated (view (kept_or s (r >>= f)))
checked s (ok a) f g h = h a refl
checked s (err e) f g h = g

checked_first {ℓ} :
    {A : Type ℓ} (s : State) (r : Result Error A) (f : A → Result Error (State × Bool))
    → IsGated (view s)
    → ((a : A) → r ≡ ok a → IsGated (view (kept_or_first s (f a))))
    → IsGated (view (kept_or_first s (r >>= f)))
checked_first s (ok a) f g h = h a refl
checked_first s (err e) f g h = g

guarded :
    (s : State) (b : Bool) (e : Error) (t : State)
    → IsGated (view s)
    → IsGated (view t)
    → IsGated (view (kept_or s (guard b e >> ok t)))
guarded s true e t g h = h
guarded s false e t g h = g

admitted-lookup :
    (k : ℕ) (r : RoomId) (m : RoomUser) (s : State)
    → admitted k r s ≡ ok m
    → lookup k s.room_users ≡ some m
unfolding admitted
admitted-lookup k r m s h = ground (arith, h)

setup-IsGated :
    (w : Outside) (k : ℕ) (r : RoomId) (u : User) (asked : ℕ) (given : Option (Map PeerId ℕ))
    (s : State)
    → IsGated (view s)
    → IsGated (view (kept_or s (setup w.label w.shuffle k r w.owner u asked given s)))
unfolding setup
setup-IsGated w k r u asked given s g = checked s (breakout_owner k r w.owner u s) _ g λ code _.
    guarded s (not (is_running code s)) close_first _ g (
      tell-IsGated code breakout_state
        (record s {
          breakouts = insert code (arranged w.label w.shuffle k asked given code s) s.breakouts;
        })
        g)

assign-IsGated :
    (w : Outside) (k : ℕ) (r : RoomId) (u : User) (p : PeerId) (index : Option ℕ) (s : State)
    → IsGated (view s)
    → IsGated (view (kept_or s (assign k r w.owner u p index s)))
unfolding assign
assign-IsGated w k r u p index s g = checked s (breakout_owner k r w.owner u s) _ g λ code _.
    option_split (λ (x : Result Error State). IsGated (view (kept_or s x)))
      (lookup code s.breakouts) (λ _. g)
      λ b _.
        if_split (λ (t : State). IsGated (view t)) b.is_open (λ _. send-IsGated code p _ _ _ g)
          (λ _. g)

open_rooms-IsGated :
    (w : Outside) (k : ℕ) (r : RoomId) (u : User) (minutes now : ℕ) (s : State)
    → IsGated (view s)
    → IsGated (view (kept_or s (open_rooms k r w.owner u minutes now s)))
unfolding open_rooms
open_rooms-IsGated w k r u minutes now s g =
    checked s (breakout_owner k r w.owner u s) _ g λ code _.
      option_split (λ (x : Result Error State). IsGated (view (kept_or s x)))
        (lookup code s.breakouts) (λ _. g)
        λ b _.
          if_split (λ (t : State). IsGated (view t)) b.is_open (λ _. g)
            λ _. tell-IsGated code _ _ (tell-IsGated code _ _ (send_all-IsGated code _ _ _ g))

visit-IsGated :
    (w : Outside) (k : ℕ) (r : RoomId) (u : User) (index : Option ℕ) (s : State)
    → IsGated (view s)
    → IsGated (view (kept_or s (visit k r w.owner u index s)))
unfolding visit
visit-IsGated w k r u index s g =
    checked s (breakout_owner k r w.owner u s) _ g λ code _. move-IsGated k _ _ s g

return_main-IsGated :
    (k : ℕ) (r : RoomId) (s : State)
    → IsGated (view s)
    → IsGated (view (kept_or s (return_main k r s)))
unfolding return_main
return_main-IsGated k r s g = checked s (admitted k r s) _ g λ m _.
    option_split (λ (t : State). IsGated (view t)) (main_of r) (λ _. g)
      λ code _.
        if_split (λ (t : State). IsGated (view t)) (m.room_id == meet code) (λ _. g)
          (λ _. move-IsGated k _ _ s g)

raise_hand-IsGated :
    (k : ℕ) (r : RoomId) (raised : Bool) (s : State)
    → IsGated (view s)
    → IsGated (view (kept_or s (raise_hand k r raised s)))
unfolding raise_hand emit
raise_hand-IsGated k r raised s g = checked s (admitted k r s) _ g λ m h.
    update-IsGated k m (record m { hand = raised }) (view s) (admitted-lookup k r m s h) refl
      (λ b. b) g

pause_producer-IsGated :
    (k : ℕ) (r : RoomId) (audio paused : Bool) (s : State)
    → IsGated (view s)
    → IsGated (view (kept_or s (pause_producer k r audio paused s)))
unfolding pause_producer
pause_producer-IsGated k r audio paused s g = checked s (admitted k r s) _ g λ m h.
    if_split (λ (n : RoomUser). IsGated (view (record s { room_users = insert k n s.room_users })))
      audio
      (λ _.
        update-IsGated k m (record m { mic_off = paused }) (view s) (admitted-lookup k r m s h) refl
          (λ b. b) g)
      (λ _.
        update-IsGated k m (record m { cam_off = paused }) (view s) (admitted-lookup k r m s h) refl
          (λ b. b) g)

set_captions-IsGated :
    (k : ℕ) (r : RoomId) (on : Bool) (s : State)
    → IsGated (view s)
    → IsGated (view (kept_or_first s (set_captions k r on s)))
unfolding set_captions
set_captions-IsGated k r on s g = checked_first s (admitted k r s) _ g λ m h.
    subst IsGated (sym (announce_captions-view r _)) (
      update-IsGated k m (record m { captions = on }) (view s) (admitted-lookup k r m s h) refl
        (λ b. b) g)

joined_or-IsGated :
    (k : ℕ) (code : String) (u : User) (owner : Option ℕ) (s : State)
    → IsGated (view s)
    → IsGated (view (joined_or k code u owner s))
joined_or-IsGated k code u none s g = g
joined_or-IsGated k code u (some o) s g = join-IsGated k code u o s g

-- Whatever event comes next, as long as nothing comes into the middle of a move between rooms: whoever is
-- in the socket.io room of a meeting or of one of its breakout rooms has an entry in that very room and
-- is not in the lobby, and each connection with an entry knows the room of the entry.
pub step-IsGated :
    (w : Outside) (e : Event) (s : State)
    → is_whole e ≡ true
    → IsGated (view s)
    → IsGated (view (step w e s))
unfolding step close_rooms time_is_up
step-IsGated w (joins k code u) s a g = joined_or-IsGated k code u (w.owner code) s g
step-IsGated w (asks k r u) s a g = request_join-IsGated k r u s g
step-IsGated w (admits k r p u) s a g = admit-IsGated k r p _ u s g
step-IsGated w (denies k r p u) s a g = deny-kept-IsGated k r p _ u s g
step-IsGated w (leaves k) s a g = (leave-view k s g).0
step-IsGated w (closes k) s a g = close_conn-IsGated k s g
step-IsGated w (sets_up k r u asked given) s a g = setup-IsGated w k r u asked given s g
step-IsGated w (assigns k r u p index) s a g = assign-IsGated w k r u p index s g
step-IsGated w (opens k r u minutes now) s a g = open_rooms-IsGated w k r u minutes now s g
step-IsGated w (ends k r u) s a g =
    checked s (breakout_owner k r w.owner u s) _ g λ code _. close_breakouts-IsGated code _ s g
step-IsGated w (times_out code) s a g = close_breakouts-IsGated code _ s g
step-IsGated w (visits k r u index) s a g = visit-IsGated w k r u index s g
step-IsGated w (returns k r) s a g = return_main-IsGated k r s g
step-IsGated w (raises k r raised) s a g = raise_hand-IsGated k r raised s g
step-IsGated w (captions k r on) s a g = set_captions-IsGated k r on s g
step-IsGated w (pauses k r audio paused) s a g = pause_producer-IsGated k r audio paused s g
step-IsGated w (move_starts k target) s a g = cc
step-IsGated w (move_ends k m target name) s a g = cc

pub run-IsGated :
    (w : Outside) (es : List Event) (s : State)
    → every is_whole es ≡ true
    → IsGated (view s)
    → IsGated (view (run w es s))
unfolding run
run-IsGated w [] s a g = g
run-IsGated w (e ∷ es) s a g =
    run-IsGated w es (step w e s) (ground (arith, a)) (step-IsGated w e s (ground (arith, a)) g)

pub initial-IsGated : IsGated (view initial)
unfolding initial is_joined lookup
initial-IsGated = record { let_in = λ k r h. cc; knows = λ k m l. cc; one_entry = tt }

-- Nobody who waits in the lobby is in a room that hears the meeting, after any sequence of events
-- from the start of the server in which nothing comes into the middle of a move between rooms.
pub lobby_hears-nothing :
    (w : Outside) (es : List Event) (k : ℕ) (r : RoomId) (m : RoomUser)
    → every is_whole es ≡ true
    → lookup k (run w es initial).room_users ≡ some m
    → m.in_lobby ≡ true
    → is_joined k r (run w es initial).sfu_joined ≡ false
lobby_hears-nothing w es k r m a l b =
    let s = run w es initial in
    elim (Bool-cases (is_joined k r s.sfu_joined)) [
      | inr out ↦ out
      | inl inside ↦
          let (x, lx, e, c) = (run-IsGated w es initial a initial-IsGated).let_in k r inside in
          ground (arith, l, lx, b, c)
    ]
