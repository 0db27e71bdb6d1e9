-- ===== src/Calls/Preservation.antt =====
-- The handlers of src/group-calls.js and the invariant of the running calls.
use nova_connect.Prelude.{
  ℕ, ◌≡◌, refl, ◌&&◌, ltb, not, inl, inr, Bool, true, false, Option, none, some, List, arith,
  nat_eq, Map, lookup, insert, erase, lookup-insert, lookup-erase, beq_refl, ◌==◌, Bool-cases, has,
  if_split, option_split, list_split, has-lookup,
}
use nova_connect.Rooms.{RoomId}
use nova_connect.Calls.State.{
  push_all, Scope, Mode, Reason, hung_up, no_answer, distinct_users, Member, Call, State, scope_eq,
  room_of, broadcast_state, tell_scope,
}
use nova_connect.Calls.Access.{Person, Place}
use nova_connect.Calls.Lifecycle.{persist, end_call, end_running, after_leave, leave_member, leave}
use nova_connect.Calls.Handlers.{
  posted, start_create, new_call, start_finish, ring_stops, ring_told,
}
use nova_connect.Calls.Joining.{admit, enter, persist_connected, create_room, member_of}
use nova_connect.Calls.Frames.{SameCalls, drop_from_room-SameCalls, end_running-calls}
use nova_connect.Calls.Invariant.{CallOk, IsSound, Sound-update, Sound-create, Sound-erase}

pub SameCalls-IsSound : {s t : State} → SameCalls s t → IsSound s → IsSound t
SameCalls-IsSound h v = record { sound = rw (h.calls, h.by_scope) v.sound }

-- The calls that a map holds under the id of `c` are of the scope of `c`.
abbrev pub KnownScope : Call → Map ℕ Call → Type 0
KnownScope c m = (d : Call) → lookup c.id m ≡ some d → d.scope ≡ c.scope

end_running-IsSound :
    (c d : Call) (reason : Option Reason) (now : ℕ) (s : State)
    → IsSound s
    → lookup c.id s.calls ≡ some d
    → d.scope ≡ c.scope
    → IsSound (end_running c reason now s)
end_running-IsSound c d reason now s v l e =
    let h = end_running-calls c reason now s in
    record { sound = rw (h.0, h.1, ← e) (Sound-erase v.sound c.id d l) }

pub end_call-IsSound :
    (c : Call) (reason : Option Reason) (now : ℕ) (s : State)
    → IsSound s
    → KnownScope c s.calls
    → IsSound (end_call c reason now s)
unfolding end_call
end_call-IsSound c reason now s v known =
    if_split IsSound (has c.id s.calls)
      (λ h.
        let (d, e) = has-lookup c.id s.calls h in
        end_running-IsSound c d reason now s v e (known d e))
      (λ _. v)

broadcast_state-IsSound :
    (c : Call) (active : Bool) (s : State) → IsSound s → IsSound (broadcast_state c active s)
unfolding broadcast_state tell_scope
broadcast_state-IsSound c active s v = record { sound = v.sound }

after_leave-IsSound :
    (c : Call) (now : ℕ) (s : State)
    → IsSound s
    → KnownScope c s.calls
    → IsSound (after_leave c now s)
unfolding after_leave
after_leave-IsSound c now s v known =
    list_split IsSound c.members (λ _. end_call-IsSound c none now s v known)
      λ x r _.
        if_split IsSound (c.direct && c.connected && ltb (distinct_users c) 2)
          (λ _. end_call-IsSound c (some hung_up) now s v known)
          (λ _. broadcast_state-IsSound c true s v)

-- A call whose object is written back with other members.
CallOk-erase : (k : ℕ) (c : Call) → CallOk c → CallOk (record c { members = erase k c.members })
CallOk-erase k c v = record {
  is_direct = v.is_direct;
  has_time = v.has_time;
  own_peers = λ j m h. v.own_peers j m (ground (arith, lookup-erase k j c.members));
}

-- A map in which `c` has just been written holds that under the id of `c`.
KnownScope-insert : (c : Call) (m n : Map ℕ Call) → n ≡ insert c.id c m → KnownScope c n
KnownScope-insert c m n e d h = ground (arith, lookup-insert c.id c.id c m, beq_refl c.id)

leave_member-IsSound :
    (k : ℕ) (m : Member) (c : Call) (now : ℕ) (s : State)
    → IsSound s
    → lookup c.id s.calls ≡ some c
    → IsSound (leave_member k m c now s)
unfolding leave_member
leave_member-IsSound k m c now s v l =
    let c' = record c { members = erase k c.members } in
    let stored = record s { calls = insert c.id c' s.calls } in
    let fine = (v.sound.every_call c.id c l).1 in
    let w : IsSound stored = record {
      sound = Sound-update v.sound c.id c c' l (CallOk-erase k c fine) refl refl;
    } in
    let frame = drop_from_room-SameCalls k (room_of c) stored in
    let u = SameCalls-IsSound frame w in
    after_leave-IsSound c' now _ (record { sound = u.sound })
      (KnownScope-insert c' s.calls _ frame.calls)

pub leave-IsSound :
    (k : ℕ) (c : Call) (now : ℕ) (s : State)
    → IsSound s
    → lookup c.id s.calls ≡ some c
    → IsSound (leave k c now s)
unfolding leave
leave-IsSound k c now s v l =
    option_split IsSound (lookup k c.members) (λ _. v) (λ m _. leave_member-IsSound k m c now s v l)

persist-IsSound : (c : Call) (now : ℕ) (s : State) → IsSound s → IsSound (persist c now s)
unfolding persist
persist-IsSound c now s v = record { sound = v.sound }

posted-CallOk : (c : Call) (post : Option ℕ) → CallOk c → CallOk (posted c post)
unfolding posted
posted-CallOk c post v = record {
  is_direct = v.is_direct;
  has_time = v.has_time;
  own_peers = v.own_peers;
}

pub start_finish-IsSound :
    (c : Call) (post : Option ℕ) (now : ℕ) (s : State)
    → IsSound s
    → IsSound (start_finish c post now s)
unfolding start_finish
start_finish-IsSound c post now s v =
    option_split IsSound (lookup c.id s.calls)
      (λ _. broadcast_state-IsSound _ true _ (persist-IsSound _ now _ (record { sound = v.sound })))
      (λ d e. broadcast_state-IsSound _ true _ (
        persist-IsSound _ now _ (record {
          sound =
              Sound-update v.sound c.id d (posted d post) e
                (posted-CallOk d post (v.sound.every_call c.id d e).1)
                (unfold posted in (v.sound.every_call c.id d e).0) (unfold posted in refl);
        })))

pub start_create-IsSound :
    (c : Call) (user : Person) (others : List Person) (s : State)
    → IsSound s
    → lookup c.id s.calls ≡ none
    → CallOk c
    → IsSound (start_create c user others s)
unfolding start_create
start_create-IsSound c user others s v fresh fine = record {
  sound = Sound-create v.sound c fresh fine;
}

pub new_call-CallOk :
    (id now : ℕ) (mode : Mode) (scope : Scope) (place : Place) (others : List Person)
    (user : Person)
    → CallOk (new_call id now mode scope place others user)
unfolding new_call lookup
new_call-CallOk id now mode scope place others user = record {
  is_direct = λ h. cc;
  has_time = λ h. cc;
  own_peers = λ k m h. cc;
}

pub ring_stops-IsSound :
    (c : Call) (now : ℕ) (s : State)
    → IsSound s
    → lookup c.id s.calls ≡ some c
    → IsSound (ring_stops c now s)
unfolding ring_stops
ring_stops-IsSound c now s v l =
    let quiet = record c { ring_timer = false } in
    let fine = (v.sound.every_call c.id c l).1 in
    let t = push_all (ring_told quiet) (record s { calls = insert c.id quiet s.calls }) in
    let w : IsSound t = record {
      sound =
          Sound-update v.sound c.id c quiet l
            (record {
              is_direct = fine.is_direct;
              has_time = fine.has_time;
              own_peers = fine.own_peers;
            })
            refl refl;
    } in
    let known : KnownScope quiet t.calls = KnownScope-insert quiet s.calls t.calls refl in
    list_split IsSound c.members (λ _. end_call-IsSound quiet none now t w known)
      λ x r _.
        if_split IsSound (c.direct && not c.connected)
          (λ _. end_call-IsSound quiet (some no_answer) now t w known) (λ _. w)

CallOk-admit :
    (c : Call) (socket : ℕ) (user : Person) (now : ℕ) → CallOk c → CallOk (admit c socket user now)
unfolding admit
CallOk-admit c socket user now v = record {
  is_direct = ground (arith, v.is_direct);
  has_time = ground (arith, v.has_time);
  own_peers = λ k m h. elim (Bool-cases (socket == k)) [
    | inl same ↦ ground (arith, lookup-insert socket k (member_of socket user) c.members)
    | inr other ↦
        v.own_peers k m (ground (arith, lookup-insert socket k (member_of socket user) c.members))
  ];
}

create_room-IsSound : (r : RoomId) (s : State) → IsSound s → IsSound (create_room r s)
unfolding create_room
create_room-IsSound r s v = if_split IsSound _ (λ _. v) (λ _. record { sound = v.sound })

persist_connected-SameCalls :
    (c d : Call) (now : ℕ) (s : State) → SameCalls s (persist_connected c d now s)
unfolding persist_connected persist
persist_connected-SameCalls c d now s = ground arith

pub create_room-SameCalls : (r : RoomId) (s : State) → SameCalls s (create_room r s)
unfolding create_room
create_room-SameCalls r s = ground arith

pub enter-IsSound :
    (c : Call) (socket : ℕ) (user : Person) (now : ℕ) (s : State)
    → IsSound s
    → lookup c.id s.calls ≡ some c
    → IsSound (enter c socket user now s)
unfolding enter
enter-IsSound c socket user now s v l =
    let d = admit c socket user now in
    let stored = record s { calls = insert c.id d s.calls } in
    let fine = CallOk-admit c socket user now (v.sound.every_call c.id c l).1 in
    let w : IsSound stored = record {
      sound = Sound-update v.sound c.id c d l fine (unfold admit in refl) (unfold admit in refl);
    } in
    let u = SameCalls-IsSound (persist_connected-SameCalls c d now stored) w in
    broadcast_state-IsSound d true _ (record { sound = u.sound })
