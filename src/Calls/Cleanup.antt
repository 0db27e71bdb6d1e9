-- ===== src/Calls/Cleanup.antt =====
-- What is left of a call that has ended.
use nova_connect.Prelude.{
  ap, ◌∙◌, ℕ, ◌≡◌, ◌≢◌, true, false, Option, none, some, List, arith, nat_eq, lookup, lookup-erase,
  beq_refl, ◌==◌, has, any, nat_beq_iff,
}
use nova_connect.Rooms.{RoomId, RoomUser, room_eq, is_joined}
use nova_connect.Calls.State.{
  Scope, Reason, Member, Call, State, scope_eq, room_of, is_in_room, broadcast_state, tell_scope,
}
use nova_connect.Calls.Lifecycle.{remove_members, delete_room, drop_call, end_running, end_call}
use nova_connect.Calls.Frames.{end_running-calls}
use nova_connect.Calls.Removal.{
  IsOut, remove_members-IsOut, remove_members-other, remove_members-joined, remove_members-stranger,
  remove_members-stranger_in, remove_members-rooms, any-keep-not, any-keep-other,
}

-- What `end` leaves of the call `c`: `t` is the state after, `s` the one before.
pub record IsGone (c : Call) (s t : State) : Type 0 where
  pub no_call : lookup c.id t.calls ≡ none
  pub no_scope : lookup c.scope t.by_scope ≡ none
  pub no_room : any (λ q. q == room_of c) t.rooms ≡ false
  pub nobody_in : (k : ℕ) (m : Member) → lookup k c.members ≡ some m → IsOut k (room_of c) t
  pub other_calls : (i : ℕ) → i ≢ c.id → lookup i t.calls ≡ lookup i s.calls
  pub other_scopes : (x : Scope) → x ≢ c.scope → lookup x t.by_scope ≡ lookup x s.by_scope
  pub other_sfu :
      (r : RoomId) → r ≢ room_of c → any (λ q. q == r) t.rooms ≡ any (λ q. q == r) s.rooms
  pub other_joined :
      (k : ℕ) (r : RoomId) → r ≢ room_of c → is_joined k r t.joined ≡ is_joined k r s.joined
  pub others_in :
      (k : ℕ)
      → lookup k c.members ≡ none
      → (is_joined k (room_of c) t.joined ≡ is_joined k (room_of c) s.joined)
        × (is_in_room k (room_of c) t.room_users ≡ is_in_room k (room_of c) s.room_users)
  pub other_rooms :
      (k : ℕ) (m : RoomUser)
      → m.room_id ≢ room_of c
      → lookup k s.room_users ≡ some m
      → lookup k t.room_users ≡ some m

end_running-IsGone :
    (c : Call) (reason : Option Reason) (now : ℕ) (s : State)
    → IsGone c s (end_running c reason now s)
unfolding end_running drop_call delete_room broadcast_state tell_scope
end_running-IsGone c reason now s = record {
  no_call =
      ground (
        arith,
        lookup-erase c.id c.id s.calls,
        beq_refl c.id,
        (end_running-calls c reason now s).0,
      );
  no_scope = ground (
    arith,
    lookup-erase c.scope c.scope s.by_scope,
    beq_refl c.scope,
    (end_running-calls c reason now s).1,
  );
  no_room =
      any-keep-not (room_of c)
        (remove_members (room_of c) c.members (drop_call c reason now s)).rooms;
  nobody_in = λ k m l.
      let o = remove_members-IsOut (room_of c) c.members k m _ l in
      record { unmapped = o.unmapped; unjoined = o.unjoined };
  other_calls = λ i ne. ground (
    arith,
    lookup-erase c.id i s.calls,
    nat_beq_iff c.id i,
    (end_running-calls c reason now s).0,
  );
  other_scopes = λ x ne. ground (
    arith,
    lookup-erase c.scope x s.by_scope,
    scope_eq.beq_iff c.scope x,
    (end_running-calls c reason now s).1,
    ne,
  );
  other_sfu = λ r ne.
      any-keep-other (room_of c) r _ ne
      ∙ ap (λ (l : List RoomId). any (λ q. q == r) l)
          (remove_members-rooms (room_of c) c.members (drop_call c reason now s));
  other_joined = λ k r ne. remove_members-joined (room_of c) c.members k r _ ne;
  others_in = λ k l. (
    remove_members-stranger (room_of c) c.members k _ l,
    remove_members-stranger_in (room_of c) c.members k _ l,
  );
  other_rooms = λ k m ne l. remove_members-other (room_of c) c.members k m _ ne l;
}

-- A call that runs is gone from everywhere once it has ended: from the calls and their index, from
-- the SFU, and each of its members from the shared room map and the room's broadcasts. The other calls,
-- the index of other places, the other rooms of the SFU, the entries of people in other rooms, whoever
-- hears another room, and whoever is in the room but not a member are left as they were. Ending it once
-- more changes nothing.
pub end_call-IsGone :
    (c : Call) (reason again : Option Reason) (now later : ℕ) (s : State)
    → has c.id s.calls ≡ true
    → let t = end_call c reason now s in IsGone c s t × (end_call c again later t ≡ t)
unfolding end_call
end_call-IsGone c reason again now later s h =
    let gone = end_running-IsGone c reason now s in rw h (gone, ground (arith, gone.no_call))
