-- ===== src/Calls/Lifecycle.antt =====
-- How a call is kept and ended: `persist`, `postOutcome`, `end`, `endAll` and `leave` of
-- src/group-calls.js.
use nova_connect.Prelude.{
  ℕ, ◌-◌, true, false, ◌&&◌, Option, none, some, List, [], ◌∷◌, ◌==◌, nat_eq, lookup, insert, erase,
  has, keep, not, ltb, if◌then◌else◌,
}
use nova_connect.Rooms.{RoomId, room_eq, socket_leave}
use nova_connect.Calls.Duration.{format_duration}
use nova_connect.Calls.State.{
  dm, channel, Reason, declined, no_answer, hung_up, Member, Call, Outcome, ended, meeting_ended,
  call_ended, call_declined, call_missed, call_cancelled, group_ended, group_missed, Effect,
  peer_left, close_peer, touch_presence, update_post, post_outcome, Recovery, State, room_of, push,
  push_all, distinct_users, tell_scope, broadcast_state, scope_eq,
}

unfoldable pub recovery_of : Call → ℕ → Recovery
recovery_of c now = record {
  id = c.id;
  scope = c.scope;
  started_by = c.started_by;
  direct = c.direct;
  started_at = c.started_at;
  connected_at = c.connected_at;
  post_id = c.post_id;
  last_seen_at = now;
}

unfoldable pub persist : Call → ℕ → State → State
persist c now s = record s { recovery = insert c.id (recovery_of c now) s.recovery }

-- The heartbeat, every 30 s.
unfoldable pub persist_all : List Call → ℕ → State → State
persist_all [] now s = s
persist_all (c ∷ cs) now s = persist_all cs now (persist c now s)

-- What a 1:1 call that ended shows: its length, or why it never connected.
unfoldable pub direct_outcome : Option ℕ → Option Reason → ℕ → Outcome
direct_outcome (some from) reason ended_at = call_ended (format_duration (ended_at - from))
direct_outcome none (some declined) ended_at = call_declined
direct_outcome none (some no_answer) ended_at = call_missed
direct_outcome none _ ended_at = call_cancelled

unfoldable pub group_outcome : Option ℕ → ℕ → ℕ → Outcome
group_outcome (some _) started_at ended_at = group_ended (format_duration (ended_at - started_at))
group_outcome none started_at ended_at = group_missed

-- `postOutcome`, over the fields that a call and a recovered record share.
unfoldable pub outcome_posts : Recovery → Option Reason → ℕ → List Effect
outcome_posts r reason ended_at = elim r.scope [
  | channel ch ↦ elim r.post_id [
    | none ↦ []
    | some p ↦
        update_post ch p (meeting_ended (format_duration (ended_at - r.started_at))) r.id ∷ []
  ]
  | dm c ↦
      if r.direct
      then post_outcome (dm c) r.started_by (direct_outcome r.connected_at reason ended_at) r.id
        ∷ []
      else post_outcome (dm c) r.started_by (group_outcome r.connected_at r.started_at ended_at)
          r.id
        ∷ []
]

-- `if (roomUserMap.get(sid)?.roomId === call.roomId) roomUserMap.delete(sid)`, with the touch of
-- the person's presence that a deletion makes.
unfoldable pub drop_from_room : ℕ → RoomId → State → State
drop_from_room k r s = elim (lookup k s.room_users) [
  | none ↦ s
  | some m ↦
      if m.room_id == r
      then push (touch_presence m.user_id) (record s { room_users = erase k s.room_users })
      else s
]

-- The loop of `end` over the people still connected.
unfoldable pub remove_members : RoomId → List (ℕ × Member) → State → State
remove_members r [] s = s
remove_members r ((k, m) ∷ ms) s =
    let t = drop_from_room k r s in
    remove_members r ms
      (push (close_peer r m.peer_id) (record t { joined = socket_leave k r t.joined }))

-- `deleteRoom`
unfoldable pub delete_room : RoomId → State → State
delete_room r s = record s { rooms = keep (λ q. not (q == r)) s.rooms }

-- The object of a call that has ended.
abbrev pub emptied : Call → Call
emptied c = record c { members = []; ring_timer = false }

-- The first half of `end`: the call leaves both maps and its outcome is posted.
unfoldable pub drop_call : Call → Option Reason → ℕ → State → State
drop_call c reason now s = push_all (outcome_posts (recovery_of c now) reason now) (record s {
  calls = erase c.id s.calls;
  gone = insert c.id (emptied c) s.gone;
  by_scope = erase c.scope s.by_scope;
})

-- `end` of a call that is running. The record in Redis goes once the outcome is posted
-- (`outcome_posted`).
unfoldable pub end_running : Call → Option Reason → ℕ → State → State
end_running c reason now s =
    let removed = remove_members (room_of c) c.members (drop_call c reason now s) in
    broadcast_state (emptied c) false
      (tell_scope (emptied c) (ended c.id reason) (delete_room (room_of c) removed))

-- `if (!calls.delete(call.id)) return`: the second `end` of a call does nothing.
unfoldable pub end_call : Call → Option Reason → ℕ → State → State
end_call c reason now s = if has c.id s.calls then end_running c reason now s else s

unfoldable pub outcome_posted : ℕ → State → State
outcome_posted id s = record s { recovery = erase id s.recovery }

-- `endAll` goes through the objects of `calls`; one that has ended meanwhile is left alone.
unfoldable pub end_all : List Call → Option Reason → ℕ → State → State
end_all [] reason now s = s
end_all (c ∷ cs) reason now s =
    end_all cs reason now
      (elim (lookup c.id s.calls) [ none ↦ s | some d ↦ end_call d reason now s ])

-- What `leave` does once the person is out: a call that is empty ends, and a 1:1 call that had
-- connected ends when fewer than two people are left.
unfoldable pub after_leave : Call → ℕ → State → State
after_leave c now s = elim c.members [
  | [] ↦ end_call c none now s
  | _ ∷ _ ↦
      if c.direct && c.connected && ltb (distinct_users c) 2
      then end_call c (some hung_up) now s
      else broadcast_state c true s
]

-- `leave` of a member.
unfoldable pub leave_member : ℕ → Member → Call → ℕ → State → State
leave_member k m c now s =
    let c' = record c { members = erase k c.members } in
    let t = drop_from_room k (room_of c) (record s { calls = insert c.id c' s.calls }) in
    let u =
      push (close_peer (room_of c) m.peer_id)
        (record t { joined = socket_leave k (room_of c) t.joined }) in
    after_leave c' now (push (peer_left (room_of c) m) u)

unfoldable pub leave : ℕ → Call → ℕ → State → State
leave k c now s = elim (lookup k c.members) [ none ↦ s | some m ↦ leave_member k m c now s ]
