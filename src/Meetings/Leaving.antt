-- ===== src/Meetings/Leaving.antt =====
-- `leave` of src/meet-signaling.js and the gate.
use nova_connect.Prelude.{
  ℕ, ◌≡◌, sym, subst, true, false, none, some, arith, lookup, erase, lookup-insert, lookup-erase,
  ◌==◌, nat_eq, nat_beq_iff, beq_refl, Bool-cases, Option-cases, inl, inr, DistinctKeys-erase,
}
use nova_connect.Rooms.{RoomId, room_eq, is_joined, is_joined-socket_leave}
use nova_connect.Meetings.State.{State, Conn, conn_of, no_conn}
use nova_connect.Meetings.Lobby.{leave}
use nova_connect.Meetings.Gate.{View, view, IsGated, left, leave_room-view}

-- A connection that has left is in no room, and the gate holds for the others.
pub record IsOut (k : ℕ) (v : View) : Type 0 where
  pub no_entry : lookup k v.users ≡ none
  pub no_room : (r : RoomId) → is_joined k r v.joined ≡ false

none-IsOut : (k : ℕ) (v : View) → IsGated v → lookup k v.users ≡ none → IsOut k v
none-IsOut k v g l = record {
  no_entry = l;
  no_room = λ r. elim (Bool-cases (is_joined k r v.joined)) [
    | inl h ↦ ground (arith, (g.let_in k r h).1, l)
    | inr h ↦ h
  ];
}

-- Leaving the room that the connection knows.
left-IsGated :
    (k : ℕ) (r : RoomId) (c : Conn) (v : View)
    → lookup k v.conns ≡ some c
    → c.room_code ≡ some r
    → IsGated v
    → IsGated (left k r v)
unfolding left
left-IsGated k r c v lc code g = record {
  let_in = λ j q h.
      let was : is_joined j q v.joined ≡ true =
        ground (arith, h, is_joined-socket_leave k j r q v.joined) in
      let (m, l, e, b) = g.let_in j q was in
      let still : lookup j (erase k v.users) ≡ some m = elim (Bool-cases (k == j)) [
        | inr apart ↦ ground (arith, l, lookup-erase k j v.users, apart)
        | inl same ↦
            let (d, ld, known) = g.knows j m l in
            let equal : q ≡ r = ground (arith, known, code, lc, ld, e, (nat_beq_iff k j).0 same) in
            ground (
              arith,
              h,
              is_joined-socket_leave k j r q v.joined,
              same,
              (room_eq.beq_iff r q).1 (sym equal),
            )
      ] in
      (m, still, e, b);
  knows = λ j m l.
      let was : lookup j v.users ≡ some m = ground (arith, l, lookup-erase k j v.users) in
      let (d, ld, known) = g.knows j m was in
      (
        d,
        ground (arith, l, ld, lookup-erase k j v.users, lookup-insert k j no_conn v.conns),
        known,
      );
  one_entry = DistinctKeys-erase k v.users g.one_entry;
}

left-IsOut :
    (k : ℕ) (r : RoomId) (c : Conn) (v : View)
    → lookup k v.conns ≡ some c
    → c.room_code ≡ some r
    → IsGated v
    → IsOut k (left k r v)
left-IsOut k r c v lc code g =
    none-IsOut k (left k r v) (left-IsGated k r c v lc code g)
      (unfold left in ground (arith, lookup-erase k k v.users, beq_refl k))

-- A connection that knows no room has no entry.
knows_none :
    (k : ℕ) (v : View)
    → IsGated v
    → ((c : Conn) → lookup k v.conns ≡ some c → c.room_code ≡ none)
    → lookup k v.users ≡ none
knows_none k v g h = elim (Option-cases (lookup k v.users)) [
  | inl absent ↦ absent
  | inr (m, l) ↦ let (c, lc, code) = g.knows k m l in ground (arith, h c lc, code)
]

-- `leave` of any connection.
pub leave-view :
    (k : ℕ) (s : State) → IsGated (view s) → IsGated (view (leave k s)) × IsOut k (view (leave k s))
unfolding leave conn_of
leave-view k s g = elim (Option-cases (lookup k s.conns)) [
  | inl absent ↦
      let same : view (leave k s) ≡ view s = unfold leave conn_of in ground (arith, absent) in
      (
        subst IsGated (sym same) g,
        subst (IsOut k) (sym same)
            (none-IsOut k (view s) g (knows_none k (view s) g λ c h. ground (arith, absent, h))),
      )
  | inr (c, l) ↦ elim (Option-cases c.room_code) [
    | inl nowhere ↦
        let same : view (leave k s) ≡ view s = unfold leave conn_of in ground (arith, l, nowhere) in
        (
          subst IsGated (sym same) g,
          subst (IsOut k) (sym same) (
              none-IsOut k (view s) g
                (knows_none k (view s) g λ d h. ground (arith, l, nowhere, h))),
        )
    | inr (r, code) ↦
        let same : view (leave k s) ≡ left k r (view s) =
          unfold leave conn_of in (ground (arith, l, code, leave_room-view k r s)) in
        (
          subst IsGated (sym same) (left-IsGated k r c (view s) l code g),
          subst (IsOut k) (sym same) (left-IsOut k r c (view s) l code g),
        )
  ]
]
