-- ===== src/Meetings/GateMoves.antt =====
-- The changes that the handlers of src/meet-signaling.js make, seen from the gate.
use nova_connect.Prelude.{
  ℕ, ◌≡◌, sym, ap, ◌∙◌, true, false, not, ◌&&◌, some, [], ◌∷◌, arith, keep, lookup, insert, erase,
  lookup-insert, lookup-erase, ◌==◌, nat_eq, nat_beq_iff, beq_refl, Bool-cases, inl, inr,
  DistinctKeys-insert, DistinctKeys-erase,
}
use nova_connect.Rooms.{
  RoomId, room_eq, RoomUser, Joined, is_joined, socket_leave, is_joined-socket_leave,
}
use nova_connect.Meetings.State.{Conn}
use nova_connect.Meetings.Gate.{View, IsGated}
use nova_connect.Meetings.Leaving.{IsOut}

-- A new entry of a connection that is in no room, in the lobby or not.
pub new_entry-IsGated :
    (k : ℕ) (m : RoomUser) (c : Conn) (v : View)
    → c.room_code ≡ some m.room_id
    → IsGated v
    → ((r : RoomId) → is_joined k r v.joined ≡ false)
    → IsGated (record v { users = insert k m v.users; conns = insert k c v.conns })
new_entry-IsGated k m c v code g nowhere = record {
  let_in = λ j q h.
      let (n, l, e, b) = g.let_in j q h in
      (n, ground (arith, l, lookup-insert k j m v.users, nat_beq_iff k j, nowhere q, h), e, b);
  knows = λ j n l. elim (Bool-cases (k == j)) [
    | inl same ↦ (
      c,
      ground (arith, same, lookup-insert k j c v.conns),
      ground (arith, l, same, code, lookup-insert k j m v.users),
    )
    | inr apart ↦
        let (d, ld, known) = g.knows j n (ground (arith, l, apart, lookup-insert k j m v.users)) in
        (d, ground (arith, ld, apart, lookup-insert k j c v.conns), known)
  ];
  one_entry = DistinctKeys-insert k m v.users g.one_entry;
}

-- An entry that stays in its room, and in or out of the lobby.
pub update-IsGated :
    (k : ℕ) (m n : RoomUser) (v : View)
    → lookup k v.users ≡ some m
    → n.room_id ≡ m.room_id
    → (m.in_lobby ≡ false → n.in_lobby ≡ false)
    → IsGated v
    → IsGated (record v { users = insert k n v.users })
update-IsGated k m n v lm room lobby g = record {
  let_in = λ j q h.
      let (x, l, e, b) = g.let_in j q h in
      elim (Bool-cases (k == j)) [
        | inl same ↦
            let equal : m ≡ x = ground (arith, same, lm, l, nat_beq_iff k j) in
            (
              n,
              ground (arith, same, lookup-insert k j n v.users),
              room ∙ ap (λ (y : RoomUser). y.room_id) equal ∙ e,
              lobby (ap (λ (y : RoomUser). y.in_lobby) equal ∙ b),
            )
        | inr apart ↦ (x, ground (arith, l, apart, lookup-insert k j n v.users), e, b)
      ];
  knows = λ j x l. elim (Bool-cases (k == j)) [
    | inl same ↦
        let (d, ld, known) = g.knows j m (ground (arith, same, lm, nat_beq_iff k j)) in
        let equal : n ≡ x = ground (arith, same, l, lookup-insert k j n v.users) in
        (d, ld, known ∙ ap some (sym room ∙ ap (λ (y : RoomUser). y.room_id) equal))
    | inr apart ↦ g.knows j x (ground (arith, l, apart, lookup-insert k j n v.users))
  ];
  one_entry = DistinctKeys-insert k n v.users g.one_entry;
}

-- Entering the socket.io room of one's entry, out of the lobby.
pub enter-IsGated :
    (k : ℕ) (m : RoomUser) (v : View)
    → lookup k v.users ≡ some m
    → m.in_lobby ≡ false
    → IsGated v
    → IsGated (record v { joined = (k, m.room_id) ∷ v.joined })
unfolding is_joined
enter-IsGated k m v lm b g = record {
  let_in = λ j q h. elim (Bool-cases (k == j && m.room_id == q)) [
    | inl here ↦ (
      m,
      ground (arith, here, lm, nat_beq_iff k j),
      (room_eq.beq_iff m.room_id q).0 (ground (arith, here)),
      b,
    )
    | inr there ↦ g.let_in j q (ground (arith, h, there))
  ];
  knows = g.knows;
  one_entry = g.one_entry;
}

-- Taking the entry of somebody in the lobby away.
pub deny-IsGated :
    (k : ℕ) (m : RoomUser) (v : View)
    → lookup k v.users ≡ some m
    → m.in_lobby ≡ true
    → IsGated v
    → IsGated (record v { users = erase k v.users })
deny-IsGated k m v lm b g = record {
  let_in = λ j q h.
      let (x, l, e, c) = g.let_in j q h in
      (x, ground (arith, l, c, lm, b, lookup-erase k j v.users, nat_beq_iff k j), e, c);
  knows = λ j x l. g.knows j x (ground (arith, l, lookup-erase k j v.users));
  one_entry = DistinctKeys-erase k v.users g.one_entry;
}

is_joined-closed :
    (k j : ℕ) (q : RoomId) (l : Joined)
    → is_joined j q (keep (λ (e : ℕ × RoomId). not (e.0 == k)) l) ≡ true
    → ((j == k) ≡ false) × (is_joined j q l ≡ true)
unfolding is_joined
is_joined-closed k j q [] h = cc
is_joined-closed k j q ((i, r) ∷ l) h =
    ground (arith, nat_beq_iff i j, nat_beq_iff i k, nat_beq_iff j k, is_joined-closed k j q l)

-- A connection that is out is closed.
pub close-IsGated :
    (k : ℕ) (v : View)
    → IsGated v
    → IsOut k v
    → IsGated (record v {
      conns = erase k v.conns;
      joined = keep (λ (e : ℕ × RoomId). not (e.0 == k)) v.joined;
    })
close-IsGated k v g o = record {
  let_in = λ j q h. g.let_in j q (is_joined-closed k j q v.joined h).1;
  knows = λ j m l.
      let (d, ld, known) = g.knows j m l in
      (d, ground (arith, ld, l, o.no_entry, lookup-erase k j v.conns, nat_beq_iff k j), known);
  one_entry = g.one_entry;
}

-- Leaving a room keeps the gate, and whoever had an entry there is in no room then.
pub unjoined-IsGated :
    (k : ℕ) (r : RoomId) (v : View)
    → IsGated v
    → IsGated (record v { joined = socket_leave k r v.joined })
unjoined-IsGated k r v g = record {
  let_in = λ j q h. g.let_in j q (ground (arith, h, is_joined-socket_leave k j r q v.joined));
  knows = g.knows;
  one_entry = g.one_entry;
}

pub unjoined_nowhere :
    (k : ℕ) (m : RoomUser) (v : View)
    → lookup k v.users ≡ some m
    → IsGated v
    → (q : RoomId) → is_joined k q (socket_leave k m.room_id v.joined) ≡ false
unjoined_nowhere k m v l g q = elim (Bool-cases (is_joined k q v.joined)) [
  | inr out ↦ ground (arith, out, is_joined-socket_leave k k m.room_id q v.joined)
  | inl inside ↦
      let (x, lx, e, b) = g.let_in k q inside in
      let same : m.room_id ≡ q = ground (arith, l, lx, e) in
      ground (
        arith,
        is_joined-socket_leave k k m.room_id q v.joined,
        beq_refl k,
        (room_eq.beq_iff m.room_id q).1 same,
      )
]
