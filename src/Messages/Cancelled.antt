-- ===== src/Messages/Cancelled.antt =====
-- A cancellation that comes between the scheduler's reading of the due rows and a row's own turn.
use nova_connect.Prelude.{
  ℕ, ◌<◌, ◌≡◌, ap, ◌∙◌, subst, true, false, none, some, List, [], ◌∷◌, arith, keep, lookup, ◌==◌,
  nat_eq, DistinctKeys, DistinctKeys-keep, kept_there, lookup-keep, lookup-insert, Bool-cases,
  nat_beq_iff, inl, inr, beq_refl, ok,
}
use nova_connect.Messages.State.{Message, Store, Place, in_channel, in_chat}
use nova_connect.Messages.Posting.{no_file, store_message, show_chat}
use nova_connect.Messages.Scheduled.{
  sent, cancelled, Scheduled, Board, mark, cancel, Outcome, done, lost, broken, lost_unmarked,
  broken_unmarked, post, deliver_one, deliver_each, is_due, due,
}
use nova_connect.Messages.Delivery.{mark-lookup, deliver_each-lookup}

-- The message that a scheduled row becomes.
abbrev pub message_of : Scheduled → ℕ → Message
message_of row now = record {
  user_id = row.user_id;
  channel_id = elim row.place [ in_channel c ↦ some c | in_chat d ↦ none ];
  conversation_id = elim row.place [ in_channel c ↦ none | in_chat d ↦ some d ];
  parent = row.parent;
  body = row.body;
  metadata = none;
  created_at = now;
  edited = false;
  deleted = false;
  pinned = none;
}

-- A message is stored under a number that is taken for good.
abbrev pub Holds : ℕ → Message → Store → Type 0
Holds i m s = (i < s.next_message) × (lookup i s.messages ≡ some m)

placed :
    (P : Store → Type 0) (p : Place) (me : ℕ) (s : Store)
    → P s
    → ((d : ℕ) → P (show_chat d me s))
    → P (elim p [ in_channel c ↦ s | in_chat d ↦ show_chat d me s ])
placed P (in_channel c) me s here there = here
placed P (in_chat d) me s here there = there d

post-Holds :
    (row : Scheduled) (now i : ℕ) (m : Message) (b : Board)
    → Holds i m b.store
    → Holds i m (post row now b).store
unfolding post store_message show_chat
post-Holds row now i m b h =
    let stored : Holds i m (store_message (message_of row now) no_file b.store) = (
      ground arith,
      ground (
        arith,
        h.0,
        h.1,
        lookup-insert b.store.next_message i (message_of row now) b.store.messages,
      ),
    ) in
    placed (Holds i m) row.place row.user_id _ stored (λ _. stored)

post-new :
    (row : Scheduled) (now : ℕ) (b : Board)
    → Holds b.store.next_message (message_of row now) (post row now b).store
unfolding post store_message show_chat
post-new row now b =
    let i = b.store.next_message in
    let stored : Holds i (message_of row now) (store_message (message_of row now) no_file b.store) =
      (
        ground arith,
        ground (arith, beq_refl i, lookup-insert i i (message_of row now) b.store.messages),
      ) in
    placed (Holds i (message_of row now)) row.place row.user_id _ stored (λ _. stored)

deliver_one-Holds :
    (o : Outcome) (now id i : ℕ) (row : Scheduled) (m : Message) (b : Board)
    → Holds i m b.store
    → Holds i m (deliver_one o now id row b).store
unfolding deliver_one mark
deliver_one-Holds done now id i row m b h = post-Holds row now i m b h
deliver_one-Holds lost now id i row m b h = h
deliver_one-Holds broken now id i row m b h = post-Holds row now i m b h
deliver_one-Holds lost_unmarked now id i row m b h = h
deliver_one-Holds broken_unmarked now id i row m b h = post-Holds row now i m b h

deliver_each-Holds :
    (ends : ℕ → Outcome) (now i : ℕ) (rows : List (ℕ × Scheduled)) (m : Message) (b : Board)
    → Holds i m b.store
    → Holds i m (deliver_each ends now rows b).store
unfolding deliver_each
deliver_each-Holds ends now i [] m b h = h
deliver_each-Holds ends now i ((id, row) ∷ rows) m b h =
    deliver_each-Holds ends now i rows m _ (deliver_one-Holds (ends id) now id i row m b h)

delivered :
    (o : Outcome) (now id : ℕ) (row : Scheduled) (b : Board)
    → o ≡ done
    → Holds b.store.next_message (message_of row now) (deliver_one o now id row b).store
unfolding deliver_one mark
delivered done now id row b e = post-new row now b
delivered lost now id row b e = cc
delivered broken now id row b e = cc
delivered lost_unmarked now id row b e = cc
delivered broken_unmarked now id row b e = cc

deliver_each-posts :
    (ends : ℕ → Outcome) (now v : ℕ) (row : Scheduled) (rows : List (ℕ × Scheduled)) (b : Board)
    → lookup v rows ≡ some row
    → ends v ≡ done
    → (i : ℕ) × Holds i (message_of row now) (deliver_each ends now rows b).store
unfolding deliver_each lookup
deliver_each-posts ends now v row [] b l e = cc
deliver_each-posts ends now v row ((j, r) ∷ rows) b l e = elim (Bool-cases (j == v)) [
  | inl same ↦
      let is_row : r ≡ row = ground (arith, l, same) in
      let is_done : ends j ≡ done = ap ends ((nat_beq_iff j v).0 same) ∙ e in
      let at : Holds b.store.next_message (message_of row now)
          (deliver_one (ends j) now j r b).store =
        subst
          (λ x.
            Holds b.store.next_message (message_of x now) (deliver_one (ends j) now j r b).store)
          is_row (delivered (ends j) now j r b is_done) in
      (b.store.next_message, deliver_each-Holds ends now b.store.next_message rows _ _ at)
  | inr apart ↦
      deliver_each-posts ends now v row rows (deliver_one (ends j) now j r b)
        (ground (arith, l, apart)) e
]

still_there :
    (v j : ℕ) (row r : Scheduled) (b : Board)
    → lookup v b.scheduled ≡ some row
    → lookup j b.scheduled ≡ some r
    → (y : Scheduled) × (lookup j (mark v cancelled b).scheduled ≡ some y)
still_there v j row r b l there = elim (Bool-cases (v == j)) [
  | inl same ↦
      (record row { status = cancelled }, ground (arith, same, mark-lookup v j row cancelled b l))
  | inr apart ↦ (r, ground (arith, apart, there, mark-lookup v j row cancelled b l))
]

-- The author of a message that is due can still cancel it after a run of the scheduler has read the
-- due rows, and the cancellation is accepted; if the delivery is done, the message is stored all the
-- same, and its row then says sent. Given that no two scheduled messages have one id.
pub cancelled-sent :
    (ends : ℕ → Outcome) (now v : ℕ) (row : Scheduled) (b : Board)
    → DistinctKeys b.scheduled
    → lookup v b.scheduled ≡ some row
    → is_due now (v, row) ≡ true
    → ends v ≡ done
    → (c : Board) × (cancel v row.user_id b ≡ ok c)
      × (lookup v c.scheduled ≡ some (record row { status = cancelled }))
      × (lookup v (deliver_each ends now (due now b) c).scheduled
          ≡ some (record row { status = sent }))
      × ((i : ℕ) × (lookup i (deliver_each ends now (due now b) c).store.messages
            ≡ some (message_of row now)))
unfolding due cancel
cancelled-sent ends now v row b d l is_it well =
    let c = mark v cancelled b in
    let rows = keep (is_due now) b.scheduled in
    let at : lookup v c.scheduled ≡ some (record row { status = cancelled }) =
      ground (arith, beq_refl v, mark-lookup v v row cancelled b l) in
    let read : lookup v rows ≡ some row =
      ground (arith, l, is_it, lookup-keep (is_due now) v b.scheduled d) in
    let (i, held) = deliver_each-posts ends now v row rows c read well in
    (
      c,
      ground (arith, l, is_it, beq_refl row.user_id),
      at,
      deliver_each-lookup ends now v rows c (DistinctKeys-keep (is_due now) b.scheduled d)
            (λ j r q. still_there v j row r b l (kept_there (is_due now) j r b.scheduled d q).0)
            (record row { status = cancelled }) at
          ∙ ground (arith, read, well),
      (i, held.1),
    )
