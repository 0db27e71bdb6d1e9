-- ===== src/Messages/Delivery.antt =====
-- Due messages are delivered, once.
use nova_connect.Prelude.{
  ℕ, ◌≡◌, refl, sym, ap, ◌∙◌, false, none, some, List, [], ◌∷◌, arith, keep, lookup, if◌then◌else◌,
  ◌==◌, nat_eq, DistinctKeys, DistinctKeys-insert, DistinctKeys-keep, kept_there, lookup-keep,
  lookup-insert, Bool-cases, nat_beq_iff, inl, inr, beq_refl, option_split,
}
use nova_connect.Messages.Scheduled.{
  Status, sent, failed, Scheduled, Board, mark, Outcome, done, lost, broken, lost_unmarked,
  broken_unmarked, post, deliver_one, deliver_each, is_due, due, deliver_due,
}

-- What a row says afterwards that said `was` before.
abbrev pub result_of : Outcome → Status → Status
result_of done was = sent
result_of lost was = failed
result_of broken was = failed
result_of lost_unmarked was = was
result_of broken_unmarked was = was

same_row :
    (id v : ℕ) (row : Scheduled) (rows : List (ℕ × Scheduled))
    → lookup id rows ≡ some row
    → lookup v rows ≡ (if id == v then some row else lookup v rows)
same_row id v row rows l = elim (Bool-cases (id == v)) [
  | inl same ↦ ap (λ z. lookup z rows) (sym ((nat_beq_iff id v).0 same)) ∙ l ∙ ground (arith, same)
  | inr apart ↦ ground (arith, apart)
]

post-scheduled : (row : Scheduled) (now : ℕ) (b : Board) → (post row now b).scheduled ≡ b.scheduled
unfolding post
post-scheduled row now b = refl

pub mark-lookup :
    (id v : ℕ) (row : Scheduled) (status : Status) (b : Board)
    → lookup id b.scheduled ≡ some row
    → lookup v (mark id status b).scheduled
      ≡ (if id == v then some (record row { status = status }) else lookup v b.scheduled)
unfolding mark
mark-lookup id v row status b l =
    ground (arith, l, lookup-insert id v (record row { status = status }) b.scheduled)

mark-DistinctKeys :
    (id : ℕ) (status : Status) (b : Board)
    → DistinctKeys b.scheduled
    → DistinctKeys (mark id status b).scheduled
unfolding mark
mark-DistinctKeys id status b d =
    option_split DistinctKeys (lookup id b.scheduled) (λ _. d)
      (λ row _. DistinctKeys-insert id (record row { status = status }) b.scheduled d)

pub deliver_one-lookup :
    (o : Outcome) (now id v : ℕ) (read row : Scheduled) (b : Board)
    → lookup id b.scheduled ≡ some row
    → lookup v (deliver_one o now id read b).scheduled ≡ (
        if id == v
        then some (record row { status = result_of o row.status })
        else lookup v b.scheduled)
unfolding deliver_one post
deliver_one-lookup done now id v read row b l = mark-lookup id v row sent (post read now b) l
deliver_one-lookup lost now id v read row b l = mark-lookup id v row failed b l
deliver_one-lookup broken now id v read row b l = mark-lookup id v row failed (post read now b) l
deliver_one-lookup lost_unmarked now id v read row b l = same_row id v row b.scheduled l
deliver_one-lookup broken_unmarked now id v read row b l = same_row id v row b.scheduled l

deliver_one-DistinctKeys :
    (o : Outcome) (now id : ℕ) (read : Scheduled) (b : Board)
    → DistinctKeys b.scheduled
    → DistinctKeys (deliver_one o now id read b).scheduled
unfolding deliver_one post
deliver_one-DistinctKeys done now id read b d = mark-DistinctKeys id sent (post read now b) d
deliver_one-DistinctKeys lost now id read b d = mark-DistinctKeys id failed b d
deliver_one-DistinctKeys broken now id read b d = mark-DistinctKeys id failed (post read now b) d
deliver_one-DistinctKeys lost_unmarked now id read b d = d
deliver_one-DistinctKeys broken_unmarked now id read b d = d

pub deliver_each-DistinctKeys :
    (ends : ℕ → Outcome) (now : ℕ) (rows : List (ℕ × Scheduled)) (b : Board)
    → DistinctKeys b.scheduled
    → DistinctKeys (deliver_each ends now rows b).scheduled
unfolding deliver_each
deliver_each-DistinctKeys ends now [] b d = d
deliver_each-DistinctKeys ends now ((id, row) ∷ rows) b d =
    deliver_each-DistinctKeys ends now rows (deliver_one (ends id) now id row b)
      (deliver_one-DistinctKeys (ends id) now id row b d)

-- Every row that was read is marked by how its delivery ends, whatever its status has become.
pub deliver_each-lookup :
    (ends : ℕ → Outcome) (now v : ℕ) (rows : List (ℕ × Scheduled)) (b : Board)
    → DistinctKeys rows
    → ((j : ℕ) (r : Scheduled)
        → lookup j rows ≡ some r
        → (row : Scheduled) × (lookup j b.scheduled ≡ some row))
    → (row : Scheduled) → lookup v b.scheduled ≡ some row
    → lookup v (deliver_each ends now rows b).scheduled ≡ (elim (lookup v rows) [
      | none ↦ some row
      | some r ↦ some (record row { status = result_of (ends v) row.status })
    ])
unfolding deliver_each lookup
deliver_each-lookup ends now v [] b d h row l = l
deliver_each-lookup ends now v ((j, r) ∷ rows) b d h row l =
    let (r', there) = h j r (ground (arith, beq_refl j)) in
    let b' = deliver_one (ends j) now j r b in
    let still : (i : ℕ) (x : Scheduled)
        → lookup i rows ≡ some x
        → (y : Scheduled) × (lookup i b'.scheduled ≡ some y) =
      λ i x q.
        let apart : (j == i) ≡ false =
          ground (arith, q, d.0, nat_beq_iff j i, ap (λ z. lookup z rows)) in
        let (y, at) = h i x (ground (arith, apart, q)) in
        (y, ground (arith, apart, at, deliver_one-lookup (ends j) now j i r r' b there)) in
    elim (Bool-cases (j == v)) [
      | inl same ↦
          let e = (nat_beq_iff j v).0 same in
          let gone : lookup v rows ≡ none = ap (λ x. lookup x rows) (sym e) ∙ d.0 in
          let is_row : r' ≡ row = ground (arith, there, l, ap (λ z. lookup z b.scheduled) e) in
          let after : lookup v b'.scheduled
              ≡ some (record row { status = result_of (ends v) row.status }) =
            ground
              (arith, same, is_row, ap ends e, deliver_one-lookup (ends j) now j v r r' b there) in
          deliver_each-lookup ends now v rows b' d.1 still
            (record row { status = result_of (ends v) row.status }) after
          ∙ ground (arith, gone, same)
      | inr apart ↦
          let after : lookup v b'.scheduled ≡ some row =
            ground (arith, apart, l, deliver_one-lookup (ends j) now j v r r' b there) in
          deliver_each-lookup ends now v rows b' d.1 still row after ∙ ground (arith, apart)
    ]

-- After a run of the scheduler each message that was due is marked as sent if its delivery was done,
-- and as failed if it threw; only one whose mark as failed could not be written either is left as it
-- was. All others are as they were. Given that no two scheduled messages have one id.
pub deliver_due-status :
    (ends : ℕ → Outcome) (now v : ℕ) (row : Scheduled) (b : Board)
    → DistinctKeys b.scheduled
    → lookup v b.scheduled ≡ some row
    → lookup v (deliver_due ends now b).scheduled
      ≡ some (record row {
        status = if is_due now (v, row) then result_of (ends v) row.status else row.status;
      })
unfolding deliver_due due
deliver_due-status ends now v row b d l =
    deliver_each-lookup ends now v (keep (is_due now) b.scheduled) b
      (DistinctKeys-keep (is_due now) b.scheduled d)
      (λ j r q. (r, (kept_there (is_due now) j r b.scheduled d q).0)) row l
    ∙ ground (arith, l, lookup-keep (is_due now) v b.scheduled d)
