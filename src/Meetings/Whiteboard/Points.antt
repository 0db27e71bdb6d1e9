-- ===== src/Meetings/Whiteboard/Points.antt =====
-- The whiteboard of src/meet-signaling.js: its caps and its count of points.
use nova_connect.Prelude.{
  has, subst, ℕ, ◌+◌, ◌-◌, ◌≤◌, ◌≡◌, refl, not, ◌&&◌, ◌||◌, none, some, List, [], ◌∷◌, ◌++◌, arith,
  Map, lookup, insert, erase, lookup-insert, lookup-erase, beq_refl, keep, every, length,
  length-append, leb, ltb, if_split, option_split, Option-cases, Bool-cases, inl, inr,
}
use nova_connect.Rooms.{PeerId}
use nova_connect.Meetings.Whiteboard.{
  RawPoint, Key, key_eq, Stroke, Board, stroke_points, board_points, Batch, valid_point, extend,
  begin_stroke, stroke, erase_stroke, erase_each, erase_strokes,
}

-- The points of all strokes together.
abbrev pub total : Map Key Stroke → ℕ
total [] = 0
total ((k, s) ∷ m) = length s.points + total m

-- No key stands twice.
abbrev pub Distinct : Map Key Stroke → Type 0
Distinct [] = Unit {0}
Distinct ((k, s) ∷ m) = (lookup k m ≡ none) × Distinct m

-- The board counts its points exactly and within its cap, and each stroke keeps to its own.
pub record IsWithin (b : Board) : Type 0 where
  pub distinct : Distinct b.strokes
  pub counted : b.points ≡ total b.strokes
  pub capped : b.points ≤ board_points
  pub each : (k : Key) (s : Stroke) → lookup k b.strokes ≡ some s → length s.points ≤ stroke_points

total-insert_new :
    (k : Key) (s : Stroke) (m : Map Key Stroke)
    → lookup k m ≡ none
    → total (insert k s m) ≡ length s.points + total m
unfolding lookup insert
total-insert_new k s [] l = omega arith
total-insert_new k s ((j, x) ∷ m) l = ground (arith, total-insert_new k s m)

total-insert_over :
    (k : Key) (s x : Stroke) (m : Map Key Stroke)
    → lookup k m ≡ some x
    → total (insert k s m) + length x.points ≡ length s.points + total m
unfolding lookup insert
total-insert_over k s x [] l = cc
total-insert_over k s x ((j, y) ∷ m) l = ground (arith, total-insert_over k s x m)

Distinct-insert : (k : Key) (s : Stroke) (m : Map Key Stroke) → Distinct m → Distinct (insert k s m)
unfolding insert lookup
Distinct-insert k s [] d = (refl, tt)
Distinct-insert k s ((j, x) ∷ m) d = ground (
  arith,
  key_eq.beq_iff j k,
  key_eq.beq_iff k j,
  lookup-insert k j s m,
  Distinct-insert k s m d.1,
)

Distinct-erase : (k : Key) (m : Map Key Stroke) → Distinct m → Distinct (erase k m)
unfolding erase
Distinct-erase k [] d = tt
Distinct-erase k ((j, x) ∷ m) d = ground (arith, lookup-erase k j m, Distinct-erase k m d.1)

erase_absent : (k : Key) (m : Map Key Stroke) → lookup k m ≡ none → erase k m ≡ m
unfolding erase lookup
erase_absent k [] l = refl
erase_absent k ((j, x) ∷ m) l = ground (arith, erase_absent k m)

total-erase :
    (k : Key) (x : Stroke) (m : Map Key Stroke)
    → Distinct m
    → lookup k m ≡ some x
    → total (erase k m) + length x.points ≡ total m
unfolding lookup erase
total-erase k x [] d l = cc
total-erase k x ((j, y) ∷ m) d l =
    ground (arith, key_eq.beq_iff j k, erase_absent k m, total-erase k x m d.1, d.0)

-- Putting a stroke of at most the cap on the board, in place of one or as a new one.
IsWithin-insert :
    (k : Key) (s : Stroke) (n : ℕ) (b : Board)
    → IsWithin b
    → length s.points ≤ stroke_points
    → n ≤ board_points
    → n ≡ total (insert k s b.strokes)
    → IsWithin (record b { strokes = insert k s b.strokes; points = n })
IsWithin-insert k s n b w l c e = record {
  distinct = Distinct-insert k s b.strokes w.distinct;
  counted = e;
  capped = c;
  each = λ j x h. elim (Bool-cases (key_eq.beq k j)) [
    | inl same ↦ ground (arith, lookup-insert k j s b.strokes)
    | inr other ↦ w.each j x (ground (arith, lookup-insert k j s b.strokes))
  ];
}

extend-IsWithin :
    (k : Key) (s : Stroke) (points : List RawPoint) (b : Board)
    → lookup k b.strokes ≡ some s
    → IsWithin b
    → IsWithin (extend k s points b)
unfolding extend
extend-IsWithin k s points b l w =
    if_split IsWithin
      (ltb stroke_points (length s.points + length points)
        || ltb board_points (b.points + length points))
      (λ _. w)
      λ h.
        let s' = record s { points = s.points ++ points } in
        IsWithin-insert k s' (b.points + length points) b w
          (ground (arith, h, length-append s.points points)) (ground (arith, h))
          (omega
            (arith, w.counted, length-append s.points points, total-insert_over k s' s b.strokes l))

begin_stroke-IsWithin :
    (k : Key) (batch : Batch) (b : Board)
    → lookup k b.strokes ≡ none
    → IsWithin b
    → IsWithin (begin_stroke k batch b)
unfolding begin_stroke
begin_stroke-IsWithin k batch b l w =
    if_split IsWithin (not (batch.color_ok && leb 1 batch.width && leb batch.width 40)) (λ _. w)
      λ _.
        let s : Stroke = record { color = batch.color; width = batch.width; points = [] } in
        extend-IsWithin k s batch.points _
          (ground (arith, lookup-insert k k s b.strokes, beq_refl k))
          (IsWithin-insert k s b.points b w (omega arith) w.capped
            (omega (arith, w.counted, total-insert_new k s b.strokes l)))

-- A batch of a stroke keeps the board's count exact and all its caps, whatever the client sends.
pub stroke-IsWithin :
    (peer : PeerId) (batch : Batch) (b : Board) → IsWithin b → IsWithin (stroke peer batch b)
unfolding stroke
stroke-IsWithin peer batch b w =
    if_split IsWithin
      (ltb 40 batch.id_length
        || ltb 500 (length batch.points)
        || not (every valid_point batch.points))
      (λ _. w)
      λ _.
        option_split IsWithin (lookup (peer, batch.id) b.strokes)
          (λ l. begin_stroke-IsWithin (peer, batch.id) batch b l w)
          (λ s l. extend-IsWithin (peer, batch.id) s batch.points b l w)

-- What is left of the board once the stroke `x` under `k` is wiped off.
without-IsWithin :
    (k : Key) (x : Stroke) (b : Board)
    → lookup k b.strokes ≡ some x
    → IsWithin b
    → IsWithin (record b { points = b.points - length x.points; strokes = erase k b.strokes })
without-IsWithin k x b l w = record {
  distinct = Distinct-erase k b.strokes w.distinct;
  counted = omega (arith, total-erase k x b.strokes w.distinct l, w.counted);
  capped = omega (arith, w.capped);
  each = λ j y h. w.each j y (ground (arith, lookup-erase k j b.strokes, h));
}

-- Erasing strokes one after the other: where the loop comes to its end, the board is within.
erase_each-IsWithin :
    (ks : List Key) (b b' : Board) → erase_each ks b ≡ some b' → IsWithin b → IsWithin b'
unfolding erase_each erase_stroke
erase_each-IsWithin [] b b' e w = subst IsWithin (ground (arith, e)) w
erase_each-IsWithin (k ∷ ks) b b' e w = elim (Option-cases (lookup k b.strokes)) [
  | inl absent ↦ ground (arith, absent, e)
  | inr (x, l) ↦
      erase_each-IsWithin ks
        (record b { points = b.points - length x.points; strokes = erase k b.strokes }) b'
        (ground (arith, l, e)) (without-IsWithin k x b l w)
]

-- Where 'sfu:wb-erase' does not throw, the count of points stays exact, within the cap of the board
-- and of each stroke, so a wiped stroke's points can be drawn again.
pub erase_strokes-IsWithin :
    (ids : List Key) (b b' : Board) → erase_strokes ids b ≡ some b' → IsWithin b → IsWithin b'
unfolding erase_strokes
erase_strokes-IsWithin ids b b' e w = elim (Bool-cases (ltb 500 (length ids))) [
  | inl big ↦ subst IsWithin (ground (arith, big, e)) w
  | inr small ↦
      erase_each-IsWithin (keep (λ k. has k b.strokes) ids) b b' (ground (arith, small, e)) w
]
