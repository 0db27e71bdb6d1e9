-- ===== src/Meetings/Whiteboard.antt =====
-- The whiteboard of a call room: 'sfu:wb-open', 'sfu:wb-clear', 'sfu:wb-stroke' and 'sfu:wb-erase'
-- of src/meet-signaling.js, from the point where the sender is known to be in the room.
pub mod Points
pub mod Erasing
use nova_connect.Prelude.{
  ℕ, suc, ◌+◌, ◌-◌, ◌≡◌, ◌↔◌, Bool, true, false, not, ◌&&◌, ◌||◌, Option, none, some, String, List,
  [], ◌∷◌, ◌++◌, arith, Eq, ◌==◌, nat_eq, string_eq, pair_eq, pair_beq, pair_beq_iff, Map, values,
  lookup, insert, erase, has, keep, every, length, leb, ltb, if◌then◌else◌,
}
use nova_connect.Rooms.{PeerId}

-- A coordinate between 0 and 1 is the number of millionths; anything else that a client may send in
-- its place is `junk`.
pub data RawPoint : Type 0 where
  xy : ℕ → ℕ → RawPoint
  junk : RawPoint

-- `m.peerId + ':' + id`
abbrev pub Key : Type 0
Key = PeerId × String

abbrev pub key_beq : Key → Key → Bool
key_beq (p, s) (q, t) = pair_beq p q && s == t

pub key_beq_iff : (a b : Key) → (key_beq a b ≡ true) ↔ (a ≡ b)
key_beq_iff (p, s) (q, t) = ground (arith, pair_beq_iff p q, string_eq.beq_iff s t)

instance abbrev pub key_eq : Eq Key
key_eq = record { beq = key_beq; beq_iff = key_beq_iff }

pub record Stroke : Type 0 where
  pub color : String
  pub width : ℕ
  pub points : List RawPoint

pub record Board : Type 0 where
  pub open_for_all : Bool
  pub strokes : Map Key Stroke
  pub points : ℕ

-- `room.board ??= …`
unfoldable pub new_board : Board
new_board = record { open_for_all = false; strokes = []; points = 0 }

abbrev pub stroke_points : ℕ
stroke_points = 5000

abbrev pub board_points : ℕ
board_points = 200000

unfoldable pub valid_point : RawPoint → Bool
valid_point (xy x y) = leb x 1000000 && leb y 1000000
valid_point junk = false

-- 'sfu:wb-open'
unfoldable pub set_open : Bool → Board → Board
set_open on b = record b { open_for_all = on }

-- 'sfu:wb-clear'
unfoldable pub clear : Board → Board
clear b = record b { strokes = []; points = 0 }

-- What 'sfu:wb-stroke' carries, after the checks of the types of its fields. `color_ok` is the
-- answer of the test /^#[0-9a-f]{6}$/i, and a width is a whole number.
pub record Batch : Type 0 where
  pub id : String
  pub id_length : ℕ
  pub color : String
  pub color_ok : Bool
  pub width : ℕ
  pub points : List RawPoint

-- The points go to the stroke `s`, which stands on the board, within the caps.
unfoldable pub extend : Key → Stroke → List RawPoint → Board → Board
extend key s points b =
    if ltb stroke_points (length s.points + length points)
      || ltb board_points (b.points + length points)
    then b
    else record b {
      strokes = insert key (record s { points = s.points ++ points }) b.strokes;
      points = b.points + length points;
    }

-- A stroke that is new is put on the board, empty, before the caps are looked at.
unfoldable pub begin_stroke : Key → Batch → Board → Board
begin_stroke key batch b =
    let s : Stroke = record { color = batch.color; width = batch.width; points = [] } in
    if not (batch.color_ok && leb 1 batch.width && leb batch.width 40)
    then b
    else extend key s batch.points (record b { strokes = insert key s b.strokes })

-- 'sfu:wb-stroke' of the connection `peer`.
unfoldable pub stroke : PeerId → Batch → Board → Board
stroke peer batch b =
    if ltb 40 batch.id_length
      || ltb 500 (length batch.points)
      || not (every valid_point batch.points)
    then b
    else elim (lookup (peer, batch.id) b.strokes) [
      | none ↦ begin_stroke (peer, batch.id) batch b
      | some s ↦ extend (peer, batch.id) s batch.points b
    ]

-- `board.strokes.get(id).points` fails where the stroke is not there: `none`.
unfoldable pub erase_stroke : Key → Board → Option Board
erase_stroke key b = elim (lookup key b.strokes) [
  | none ↦ none
  | some s ↦ some (record b { points = b.points - length s.points; strokes = erase key b.strokes })
]

unfoldable pub erase_each : List Key → Board → Option Board
erase_each [] b = some b
erase_each (key ∷ ks) b = elim (erase_stroke key b) [ none ↦ none | some b' ↦ erase_each ks b' ]

-- 'sfu:wb-erase'; `none` where the listener throws.
unfoldable pub erase_strokes : List Key → Board → Option Board
erase_strokes ids b =
    if ltb 500 (length ids) then some b else erase_each (keep (λ k. has k b.strokes) ids) b
