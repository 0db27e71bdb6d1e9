-- ===== src/Meetings/Whiteboard/Erasing.antt =====
-- 'sfu:wb-erase' of src/meet-signaling.js: when the listener throws.
use nova_connect.Prelude.{
  has, any, every-keep, has-lookup, ◌-◌, ◌≡◌, refl, Bool, true, false, Option, none, some, List, [],
  ◌∷◌, arith, ◌==◌, Map, lookup, erase, lookup-erase, beq_refl, keep, every, length, ltb,
  Option-cases, Bool-cases, inl, inr,
}
use nova_connect.Meetings.Whiteboard.{
  Key, key_eq, Stroke, Board, erase_stroke, erase_each, erase_strokes,
}

-- The ids of one request, no id twice.
abbrev pub NoRepeat : List Key → Type 0
NoRepeat [] = Unit {0}
NoRepeat (k ∷ ks) = (any (λ j. j == k) ks ≡ false) × NoRepeat ks

any-keep : (p q : Key → Bool) (ks : List Key) → any p ks ≡ false → any p (keep q ks) ≡ false
any-keep p q [] h = refl
any-keep p q (k ∷ ks) h = ground (arith, any-keep p q ks)

NoRepeat-keep : (q : Key → Bool) (ks : List Key) → NoRepeat ks → NoRepeat (keep q ks)
NoRepeat-keep q [] n = tt
NoRepeat-keep q (k ∷ ks) n = ground (arith, NoRepeat-keep q ks n.1, any-keep (λ j. j == k) q ks n.0)

-- Keys that are other than `k` stay on the board when `k` is erased.
every-has-erase :
    (k : Key) (ks : List Key) (m : Map Key Stroke)
    → any (λ j. j == k) ks ≡ false
    → every (λ j. has j m) ks ≡ true
    → every (λ j. has j (erase k m)) ks ≡ true
every-has-erase k [] m n h = refl
every-has-erase k (j ∷ js) m n h =
    ground
      (arith, lookup-erase k j m, key_eq.beq_iff j k, key_eq.beq_iff k j, every-has-erase k js m)

-- The result of the listener, without the value.
abbrev pub runs : Option Board → Bool
runs none = false
runs (some _) = true

erase_each-runs :
    (ks : List Key) (b : Board)
    → NoRepeat ks
    → every (λ k. has k b.strokes) ks ≡ true
    → runs (erase_each ks b) ≡ true
unfolding erase_each erase_stroke
erase_each-runs [] b n h = refl
erase_each-runs (k ∷ ks) b n h = elim (Option-cases (lookup k b.strokes)) [
  | inl absent ↦ ground (arith, absent, h)
  | inr (x, l) ↦
      let b' = record b { points = b.points - length x.points; strokes = erase k b.strokes } in
      let rest =
        erase_each-runs ks b' n.1 (every-has-erase k ks b.strokes n.0 (ground (arith, h))) in
      ground (arith, l, rest)
]

-- 'sfu:wb-erase' does not throw as long as the request names no stroke twice, whether the strokes
-- are on the board or not.
pub erase_strokes-runs :
    (ids : List Key) (b : Board) → NoRepeat ids → runs (erase_strokes ids b) ≡ true
unfolding erase_strokes
erase_strokes-runs ids b n = elim (Bool-cases (ltb 500 (length ids))) [
  | inl big ↦ ground (arith, big)
  | inr small ↦ ground (
    arith,
    small,
    erase_each-runs (keep (λ k. has k b.strokes) ids) b (NoRepeat-keep (λ k. has k b.strokes) ids n)
        (every-keep (λ k. has k b.strokes) ids),
  )
]

-- A request that names one stroke of the board twice makes the listener throw.
pub erase_twice-throws :
    (k : Key) (b : Board) → has k b.strokes ≡ true → erase_strokes (k ∷ k ∷ []) b ≡ none
unfolding erase_strokes erase_each erase_stroke
erase_twice-throws k b h =
    ground (arith, h, has-lookup k b.strokes h, lookup-erase k k b.strokes, beq_refl k)
