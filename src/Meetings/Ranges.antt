-- ===== src/Meetings/Ranges.antt =====
-- The places of breakout rooms and the histories of call chats of src/meet-signaling.js.
use nova_connect.Prelude.{
  ℕ, zero, suc, ◌%◌, ◌≤◌, ◌<◌, ◌≡◌, refl, sym, ap, subst, min, max, Bool, true, false, Option, none,
  some, String, List, [], ◌∷◌, ◌++◌, arith, Map, lookup, insert, lookup-insert, lookup-erase, has,
  length, length-append, ltb, if◌then◌else◌, if_split, option_split, ◌==◌, nat_eq, pair_eq,
  Bool-cases, inl, inr,
}
use nova_connect.Rooms.{RoomId, room_eq, PeerId}
use nova_connect.Meetings.State.{State, Breakout}
use nova_connect.Meetings.Breakouts.{
  given_places, spread, room_count, room_names, people_but, arranged, in_range, assigned,
}
use nova_connect.Meetings.Extras.{live_only, shifted, remember_chat}

-- Every place is that of a room.
abbrev pub Below : ℕ → Map PeerId ℕ → Type 0
Below n places = (p : PeerId) (i : ℕ) → lookup p places ≡ some i → i < n

abbrev pub InRange : Breakout → Type 0
InRange b = Below (length b.names) b.assign

Below-insert :
    (n i : ℕ) (p : PeerId) (m : Map PeerId ℕ) → i < n → Below n m → Below n (insert p i m)
Below-insert n i p m h b q j l = elim (Bool-cases (p == q)) [
  | inl same ↦ ground (arith, l, same, lookup-insert p q i m, h)
  | inr apart ↦ b q j (ground (arith, l, apart, lookup-insert p q i m))
]

given_places-Below :
    (ps : Map PeerId ℕ) (n : ℕ) (acc : Map PeerId ℕ) → Below n acc → Below n (given_places ps n acc)
unfolding given_places
given_places-Below [] n acc b = b
given_places-Below ((p, i) ∷ ps) n acc b =
    given_places-Below ps n _
      (if_split (Below n) (ltb i n) (λ h. Below-insert n i p acc (ground (arith, h)) b) (λ _. b))

spread-Below :
    (ps : List PeerId) (i n : ℕ) (acc : Map PeerId ℕ)
    → 0 < n
    → Below n acc
    → Below n (spread ps i n acc)
unfolding spread
spread-Below [] i n acc h b = b
spread-Below (p ∷ ps) i n acc h b =
    spread-Below ps (suc i) n _ h (Below-insert n (i % n) p acc (omega (arith, h)) b)

length-room_names : (label : ℕ → String) (i n : ℕ) → length (room_names label i n) ≡ n
unfolding room_names
length-room_names label i zero = refl
length-room_names label i (suc n) = ap suc (length-room_names label (suc i) n)

empty-Below : (n : ℕ) → Below n []
unfolding lookup
empty-Below n p i l = cc

arranged-InRange :
    (label : ℕ → String) (shuffle : List PeerId → List PeerId) (k asked : ℕ)
    (given : Option (Map PeerId ℕ)) (code : String) (s : State)
    → InRange (arranged label shuffle k asked given code s)
unfolding arranged room_count
arranged-InRange label shuffle k asked given code s =
    let n = max 1 (min 20 asked) in
    let P : Map PeerId ℕ → Type 0 = λ m. Below (length (room_names label 0 n)) m in
    subst
      (λ l. Below l (elim given as (λ _. Map PeerId ℕ) [
        | none ↦ spread (shuffle (people_but k code s)) 0 n []
        | some places ↦ given_places places n []
      ]))
      (sym (length-room_names label 0 n))
      (option_split (Below n) given
        (λ _. spread-Below (shuffle (people_but k code s)) 0 n [] (omega arith) (empty-Below n))
        (λ places _. given_places-Below places n [] (empty-Below n)))

assigned-InRange :
    (p : PeerId) (index : Option ℕ) (b : Breakout)
    → InRange b
    → InRange (assigned p (in_range index b) b)
unfolding assigned in_range
assigned-InRange p none b r = λ q i l. r q i (ground (arith, l, lookup-erase p q b.assign))
assigned-InRange p (some i) b r = go (ltb i (length b.names)) refl
  where
    go :
        (t : Bool)
        → ltb i (length b.names) ≡ t
        → InRange (assigned p (if t then some i else none) b)
    go true h = Below-insert (length b.names) i p b.assign (ground (arith, h)) r
    go false h = λ q j l. r q j (ground (arith, l, lookup-erase p q b.assign))

-- However breakout rooms are set up, with given places or spread over the people, each person's place
-- is the number of a room that there is, and so it is after a person is assigned in rooms where it was.
pub places-InRange :
    (label : ℕ → String) (shuffle : List PeerId → List PeerId) (k asked : ℕ)
    (given : Option (Map PeerId ℕ)) (code : String) (s : State) (p : PeerId) (index : Option ℕ)
    (b : Breakout)
    → InRange b
    → InRange (arranged label shuffle k asked given code s)
      × InRange (assigned p (in_range index b) b)
places-InRange label shuffle k asked given code s p index b r =
    (arranged-InRange label shuffle k asked given code s, assigned-InRange p index b r)

-- No history is longer than 200 lines.
abbrev pub Short : Map RoomId (List String) → Type 0
Short [] = Unit {0}
Short ((r, l) ∷ h) = (length l ≤ 200) × Short h

length-shifted-le : (l : List String) → length l ≤ 201 → length (shifted l) ≤ 200
unfolding shifted
length-shifted-le [] h = omega arith
length-shifted-le (x ∷ xs) h =
    if_split (λ (m : List String). length m ≤ 200) (ltb 200 (length (x ∷ xs)))
      (λ _. omega (arith, h)) (λ b. ground (arith, b))

Short-lookup :
    (r : RoomId) (l : List String) (h : Map RoomId (List String))
    → Short h
    → lookup r h ≡ some l
    → length l ≤ 200
unfolding lookup
Short-lookup r l [] b e = cc
Short-lookup r l ((q, x) ∷ h) b e = ground (arith, e, b.0, Short-lookup r l h b.1)

Short-live_only : (h : Map RoomId (List String)) (s : State) → Short h → Short (live_only h s)
unfolding live_only
Short-live_only [] s b = tt
Short-live_only ((q, x) ∷ h) s b =
    if_split Short (has q s.rooms) (λ _. (b.0, Short-live_only h s b.1))
      (λ _. Short-live_only h s b.1)

Short-insert :
    (r : RoomId) (l : List String) (h : Map RoomId (List String))
    → length l ≤ 200
    → Short h
    → Short (insert r l h)
unfolding insert
Short-insert r l [] n b = (n, tt)
Short-insert r l ((q, x) ∷ h) n b =
    if_split Short (q == r) (λ _. (n, b.1)) (λ _. (b.0, Short-insert r l h n b.1))

history_of :
    (r : RoomId) (h : Map RoomId (List String))
    → Short h
    → length (elim (lookup r h) as (λ _. List String) [ none ↦ [] | some l ↦ l ]) ≤ 200
history_of r h b =
    option_split (λ (l : List String). length l ≤ 200) (lookup r h) (λ _. omega arith)
      (λ l e. Short-lookup r l h b e)

-- The chat of a call that is kept in memory never has more than 200 lines, whatever is written.
pub remember_chat-Short :
    (r : RoomId) (line : String) (s : State) (h : Map RoomId (List String))
    → Short h
    → Short (remember_chat r line s h)
unfolding remember_chat
remember_chat-Short r line s h b =
    let live = live_only h s in
    let kept = Short-live_only h s b in
    let before : List String = elim (lookup r live) [ none ↦ [] | some l ↦ l ] in
    Short-insert r (shifted (before ++ line ∷ [])) live
      (length-shifted-le (before ++ line ∷ [])
        (omega (arith, history_of r live kept, length-append before (line ∷ []))))
      kept
