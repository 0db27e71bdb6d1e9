-- ===== src/Chats/Pairs.antt =====
-- A 1:1 chat of two people is made once.
use nova_connect.Prelude.{
  In, Option-cases, map, ℕ, ◌+◌, ◌<◌, ◌≡◌, refl, sym, ap, ◌∙◌, subst, Bool, true, false, not,
  Option, none, some, inl, inr, String, List, [], ◌∷◌, ◌++◌, Map, arith, keep, any, every, find,
  length, lookup, insert, has, if_split, option_split, ok, guard_split, ◌==◌, nat_eq, pair_eq,
  lookup-insert, beq_refl, nat_beq_iff, Bool-cases,
}
use nova_connect.Chats.State.{
  answered, Conversation, Seat, new_seat, Chats, Effect, invalid_people, nobody_else, unavailable,
  blocked_person, distinct_ids, is_active, seats_of,
}
use nova_connect.Chats.Handlers.{
  Answer, is_blocked, is_nobody, valid_ids, seat_all, is_pair, existing_pair, store_chat, create,
  shown_to,
}

-- Every place is in a chat whose number has been given out.
abbrev pub AllOld : ℕ → Map (ℕ × ℕ) Seat → Type 0
AllOld n [] = Unit {0}
AllOld n ((i, x) ∷ m) = (i.0 < n) × AllOld n m

pub AllOld-insert :
    (n : ℕ) (i : ℕ × ℕ) (x : Seat) (m : Map (ℕ × ℕ) Seat)
    → i.0 < n
    → AllOld n m
    → AllOld n (insert i x m)
unfolding insert
AllOld-insert n i x [] h k = (h, tt)
AllOld-insert n i x ((j, y) ∷ m) h k =
    if_split (AllOld n) (pair_eq.beq j i) (λ _. (h, k.1)) (λ _. (k.0, AllOld-insert n i x m h k.1))

pub AllOld-seat_all :
    (n d : ℕ) (us : List ℕ) (m : Map (ℕ × ℕ) Seat) → d < n → AllOld n m → AllOld n (seat_all d us m)
unfolding seat_all
AllOld-seat_all n d [] m h k = k
AllOld-seat_all n d (u ∷ us) m h k =
    AllOld-seat_all n d us (insert (d, u) new_seat m) h (AllOld-insert n (d, u) new_seat m h k)

pub AllOld-more : (n : ℕ) (m : Map (ℕ × ℕ) Seat) → AllOld n m → AllOld (n + 1) m
AllOld-more n [] k = tt
AllOld-more n ((i, x) ∷ m) k = (omega (arith, k.0), AllOld-more n m k.1)

pub AllOld-shown :
    (n d me : ℕ) (m : Map (ℕ × ℕ) Seat) → AllOld n m → AllOld n (map (shown_to d me) m)
AllOld-shown n d me [] k = tt
AllOld-shown n d me ((i, x) ∷ m) k =
    if_split (λ (z : (ℕ × ℕ) × Seat). AllOld n (z ∷ map (shown_to d me) m)) (i.0 == d)
      (λ _. (k.0, AllOld-shown n d me m k.1)) (λ _. (k.0, AllOld-shown n d me m k.1))

pub old-seat : (n d u : ℕ) (m : Map (ℕ × ℕ) Seat) → AllOld n m → has (d, u) m ≡ true → d < n
unfolding lookup
old-seat n d u [] k h = cc
old-seat n d u (((e, v), x) ∷ m) k h = ground (arith, h, k.0, old-seat n d u m k.1)

-- The rows of a chat that is new.
no_rows :
    (n : ℕ) (m : Map (ℕ × ℕ) Seat) → AllOld n m → keep (λ (e : (ℕ × ℕ) × Seat). e.0.0 == n) m ≡ []
no_rows n [] k = refl
no_rows n ((i, x) ∷ m) k = ground (arith, k.0, no_rows n m k.1)

one_row :
    (n u : ℕ) (x : Seat) (m : Map (ℕ × ℕ) Seat)
    → lookup (n, u) m ≡ none
    → keep (λ (e : (ℕ × ℕ) × Seat). e.0.0 == n) (insert (n, u) x m)
      ≡ keep (λ (e : (ℕ × ℕ) × Seat). e.0.0 == n) m ++ ((n, u), x) ∷ []
unfolding insert lookup
one_row n u x [] l = ground (arith, beq_refl n)
one_row n u x (((e, v), y) ∷ m) l = ground (arith, l, one_row n u x m)

new-none : (n u : ℕ) (m : Map (ℕ × ℕ) Seat) → AllOld n m → lookup (n, u) m ≡ none
unfolding lookup
new-none n u [] k = refl
new-none n u (((e, v), y) ∷ m) k = ground (arith, k.0, new-none n u m k.1)

find-any :
    {A : Type 0} (p : A → Bool) (xs : List A) → any p xs ≡ true → (x : A) × (find p xs ≡ some x)
find-any p [] h = cc
find-any p (x ∷ xs) h = elim (Bool-cases (p x)) [
  | inl e ↦ (x, ground (arith, e))
  | inr e ↦ let (y, q) = find-any p xs (ground (arith, e, h)) in (y, ground (arith, e, q))
]

any-insert :
    (p : ℕ × Conversation → Bool) (k : ℕ) (c : Conversation) (m : Map ℕ Conversation)
    → p (k, c) ≡ true
    → any p (insert k c m) ≡ true
unfolding insert
any-insert p k c [] h = ground (arith, h)
any-insert p k c ((j, w) ∷ m) h =
    if_split (λ (z : Map ℕ Conversation). any p z ≡ true) (j == k) (λ _. ground (arith, h))
      (λ _. ground (arith, any-insert p k c m h))

every-keep : (p q : ℕ → Bool) (xs : List ℕ) → every p xs ≡ true → every p (keep q xs) ≡ true
every-keep p q [] h = refl
every-keep p q (x ∷ xs) h = ground (arith, h, every-keep p q xs)

every-keep_self : (p : ℕ → Bool) (xs : List ℕ) → every p (keep p xs) ≡ true
every-keep_self p [] = refl
every-keep_self p (x ∷ xs) = ground (arith, every-keep_self p xs)

every-distinct_ids :
    (p : ℕ → Bool) (xs : List ℕ) → every p xs ≡ true → every p (distinct_ids xs) ≡ true
unfolding distinct_ids
every-distinct_ids p [] h = refl
every-distinct_ids p (x ∷ xs) h =
    let rest = every-distinct_ids p xs (ground (arith, h)) in
    ground (arith, h, every-keep p (λ y. not (y == x)) (distinct_ids xs) rest)

abbrev pub others_of : ℕ → List ℕ → List ℕ
others_of me ids = distinct_ids (keep (λ u. not (u == me)) ids)

other_apart : (me other : ℕ) (ids : List ℕ) → others_of me ids ≡ other ∷ [] → (other == me) ≡ false
other_apart me other ids e =
    let all : every (λ u. not (u == me)) (other ∷ []) ≡ true =
      ap (every (λ u. not (u == me))) (sym e)
      ∙ every-distinct_ids (λ u. not (u == me)) (keep (λ u. not (u == me)) ids)
          (every-keep_self (λ u. not (u == me)) ids) in
    ground (arith, all)

module _ (me other : ℕ) (name : Option String) (s : Chats) (old : AllOld s.next s.seats)
    (apart : (other == me) ≡ false) where
  abbrev made : Chats
  made = (store_chat (other ∷ []) name me s).0

  -- The new chat has the rows of the two, and no other.
  rows_made : seats_of s.next made ≡ ((s.next, me), new_seat) ∷ ((s.next, other), new_seat) ∷ []
  unfolding store_chat seat_all
  rows_made =
      let first = new-none s.next me s.seats old in
      let second : lookup (s.next, other) (insert (s.next, me) new_seat s.seats) ≡ none = ground (
        arith,
        apart,
        nat_beq_iff me other,
        beq_refl other,
        lookup-insert (s.next, me) (s.next, other) new_seat s.seats,
        new-none s.next other s.seats old,
      ) in
      one_row s.next other new_seat (insert (s.next, me) new_seat s.seats) second
      ∙ ap (λ l. l ++ ((s.next, other), new_seat) ∷ [])
          (one_row s.next me new_seat s.seats first
            ∙ ap (λ l. l ++ ((s.next, me), new_seat) ∷ []) (no_rows s.next s.seats old))

  has_made : (has (s.next, me) made.seats ≡ true) × (has (s.next, other) made.seats ≡ true)
  unfolding store_chat seat_all
  has_made =
      let m = insert (s.next, me) new_seat s.seats in
      (
        ground (
          arith,
          beq_refl me,
          beq_refl s.next,
          lookup-insert (s.next, me) (s.next, me) new_seat s.seats,
          lookup-insert (s.next, other) (s.next, me) new_seat m,
        ),
        ground (
          arith,
          beq_refl other,
          beq_refl s.next,
          lookup-insert (s.next, other) (s.next, other) new_seat m,
        ),
      )

  made_pair : (c : Conversation) → c.group ≡ false → is_pair me other made (s.next, c) ≡ true
  made_pair c h =
      let two : (length (seats_of s.next made) == 2) ≡ true = ap (λ l. length l == 2) rows_made in
      ground (arith, h, has_made.0, has_made.1, two)

  abbrev first : Conversation
  first = record { group = false; name = none; created_by = me }

  stored_made : made.conversations ≡ insert s.next first s.conversations
  unfolding store_chat
  stored_made = refl

  existing_made : (d : ℕ) × (existing_pair me (other ∷ []) made ≡ some d)
  unfolding existing_pair
  existing_made =
      let (e, q) = find-any (is_pair me other made) made.conversations (
        ap (any (is_pair me other made)) stored_made
        ∙ any-insert (is_pair me other made) s.next first s.conversations (made_pair first refl)) in
      (e.0, ap (λ (o : Option (ℕ × Conversation)). elim o [ none ↦ none | some x ↦ some x.0 ]) q)

module _ (ids : List ℕ) (again : Option String) (me : ℕ) where
  -- A request that finds a chat stores nothing.
  create-found :
      (t : Chats) (d : ℕ)
      → valid_ids ids ≡ true
      → not (is_nobody (others_of me ids)) ≡ true
      → every (is_active t) (others_of me ids) ≡ true
      → not (is_blocked me (others_of me ids) t) ≡ true
      → existing_pair me (others_of me ids) t ≡ some d
      → create ids again me t ≡ ok (t, answered d ∷ [])
  unfolding create
  create-found t d valid some_one active free there =
      ground (arith, valid, some_one, active, free, there)

-- A chat of the two alone, and not a group chat.
abbrev pub IsPairChat : ℕ → ℕ → ℕ → Chats → Type 0
IsPairChat me other d s =
    ((c : Conversation) × In (d, c) s.conversations × (c.group ≡ false))
    × (has (d, me) s.seats ≡ true)
    × (has (d, other) s.seats ≡ true)
    × (length (seats_of d s) ≡ 2)

find_sound :
    {A : Type 0} (p : A → Bool) (xs : List A) (x : A) → find p xs ≡ some x → In x xs × (p x ≡ true)
find_sound p [] x e = cc
find_sound p (y ∷ ys) x e = elim (Bool-cases (p y)) [
  | inl b ↦ let is_x : x ≡ y = ground (arith, b, e) in (inl is_x, ap p is_x ∙ b)
  | inr b ↦ let (i, q) = find_sound p ys x (ground (arith, b, e)) in (inr i, q)
]

existing-IsPairChat :
    (me other d : ℕ) (s : Chats)
    → existing_pair me (other ∷ []) s ≡ some d
    → IsPairChat me other d s
unfolding existing_pair
existing-IsPairChat me other d s e =
    elim (Option-cases (find (is_pair me other s) s.conversations)) [
      | inl out ↦ ground (arith, out, e)
      | inr (x, at) ↦
          let (i, q) = find_sound (is_pair me other s) s.conversations x at in
          let is_d : x.0 ≡ d = ground (arith, at, e) in
          subst (λ j. IsPairChat me other j s) is_d
            (
              (x.1, i, ground (arith, q)),
              ground (arith, q),
              ground (arith, q),
              ground (arith, q, nat_beq_iff (length (seats_of x.0 s)) 2),
            )
    ]

pub create-again :
    (ids : List ℕ) (name again : Option String) (me other : ℕ) (s t : Chats) (effects : List Effect)
    → AllOld s.next s.seats
    → others_of me ids ≡ other ∷ []
    → create ids name me s ≡ ok (t, effects)
    → (d : ℕ) × (create ids again me t ≡ ok (t, answered d ∷ [])) × IsPairChat me other d t
unfolding create
create-again ids name again me other s t effects old one =
    guard_split Again (valid_ids ids) invalid_people _ (λ h. cc)
      (λ valid.
        guard_split Again (not (is_nobody (others_of me ids))) nobody_else _ (λ h. cc)
          (λ some_one.
            guard_split Again (every (is_active s) (others_of me ids)) unavailable _ (λ h. cc)
              (λ active.
                guard_split Again (not (is_blocked me (others_of me ids) s)) blocked_person _
                  (λ h. cc)
                  (λ free.
                    option_split (λ z. Again (ok z)) (existing_pair me (others_of me ids) s)
                      (λ _ h. subst Told (is_t h) (from_made valid some_one active free))
                      (λ d there h. subst Told (is_t h) (
                        d,
                        create-found ids again me s d valid some_one active free there,
                        pair_chat d s there,
                      ))))))
  where
    Told : Chats → Type 0
    Told x = (d : ℕ) × (create ids again me x ≡ ok (x, answered d ∷ [])) × IsPairChat me other d x

    Again : Answer → Type 0
    Again a = a ≡ ok (t, effects) → Told t

    pair_chat :
        (d : ℕ) (x : Chats)
        → existing_pair me (others_of me ids) x ≡ some d
        → IsPairChat me other d x
    pair_chat d x e =
        existing-IsPairChat me other d x
          (subst (λ (l : List ℕ). existing_pair me l x ≡ some d) one e)

    is_t : {x : Chats} {e : List Effect} → ◌≡◌ {A = Answer} (ok (x, e)) (ok (t, effects)) → x ≡ t
    is_t h = cc (h)

    still_active :
        every (is_active s) (others_of me ids) ≡ true
        → every (is_active (store_chat (others_of me ids) name me s).0) (others_of me ids) ≡ true
    still_active h = unfold store_chat in h

    still_free :
        not (is_blocked me (others_of me ids) s) ≡ true
        → not (is_blocked me (others_of me ids) (store_chat (others_of me ids) name me s).0) ≡ true
    still_free h = unfold store_chat is_blocked in h

    from_made :
        valid_ids ids ≡ true
        → not (is_nobody (others_of me ids)) ≡ true
        → every (is_active s) (others_of me ids) ≡ true
        → not (is_blocked me (others_of me ids) s) ≡ true
        → Told (store_chat (others_of me ids) name me s).0
    from_made valid some_one active free =
        let (d, q) =
          subst (λ (l : List ℕ). (d : ℕ) × (existing_pair me l (store_chat l name me s).0 ≡ some d))
            (sym one) (existing_made me other name s old (other_apart me other ids one)) in
        (
          d,
          create-found ids again me (store_chat (others_of me ids) name me s).0 d valid some_one
              (still_active active) (still_free free) q,
          pair_chat d (store_chat (others_of me ids) name me s).0 q,
        )
