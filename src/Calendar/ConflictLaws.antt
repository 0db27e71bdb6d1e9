-- ===== src/Calendar/ConflictLaws.antt =====
-- What a conflict warning of src/meetingConflicts.js tells.
use nova_connect.Prelude.{
  ℕ, ◌<◌, beq_refl, any-found, any-In, ◌≡◌, refl, sym, ap, ◌∙◌, subst, Bool, true, not, Option,
  none, some, String, List, [], ◌∷◌, ◌++◌, Map, lookup, insert, arith, if_split, ◌==◌, nat_eq,
  nat_beq_iff, lookup-insert, In, Bool-cases, Option-cases, inl, inr,
}
use nova_connect.Calendar.Conflicts.{
  Occurrence, Busy, Item, Person, Conflicts, overlaps, clash, member, item_of, listed, items_of,
  note, note_all, by_person, place, sort, earlier, conflicts_of, collect, ranked, group_conflicts,
}

In-place :
    {A : Type 0} (le : A → A → Bool) (x y : A) (ys : List A) → In y (place le x ys) → In y (x ∷ ys)
unfolding place
In-place le x y [] i = i
In-place le x y (z ∷ zs) i = ground (arith, i, In-place le x y zs)

In-sort : {A : Type 0} (le : A → A → Bool) (y : A) (xs : List A) → In y (sort le xs) → In y xs
unfolding sort
In-sort le y [] i = i
In-sort le y (x ∷ xs) i = ground (arith, In-place le x y (sort le xs) i, In-sort le y xs)

-- Where an item comes from: an occurrence and a busy meeting of that person that overlap, with the
-- meeting's times, and its title exactly if the viewer is in the meeting too.
pub record Justified (vm : List ℕ) (os : List Occurrence) (bs : List Busy) (user : ℕ) (i : Item)
    : Type 0 where
  pub occurrence : Occurrence
  pub meeting : Busy
  pub planned : In occurrence os
  pub is_busy : In meeting bs
  pub whose : meeting.user_id ≡ user
  pub begins_before : occurrence.start_at < meeting.end_at
  pub ends_after : meeting.start_at < occurrence.end_at
  pub which : (i.occurrence_start ≡ occurrence.start_at) × (i.meeting_id ≡ meeting.meeting_id)
  pub times : (i.start_at ≡ meeting.start_at) × (i.end_at ≡ meeting.end_at)
  pub private :
      (title : String) → i.title ≡ some title → In meeting.meeting_id vm × (title ≡ meeting.title)
  pub told : In meeting.meeting_id vm → i.title ≡ some meeting.title

abbrev Sound : List ℕ → List Occurrence → List Busy → Map ℕ (List Item) → Type 0
Sound vm os bs m =
    (user : ℕ) (items : List Item) (i : Item)
    → lookup user m ≡ some items
    → In i items
    → Justified vm os bs user i

In-items_of :
    (vm : List ℕ) (os : List Occurrence) (bs : List Busy) (user : ℕ) (i : Item)
    (m : Map ℕ (List Item))
    → Sound vm os bs m
    → In i (items_of user m)
    → Justified vm os bs user i
In-items_of vm os bs user i m s = go (lookup user m) refl
  where
    go :
        (o : Option (List Item))
        → lookup user m ≡ o
        → In i (elim o as (λ _. List Item) [ none ↦ [] | some l ↦ l ])
        → Justified vm os bs user i
    go none e j = absurd j
    go (some l) e j = s user l i e j

insert-Sound :
    (vm : List ℕ) (os : List Occurrence) (bs : List Busy) (k : ℕ) (list : List Item)
    (m : Map ℕ (List Item))
    → Sound vm os bs m
    → ((i : Item) → In i list → Justified vm os bs k i)
    → Sound vm os bs (insert k list m)
insert-Sound vm os bs k list m s f user items i l j = elim (Bool-cases (k == user)) [
  | inl same ↦
      let eq : list ≡ items = ground (arith, l, same, lookup-insert k user list m) in
      subst (λ u. Justified vm os bs u i) ((nat_beq_iff k user).0 same)
        (f i (subst (In i) (sym eq) j))
  | inr apart ↦ s user items i (ground (arith, l, apart, lookup-insert k user list m)) j
]

In-snoc : {A : Type 0} (x y : A) (xs : List A) → In y (xs ++ x ∷ []) → In y (x ∷ xs)
In-snoc x y [] i = i
In-snoc x y (z ∷ zs) i = ground (arith, i, In-snoc x y zs)

times_meet :
    (o : Occurrence) (b : Busy)
    → clash o b ≡ true
    → (o.start_at < b.end_at) × (b.start_at < o.end_at)
unfolding overlaps
times_meet o b h = (ground (arith, h), ground (arith, h))

item_facts :
    (vm : List ℕ) (o : Occurrence) (b : Busy)
    → ((item_of vm o b).occurrence_start ≡ o.start_at)
      × (((item_of vm o b).meeting_id ≡ b.meeting_id)
          × (((item_of vm o b).start_at ≡ b.start_at) × ((item_of vm o b).end_at ≡ b.end_at)))
unfolding item_of
item_facts vm o b = (refl, (refl, (refl, refl)))

title_private :
    (vm : List ℕ) (o : Occurrence) (b : Busy) (title : String)
    → (item_of vm o b).title ≡ some title
    → In b.meeting_id vm × (title ≡ b.title)
unfolding item_of
title_private vm o b title e = elim (Bool-cases (member b.meeting_id vm)) [
  | inl known ↦
      let (j, i, q) = any-found (λ j. j == b.meeting_id) vm known in
      (subst (λ z. In z vm) ((nat_beq_iff j b.meeting_id).0 q) i, ground (arith, known, e))
  | inr unknown ↦ ground (arith, unknown, e)
]

title_told :
    (vm : List ℕ) (o : Occurrence) (b : Busy)
    → In b.meeting_id vm
    → (item_of vm o b).title ≡ some b.title
unfolding item_of
title_told vm o b i =
    ground (arith, any-In (λ j. j == b.meeting_id) b.meeting_id vm i (beq_refl b.meeting_id))

note-Sound :
    (vm : List ℕ) (os : List Occurrence) (bs : List Busy) (o : Occurrence) (b : Busy)
    (m : Map ℕ (List Item))
    → In o os
    → In b bs
    → Sound vm os bs m
    → Sound vm os bs (note vm o b m)
unfolding note
note-Sound vm os bs o b m io ib s =
    let old = items_of b.user_id m in
    let known : (i : Item) → In i old → Justified vm os bs b.user_id i =
      λ i. In-items_of vm os bs b.user_id i m s in
    if_split (Sound vm os bs) (not (clash o b)) (λ _. s)
      λ meets.
        if_split (Sound vm os bs) (listed o b old)
          (λ _. insert-Sound vm os bs b.user_id old m s known)
          λ _. insert-Sound vm os bs b.user_id (old ++ item_of vm o b ∷ []) m s λ i j.
            elim (In-snoc (item_of vm o b) i old j) [
              | inr before ↦ known i before
              | inl fresh ↦ record {
                occurrence = o;
                meeting = b;
                planned = io;
                is_busy = ib;
                whose = refl;
                begins_before = (times_meet o b (ground (arith, meets))).0;
                ends_after = (times_meet o b (ground (arith, meets))).1;
                which = (
                  ap (λ (x : Item). x.occurrence_start) fresh ∙ (item_facts vm o b).0,
                  ap (λ (x : Item). x.meeting_id) fresh ∙ (item_facts vm o b).1.0,
                );
                times = (
                  ap (λ (x : Item). x.start_at) fresh ∙ (item_facts vm o b).1.1.0,
                  ap (λ (x : Item). x.end_at) fresh ∙ (item_facts vm o b).1.1.1,
                );
                private = λ title e.
                    title_private vm o b title (sym (ap (λ (x : Item). x.title) fresh) ∙ e);
                told = λ known. ap (λ (x : Item). x.title) fresh ∙ title_told vm o b known;
              }
            ]

note_all-Sound :
    (vm : List ℕ) (os : List Occurrence) (bs rest : List Busy) (o : Occurrence)
    (m : Map ℕ (List Item))
    → In o os
    → ((b : Busy) → In b rest → In b bs)
    → Sound vm os bs m
    → Sound vm os bs (note_all vm o rest m)
unfolding note_all
note_all-Sound vm os bs [] o m io sub s = s
note_all-Sound vm os bs (b ∷ rest) o m io sub s =
    note_all-Sound vm os bs rest o (note vm o b m) io (λ x i. sub x (inr i))
      (note-Sound vm os bs o b m io (sub b (inl refl)) s)

by_person-Sound :
    (vm : List ℕ) (os rest : List Occurrence) (bs : List Busy) (m : Map ℕ (List Item))
    → ((o : Occurrence) → In o rest → In o os)
    → Sound vm os bs m
    → Sound vm os bs (by_person vm rest bs m)
unfolding by_person
by_person-Sound vm os [] bs m sub s = s
by_person-Sound vm os (o ∷ rest) bs m sub s =
    by_person-Sound vm os rest bs (note_all vm o bs m) (λ x i. sub x (inr i))
      (note_all-Sound vm os bs bs o m (sub o (inl refl)) (λ b i. i) s)

-- What `collect` does with the entry of a person.
abbrev chosen : ℕ → Person → List Conflicts → Option (List Item) → List Conflicts
chosen viewer p rest none = rest
chosen viewer p rest (some items) = conflicts_of viewer p items ∷ rest

-- The entry of a person in the result.
collect-items :
    (viewer : ℕ) (ps : List Person) (m : Map ℕ (List Item)) (c : Conflicts) (i : Item)
    → In c (collect viewer ps m)
    → In i c.items
    → (items : List Item) × (lookup c.user_id m ≡ some items) × In i items
unfolding collect conflicts_of
collect-items viewer [] m c i h j = absurd h
collect-items viewer (p ∷ ps) m c i h j = elim (Option-cases (lookup p.id m)) [
  | inl absent ↦
      collect-items viewer ps m c i
        (subst (In c) (unfold collect in ap (chosen viewer p (collect viewer ps m)) absent) h) j
  | inr (items, l) ↦
      elim (subst (In c) (unfold collect in ap (chosen viewer p (collect viewer ps m)) l) h) [
        | inr later ↦ collect-items viewer ps m c i later j
        | inl first ↦ (
          items,
          ap (λ (x : Conflicts). lookup x.user_id m) first ∙ l,
          In-sort earlier i items (subst (In i) (ap (λ (x : Conflicts). x.items) first) j),
        )
      ]
]

empty-Sound : (vm : List ℕ) (os : List Occurrence) (bs : List Busy) → Sound vm os bs []
unfolding lookup
empty-Sound vm os bs user items i l j = cc

-- Every conflict that is shown is one: a meeting of that very person that fills the time of a planned
-- occurrence, and its title is there exactly if the viewer is invited to it too.
pub group_conflicts-Justified :
    (before : String → String → Bool) (os : List Occurrence) (bs : List Busy) (people : List Person)
    (viewer : ℕ) (vm : List ℕ) (c : Conflicts) (i : Item)
    → In c (group_conflicts before os bs people viewer vm)
    → In i c.items
    → Justified vm os bs c.user_id i
unfolding group_conflicts
group_conflicts-Justified before os bs people viewer vm c i h j =
    let m = by_person vm os bs [] in
    let (items, l, k) =
      collect-items viewer people m c i (In-sort (ranked before) c (collect viewer people m) h) j in
    by_person-Sound vm os os bs [] (λ o x. x) (empty-Sound vm os bs) c.user_id items i l k
