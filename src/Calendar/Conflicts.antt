-- ===== src/Calendar/Conflicts.antt =====
-- `groupConflicts` of src/meetingConflicts.js. Times are numbers, as the database's text compares;
-- `before` is `a.full_name.localeCompare(b.full_name) < 0` or equal.
use nova_connect.Prelude.{
  ℕ, Bool, true, false, not, ◌&&◌, Option, none, some, String, List, [], ◌∷◌, ◌++◌, any, Map,
  lookup, insert, length, ltb, leb, if◌then◌else◌, ◌==◌, nat_eq,
}

pub record Occurrence : Type 0 where
  pub start_at : ℕ
  pub end_at : ℕ

-- A row of the query of `findConflicts`: a busy meeting of a person.
pub record Busy : Type 0 where
  pub user_id : ℕ
  pub meeting_id : ℕ
  pub title : String
  pub start_at : ℕ
  pub end_at : ℕ
  pub all_day : Bool

pub record Item : Type 0 where
  pub occurrence_start : ℕ
  pub meeting_id : ℕ
  pub start_at : ℕ
  pub end_at : ℕ
  pub all_day : Bool
  pub title : Option String

pub record Person : Type 0 where
  pub id : ℕ
  pub full_name : String

pub record Conflicts : Type 0 where
  pub user_id : ℕ
  pub full_name : String
  pub is_me : Bool
  pub affected : ℕ
  pub items : List Item

unfoldable pub overlaps : ℕ → ℕ → ℕ → ℕ → Bool
overlaps a_start a_end b_start b_end = ltb a_start b_end && ltb b_start a_end

abbrev pub clash : Occurrence → Busy → Bool
clash o b = overlaps o.start_at o.end_at b.start_at b.end_at

abbrev pub member : ℕ → List ℕ → Bool
member i ids = any (λ j. j == i) ids

unfoldable pub item_of : List ℕ → Occurrence → Busy → Item
item_of viewer_meetings o b = record {
  occurrence_start = o.start_at;
  meeting_id = b.meeting_id;
  start_at = b.start_at;
  end_at = b.end_at;
  all_day = b.all_day;
  title = if member b.meeting_id viewer_meetings then some b.title else none;
}

-- `list.some(x => x.meeting_id === b.meeting_id && x.occurrence_start === occ.start_at)`
abbrev pub listed : Occurrence → Busy → List Item → Bool
listed o b items =
    any (λ (x : Item). x.meeting_id == b.meeting_id && x.occurrence_start == o.start_at) items

abbrev pub items_of : ℕ → Map ℕ (List Item) → List Item
items_of user m = elim (lookup user m) [ none ↦ [] | some l ↦ l ]

-- One round of the inner loop.
unfoldable pub note : List ℕ → Occurrence → Busy → Map ℕ (List Item) → Map ℕ (List Item)
note viewer_meetings o b m =
    let list = items_of b.user_id m in
    if not (clash o b)
    then m
    else if listed o b list
    then insert b.user_id list m
    else insert b.user_id (list ++ item_of viewer_meetings o b ∷ []) m

unfoldable pub note_all : List ℕ → Occurrence → List Busy → Map ℕ (List Item) → Map ℕ (List Item)
note_all vm o [] m = m
note_all vm o (b ∷ bs) m = note_all vm o bs (note vm o b m)

unfoldable pub by_person :
    List ℕ → List Occurrence → List Busy → Map ℕ (List Item) → Map ℕ (List Item)
by_person vm [] busy m = m
by_person vm (o ∷ os) busy m = by_person vm os busy (note_all vm o busy m)

-- `sort`, which is stable.
unfoldable pub place {ℓ} : {A : Type ℓ} → (A → A → Bool) → A → List A → List A
place le x [] = x ∷ []
place le x (y ∷ ys) = if le x y then x ∷ y ∷ ys else y ∷ place le x ys

unfoldable pub sort {ℓ} : {A : Type ℓ} → (A → A → Bool) → List A → List A
sort le [] = []
sort le (x ∷ xs) = place le x (sort le xs)

-- `new Set(items.map(i => i.occurrence_start)).size`
unfoldable pub distinct_starts : List Item → List ℕ → ℕ
distinct_starts [] seen = length seen
distinct_starts (i ∷ is) seen =
    distinct_starts is (if member i.occurrence_start seen then seen else i.occurrence_start ∷ seen)

abbrev pub earlier : Item → Item → Bool
earlier a b = leb a.start_at b.start_at

unfoldable pub conflicts_of : ℕ → Person → List Item → Conflicts
conflicts_of viewer p items = record {
  user_id = p.id;
  full_name = p.full_name;
  is_me = p.id == viewer;
  affected = distinct_starts (sort earlier items) [];
  items = sort earlier items;
}

unfoldable pub collect : ℕ → List Person → Map ℕ (List Item) → List Conflicts
collect viewer [] m = []
collect viewer (p ∷ ps) m =
    let rest = collect viewer ps m in
    elim (lookup p.id m) [ none ↦ rest | some items ↦ conflicts_of viewer p items ∷ rest ]

-- `(b.is_me - a.is_me) || a.full_name.localeCompare(b.full_name)`
unfoldable pub ranked : (String → String → Bool) → Conflicts → Conflicts → Bool
ranked before a b =
    if a.is_me && not b.is_me
    then true
    else if b.is_me && not a.is_me
    then false
    else before a.full_name b.full_name

unfoldable pub group_conflicts :
    (String → String → Bool)
    → List Occurrence
    → List Busy
    → List Person
    → ℕ
    → List ℕ
    → List Conflicts
group_conflicts before occurrences busy people viewer viewer_meetings =
    sort (ranked before) (collect viewer people (by_person viewer_meetings occurrences busy []))
