-- ===== src/Search/Filter.antt =====
-- The access filter with the search bar's filters: src/searchFilter.js, and the fields of src/search.js
-- that it reads. A time is in seconds, which stands for the text of the same length that SQL compares.
-- What the engines make of a filter is `accepts` and `sql_accepts`.
use nova_connect.Prelude.{
  ℕ, Bool, true, false, not, ◌&&◌, ◌||◌, Option, none, some, List, [], ◌∷◌, ◌++◌, any, every, leb,
  ltb, if◌then◌else◌, ◌==◌, nat_eq,
}

-- `extra`
pub record Extra : Type 0 where
  pub author_ids : Option (List ℕ)
  pub after_ts : Option ℕ
  pub before_ts : Option ℕ
  pub has_file : Bool
  pub has_link : Bool

pub record Scope : Type 0 where
  pub channel_ids : List ℕ
  pub convo_ids : List ℕ

-- A document of the index, in the attributes that a filter can name.
pub record Doc : Type 0 where
  pub channel_id : Option ℕ
  pub conversation_id : Option ℕ
  pub author_id : ℕ
  pub deleted : Bool
  pub created_ts : ℕ
  pub has_file : Bool
  pub has_link : Bool

-- One condition of the expression that Meilisearch is given.
pub data Condition : Type 0 where
  channel_in : List ℕ → Condition
  conversation_in : List ℕ → Condition
  not_deleted : Condition
  author_in : List ℕ → Condition
  created_from : ℕ → Condition
  created_before : ℕ → Condition
  with_file : Condition
  with_link : Condition

-- The parts that are joined by AND, the first of them conditions that are joined by OR.
pub record Filter : Type 0 where
  pub places : List Condition
  pub parts : List Condition

abbrev pub none_in : List ℕ → Bool
none_in [] = true
none_in (x ∷ xs) = false

abbrev pub unless_empty : List ℕ → Condition → List Condition
unless_empty xs c = if none_in xs then [] else c ∷ []

abbrev pub at_time : Option ℕ → (ℕ → Condition) → List Condition
at_time none c = []
at_time (some t) c = c t ∷ []

abbrev pub when : Bool → Condition → List Condition
when b c = if b then c ∷ [] else []

abbrev pub the_rest : Extra → List Condition
the_rest e =
    at_time e.after_ts created_from
    ++ (at_time e.before_ts created_before
        ++ (when e.has_file with_file ++ when e.has_link with_link))

-- `buildFilter`, `null` where nothing can match.
unfoldable pub build_filter : Scope → Extra → Option Filter
build_filter s e =
    let places =
      unless_empty s.channel_ids (channel_in s.channel_ids)
      ++ unless_empty s.convo_ids (conversation_in s.convo_ids) in
    if none_in s.channel_ids && none_in s.convo_ids then none else elim e.author_ids [
      | none ↦ some (record { places = places; parts = not_deleted ∷ the_rest e })
      | some authors ↦
          if none_in authors
          then none
          else some
              (record { places = places; parts = not_deleted ∷ author_in authors ∷ the_rest e })
    ]

abbrev pub is_in : ℕ → List ℕ → Bool
is_in x xs = any (λ y. y == x) xs

abbrev pub place_in : Option ℕ → List ℕ → Bool
place_in none xs = false
place_in (some x) xs = is_in x xs

abbrev pub accepts_one : Doc → Condition → Bool
accepts_one d (channel_in xs) = place_in d.channel_id xs
accepts_one d (conversation_in xs) = place_in d.conversation_id xs
accepts_one d not_deleted = not d.deleted
accepts_one d (author_in xs) = is_in d.author_id xs
accepts_one d (created_from t) = leb t d.created_ts
accepts_one d (created_before t) = ltb d.created_ts t
accepts_one d with_file = d.has_file
accepts_one d with_link = d.has_link

-- Whether the index answers with a document.
unfoldable pub accepts : Option Filter → Doc → Bool
accepts none d = false
accepts (some f) d = any (accepts_one d) f.places && every (accepts_one d) f.parts

-- A row of `messages` or of `attachments` with its message, as the conditions of SQL see it.
pub record Row : Type 0 where
  pub channel_id : Option ℕ
  pub conversation_id : Option ℕ
  pub user_id : ℕ
  pub deleted : Bool
  pub created_at : ℕ
  pub uploaded_by : ℕ
  pub uploaded_at : ℕ
  pub has_attachment : Bool
  pub body_has_link : Bool

-- One fragment that is joined by AND, with its parameters.
pub data Fragment : Type 0 where
  nothing : Fragment
  by_author : List ℕ → Fragment
  by_uploader : List ℕ → Fragment
  sent_from : ℕ → Fragment
  sent_before : ℕ → Fragment
  uploaded_from : ℕ → Fragment
  uploaded_before : ℕ → Fragment
  attachment_there : Fragment
  link_there : Fragment

abbrev pub from_time : Bool → Option ℕ → List Fragment
from_time for_files none = []
from_time for_files (some t) = (if for_files then uploaded_from t else sent_from t) ∷ []

abbrev pub before_time : Bool → Option ℕ → List Fragment
before_time for_files none = []
before_time for_files (some t) = (if for_files then uploaded_before t else sent_before t) ∷ []

abbrev pub only_if : Bool → Fragment → List Fragment
only_if b c = if b then c ∷ [] else []

abbrev pub other_fragments : Bool → Extra → List Fragment
other_fragments for_files e =
    from_time for_files e.after_ts
    ++ (before_time for_files e.before_ts
        ++ (only_if (not for_files && e.has_file) attachment_there
            ++ only_if (not for_files && e.has_link) link_there))

-- `sqlConditions`
unfoldable pub sql_conditions : Bool → Extra → List Fragment
sql_conditions for_files e = elim e.author_ids [
  | none ↦ other_fragments for_files e
  | some authors ↦
      if none_in authors
      then nothing ∷ []
      else (if for_files then by_uploader authors else by_author authors)
        ∷ other_fragments for_files e
]

abbrev pub holds_one : Row → Fragment → Bool
holds_one r nothing = false
holds_one r (by_author xs) = is_in r.user_id xs
holds_one r (by_uploader xs) = is_in r.uploaded_by xs
holds_one r (sent_from t) = leb t r.created_at
holds_one r (sent_before t) = ltb r.created_at t
holds_one r (uploaded_from t) = leb t r.uploaded_at
holds_one r (uploaded_before t) = ltb r.uploaded_at t
holds_one r attachment_there = r.has_attachment
holds_one r link_there = r.body_has_link

-- The WHERE of `messagesFromPostgres` and `filesFromPostgres`, but for the words: the two halves of the
-- UNION ALL.
unfoldable pub in_scope : Scope → Row → Bool
in_scope s r = place_in r.channel_id s.channel_ids || place_in r.conversation_id s.convo_ids

unfoldable pub sql_accepts : Bool → Scope → Extra → Row → Bool
sql_accepts for_files s e r =
    not r.deleted && (in_scope s r && every (holds_one r) (sql_conditions for_files e))

-- The document that `indexMessage` and `reindexAll` write of a row.
unfoldable pub document_of : Row → Doc
document_of r = record {
  channel_id = r.channel_id;
  conversation_id = r.conversation_id;
  author_id = r.user_id;
  deleted = r.deleted;
  created_ts = r.created_at;
  has_file = r.has_attachment;
  has_link = r.body_has_link;
}
