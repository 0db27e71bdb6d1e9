-- ===== src/Search/Global.antt =====
-- The messages of the global search: src/search.js, over the rows of Messages. The index is `Engine`'s:
-- what it answers is a list of ids or, if it fails, nothing, and need not be true. What SQL compares of
-- names and texts is an argument, and so is what a value of `in:` says.
use nova_connect.Prelude.{
  ℕ, ◌/◌, min, Bool, true, false, not, ◌&&◌, ◌||◌, Option, none, some, String, List, [], ◌∷◌, ◌++◌,
  Map, keep, any, take, lookup, leb, if◌then◌else◌, ◌==◌, nat_eq, string_eq,
}
use nova_connect.Messages.State.{Message, Store, File}
use nova_connect.Messages.Access.{channel_scope, chat_scope}
use nova_connect.Search.Query.{Query, Token, Zone, parse_search_query}
use nova_connect.Search.Filter.{
  Extra, Scope, Filter, none_in, build_filter, place_in, Row, sql_accepts,
}

-- `visibleScope`
unfoldable pub visible_scope : ℕ → Store → Scope
visible_scope u s = record { channel_ids = channel_scope u s.teams; convo_ids = chat_scope u s }

-- A value of `in:`: a channel, a chat, or either, and its name.
pub data Kind : Type 0 where
  a_channel : Kind
  a_chat : Kind
  either : Kind

abbrev pub names_channels : Kind → Bool
names_channels a_channel = true
names_channels a_chat = false
names_channels either = true

abbrev pub names_chats : Kind → Bool
names_chats a_channel = false
names_chats a_chat = true
names_chats either = true

-- What SQL says of names and texts. `asker` is the person who searches.
pub record Names : Type 0 where
  pub kind_of : String → Kind
  pub is_channel_called : String → ℕ → Bool
  pub is_chat_called : String → ℕ → Bool
  pub is_me : String → Bool
  pub people_called : String → List ℕ
  pub has_words : String → String → Bool
  pub has_link : String → Bool
  pub text_of : List String → String

-- `resolvePeople`, whose sets are lists here, in which a number may stand twice.
unfoldable pub resolve_people : Names → ℕ → List String → List ℕ
resolve_people n me [] = []
resolve_people n me (v ∷ vs) =
    (if n.is_me v then me ∷ [] else n.people_called v) ++ resolve_people n me vs

-- `resolvePlaces`
unfoldable pub resolve_places : Names → Scope → List String → Scope
resolve_places n s [] = record { channel_ids = []; convo_ids = [] }
resolve_places n s (v ∷ vs) =
    let rest = resolve_places n s vs in
    record {
      channel_ids =
          (if names_channels (n.kind_of v) then keep (n.is_channel_called v) s.channel_ids else [])
          ++ rest.channel_ids;
      convo_ids =
          (if names_chats (n.kind_of v) then keep (n.is_chat_called v) s.convo_ids else [])
          ++ rest.convo_ids;
    }

abbrev pub seconds : Option ℕ → Option ℕ
seconds none = none
seconds (some ms) = some (ms / 1000)

abbrev pub no_names : List String → Bool
no_names [] = true
no_names (x ∷ xs) = false

unfoldable pub extra_of : Names → ℕ → Query → Extra
extra_of n me q = record {
  author_ids = if no_names q.authors then none else some (resolve_people n me q.authors);
  after_ts = seconds q.after_ms;
  before_ts = seconds q.before_ms;
  has_file = q.has_file;
  has_link = q.has_link;
}

unfoldable pub scope_of : Names → ℕ → Query → Store → Scope
scope_of n me q s =
    if no_names q.places then visible_scope me s else resolve_places n (visible_scope me s) q.places

abbrev pub row_of : Names → ℕ → Message → Store → Row
row_of n id m s = record {
  channel_id = m.channel_id;
  conversation_id = m.conversation_id;
  user_id = m.user_id;
  deleted = m.deleted;
  created_at = m.created_at;
  uploaded_by = m.user_id;
  uploaded_at = m.created_at;
  has_attachment = any (λ (f : File). f.message_id == id) s.files;
  body_has_link = n.has_link m.body;
}

abbrev pub is_shown : Scope → ℕ × Message → Bool
is_shown scope e =
    not e.1.deleted
    && (place_in e.1.channel_id scope.channel_ids || place_in e.1.conversation_id scope.convo_ids)

-- `ids.map(id => byId.get(id)).filter(Boolean)`
unfoldable pub in_order : List ℕ → Map ℕ Message → List (ℕ × Message)
in_order [] rows = []
in_order (id ∷ ids) rows =
    let rest = in_order ids rows in elim (lookup id rows) [ none ↦ rest | some m ↦ (id, m) ∷ rest ]

-- `hydrateMessages`
unfoldable pub hydrate_messages : List ℕ → Scope → Store → List (ℕ × Message)
hydrate_messages ids scope s =
    if none_in scope.channel_ids && none_in scope.convo_ids
    then []
    else in_order ids (keep (is_shown scope) s.messages)

-- `messagesFromMeilisearch`, `none` where it throws.
unfoldable pub messages_from_meilisearch :
    (Filter → Option (List ℕ)) → Scope → Extra → Store → Option (List (ℕ × Message))
messages_from_meilisearch engine scope extra s = elim (build_filter scope extra) [
  | none ↦ some []
  | some f ↦ elim (engine f) [ none ↦ none | some ids ↦ some (hydrate_messages ids scope s) ]
]

-- `ORDER BY created_at DESC`
unfoldable pub place_by_time : ℕ × Message → List (ℕ × Message) → List (ℕ × Message)
place_by_time e [] = e ∷ []
place_by_time e (x ∷ xs) =
    let rest = place_by_time e xs in
    if leb x.1.created_at e.1.created_at then e ∷ x ∷ xs else x ∷ rest

unfoldable pub newest_first : List (ℕ × Message) → List (ℕ × Message)
newest_first [] = []
newest_first (x ∷ xs) = place_by_time x (newest_first xs)

-- `Math.max(1, Math.min(Number(limit) || 25, 100))`
abbrev pub clamp : ℕ → ℕ
clamp limit = if limit == 0 then 25 else min limit 100

-- `messagesFromPostgres`
unfoldable pub messages_from_postgres :
    Names → String → Scope → ℕ → Extra → Store → List (ℕ × Message)
messages_from_postgres n text scope limit extra s = take (clamp limit) (
    newest_first (
      keep
        (λ (e : ℕ × Message).
          sql_accepts false scope extra (row_of n e.0 e.1 s) && n.has_words text e.1.body)
        s.messages))

abbrev pub has_filters : Query → Bool
has_filters q = elim q.applied [ [] ↦ false | x ∷ xs ↦ true ]

-- The messages that `globalSearch` answers with, for a query that is parsed.
unfoldable pub answer_query :
    Names → (String → ℕ → Filter → Option (List ℕ)) → ℕ → Query → ℕ → Store → List (ℕ × Message)
answer_query n engine me q limit s =
    let text = n.text_of q.words in
    if text == "" && not (has_filters q)
    then []
    else elim (messages_from_meilisearch (engine text (clamp limit)) (scope_of n me q s)
        (extra_of n me q) s) [
          | none ↦
              messages_from_postgres n text (scope_of n me q s) (clamp limit) (extra_of n me q) s
          | some ms ↦ ms
        ]

unfoldable pub global_search :
    Names
    → (String → ℕ → Filter → Option (List ℕ))
    → (String → String)
    → (String → Option (ℕ × (ℕ × ℕ)))
    → Zone
    → List Token
    → ℕ
    → ℕ
    → Store
    → List (ℕ × Message)
global_search n engine lower parts zone tokens me limit s =
    answer_query n engine me (parse_search_query lower parts zone tokens) limit s
