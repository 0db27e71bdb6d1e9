-- ===== src/Scenarios/SearchRuns.antt =====
-- Ann (1) searches in the team of TeamRuns, while the index also answers with what she may not see.
use nova_connect.Prelude.{
  ℕ, ◌<◌, ◌*◌, ◌-◌, ◌≡◌, ◌↔◌, refl, subst, true, false, Option, none, some, String, List, [], ◌∷◌,
  arith, inl, inr, Bool-cases, lookup, nat_eq, pair_eq, string_eq, ◌==◌, if◌then◌else◌,
}
use nova_connect.Messages.State.{Message, Store}
use nova_connect.Messages.Access.{channel_scope, chat_scope}
use nova_connect.Messages.Requests.{posts_in_chat, handle, store_after}
use nova_connect.Messages.Posting.{no_file}
use nova_connect.Messages.Stored.{IsPlaced, IsFiled, IsStored, filed-IsStored, handle-IsFiled}
use nova_connect.Search.Query.{
  Token, word, pair, after, before, behind, days_before_month, utc, checked_zone, no_query,
  take_token, take_tokens, parse_search_query,
}
use nova_connect.Search.Dates.{within, all_allow, parse_search_query-dates}
use nova_connect.Search.Filter.{
  Extra, Scope, Filter, build_filter, accepts, Row, sql_accepts, document_of,
}
use nova_connect.Search.FilterLaws.{Wanted, build_filter-Wanted, sql_accepts-accepts}
use nova_connect.Search.Global.{
  visible_scope, either, Names, extra_of, scope_of, in_order, hydrate_messages,
  messages_from_meilisearch, answer_query, global_search,
}
use nova_connect.Search.Access.{Open, global_search-Open}
use nova_connect.Scenarios.TeamRuns.{state, state-IsKept}

-- The epoch of JavaScript's dates, and a leap day.
utc-epoch : utc 1970 1 1 ≡ 719528 * 86400000
unfolding utc days_before_month
utc-epoch = refl

utc-leap_day : utc 2024 3 1 - utc 2024 2 28 ≡ 2 * 86400000
unfolding utc days_before_month
utc-leap_day = refl

-- Reads the two dates of the example.
abbrev parts : String → Option (ℕ × (ℕ × ℕ))
parts value =
    if value == "2024-02-29"
    then some (2024, (2, 29))
    else if value == "2023-02-29"
    then some (2023, (2, 29))
    else none

abbrev tokens : List Token
tokens =
    word "hello"
    ∷ pair after "2024-02-29" "after:2024-02-29"
    ∷ pair before "2023-02-29" "before:2023-02-29"
    ∷ []

parse_search_query-dates_example :
    within (parse_search_query (λ v. v) parts (behind 300) tokens) 5
    ≡ all_allow parts (checked_zone (behind 300)) tokens 5
parse_search_query-dates_example = parse_search_query-dates (λ v. v) parts (behind 300) tokens 5

abbrev extra : Extra
extra = record {
  author_ids = some (2 ∷ []);
  after_ts = some 100;
  before_ts = none;
  has_file = false;
  has_link = true;
}

abbrev row : Row
row = record {
  channel_id = some 1;
  conversation_id = none;
  user_id = 2;
  deleted = false;
  created_at = 120;
  uploaded_by = 2;
  uploaded_at = 120;
  has_attachment = false;
  body_has_link = true;
}

abbrev scope : Scope
scope = record { channel_ids = 1 ∷ 2 ∷ []; convo_ids = [] }

build_filter-Wanted_example :
    (accepts (build_filter scope extra) (document_of row) ≡ true)
    ↔ Wanted scope extra (document_of row)
build_filter-Wanted_example = build_filter-Wanted scope extra (document_of row)

sql_accepts-accepts_example :
    sql_accepts false scope extra row ≡ accepts (build_filter scope extra) (document_of row)
sql_accepts-accepts_example = sql_accepts-accepts scope extra row

abbrev hello : Message
hello = record {
  user_id = 2;
  channel_id = some 1;
  conversation_id = none;
  parent = none;
  body = "hello";
  metadata = none;
  created_at = 10;
  edited = false;
  deleted = false;
  pinned = none;
}

-- In a chat that Ann is not in.
abbrev secret : Message
secret = record hello { channel_id = none; conversation_id = some 5 }

abbrev store : Store
store = record {
  teams = state;
  seats = ((5, 2), record { hidden = false; unread = false }) ∷ [];
  messages = (1, hello) ∷ (2, secret) ∷ [];
  next_message = 3;
  edits = [];
  reactions = [];
  files = [];
}

places : (id : ℕ) (m : Message) → lookup id store.messages ≡ some m → IsPlaced m
unfolding lookup
places id m l = elim (Bool-cases (nat_eq.beq 1 id)) as (λ _. IsPlaced m) [
  | inl first ↦
      let is_m : hello ≡ m = ground (arith, l, first) in subst IsPlaced is_m (inl (1, refl, refl))
  | inr not_first ↦ elim (Bool-cases (nat_eq.beq 2 id)) as (λ _. IsPlaced m) [
    | inl second ↦
        let is_m : secret ≡ m = ground (arith, l, not_first, second) in
        subst IsPlaced is_m (inr (5, refl, refl))
    | inr neither ↦ ground (arith, l, not_first, neither)
  ]
]

numbers : (id : ℕ) (m : Message) → lookup id store.messages ≡ some m → id < store.next_message
unfolding lookup
numbers id m l = elim (Bool-cases (nat_eq.beq 1 id)) as (λ _. id < 3) [
  | inl first ↦ ground (arith, first)
  | inr not_first ↦ elim (Bool-cases (nat_eq.beq 2 id)) as (λ _. id < 3) [
    | inl second ↦ ground (arith, second)
    | inr neither ↦ ground (arith, l, not_first, neither)
  ]
]

store-IsFiled : IsFiled store
unfolding lookup
store-IsFiled = record {
  teams = state-IsKept;
  seats = (refl, tt);
  messages = (refl, (refl, tt));
  placed = places;
  numbered = numbers;
}

store-IsStored : IsStored store
store-IsStored = filed-IsStored store store-IsFiled

handle-IsFiled_example :
    IsFiled (store_after store (handle (posts_in_chat 5 "hi" none none no_file 20) 2 store))
handle-IsFiled_example =
    handle-IsFiled 2 store store-IsFiled (posts_in_chat 5 "hi" none none no_file 20)

abbrev names : Names
names = record {
  kind_of = λ v. either;
  is_channel_called = λ v c. c == 1;
  is_chat_called = λ v d. true;
  is_me = λ v. v == "me";
  people_called = λ v. [];
  has_words = λ v body. v == body;
  has_link = λ body. false;
  text_of = λ words. "hello";
}

abbrev engine : String → ℕ → Filter → Option (List ℕ)
engine text limit f = some (2 ∷ 1 ∷ 7 ∷ [])

global_search-Open_example : Open 1 store (1, hello)
unfolding global_search answer_query messages_from_meilisearch hydrate_messages in_order
    parse_search_query take_tokens take_token no_query scope_of visible_scope channel_scope
    chat_scope build_filter extra_of lookup
global_search-Open_example =
    global_search-Open names engine (λ v. v) parts (behind 300) (word "hello" ∷ []) 1 25 store
      store-IsStored (1, hello) (inl refl)
