-- ===== src/Search/Access.antt =====
-- A search shows nobody a message that they may not open.
use nova_connect.Prelude.{
  ℕ, ◌≡◌, ◌≢◌, refl, sym, ap, ◌∙◌, subst, Bool, true, false, not, ◌&&◌, Option, none, some, String,
  List, [], ◌∷◌, arith, keep, lookup, has, leb, if◌then◌else◌, ◌==◌, nat_eq, pair_eq, string_eq, In,
  In-keep_in, In-keep_holds, In-take, In-map_from, In-append_cases, In-lookup, any-found,
  kept_there, Option-cases, Bool-cases, inl, inr, ◌⊎◌, nat_beq_iff, if_split, option_split,
}
use nova_connect.Messages.State.{Message, Seat, Store}
use nova_connect.Messages.Access.{load_message, load_channel_for_user, chat_scope}
use nova_connect.Messages.Stored.{IsStored}
use nova_connect.Messages.Scopes.{scope-access}
use nova_connect.Search.Query.{Query, Token, Zone, parse_search_query}
use nova_connect.Search.Filter.{
  Extra, Scope, Filter, none_in, is_in, place_in, build_filter, in_scope, sql_accepts,
}
use nova_connect.Search.Global.{
  visible_scope, Names, names_channels, names_chats, resolve_places, scope_of, extra_of, no_names,
  row_of, is_shown, in_order, hydrate_messages, messages_from_meilisearch, place_by_time,
  newest_first, clamp, messages_from_postgres, has_filters, answer_query, global_search,
}

-- A row that may be shown: it is the stored one, open to the person, and not deleted.
abbrev pub Open : ℕ → Store → ℕ × Message → Type 0
Open u s e =
    (lookup e.0 s.messages ≡ some e.1) × ((load_message e.0 u s ≢ none) × (e.1.deleted ≡ false))

-- A scope within that of the person.
abbrev Within : Scope → Scope → Type 0
Within a b =
    ((c : ℕ) → In c a.channel_ids → In c b.channel_ids)
    × ((d : ℕ) → In d a.convo_ids → In d b.convo_ids)

is_in-In : (x : ℕ) (xs : List ℕ) → is_in x xs ≡ true → In x xs
is_in-In x xs h =
    let (y, i, e) = any-found (λ y. y == x) xs h in subst (λ z. In z xs) ((nat_beq_iff y x).0 e) i

some_place : (o : Option ℕ) (xs : List ℕ) → place_in o xs ≡ true → (x : ℕ) × (o ≡ some x) × In x xs
some_place none xs h = cc
some_place (some x) xs h = (x, refl, is_in-In x xs h)

kept_if :
    (b : Bool) (p : ℕ → Bool) (x : ℕ) (xs : List ℕ) → In x (if b then keep p xs else []) → In x xs
kept_if true p x xs i = In-keep_in p x xs i
kept_if false p x xs i = absurd i

module _ (n : Names) where
  resolve_places-Within : (s : Scope) (vs : List String) → Within (resolve_places n s vs) s
  unfolding resolve_places
  resolve_places-Within s [] = (λ c i. absurd i, λ d i. absurd i)
  resolve_places-Within s (v ∷ vs) =
      let rest = resolve_places-Within s vs in
      (
        λ c i. elim (In-append_cases c _ (resolve_places n s vs).channel_ids i) [
          | inl j ↦ kept_if (names_channels (n.kind_of v)) (n.is_channel_called v) c s.channel_ids j
          | inr j ↦ rest.0 c j
        ],
        λ d i. elim (In-append_cases d _ (resolve_places n s vs).convo_ids i) [
          | inl j ↦ kept_if (names_chats (n.kind_of v)) (n.is_chat_called v) d s.convo_ids j
          | inr j ↦ rest.1 d j
        ],
      )

  scope_of-Within : (u : ℕ) (q : Query) (s : Store) → Within (scope_of n u q s) (visible_scope u s)
  unfolding scope_of
  scope_of-Within u q s =
      if_split (λ a. Within a (visible_scope u s)) (no_names q.places) (λ _. (λ c i. i, λ d i. i))
        (λ _. resolve_places-Within (visible_scope u s) q.places)

module _ (u : ℕ) (s : Store) (k : IsStored s) (scope : Scope)
    (w : Within scope (visible_scope u s)) where
  chat_seat : (d : ℕ) → In d (chat_scope u s) → has (d, u) s.seats ≡ true
  unfolding chat_scope
  chat_seat d i =
      let (e, at, q) =
        In-map_from (λ (x : (ℕ × ℕ) × Seat). x.0.0) d
          (keep (λ (x : (ℕ × ℕ) × Seat). x.0.1 == u) s.seats) i in
      let row =
        In-lookup e.0 e.1 s.seats k.seats
          (In-keep_in (λ (x : (ℕ × ℕ) × Seat). x.0.1 == u) e s.seats at) in
      let me =
        (nat_beq_iff e.0.1 u).0 (In-keep_holds (λ (x : (ℕ × ℕ) × Seat). x.0.1 == u) e s.seats at) in
      let row' : lookup (d, u) s.seats ≡ some e.1 =
        ap (λ (x : ℕ × ℕ). lookup x s.seats) (λ t. (q t, sym me t)) ∙ row in
      ground (arith, row')

  shown-Open :
      (id : ℕ) (m : Message)
      → lookup id s.messages ≡ some m
      → is_shown scope (id, m) ≡ true
      → Open u s (id, m)
  unfolding load_message visible_scope
  shown-Open id m at h =
      elim (Bool-cases (place_in m.channel_id scope.channel_ids)) as (λ _. Open u s (id, m)) [
        | inl in_channel ↦
            let (c, hc, i) = some_place m.channel_id scope.channel_ids in_channel in
            let access = scope-access c u s.teams k.teams (w.0 c i) in
            (at, (λ gone. access (loads c hc gone), ground (arith, h)))
        | inr not_there ↦
            let (d, hd, i) =
              some_place m.conversation_id scope.convo_ids (ground (arith, h, not_there)) in
            let seat = chat_seat d (w.1 d i) in
            (
              at,
              (
                elim (k.one_place id m at) [
                  | inl no_channel ↦ λ gone. ground (arith, at, no_channel, hd, seat, gone)
                  | inr no_chat ↦ λ gone. ground (arith, no_chat, hd)
                ],
                ground (arith, h),
              ),
            )
      ]
    where
      loads :
          (c : ℕ)
          → m.channel_id ≡ some c
          → load_message id u s ≡ none
          → load_channel_for_user c u s.teams ≡ none
      loads c hc gone = elim (Option-cases (load_channel_for_user c u s.teams)) [
        | inl out ↦ out
        | inr (ch, e) ↦ ground (arith, at, hc, gone, e)
      ]

  abbrev AllOpen : List (ℕ × Message) → Type 0
  AllOpen ms = (e : ℕ × Message) → In e ms → Open u s e

  in_order-Open : (ids : List ℕ) → AllOpen (in_order ids (keep (is_shown scope) s.messages))
  unfolding in_order
  in_order-Open [] = λ e i. absurd i
  in_order-Open (id ∷ ids) =
      option_split AllOpen (lookup id (keep (is_shown scope) s.messages)) (λ _. in_order-Open ids)
        (λ m l e i. elim i [
          | inl q ↦
              let (at, shown) = kept_there (is_shown scope) id m s.messages k.messages l in
              subst (Open u s) (sym q) (shown-Open id m at shown)
          | inr j ↦ in_order-Open ids e j
        ])

  hydrate_messages-Open : (ids : List ℕ) → AllOpen (hydrate_messages ids scope s)
  unfolding hydrate_messages
  hydrate_messages-Open ids =
      if_split AllOpen (none_in scope.channel_ids && none_in scope.convo_ids) (λ _ e i. absurd i)
        (λ _. in_order-Open ids)

  placed-In :
      (x e : ℕ × Message) (xs : List (ℕ × Message)) → In e (place_by_time x xs) → (e ≡ x) ⊎ In e xs
  unfolding place_by_time
  placed-In x e [] i = ground (arith, i)
  placed-In x e (y ∷ xs) i = elim (Bool-cases (leb y.1.created_at x.1.created_at)) [
    | inl b ↦ ground (arith, b, i)
    | inr b ↦ ground (arith, b, i, placed-In x e xs)
  ]

  sorted-In : (e : ℕ × Message) (xs : List (ℕ × Message)) → In e (newest_first xs) → In e xs
  unfolding newest_first
  sorted-In e [] i = i
  sorted-In e (x ∷ xs) i = elim (placed-In x e (newest_first xs) i) [
    | inl q ↦ inl q
    | inr j ↦ inr (sorted-In e xs j)
  ]

  messages_from_postgres-Open :
      (n : Names) (text : String) (limit : ℕ) (extra : Extra)
      → AllOpen (messages_from_postgres n text scope limit extra s)
  unfolding messages_from_postgres sql_accepts in_scope
  messages_from_postgres-Open n text limit extra e i =
      let wanted : ℕ × Message → Bool =
        λ x. sql_accepts false scope extra (row_of n x.0 x.1 s) && n.has_words text x.1.body in
      let j =
        sorted-In e (keep wanted s.messages)
          (In-take (clamp limit) e (newest_first (keep wanted s.messages)) i) in
      let at = In-lookup e.0 e.1 s.messages k.messages (In-keep_in wanted e s.messages j) in
      shown-Open e.0 e.1 at (ground (arith, In-keep_holds wanted e s.messages j))

  abbrev Opens : Option (List (ℕ × Message)) → Type 0
  Opens none = Unit {0}
  Opens (some ms) = AllOpen ms

  messages_from_meilisearch-Open :
      (engine : Filter → Option (List ℕ)) (extra : Extra)
      → Opens (messages_from_meilisearch engine scope extra s)
  unfolding messages_from_meilisearch
  messages_from_meilisearch-Open engine extra =
      option_split Opens (build_filter scope extra) (λ _ e i. absurd i)
        (λ f _. option_split Opens (engine f) (λ _. tt) (λ ids _. hydrate_messages-Open ids))

module _ (n : Names) (engine : String → ℕ → Filter → Option (List ℕ)) (me limit : ℕ) (s : Store)
    (k : IsStored s) (q : Query) where
  abbrev scope : Scope
  scope = scope_of n me q s

  within : Within scope (visible_scope me s)
  within = scope_of-Within n me q s

  answered :
      (o : Option (List (ℕ × Message)))
      → Opens me s k scope within o
      → AllOpen me s k scope within (elim o [
        | none ↦
            messages_from_postgres n (n.text_of q.words) scope (clamp limit) (extra_of n me q) s
        | some ms ↦ ms
      ])
  answered none h =
      messages_from_postgres-Open me s k scope within n (n.text_of q.words) (clamp limit)
        (extra_of n me q)
  answered (some ms) h = h

  answer_query-Open : AllOpen me s k scope within (answer_query n engine me q limit s)
  unfolding answer_query
  answer_query-Open =
      if_split (AllOpen me s k scope within) (n.text_of q.words == "" && not (has_filters q))
        (λ _ e i. absurd i)
        (λ _.
          answered
            (messages_from_meilisearch (engine (n.text_of q.words) (clamp limit)) scope
              (extra_of n me q) s)
            (messages_from_meilisearch-Open me s k scope within
              (engine (n.text_of q.words) (clamp limit)) (extra_of n me q)))

-- Whatever the index answers, or if it fails, a search shows a person only messages that they may open
-- and that are not deleted, as they are stored; this also holds for a query that names other places.
pub global_search-Open :
    (n : Names) (engine : String → ℕ → Filter → Option (List ℕ)) (lower : String → String)
    (parts : String → Option (ℕ × (ℕ × ℕ))) (zone : Zone) (tokens : List Token) (me limit : ℕ)
    (s : Store)
    → IsStored s
    → (e : ℕ × Message) → In e (global_search n engine lower parts zone tokens me limit s)
    → Open me s e
unfolding global_search
global_search-Open n engine lower parts zone tokens me limit s k =
    answer_query-Open n engine me limit s k (parse_search_query lower parts zone tokens)
