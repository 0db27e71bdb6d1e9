-- ===== src/Search/FilterLaws.antt =====
-- The two engines look at the same messages, and what they look at.
use nova_connect.Prelude.{
  ℕ, ◌≡◌, refl, sym, ◌∙◌, Bool, true, false, not, ◌&&◌, ◌||◌, Option, none, some, List, [], ◌∷◌,
  ◌++◌, arith, any, every, leb, ltb, nat_eq, ◌↔◌, Bool-cases, Option-cases, inl, inr,
}
use nova_connect.Search.Filter.{
  Extra, Scope, Doc, Condition, channel_in, conversation_in, none_in, unless_empty, the_rest,
  build_filter, is_in, place_in, accepts_one, accepts, Row, other_fragments, sql_conditions,
  holds_one, in_scope, sql_accepts, document_of,
}

-- What a search asks of a message, whatever answers it.
pub record Wanted (s : Scope) (e : Extra) (d : Doc) : Type 0 where
  pub place : (place_in d.channel_id s.channel_ids || place_in d.conversation_id s.convo_ids) ≡ true
  pub there : d.deleted ≡ false
  pub author : (authors : List ℕ) → e.author_ids ≡ some authors → is_in d.author_id authors ≡ true
  pub from : (t : ℕ) → e.after_ts ≡ some t → leb t d.created_ts ≡ true
  pub before : (t : ℕ) → e.before_ts ≡ some t → ltb d.created_ts t ≡ true
  pub file : e.has_file ≡ true → d.has_file ≡ true
  pub link : e.has_link ≡ true → d.has_link ≡ true

-- The same as a test.
abbrev wanted_author : Option (List ℕ) → ℕ → Bool
wanted_author none a = true
wanted_author (some xs) a = is_in a xs

abbrev wanted_from : Option ℕ → ℕ → Bool
wanted_from none c = true
wanted_from (some t) c = leb t c

abbrev wanted_before : Option ℕ → ℕ → Bool
wanted_before none c = true
wanted_before (some t) c = ltb c t

wanted_rest : Extra → ℕ → Bool → Bool → Bool
wanted_rest e c file link =
    wanted_from e.after_ts c
    && (wanted_before e.before_ts c && ((not e.has_file || file) && (not e.has_link || link)))

is_wanted : Scope → Extra → Doc → Bool
is_wanted s e d =
    (place_in d.channel_id s.channel_ids || place_in d.conversation_id s.convo_ids)
    && (not d.deleted
        && (wanted_author e.author_ids d.author_id
            && wanted_rest e d.created_ts d.has_file d.has_link))

none_in-place_in : (o : Option ℕ) (xs : List ℕ) → none_in xs ≡ true → place_in o xs ≡ false
none_in-place_in none xs h = refl
none_in-place_in (some x) [] h = refl
none_in-place_in (some x) (y ∷ xs) h = cc

none_in-is_in : (x : ℕ) (xs : List ℕ) → none_in xs ≡ true → is_in x xs ≡ false
none_in-is_in x [] h = refl
none_in-is_in x (y ∷ xs) h = cc

module _ (s : Scope) (e : Extra) where
  accepts-the_rest :
      (d : Doc)
      → every (accepts_one d) (the_rest e) ≡ wanted_rest e d.created_ts d.has_file d.has_link
  unfolding wanted_rest
  accepts-the_rest d = elim (Option-cases e.after_ts) [
    | inl a ↦ elim (Option-cases e.before_ts) [
      | inl b ↦ ground (arith, a, b)
      | inr (u, b) ↦ ground (arith, a, b)
    ]
    | inr (t, a) ↦ elim (Option-cases e.before_ts) [
      | inl b ↦ ground (arith, a, b)
      | inr (u, b) ↦ ground (arith, a, b)
    ]
  ]

  holds-other :
      (r : Row)
      → every (holds_one r) (other_fragments false e)
        ≡ wanted_rest e r.created_at r.has_attachment r.body_has_link
  unfolding wanted_rest
  holds-other r = elim (Option-cases e.after_ts) [
    | inl a ↦ elim (Option-cases e.before_ts) [
      | inl b ↦ ground (arith, a, b)
      | inr (u, b) ↦ ground (arith, a, b)
    ]
    | inr (t, a) ↦ elim (Option-cases e.before_ts) [
      | inl b ↦ ground (arith, a, b)
      | inr (u, b) ↦ ground (arith, a, b)
    ]
  ]

  abbrev places_of : List Condition
  places_of =
      unless_empty s.channel_ids (channel_in s.channel_ids)
      ++ unless_empty s.convo_ids (conversation_in s.convo_ids)

  accepts-places :
      (d : Doc)
      → any (accepts_one d) places_of
        ≡ (place_in d.channel_id s.channel_ids || place_in d.conversation_id s.convo_ids)
  accepts-places d = ground (
    arith,
    none_in-place_in d.channel_id s.channel_ids,
    none_in-place_in d.conversation_id s.convo_ids,
  )

  accepts-is_wanted : (d : Doc) → accepts (build_filter s e) d ≡ is_wanted s e d
  unfolding accepts build_filter is_wanted
  accepts-is_wanted d = elim (Bool-cases (none_in s.channel_ids && none_in s.convo_ids)) [
    | inl empty ↦ ground (
      arith,
      empty,
      none_in-place_in d.channel_id s.channel_ids,
      none_in-place_in d.conversation_id s.convo_ids,
    )
    | inr some_place ↦ elim (Option-cases e.author_ids) [
      | inl a ↦ ground (arith, some_place, a, accepts-places d, accepts-the_rest d)
      | inr (authors, a) ↦ ground (
        arith,
        some_place,
        a,
        none_in-is_in d.author_id authors,
        accepts-places d,
        accepts-the_rest d,
      )
    ]
  ]

  sql_accepts-is_wanted : (r : Row) → sql_accepts false s e r ≡ is_wanted s e (document_of r)
  unfolding sql_accepts sql_conditions in_scope is_wanted document_of
  sql_accepts-is_wanted r = elim (Option-cases e.author_ids) [
    | inl a ↦ ground (arith, a, holds-other r)
    | inr (authors, a) ↦ ground (arith, a, none_in-is_in r.user_id authors, holds-other r)
  ]

  is_wanted-Wanted : (d : Doc) → is_wanted s e d ≡ true → Wanted s e d
  unfolding is_wanted wanted_rest
  is_wanted-Wanted d h = record {
    place = ground (arith, h);
    there = ground (arith, h);
    author = λ authors a. ground (arith, h, a);
    from = λ t a. ground (arith, h, a);
    before = λ t a. ground (arith, h, a);
    file = λ a. ground (arith, h, a);
    link = λ a. ground (arith, h, a);
  }

  Wanted-is_wanted : (d : Doc) → Wanted s e d → is_wanted s e d ≡ true
  unfolding is_wanted wanted_rest
  Wanted-is_wanted d w =
      let author = asked_author e.author_ids refl in
      let from = asked_from e.after_ts refl in
      let before = asked_before e.before_ts refl in
      let rest = asked e.has_file d.has_file w.file in
      let link = asked e.has_link d.has_link w.link in
      ground (arith, w.place, w.there, author, from, before, rest, link)
    where
      asked_author : (o : Option (List ℕ)) → e.author_ids ≡ o → wanted_author o d.author_id ≡ true
      asked_author none q = refl
      asked_author (some xs) q = w.author xs q

      asked_from : (o : Option ℕ) → e.after_ts ≡ o → wanted_from o d.created_ts ≡ true
      asked_from none q = refl
      asked_from (some t) q = w.from t q

      asked_before : (o : Option ℕ) → e.before_ts ≡ o → wanted_before o d.created_ts ≡ true
      asked_before none q = refl
      asked_before (some t) q = w.before t q

      asked : (b c : Bool) → (b ≡ true → c ≡ true) → (not b || c) ≡ true
      asked true c f = ground (arith, f refl)
      asked false c f = refl

-- What the index is asked for is what the search means: it answers with a document if and only if it is
-- in a channel or chat of the scope, is not deleted, and meets each filter that is set; with an empty
-- scope, or a person that matched nobody, it answers with none.
pub build_filter-Wanted :
    (s : Scope) (e : Extra) (d : Doc) → (accepts (build_filter s e) d ≡ true) ↔ Wanted s e d
build_filter-Wanted s e d = (
  λ h. is_wanted-Wanted s e d (sym (accepts-is_wanted s e d) ∙ h),
  λ w. accepts-is_wanted s e d ∙ Wanted-is_wanted s e d w,
)

-- The search in the database, which stands in when the index is down, looks at the same messages as the
-- index does, if the documents are in step with the rows.
pub sql_accepts-accepts :
    (s : Scope) (e : Extra) (r : Row)
    → sql_accepts false s e r ≡ accepts (build_filter s e) (document_of r)
sql_accepts-accepts s e r =
    sql_accepts-is_wanted s e r ∙ sym (accepts-is_wanted s e (document_of r))
