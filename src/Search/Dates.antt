-- ===== src/Search/Dates.antt =====
-- What the dates of a query mean together.
use nova_connect.Prelude.{
  ℕ, ◌+◌, ◌≡◌, refl, Bool, true, false, ◌&&◌, Option, none, some, String, List, [], ◌∷◌, arith, leb,
  ltb, ◌==◌, nat_eq, string_eq, Option-cases, inl, inr, if_split,
}
use nova_connect.Search.Query.{
  Key, author, place, holds, after, before, day, other, Token, word, pair, Zone, day_ms,
  checked_zone, local_day_start, Query, no_query, later_of, earlier_of, take_token, take_tokens,
  parse_search_query,
}

abbrev pub not_before : Option ℕ → ℕ → Bool
not_before none t = true
not_before (some a) t = leb a t

abbrev pub earlier_than : Option ℕ → ℕ → Bool
earlier_than none t = true
earlier_than (some b) t = ltb t b

-- The instants that a query looks at.
abbrev pub within : Query → ℕ → Bool
within q t = not_before q.after_ms t && earlier_than q.before_ms t

-- What one token asks of an instant; a date that is no day asks nothing.
pub day_allows : Key → Option ℕ → ℕ → Bool
day_allows k none t = true
day_allows after (some start) t = leb start t
day_allows before (some start) t = ltb t start
day_allows day (some start) t = leb start t && ltb t (start + day_ms)
day_allows _ (some start) t = true

abbrev pub token_allows : (String → Option (ℕ × (ℕ × ℕ))) → Zone → Token → ℕ → Bool
token_allows parts zone (word text) t = true
token_allows parts zone (pair k value raw) t = day_allows k (local_day_start parts zone value) t

abbrev pub all_allow : (String → Option (ℕ × (ℕ × ℕ))) → Zone → List Token → ℕ → Bool
all_allow parts zone [] t = true
all_allow parts zone (x ∷ xs) t = token_allows parts zone x t && all_allow parts zone xs t

later : (o : Option ℕ) (a t : ℕ) → not_before (later_of o a) t ≡ (not_before o t && leb a t)
later none a t = refl
later (some b) a t = ground arith

earlier : (o : Option ℕ) (a t : ℕ) → earlier_than (earlier_of o a) t ≡ (earlier_than o t && ltb t a)
earlier none a t = refl
earlier (some b) a t = ground arith

module _ (lower : String → String) (parts : String → Option (ℕ × (ℕ × ℕ))) (zone : Zone) where
  abbrev is_date : Key → Bool
  is_date author = false
  is_date place = false
  is_date holds = false
  is_date after = true
  is_date before = true
  is_date day = true
  is_date other = false

  -- The keys that are no dates ask nothing of an instant.
  no_date : (k : Key) → is_date k ≡ false → (o : Option ℕ) (t : ℕ) → day_allows k o t ≡ true
  unfolding day_allows
  no_date author c none t = refl
  no_date author c (some x) t = refl
  no_date place c none t = refl
  no_date place c (some x) t = refl
  no_date holds c none t = refl
  no_date holds c (some x) t = refl
  no_date other c none t = refl
  no_date other c (some x) t = refl
  no_date after c o t = cc
  no_date before c o t = cc
  no_date day c o t = cc

  abbrev Same : Query → Query → Type 0
  Same q r = (r.after_ms ≡ q.after_ms) × (r.before_ms ≡ q.before_ms)

  unchanged_within :
      (k : Key)
      → is_date k ≡ false
      → (value : String) (q r : Query) (t : ℕ) → Same q r
      → within r t ≡ (within q t && day_allows k (local_day_start parts zone value) t)
  unchanged_within k c value q r t s =
      ground (arith, s.0, s.1, no_date k c (local_day_start parts zone value) t)

  take_token-within :
      (x : Token) (q : Query) (t : ℕ)
      → within (take_token lower parts zone x q) t ≡ (within q t && token_allows parts zone x t)
  unfolding take_token day_allows
  take_token-within (word text) q t = ground arith
  take_token-within (pair author value raw) q t =
      unchanged_within author refl value q (take_token lower parts zone (pair author value raw) q) t
        (if_split (Same q) (value == "") (λ _. (refl, refl)) (λ _. (refl, refl)))
  take_token-within (pair place value raw) q t =
      unchanged_within place refl value q (take_token lower parts zone (pair place value raw) q) t
        (if_split (Same q) (value == "") (λ _. (refl, refl)) (λ _. (refl, refl)))
  take_token-within (pair holds value raw) q t =
      unchanged_within holds refl value q (take_token lower parts zone (pair holds value raw) q) t (
        if_split (Same q) (lower value == "file")
          (λ _. if_split (Same q) q.has_file (λ _. (refl, refl)) (λ _. (refl, refl)))
          (λ _.
            if_split (Same q) (lower value == "link")
              (λ _. if_split (Same q) q.has_link (λ _. (refl, refl)) (λ _. (refl, refl)))
              (λ _. (refl, refl))))
  take_token-within (pair after value raw) q t =
      elim (Option-cases (local_day_start parts zone value)) [
        | inl e ↦ ground (arith, e)
        | inr (start, e) ↦ ground (arith, e, later q.after_ms start t)
      ]
  take_token-within (pair before value raw) q t =
      elim (Option-cases (local_day_start parts zone value)) [
        | inl e ↦ ground (arith, e)
        | inr (start, e) ↦ ground (arith, e, earlier q.before_ms start t)
      ]
  take_token-within (pair day value raw) q t =
      elim (Option-cases (local_day_start parts zone value)) [
        | inl e ↦ ground (arith, e)
        | inr (start, e) ↦
            ground (arith, e, later q.after_ms start t, earlier q.before_ms (start + day_ms) t)
      ]
  take_token-within (pair other value raw) q t =
      unchanged_within other refl value q (take_token lower parts zone (pair other value raw) q) t
        (refl, refl)

  pub take_tokens-within :
      (xs : List Token) (q : Query) (t : ℕ)
      → within (take_tokens lower parts zone xs q) t ≡ (within q t && all_allow parts zone xs t)
  unfolding take_tokens
  take_tokens-within [] q t = ground arith
  take_tokens-within (x ∷ xs) q t =
      ground
        (arith, take_tokens-within xs (take_token lower parts zone x q) t, take_token-within x q t)

-- However many dates a query has, and in whatever order, the two bounds that it is turned into leave
-- exactly the instants that every one of its dates allows.
pub parse_search_query-dates :
    (lower : String → String) (parts : String → Option (ℕ × (ℕ × ℕ))) (zone : Zone)
    (xs : List Token) (t : ℕ)
    → within (parse_search_query lower parts zone xs) t ≡ all_allow parts (checked_zone zone) xs t
unfolding parse_search_query no_query
parse_search_query-dates lower parts zone xs t =
    take_tokens-within lower parts (checked_zone zone) xs no_query t
