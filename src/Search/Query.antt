-- ===== src/Search/Query.antt =====
-- The search bar's query language: `localDayStart` and `parseSearchQuery` of src/searchQuery.js, from
-- its tokens on. An instant is a number of milliseconds since the start of the year 0. `parts` is what
-- the expression DATE reads in a value, and `lower` is `toLowerCase`; a value is what `trim` leaves.
use nova_connect.Prelude.{
  ℕ, zero, suc, ◌+◌, ◌-◌, ◌*◌, ◌/◌, ◌%◌, min, max, Bool, true, false, not, ◌&&◌, ◌||◌, Option, none,
  some, String, List, [], ◌∷◌, ◌++◌, leb, if◌then◌else◌, ◌==◌, nat_eq, string_eq,
}

pub data Key : Type 0 where
  author : Key
  place : Key
  holds : Key
  after : Key
  before : Key
  day : Key
  other : Key

-- A word or a phrase, or a key with its value and what was typed.
pub data Token : Type 0 where
  word : String → Token
  pair : Key → String → String → Token

-- `tzOffsetMinutes`: minutes to add to local time, or to take away.
pub data Zone : Type 0 where
  behind : ℕ → Zone
  ahead : ℕ → Zone

abbrev pub leap : ℕ → Bool
leap y = y % 4 == 0 && (not (y % 100 == 0) || y % 400 == 0)

abbrev pub month_days : ℕ → ℕ → ℕ
month_days y mo =
    if mo == 2
    then (if leap y then 29 else 28)
    else if mo == 4 || (mo == 6 || (mo == 9 || mo == 11))
    then 30
    else 31

-- `Date.UTC` with the check on it: years before 100 stand for others, and only real days stay.
abbrev pub is_calendar_day : ℕ → ℕ → ℕ → Bool
is_calendar_day y mo d =
    leb 100 y && (leb 1 mo && leb mo 12) && (leb 1 d && leb d (month_days y mo))

-- The days before a year, and before the month that comes after `mo` others.
abbrev pub days_before_year : ℕ → ℕ
days_before_year y = 365 * y + (y + 3) / 4 - (y + 99) / 100 + (y + 399) / 400

unfoldable pub days_before_month : ℕ → ℕ → ℕ
days_before_month y zero = 0
days_before_month y (suc mo) = days_before_month y mo + month_days y (mo + 1)

abbrev pub day_ms : ℕ
day_ms = 86400000

abbrev pub minute_ms : ℕ
minute_ms = 60000

unfoldable pub utc : ℕ → ℕ → ℕ → ℕ
utc y mo d = (days_before_year y + days_before_month y (mo - 1) + (d - 1)) * day_ms

abbrev pub shift : Zone → ℕ → ℕ
shift (behind n) t = t + n * minute_ms
shift (ahead n) t = t - n * minute_ms

-- `tz`: more than fourteen hours are taken for none.
unfoldable pub checked_zone : Zone → Zone
checked_zone (behind n) = if leb n 840 then behind n else behind 0
checked_zone (ahead n) = if leb n 840 then ahead n else behind 0

-- `localDayStart`
unfoldable pub local_day_start : (String → Option (ℕ × (ℕ × ℕ))) → Zone → String → Option ℕ
local_day_start parts zone value = elim (parts value) [
  | none ↦ none
  | some p ↦
      if is_calendar_day p.0 p.1.0 p.1.1 then some (shift zone (utc p.0 p.1.0 p.1.1)) else none
]

pub record Query : Type 0 where
  pub words : List String
  pub authors : List String
  pub places : List String
  pub after_ms : Option ℕ
  pub before_ms : Option ℕ
  pub has_file : Bool
  pub has_link : Bool
  pub applied : List (Key × String)

unfoldable pub no_query : Query
no_query = record {
  words = [];
  authors = [];
  places = [];
  after_ms = none;
  before_ms = none;
  has_file = false;
  has_link = false;
  applied = [];
}

abbrev pub later_of : Option ℕ → ℕ → Option ℕ
later_of none t = some t
later_of (some u) t = some (max u t)

abbrev pub earlier_of : Option ℕ → ℕ → Option ℕ
earlier_of none t = some t
earlier_of (some u) t = some (min u t)

abbrev pub keep_text : String → Query → Query
keep_text raw q = record q { words = q.words ++ raw ∷ [] }

abbrev pub chip : Key → String → Query → Query
chip k value q = record q { applied = q.applied ++ (k, value) ∷ [] }

-- The branch of `has:`, for one of the two values.
abbrev pub want_file : String → Query → Query
want_file v q = if q.has_file then q else chip holds v (record q { has_file = true })

abbrev pub want_link : String → Query → Query
want_link v q = if q.has_link then q else chip holds v (record q { has_link = true })

-- One round of the loop.
unfoldable pub take_token :
    (String → String) → (String → Option (ℕ × (ℕ × ℕ))) → Zone → Token → Query → Query
take_token lower parts zone (word text) q = keep_text text q
take_token lower parts zone (pair author value raw) q =
    if value == ""
    then keep_text raw q
    else chip author value (record q { authors = q.authors ++ value ∷ [] })
take_token lower parts zone (pair place value raw) q =
    if value == ""
    then keep_text raw q
    else chip place value (record q { places = q.places ++ value ∷ [] })
take_token lower parts zone (pair holds value raw) q =
    if lower value == "file"
    then want_file (lower value) q
    else if lower value == "link"
    then want_link (lower value) q
    else keep_text raw q
take_token lower parts zone (pair after value raw) q = elim (local_day_start parts zone value) [
  | none ↦ keep_text raw q
  | some start ↦ chip after value (record q { after_ms = later_of q.after_ms start })
]
take_token lower parts zone (pair before value raw) q = elim (local_day_start parts zone value) [
  | none ↦ keep_text raw q
  | some start ↦ chip before value (record q { before_ms = earlier_of q.before_ms start })
]
take_token lower parts zone (pair day value raw) q = elim (local_day_start parts zone value) [
  | none ↦ keep_text raw q
  | some start ↦ chip day value (record q {
    after_ms = later_of q.after_ms start;
    before_ms = earlier_of q.before_ms (start + day_ms);
  })
]
take_token lower parts zone (pair other value raw) q = keep_text raw q

unfoldable pub take_tokens :
    (String → String) → (String → Option (ℕ × (ℕ × ℕ))) → Zone → List Token → Query → Query
take_tokens lower parts zone [] q = q
take_tokens lower parts zone (t ∷ ts) q =
    take_tokens lower parts zone ts (take_token lower parts zone t q)

-- `parseSearchQuery`
unfoldable pub parse_search_query :
    (String → String) → (String → Option (ℕ × (ℕ × ℕ))) → Zone → List Token → Query
parse_search_query lower parts zone ts = take_tokens lower parts (checked_zone zone) ts no_query
