-- ===== src/Messages/Announcement.antt =====
-- The headline banner of a channel's post: src/announcement.js. A field is the text that `clean` leaves,
-- with its length.
use nova_connect.Prelude.{
  ℕ, Option, none, some, String, List, [], ◌∷◌, ◌++◌, ltb, if◌then◌else◌, ◌==◌, string_eq,
}

pub data Theme : Type 0 where
  blue : Theme
  purple : Theme
  green : Theme
  orange : Theme
  red : Theme
  slate : Theme

pub record Announcement : Type 0 where
  pub headline : String
  pub subhead : String
  pub theme : Theme

-- What a request sends: the texts with their lengths, and a theme if it is one of `THEMES`.
pub record Fields : Type 0 where
  pub headline : String
  pub headline_length : ℕ
  pub subhead : String
  pub subhead_length : ℕ
  pub theme : Option Theme

pub data Mistake : Type 0 where
  wants_headline : Mistake
  long_headline : Mistake
  long_subhead : Mistake

-- `null`, `{ error }` or `{ value }`
pub data Parsed : Type 0 where
  ordinary : Parsed
  wrong : Mistake → Parsed
  announced : Announcement → Parsed

abbrev pub headline_max : ℕ
headline_max = 120

abbrev pub subhead_max : ℕ
subhead_max = 200

unfoldable pub parse_announcement : Fields → Parsed
parse_announcement f =
    if f.headline == ""
    then (if f.subhead == "" then ordinary else wrong wants_headline)
    else if ltb headline_max f.headline_length
    then wrong long_headline
    else if ltb subhead_max f.subhead_length
    then wrong long_subhead
    else announced (record {
      headline = f.headline;
      subhead = f.subhead;
      theme = elim f.theme [ none ↦ blue | some t ↦ t ];
    })

-- `messages.metadata`, parsed: the keys that these files write.
pub record Metadata : Type 0 where
  pub gif_url : Option String
  pub announcement : Option Announcement
  pub forwarded_from : Option ℕ

-- `announcementOf`
abbrev pub announcement_of : Option Metadata → Option Announcement
announcement_of none = none
announcement_of (some m) = m.announcement

abbrev pub present : String → List String
present s = if s == "" then [] else s ∷ []

-- `searchText`, as its lines.
unfoldable pub search_text : Option Metadata → String → List String
search_text m body =
    (elim (announcement_of m) [ none ↦ [] | some a ↦ present a.headline ++ present a.subhead ])
    ++ present body
