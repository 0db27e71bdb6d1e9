-- ===== src/Compliance/Runs.antt =====
-- One run of retention with the saved policy: `parsePolicy`, `cutoffFor` and `runRetention` of
-- src/retention.js. A time is a number of seconds.
use nova_connect.Prelude.{
  ℕ, ◌-◌, ◌*◌, Bool, true, false, not, ◌&&◌, ◌||◌, Option, none, some, String, List, [], ◌∷◌, any,
  keep, ltb, if◌then◌else◌, ◌==◌, nat_eq, Result, ok, err, ◌>>=◌,
}
use nova_connect.Compliance.Tables.{person, channel, chat, Hold, Tables}
use nova_connect.Compliance.Retention.{channels, chats, Counts, purge_scope}

-- What the form sends for a period: nothing or 'forever', a number, or something else.
pub data Choice : Type 0 where
  forever : Choice
  days : ℕ → Choice
  other : Choice

pub record Policy : Type 0 where
  pub channel_days : Option ℕ
  pub chat_days : Option ℕ

-- `RETENTION_OPTIONS`, without null.
abbrev pub retention_options : List ℕ
retention_options = 30 ∷ 90 ∷ 180 ∷ 365 ∷ 730 ∷ 1825 ∷ 2555 ∷ []

unfoldable pub parse_days : Choice → Result (Unit {0}) (Option ℕ)
parse_days forever = ok none
parse_days (days n) = if any (λ o. o == n) retention_options then ok (some n) else err tt
parse_days other = err tt

unfoldable pub parse_policy : Choice → Choice → Result (Unit {0}) Policy
parse_policy channel_choice chat_choice = do
  c ← parse_days channel_choice
  d ← parse_days chat_choice
  ok (record { channel_days = c; chat_days = d })

-- `cutoffFor`
unfoldable pub cutoff_for : ℕ → ℕ → ℕ
cutoff_for limit now = now - limit * 86400

-- A row of `meet_chat_messages`.
pub record Line : Type 0 where
  pub user_id : ℕ
  pub created_at : ℕ

-- `EXISTS (SELECT 1 FROM legal_holds h WHERE … h.scope_type = 'person' AND h.scope_id = mc.user_id)`
unfoldable pub person_held : ℕ → Tables → Bool
person_held user t =
    any
      (λ (h : Hold).
        not h.released
        && (elim h.scope_type [ person ↦ true | channel ↦ false | chat ↦ false ])
        && h.scope_id == user)
      t.holds

unfoldable pub kept_lines : ℕ → Tables → List Line → List Line
kept_lines cutoff t lines =
    keep (λ (l : Line). not (ltb l.created_at cutoff) || person_held l.user_id t) lines

-- What a run did.
pub record Run : Type 0 where
  pub tables : Tables
  pub lines : List Line
  pub channel : Option Counts
  pub chat : Option Counts

-- `if (policy.channel_days) …`: a period that is not set, or 0, is none.
abbrev pub period : Option ℕ → Option ℕ
period none = none
period (some n) = if n == 0 then none else some n

unfoldable pub run_channels : (String → Bool) → Option ℕ → ℕ → ℕ → Tables → List Line → Option Run
run_channels works limit now fuel t lines = elim limit [
  | none ↦ some (record { tables = t; lines = lines; channel = none; chat = none })
  | some n ↦ elim (purge_scope works channels (cutoff_for n now) fuel t) [
    | none ↦ none
    | some p ↦ some (record { tables = p.0; lines = lines; channel = some p.1; chat = none })
  ]
]

unfoldable pub run_chats : (String → Bool) → Option ℕ → ℕ → ℕ → Run → Option Run
run_chats works limit now fuel r = elim limit [
  | none ↦ some r
  | some n ↦ elim (purge_scope works chats (cutoff_for n now) fuel r.tables) [
    | none ↦ none
    | some p ↦ some (record r {
      tables = p.0;
      chat = some p.1;
      lines = kept_lines (cutoff_for n now) p.0 r.lines;
    })
  ]
]

-- `runRetention`; `none` where the fuel does not reach.
unfoldable pub run_retention : (String → Bool) → Policy → ℕ → ℕ → Tables → List Line → Option Run
run_retention works policy now fuel t lines =
    elim (run_channels works (period policy.channel_days) now fuel t lines) [
      | none ↦ none
      | some r ↦ run_chats works (period policy.chat_days) now fuel r
    ]
