-- ===== src/Presence/Refresh.antt =====
-- The status that is stored: `presenceFor`, `writePresence`, `refreshPresence`,
-- `refreshScheduledPresence`, 'presence:set' and `resetCallPresence` of src/realtime.js. What the maps of
-- connections and calls and the calendar say of a person is the argument `seen`.
use nova_connect.Prelude.{
  ℕ, Bool, true, false, not, ◌&&◌, ◌||◌, Option, none, some, List, [], ◌∷◌, ◌++◌, Map, lookup,
  insert, keep, map, if◌then◌else◌, nat_eq,
}
use nova_connect.Presence.Rules.{
  Status, online, offline, ooo, in_call, in_meeting, presenting, is, Row, is_out_of_office,
  shown_status,
}

-- `users`, the columns of a presence; the key is the id.
pub record Account : Type 0 where
  pub row : Row
  pub status : Status
  pub preference : Option Status
  pub last_seen : ℕ

-- What `isOnline`, `callActivity`, the calendar and `allIdle` say of a person.
pub record Seen : Type 0 where
  pub connected : Bool
  pub call : Option Status
  pub meeting : Bool
  pub idle : Bool

abbrev pub Users : Type 0
Users = Map ℕ Account

-- The answer of `shownStatus` for a row that was read.
unfoldable pub shown_for : Account → Option Status → Seen → ℕ → Status
shown_for a chosen seen now = shown_status (record {
  connected = seen.connected;
  chosen = chosen;
  call = seen.call;
  calendar_meeting = seen.meeting;
  out_of_office = is_out_of_office a.row now;
  idle = seen.idle;
})

-- `chosen === undefined ? row.presence_preference : chosen`
abbrev pub chosen_of : Option (Option Status) → Account → Option Status
chosen_of none a = a.preference
chosen_of (some c) a = c

-- `presenceFor`
unfoldable pub presence_for :
    ℕ → Option (Option Status) → Seen → ℕ → Users → Option (Account × Status)
presence_for u chosen seen now users = elim (lookup u users) [
  | none ↦ none
  | some a ↦ some (a, shown_for a (chosen_of chosen a) seen now)
]

-- `presence_preference IS NOT DISTINCT FROM ?`
abbrev pub same_choice : Option Status → Option Status → Bool
same_choice none none = true
same_choice (some a) (some b) = is a b
same_choice none (some b) = false
same_choice (some a) none = false

-- A broadcast of a person's status.
abbrev pub Told : Type 0
Told = List (ℕ × Status)

-- `writePresence`: `read` is the row that `shown` was computed from.
unfoldable pub write_presence : ℕ → Account → Status → Users → Users × Told
write_presence u read shown users =
    if is shown read.status then (users, []) else elim (lookup u users) [
      | none ↦ (users, [])
      | some a ↦
          if is a.status read.status && same_choice a.preference read.preference
          then (insert u (record a { status = shown }) users, (u, shown) ∷ [])
          else (users, [])
    ]

-- `refreshPresence` up to its write: whether to write, and what.
unfoldable pub refresh_read : ℕ → Seen → ℕ → Users → Option (Account × Status)
refresh_read u seen now users =
    if not seen.connected then none else presence_for u none seen now users

unfoldable pub refresh_write : ℕ → Option (Account × Status) → Users → Users × Told
refresh_write u none users = (users, [])
refresh_write u (some (a, shown)) users = write_presence u a shown users

abbrev pub settled_gone : Status → Bool
settled_gone s = is s offline || is s ooo

-- One row of `refreshScheduledPresence`.
unfoldable pub sweep_one : ℕ → Account → Seen → ℕ → Users → Users × Told
sweep_one u a seen now users =
    if not seen.connected && not (settled_gone a.status)
    then (users, [])
    else write_presence u a (shown_for a a.preference seen now) users

-- The rows that `refreshScheduledPresence` looks at.
abbrev pub is_swept : Account → Seen → Bool
is_swept a seen = a.row.ooo_enabled || is a.status ooo || seen.connected

unfoldable pub sweep_rows : (ℕ → Seen) → ℕ → List (ℕ × Account) → Users → Users × Told
sweep_rows seen now [] users = (users, [])
sweep_rows seen now ((u, a) ∷ rows) users =
    let one = sweep_one u a (seen u) now users in
    let (users', told) = sweep_rows seen now rows one.0 in (users', one.1 ++ told)

-- `refreshScheduledPresence`, with no other request between its statements.
unfoldable pub sweep : (ℕ → Seen) → ℕ → Users → Users × Told
sweep seen now users =
    sweep_rows seen now (keep (λ (e : ℕ × Account). is_swept e.1 (seen e.0)) users) users

-- 'presence:set': `none` is 'reset'. Another text is not taken.
unfoldable pub set_presence : ℕ → Option Status → Seen → ℕ → Users → Users × Told
set_presence u chosen seen now users = elim (presence_for u (some chosen) seen now users) [
  | none ↦ (users, [])
  | some (a, shown) ↦
      (insert u (record a { status = shown; preference = chosen }) users, (u, shown) ∷ [])
]

-- The end of a socket's setup, for somebody who was offline.
unfoldable pub set_online : ℕ → Seen → ℕ → Users → Users × Told
set_online u seen now users = elim (presence_for u none seen now users) [
  | none ↦ (users, (u, online) ∷ [])
  | some (a, shown) ↦
      (insert u (record a { status = shown; last_seen = now }) users, (u, shown) ∷ [])
]

abbrev pub from_call : Status → Bool
from_call s = is s in_call || is s in_meeting || is s presenting

-- `resetCallPresence`
unfoldable pub reset_call_presence : Users → Users
reset_call_presence users =
    map
      (λ (e : ℕ × Account).
        (e.0, if from_call e.1.status then record e.1 { status = offline } else e.1))
      users
