-- ===== src/Presence/Rules.antt =====
-- `isOutOfOffice`, `shownStatus`, `outOfOfficeSummary` and `participantPresence` of
-- src/presenceRules.js, and the order of the rules that the file's header lists.
use nova_connect.Prelude.{
  ℕ, ◌≡◌, Bool, true, false, not, ◌&&◌, ◌||◌, Option, none, some, String, List, [], ◌∷◌, arith, ltb,
  leb, if◌then◌else◌,
}

pub data Status : Type 0 where
  online : Status
  offline : Status
  ooo : Status
  dnd : Status
  busy : Status
  away : Status
  brb : Status
  in_meeting : Status
  in_call : Status
  presenting : Status

abbrev pub is : Status → Status → Bool
is online online = true
is offline offline = true
is ooo ooo = true
is dnd dnd = true
is busy busy = true
is away away = true
is brb brb = true
is in_meeting in_meeting = true
is in_call in_call = true
is presenting presenting = true
is _ _ = false

-- The columns of a person that the code reads.
pub record Row : Type 0 where
  pub ooo_enabled : Bool
  pub ooo_message : Option String
  pub ooo_start_at : Option ℕ
  pub ooo_end_at : Option ℕ
  pub status_message : Option String
  pub status_message_expires_at : Option ℕ

unfoldable pub is_out_of_office : Row → ℕ → Bool
is_out_of_office row now =
    if not row.ooo_enabled
    then false
    else if (elim row.ooo_start_at [ none ↦ false | some t ↦ ltb now t ])
    then false
    else if (elim row.ooo_end_at [ none ↦ false | some t ↦ leb t now ])
    then false
    else true

-- The facts that src/realtime.js gathers.
pub record Facts : Type 0 where
  pub connected : Bool
  pub chosen : Option Status
  pub call : Option Status
  pub calendar_meeting : Bool
  pub out_of_office : Bool
  pub idle : Bool

abbrev pub picked : Facts → Status
picked f = elim f.chosen [ none ↦ online | some s ↦ s ]

unfoldable pub shown_status : Facts → Status
shown_status f =
    let p = picked f in
    if not f.connected || is p offline
    then (if f.out_of_office then ooo else offline)
    else if is p dnd
    then dnd
    else elim f.call [
      | some c ↦ c
      | none ↦
          if f.out_of_office && not (is p busy)
          then ooo
          else if f.calendar_meeting && is p online
          then in_meeting
          else if f.idle && is p online
          then away
          else p
    ]

unfoldable pub out_of_office_summary : Row → ℕ → Option (String × Option ℕ)
out_of_office_summary row now =
    if is_out_of_office row now
    then some ((elim row.ooo_message [ none ↦ "" | some m ↦ m ]), row.ooo_end_at)
    else none

-- What is left of a row for other people: the message while it has not expired, and the summary.
unfoldable pub participant_presence : Row → ℕ → Option String × Option (String × Option ℕ)
participant_presence row now = (
  (elim row.status_message_expires_at [
    | none ↦ row.status_message
    | some t ↦ if leb t now then none else row.status_message
  ]),
  out_of_office_summary row now,
)

-- The first rule of a list that applies.
abbrev pub first_rule : List (Bool × Status) → Status → Status
first_rule [] s = s
first_rule ((b, s) ∷ rs) z = if b then s else first_rule rs z

abbrev call_status : Facts → Status
call_status f = elim f.call [ none ↦ online | some c ↦ c ]

abbrev in_a_call : Facts → Bool
in_a_call f = elim f.call [ none ↦ false | some _ ↦ true ]

abbrev reachable : Facts → Bool
reachable f = f.connected && not (is (picked f) offline)

-- The header's rules, strongest first, each on its own.
abbrev pub rules : Facts → List (Bool × Status)
rules f =
    (not (reachable f) && f.out_of_office, ooo)
    ∷ (not (reachable f), offline)
    ∷ (is (picked f) dnd, dnd)
    ∷ (in_a_call f, call_status f)
    ∷ (f.out_of_office && not (is (picked f) busy), ooo)
    ∷ (f.calendar_meeting && is (picked f) online, in_meeting)
    ∷ (f.idle && is (picked f) online, away)
    ∷ []

-- The shown status is that of the first of the header's rules that applies, and the chosen status
-- where none does.
pub shown_status-first_rule : (f : Facts) → shown_status f ≡ first_rule (rules f) (picked f)
unfolding shown_status
shown_status-first_rule f = ground arith

-- Appear offline cannot be told from being away from the app, whatever else holds of the person.
pub shown_status-appear_offline :
    (f : Facts)
    → shown_status (record f { chosen = some offline })
      ≡ shown_status (record f { connected = false })
unfolding shown_status
shown_status-appear_offline f = ground arith
