-- ===== src/Messages/Scheduled.antt =====
-- Scheduled messages: the requests of src/routes/messages.js and src/routes/dm.js, and `deliverDue` and
-- `deliverOne` of src/scheduler.js. A time is in seconds, and a text is what `trim` leaves.
use nova_connect.Prelude.{
  ℕ, ◌+◌, Bool, true, false, not, ◌&&◌, Option, none, some, String, List, [], ◌∷◌, Map, keep,
  lookup, insert, has, ltb, leb, if◌then◌else◌, Result, ok, ◌>>=◌, ◌>>◌, guard, found, ◌==◌, nat_eq,
  pair_eq, string_eq,
}
use nova_connect.Messages.State.{
  Store, Place, in_channel, in_chat, Error, no_access, empty_message, no_message,
}
use nova_connect.Messages.Access.{load_channel_for_user}
use nova_connect.Messages.Posting.{no_file, new_message, store_message, show_chat}

pub data Status : Type 0 where
  pending : Status
  sent : Status
  cancelled : Status
  failed : Status

abbrev pub is_pending : Status → Bool
is_pending pending = true
is_pending sent = false
is_pending cancelled = false
is_pending failed = false

pub record Scheduled : Type 0 where
  pub place : Place
  pub user_id : ℕ
  pub body : String
  pub parent : Option ℕ
  pub send_at : ℕ
  pub status : Status

pub record Board : Type 0 where
  pub store : Store
  pub scheduled : Map ℕ Scheduled
  pub next : ℕ

pub data Refusal : Type 0 where
  refused : Error → Refusal
  too_early : Refusal
  not_pending : Refusal

abbrev pub has_access : Place → ℕ → Store → Bool
has_access (in_channel c) me s = elim (load_channel_for_user c me s.teams) [
  | none ↦ false
  | some ch ↦ true
]
has_access (in_chat d) me s = has (d, me) s.seats

-- `parseSendAt`: a time at least a minute ahead.
unfoldable pub parse_send_at : Option ℕ → ℕ → Option ℕ
parse_send_at none now = none
parse_send_at (some t) now = if ltb (now + 60) t then some t else none

-- POST …/messages/schedule, in a channel and in a chat.
unfoldable pub schedule :
    Place → String → Option ℕ → Option ℕ → ℕ → ℕ → Board → Result Refusal Board
schedule place body parent send_at now me b = do
  guard (has_access place me b.store) (refused no_access)
  guard (not (body == "")) (refused empty_message)
  t ← found too_early (parse_send_at send_at now)
  ok (record b {
    scheduled =
        insert b.next
          (record {
            place = place;
            user_id = me;
            body = body;
            parent = parent;
            send_at = t;
            status = pending;
          })
          b.scheduled;
    next = b.next + 1;
  })

-- `UPDATE scheduled_messages SET status = ? WHERE id = ?`
unfoldable pub mark : ℕ → Status → Board → Board
mark id status b = record b {
  scheduled = elim (lookup id b.scheduled) [
    | none ↦ b.scheduled
    | some row ↦ insert id (record row { status = status }) b.scheduled
  ];
}

-- DELETE /api/scheduled-messages/:id
unfoldable pub cancel : ℕ → ℕ → Board → Result Refusal Board
cancel id me b = do
  row ← found (refused no_message) (lookup id b.scheduled)
  guard (row.user_id == me) (refused no_message)
  guard (is_pending row.status) not_pending
  ok (mark id cancelled b)

-- How a delivery ends: it is done, or it throws before the message is stored (`lost`), or after
-- (`broken`). The mark of a failed one can fail as well, which `.catch(() => {})` passes over.
pub data Outcome : Type 0 where
  done : Outcome
  lost : Outcome
  broken : Outcome
  lost_unmarked : Outcome
  broken_unmarked : Outcome

-- The message, and the chat's rows.
unfoldable pub post : Scheduled → ℕ → Board → Board
post row now b =
    let s =
      store_message (new_message row.place row.user_id row.body row.parent none now) no_file
        b.store in
    record b { store = elim row.place [ in_channel c ↦ s | in_chat d ↦ show_chat d row.user_id s ] }

-- One round of the loop of `deliverDue`: `deliverOne`, or its `catch`.
unfoldable pub deliver_one : Outcome → ℕ → ℕ → Scheduled → Board → Board
deliver_one done now id row b = mark id sent (post row now b)
deliver_one lost now id row b = mark id failed b
deliver_one broken now id row b = mark id failed (post row now b)
deliver_one lost_unmarked now id row b = b
deliver_one broken_unmarked now id row b = post row now b

unfoldable pub deliver_each : (ℕ → Outcome) → ℕ → List (ℕ × Scheduled) → Board → Board
deliver_each ends now [] b = b
deliver_each ends now ((id, row) ∷ rows) b =
    deliver_each ends now rows (deliver_one (ends id) now id row b)

abbrev pub is_due : ℕ → ℕ × Scheduled → Bool
is_due now e = is_pending e.1.status && leb e.1.send_at now

-- The rows that `deliverDue` reads.
unfoldable pub due : ℕ → Board → List (ℕ × Scheduled)
due now b = keep (is_due now) b.scheduled

-- `deliverDue`, when nothing comes between its statements.
unfoldable pub deliver_due : (ℕ → Outcome) → ℕ → Board → Board
deliver_due ends now b = deliver_each ends now (due now b) b
