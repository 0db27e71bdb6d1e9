-- ===== src/Presence/Grace.antt =====
-- `createPresenceGrace` of src/presence-grace.js with its use in src/realtime.js, for one person: the
-- maps `states` and `queues` are keyed by the person, and nothing in them depends on another. Work in
-- a queue starts when what is before it has ended. A timer may fire at any time after it is set, so
-- that its length does not matter.
use nova_connect.Prelude.{
  ℕ, zero, suc, ◌+◌, Bool, true, false, not, ◌&&◌, Option, none, some, List, [], ◌∷◌, ◌++◌, keep,
  any, if◌then◌else◌, ◌==◌, nat_eq, pair_eq,
}
use nova_connect.Presence.Rules.{Status, Row, is_out_of_office, shown_status}

-- A value of `states`: an object of its own, told apart by a number, with its `lastSeen`.
abbrev pub Entry : Type 0
Entry = ℕ × ℕ

pub data Job : Type 0 where
  settle : ℕ → Job
  go_offline : Entry → Job

-- `writing` is the entry of a job that is in its `await write(…)`; `open_sockets` are the person's
-- sockets, `ready` the sockets, open or not, whose setup is past `await settledPresence`, and `settled`
-- those of them that are still open. The columns are the person's `users.status` and `users.last_seen_at`.
pub record Person : Type 0 where
  pub entry : Option Entry
  pub timers : List Entry
  pub queue : List Job
  pub writing : Option Entry
  pub open_sockets : List ℕ
  pub ready : List ℕ
  pub settled : List ℕ
  pub status : Status
  pub last_seen : ℕ
  pub next_entry : ℕ

abbrev pub without : ℕ → List ℕ → List ℕ
without k ks = keep (λ j. not (j == k)) ks

abbrev pub is_entry : Entry → Option Entry → Bool
is_entry e none = false
is_entry e (some d) = d == e

-- `clearTimeout(state.timer)` of the entry that is there.
unfoldable pub cancel : Option Entry → List Entry → List Entry
cancel none ts = ts
cancel (some e) ts = keep (λ t. not (t == e)) ts

-- `reconnect`, and the new socket.
unfoldable pub reconnect : ℕ → Person → Person
reconnect k p = record p {
  entry = none;
  timers = cancel p.entry p.timers;
  queue = p.queue ++ settle k ∷ [];
  open_sockets = p.open_sockets ++ k ∷ [];
}

-- `disconnect`, at the time `now`.
unfoldable pub start_grace : ℕ → Person → Person
start_grace now p =
    let e : Entry = (p.next_entry, now) in
    record p {
      entry = some e;
      timers = cancel p.entry p.timers ++ e ∷ [];
      next_entry = p.next_entry + 1;
    }

abbrev pub nobody : List ℕ → Bool
nobody [] = true
nobody (k ∷ ks) = false

-- A socket of the person closes.
unfoldable pub close : ℕ → ℕ → Person → Person
close k now p =
    let q = record p { open_sockets = without k p.open_sockets; settled = without k p.settled } in
    if nobody q.open_sockets then start_grace now q else q

-- The function of the timer.
unfoldable pub fire : Entry → Person → Person
fire e p =
    if any (λ t. t == e) p.timers
    then record p {
      timers = keep (λ t. not (t == e)) p.timers;
      queue = p.queue ++ go_offline e ∷ [];
    }
    else p

-- `valid()`
unfoldable pub is_valid : Entry → Person → Bool
is_valid e p = is_entry e p.entry && nobody p.open_sockets

-- A job begins: the empty one of a connection lets its setup go on, whether or not the socket is still
-- open, and that of a timer checks `valid()`.
unfoldable pub begin_job : Job → Person → Person
begin_job (settle k) p =
    let q = record p { ready = p.ready ++ k ∷ [] } in
    if any (λ i. i == k) p.open_sockets then record q { settled = p.settled ++ k ∷ [] } else q
begin_job (go_offline e) p = if is_valid e p then record p { writing = some e } else p

-- The next job of the queue starts, once the one before has ended.
unfoldable pub start_job : Person → Person
start_job p = elim p.writing [
  | some _ ↦ p
  | none ↦ elim p.queue [ [] ↦ p | j ∷ js ↦ begin_job j (record p { queue = js }) ]
]

-- The status of someone who has gone: the write's own `shownStatus`.
unfoldable pub gone_status : Row → ℕ → Status
gone_status row now = shown_status (record {
  connected = false;
  chosen = none;
  call = none;
  calendar_meeting = false;
  out_of_office = is_out_of_office row now;
  idle = false;
})

-- `write` ends: it has stored the status, or it failed before.
unfoldable pub end_write : Row → ℕ → Bool → Person → Person
end_write row now fails p = elim p.writing [
  | none ↦ p
  | some e ↦ if fails then record p { writing = none } else record p {
    writing = none;
    status = gone_status row now;
    last_seen = e.1;
    entry = if is_entry e p.entry then none else p.entry;
  }
]

-- The setup of a socket stores its status, after the wait; nothing asks whether it is still open.
unfoldable pub announce : ℕ → Status → ℕ → Person → Person
announce k shown now p =
    if any (λ i. i == k) p.ready then record p { status = shown; last_seen = now } else p

pub data Event : Type 0 where
  opened : ℕ → Event
  closed : ℕ → ℕ → Event
  fired : Entry → Event
  job_started : Event
  write_ended : Row → ℕ → Bool → Event
  announced : ℕ → Status → ℕ → Event

-- A socket's id is new, and a socket closes once.
unfoldable pub step : Event → Person → Person
step (opened k) p = if any (λ i. i == k) p.open_sockets then p else reconnect k p
step (closed k now) p = if any (λ i. i == k) p.open_sockets then close k now p else p
step (fired e) p = fire e p
step job_started p = start_job p
step (write_ended row now fails) p = end_write row now fails p
step (announced k shown now) p = announce k shown now p

unfoldable pub run : List Event → Person → Person
run [] p = p
run (e ∷ es) p = run es (step e p)

unfoldable pub initial : Status → ℕ → Person
initial status last_seen = record {
  entry = none;
  timers = [];
  queue = [];
  writing = none;
  open_sockets = [];
  ready = [];
  settled = [];
  status = status;
  last_seen = last_seen;
  next_entry = 0;
}

-- The jobs of a queue, one after another, with writes that succeed.
unfoldable pub drain : Row → ℕ → ℕ → Person → Person
drain row now zero p = p
drain row now (suc jobs) p = drain row now jobs (end_write row now false (start_job p))
