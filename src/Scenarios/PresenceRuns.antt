-- ===== src/Scenarios/PresenceRuns.antt =====
-- Connections, refreshes and disconnections of a few people.
use nova_connect.Prelude.{
  ◌+◌, ◌≡◌, ◌↔◌, refl, true, false, none, some, List, [], ◌∷◌, length, lookup, inl, nat_eq, pair_eq,
}
use nova_connect.Rooms.{RoomUser, RoomId, meet, gcall, room_eq}
use nova_connect.Presence.Rules.{online, offline, dnd, in_call, Row}
use nova_connect.Presence.Devices.{
  web, iphone, Event, connected, turned, disconnected, run, initial, all_idle,
}
use nova_connect.Presence.Away.{Idle, run-all_idle}
use nova_connect.Presence.Grace
use nova_connect.Presence.Grace.{Person, opened, job_started, announced, fired, write_ended}
use nova_connect.Presence.GraceLaws.{settled-stays}
use nova_connect.Presence.Gone.{Gone, closed-Gone}
use nova_connect.Presence.Refresh.{
  Account, Seen, Users, shown_for, refresh_read, refresh_write, sweep,
}
use nova_connect.Presence.Sweep.{Swept, refresh-shown, sweep-Swept}

abbrev devices : List Event
devices = connected 10 1 web ∷ connected 11 1 iphone ∷ turned 10 true ∷ disconnected 11 ∷ []

run-all_idle_example : (all_idle 1 (run devices initial) ≡ true) ↔ Idle 1 (run devices initial)
run-all_idle_example = run-all_idle 1 devices

abbrev entry : RoomId → RoomUser
entry room = record {
  room_id = room;
  peer_id = (1, 10);
  user_id = 1;
  full_name = "Ann";
  owner_id = none;
  in_lobby = false;
  waiting = false;
  hand = false;
  mic_off = false;
  cam_off = false;
  captions = false;
}

abbrev entries : List RoomUser
entries = entry (meet "m") ∷ entry (gcall 7) ∷ []

-- A person reconnects after the timer has fired and before its job runs.
abbrev before : List Grace.Event
before =
    opened 10
    ∷ job_started
    ∷ announced 10 online 5
    ∷ Grace.closed 10 6
    ∷ fired (0, 6)
    ∷ opened 11
    ∷ job_started
    ∷ job_started
    ∷ announced 11 online 7
    ∷ []

abbrev row : Row
row = record {
  ooo_enabled = false;
  ooo_message = none;
  ooo_start_at = none;
  ooo_end_at = none;
  status_message = none;
  status_message_expires_at = none;
}

abbrev after : List Grace.Event
after = job_started ∷ write_ended row 8 false ∷ fired (0, 6) ∷ opened 12 ∷ []

settled-stays_example :
    (Grace.run after (Grace.run before (Grace.initial offline 0))).status
    ≡ (Grace.run before (Grace.initial offline 0)).status
unfolding Grace.run Grace.step Grace.initial Grace.reconnect Grace.cancel Grace.close
    Grace.start_grace Grace.fire Grace.is_valid Grace.begin_job Grace.start_job Grace.announce
settled-stays_example =
    settled-stays offline 0 11 before after (inl refl) (tt, (tt, (tt, (tt, tt))))

abbrev person : Person
person = record {
  entry = none;
  timers = [];
  queue = Grace.settle 9 ∷ [];
  writing = none;
  open_sockets = 10 ∷ [];
  ready = 10 ∷ [];
  settled = 10 ∷ [];
  status = online;
  last_seen = 5;
  next_entry = 3;
}

closed-Gone_example :
    Gone row 9
      (3, 6)
      (Grace.drain row 9 (length person.queue + 1) (Grace.fire (3, 6) (Grace.close 10 6 person)))
closed-Gone_example = closed-Gone row 9 10 6 person refl refl

abbrev ann : Account
ann = record { row = row; status = offline; preference = none; last_seen = 5 }

abbrev bob : Account
bob = record { row = row; status = online; preference = some dnd; last_seen = 5 }

abbrev users : Users
users = (1, ann) ∷ (2, bob) ∷ []

abbrev seen : Seen
seen = record { connected = true; call = some in_call; meeting = false; idle = false }

refresh-shown_example :
    lookup 1 (refresh_write 1 (refresh_read 1 seen 9 users) users).0
    ≡ some (record ann { status = shown_for ann none seen 9 })
unfolding lookup
refresh-shown_example = refresh-shown 1 1 ann seen 9 users refl refl

-- Ann chooses Do not disturb in between.
abbrev changed : Users
changed = (1, record ann { status = dnd; preference = some dnd }) ∷ (2, bob) ∷ []

sweep-Swept_example : Swept bob seen 9 (lookup 2 (sweep (λ u. seen) 9 users).0)
unfolding lookup
sweep-Swept_example = sweep-Swept (λ u. seen) 9 2 bob users (refl, (refl, tt)) refl
