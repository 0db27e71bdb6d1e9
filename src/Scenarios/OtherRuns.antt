-- ===== src/Scenarios/OtherRuns.antt =====
-- A person's presence, an out-of-office form, and the conflicts of a planned meeting.
use nova_connect.Prelude.{
  ◌≡◌, refl, true, false, none, some, List, [], ◌∷◌, arith, ok, inl, lookup, insert, nat_eq,
}
use nova_connect.Presence.Rules.{in_call, Row, Facts}
use nova_connect.Presence.Form.{at, Form, time_of, to_db_time, parse_out_of_office, LastsASecond}
use nova_connect.Calendar.Conflicts.{
  Occurrence, Busy, Item, Person, Conflicts, overlaps, item_of, note, note_all, by_person, place,
  sort, distinct_starts, conflicts_of, collect, group_conflicts,
}
use nova_connect.Calendar.ConflictLaws.{Justified, group_conflicts-Justified}

abbrev facts : Facts
facts = record {
  connected = true;
  chosen = none;
  call = some in_call;
  calendar_meeting = true;
  out_of_office = true;
  idle = false;
}

abbrev form : Form
form = record {
  enabled = some true;
  message = "Away";
  message_length = 4;
  start_at = at 5000;
  end_at = at 90000;
}

abbrev row : Row
row = record {
  ooo_enabled = true;
  ooo_message = some "Away";
  ooo_start_at = some 5;
  ooo_end_at = some 90;
  status_message = none;
  status_message_expires_at = none;
}

form-row : parse_out_of_office form 2000 ≡ ok row
unfolding parse_out_of_office time_of to_db_time
form-row = refl

form-LastsASecond : LastsASecond form 2000
form-LastsASecond = (λ s e p q. ground (arith, p, q), λ e q. ground (arith, q))

abbrev short_form : Form
short_form = record form { start_at = at 5100; end_at = at 5900 }

abbrev short_row : Row
short_row = record row { ooo_start_at = some 5; ooo_end_at = some 5 }

short_form-row : parse_out_of_office short_form 2000 ≡ ok short_row
unfolding parse_out_of_office time_of to_db_time
short_form-row = refl

-- Ann (1) plans a meeting; Bob (2) has one that she is not invited to.
abbrev planned : List Occurrence
planned = record { start_at = 100; end_at = 200 } ∷ []

abbrev bobs : Busy
bobs = record {
  user_id = 2;
  meeting_id = 9;
  title = "Secret";
  start_at = 150;
  end_at = 160;
  all_day = false;
}

abbrev people : List Person
people = record { id = 1; full_name = "Ann" } ∷ record { id = 2; full_name = "Bob" } ∷ []

abbrev bobs_item : Item
bobs_item = record {
  occurrence_start = 100;
  meeting_id = 9;
  start_at = 150;
  end_at = 160;
  all_day = false;
  title = none;
}

abbrev bobs_conflicts : Conflicts
bobs_conflicts = record {
  user_id = 2;
  full_name = "Bob";
  is_me = false;
  affected = 1;
  items = bobs_item ∷ [];
}

group_conflicts-Justified_example : Justified [] planned (bobs ∷ []) 2 bobs_item
unfolding group_conflicts by_person note_all note overlaps item_of lookup insert collect
    conflicts_of sort place distinct_starts
group_conflicts-Justified_example =
    group_conflicts-Justified (λ a b. true) planned (bobs ∷ []) people 1 [] bobs_conflicts bobs_item
      (inl refl) (inl refl)
