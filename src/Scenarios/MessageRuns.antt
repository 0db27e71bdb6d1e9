-- ===== src/Scenarios/MessageRuns.antt =====
-- Ann (1) and Bob (2) write in a channel of their team and in a chat, and one message is scheduled.
use nova_connect.Prelude.{
  ℕ, In, ◌≡◌, ◌↔◌, ◌≢◌, refl, true, false, none, some, String, [], ◌∷◌, ◌++◌, arith, lookup, ok, In,
  nat_eq, pair_eq, string_eq,
}
use nova_connect.Teams.State.{owner, member, initial, Db}
use nova_connect.Teams.Membership.{run}
use nova_connect.Messages.State.{
  Message, Seat, Store, in_channel, in_chat, emitted, indexed, message_update,
}
use nova_connect.Messages.Access.{load_channel_for_user, channel_scope, load_message}
use nova_connect.Messages.Scopes.{channel_scope-access}
use nova_connect.Messages.Changing.{edited_metadata, replace_text, edit}
use nova_connect.Messages.Requests.{edits, handle, store_after, KeepsWords, handle-KeepsWords}
use nova_connect.Messages.History.{Edited, edit-Edited}
use nova_connect.Messages.Gaps.{edit-deleted}
use nova_connect.Messages.Scheduled.{
  Scheduled, Board, pending, sent, failed, cancelled, done, broken, Outcome, cancel, due,
  deliver_each, deliver_due,
}
use nova_connect.Messages.Delivery.{deliver_due-status}
use nova_connect.Messages.Cancelled.{message_of, cancelled-sent}
use nova_connect.Messages.Versions.{
  Columns, Version, Current, File, written, kept_version, replace_current, can_change, restore,
}
use nova_connect.Messages.VersionLaws.{IsNumbered, IsFilled, KeepsCurrent, restore-restore}
use nova_connect.Scenarios.TeamRuns.{users, requests}

channel_scope-access_example :
    In 2 (channel_scope 1 (run requests (initial users)))
    ↔ (load_channel_for_user 2 1 (run requests (initial users)) ≢ none)
channel_scope-access_example = channel_scope-access users requests 2 1

abbrev teams : Db
teams = record (initial users) {
  teams = (1, record { name = "Lab"; require_approval = true }) ∷ [];
  members = ((1, 1), owner) ∷ ((1, 2), member) ∷ [];
  channels = (1, record { team = 1; name = "general"; private = false }) ∷ [];
}

abbrev hello : Message
hello = record {
  user_id = 1;
  channel_id = some 1;
  conversation_id = none;
  parent = none;
  body = "hello";
  metadata = none;
  created_at = 10;
  edited = false;
  deleted = false;
  pinned = none;
}

abbrev gone : Message
gone = record hello { body = ""; deleted = true }

abbrev hidden : Seat
hidden = record { hidden = true; unread = false }

abbrev store : Store
store = record {
  teams = teams;
  seats = ((5, 1), hidden) ∷ ((5, 2), hidden) ∷ [];
  messages = (1, hello) ∷ (2, gone) ∷ [];
  next_message = 3;
  edits = [];
  reactions = [];
  files = [];
}

-- Bob tries to edit the message of Ann.
handle-KeepsWords_example :
    (m : Message) × (lookup 1 (store_after store (handle (edits 1 "bye" none 30) 2 store)).messages
      ≡ some m)
    × KeepsWords hello m
unfolding lookup
handle-KeepsWords_example =
    handle-KeepsWords store 1 2 hello refl (omega arith) refl (edits 1 "bye" none 30)

edit-Edited_example :
    Edited false 1 "bye" none 30 hello store (replace_text 1 hello "bye" none 30 store)
unfolding edit lookup load_message load_channel_for_user initial edited_metadata
edit-Edited_example =
    edit-Edited false 1 "bye" none 30 1 hello store (replace_text 1 hello "bye" none 30 store)
      (emitted (in_channel 1) message_update 1 ∷ indexed 1 ∷ []) refl refl

abbrev forwarded : Message
forwarded = record hello {
  metadata = some (record { gif_url = none; announcement = none; forwarded_from = some 1 });
  created_at = 30;
}

-- What is stored by Ann's forwarding with a channel and a chat.
abbrev both : Store
both = record store {
  seats =
      ((5, 1), record { hidden = false; unread = false })
      ∷ ((5, 2), record { hidden = false; unread = true })
      ∷ [];
  messages = (1, hello) ∷ (2, gone) ∷ (3, forwarded) ∷ [];
  next_message = 4;
}

edit-deleted_example :
    (t : Store) × (edit 2 "back" none 40 1 store
      ≡ ok (t, emitted (in_channel 1) message_update 2 ∷ indexed 2 ∷ []))
    × (lookup 2 t.messages ≡ some (record gone { body = "back"; edited = true; deleted = true }))
unfolding load_message load_channel_for_user initial lookup
edit-deleted_example = edit-deleted 2 40 1 "back" gone (in_channel 1) store refl refl refl refl refl

abbrev row : Scheduled
row = record {
  place = in_chat 5;
  user_id = 1;
  body = "morning";
  parent = none;
  send_at = 100;
  status = pending;
}

abbrev board : Board
board = record { store = store; scheduled = (7, row) ∷ []; next = 8 }

-- The first delivery throws after the message is stored.
abbrev ends : ℕ → Outcome
ends v = broken

deliver_due-status_example :
    lookup 7 (deliver_due ends 120 board).scheduled ≡ some (record row { status = failed })
unfolding lookup
deliver_due-status_example = deliver_due-status ends 120 7 row board (refl, tt) refl

cancelled-sent_example :
    (c : Board) × (cancel 7 1 board ≡ ok c)
    × (lookup 7 c.scheduled ≡ some (record row { status = cancelled }))
    × (lookup 7 (deliver_each (λ v. done) 120 (due 120 board) c).scheduled
        ≡ some (record row { status = sent }))
    × ((i : ℕ) × (lookup i (deliver_each (λ v. done) 120 (due 120 board) c).store.messages
          ≡ some (message_of row 120)))
unfolding lookup
cancelled-sent_example = cancelled-sent (λ v. done) 120 7 row board (refl, tt) refl refl refl

abbrev columns : String → Columns
columns name = record {
  filename = name;
  storage_key = none;
  storage_driver = none;
  original_name = "plan.pdf";
  mime_type = "application/pdf";
  size = 4;
  thumb_key = none;
  thumb_driver = none;
  thumb_mime = none;
  image_width = none;
  image_height = none;
  thumb_state = some "none";
}

abbrev second : Current
second = record {
  columns = columns "b";
  version_no = 2;
  comment = none;
  version_by = some 1;
  version_at = some 20;
  uploaded_by = 1;
  created_at = 10;
}

abbrev file : File
file = record {
  current = second;
  versions =
      record {
        version_no = 1;
        columns = columns "a";
        uploaded_by = 1;
        uploaded_at = 10;
        comment = none;
      }
      ∷ [];
}

-- The first version is restored.
abbrev back : File
back = record {
  current = record second {
    columns = columns "a";
    version_no = 3;
    comment = some "restored";
    version_by = some 1;
    version_at = some 30;
  };
  versions =
      file.versions
      ++ record {
        version_no = 2;
        columns = columns "b";
        uploaded_by = 1;
        uploaded_at = 20;
        comment = none;
      }
        ∷ [];
}

file-IsNumbered : IsNumbered file
file-IsNumbered = record { kept = (refl, tt); next = refl; room = omega arith }

columns-IsFilled : IsFilled (columns "b")
columns-IsFilled = record {
  width = λ e. cc (e);
  height = λ e. cc (e);
  state = "none";
  has_state = refl;
}

restore-restore_example :
    (h : File) × (restore (λ n. some "restored") false false 2 40 1 back ≡ ok h)
    × (h.current.columns ≡ second.columns)
    × (p : Version) × (q : Version) × (h.versions ≡ file.versions ++ p ∷ q ∷ [])
    × KeepsCurrent second p
    × KeepsCurrent back.current q
unfolding restore replace_current can_change kept_version written
restore-restore_example =
    restore-restore (λ n. some "restored") false 1 1 30 40 file back file-IsNumbered
      columns-IsFilled refl (omega arith)
