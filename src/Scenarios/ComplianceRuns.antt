-- ===== src/Scenarios/ComplianceRuns.antt =====
-- A channel (5) with an old message (1), an old one of a person on hold (2), and a thread whose post
-- (3) is old and whose reply (4) is new.
use nova_connect.Prelude.{
  ℕ, ◌≡◌, refl, Bool, true, false, Option, none, some, String, List, [], ◌∷◌, arith, inl, inr,
}
use nova_connect.Compliance.Tables.{Message, person, Attachment, Tables}
use nova_connect.Compliance.Holds.{participates, covers, held}
use nova_connect.Compliance.Files.{
  attached, files_of, key_used, thumb_used, delete_file, remove_key, remove_thumb, see,
  remove_stored_files,
}
use nova_connect.Compliance.Retention.{
  channels, in_reach, pending_card, expired, has_replies, leaves, posts, delete_messages,
  clear_messages, Counts, delete_batch, clear_batch, delete_loop, clear_loop, purge_scope,
}
use nova_connect.Compliance.Runs.{
  Policy, Line, Run, cutoff_for, person_held, kept_lines, run_channels, run_chats, run_retention,
}
use nova_connect.Compliance.RunLaws.{RunSafe, run_retention-RunSafe}
use nova_connect.Compliance.Purging.{UniqueIds, HeldSafe}
use nova_connect.Compliance.PurgeSafety.{purge_scope-HeldSafe}
use nova_connect.Compliance.PurgeEnds.{purge_scope_ends}
use nova_connect.Compliance.PurgeComplete.{IsPurged, purge_scope-IsPurged}
use nova_connect.Compliance.Preservation.{purged, deleted, Steps, here, and_then, Secured}
use nova_connect.Compliance.Copies.{Steps-Secured}
use nova_connect.Compliance.Deletion.{delete_for_everyone}

abbrev message : ℕ → ℕ → Option ℕ → ℕ → String → Message
message id user parent created body = record {
  id = id;
  user_id = user;
  channel_id = some 5;
  conversation_id = none;
  parent = parent;
  created_at = created;
  deleted = false;
  body = body;
  metadata = none;
}

abbrev old : Message
old = message 1 1 none 10 "old"

abbrev held_message : Message
held_message = message 2 2 none 20 "held"

abbrev post : Message
post = message 3 1 none 30 "post"

abbrev reply : Message
reply = message 4 1 (some 3) 900 "reply"

abbrev files : List Attachment
files =
    record { id = 1; message_id = 1; file = record { key = "k1"; thumb_key = none } }
    ∷ record { id = 2; message_id = 2; file = record { key = "k2"; thumb_key = none } }
    ∷ []

abbrev tables : Tables
tables = record {
  messages = old ∷ held_message ∷ post ∷ reply ∷ [];
  attachments = files;
  versions = [];
  recordings = [];
  edits = record { message_id = 2; body = "before" } ∷ [];
  holds = record { id = 1; scope_type = person; scope_id = 2; released = false } ∷ [];
  participants = [];
  preserved = [];
  objects = "k1" ∷ "k2" ∷ [];
}

abbrev cleared_post : Message
cleared_post = record post { deleted = true; body = ""; metadata = none }

-- After the purge.
abbrev purged_tables : Tables
purged_tables = record tables {
  messages = held_message ∷ cleared_post ∷ reply ∷ [];
  attachments =
      record { id = 2; message_id = 2; file = record { key = "k2"; thumb_key = none } } ∷ [];
  objects = "k2" ∷ [];
}

abbrev counts : Counts
counts = record { deleted = 1; cleared = 1; files = 1 }

abbrev always : String → Bool
always k = true

purge_run : purge_scope always channels 100 5 tables ≡ some (purged_tables, counts)
unfolding purge_scope delete_loop clear_loop leaves posts expired in_reach pending_card has_replies
    held covers participates delete_batch clear_batch delete_messages clear_messages files_of
    attached remove_stored_files remove_key remove_thumb delete_file see key_used thumb_used
purge_run = refl

tables-UniqueIds : UniqueIds tables.messages
tables-UniqueIds m n i j e = ground (arith, i, j, e)

purge_scope-HeldSafe_example : HeldSafe tables purged_tables
purge_scope-HeldSafe_example =
    purge_scope-HeldSafe always channels 100 5 counts tables purged_tables tables-UniqueIds
      purge_run

purge_scope-IsPurged_example : IsPurged channels 100 purged_tables
purge_scope-IsPurged_example =
    purge_scope-IsPurged always channels 100 5 counts tables purged_tables tables-UniqueIds
      (λ m i h. ground (arith, i, h)) purge_run

purge_scope_ends_example :
    (p : Tables × Counts) × (purge_scope always channels 100 5 tables ≡ some p)
purge_scope_ends_example = purge_scope_ends always channels 100 5 tables (omega arith)

-- The held message is deleted by its author after the purge.
held-Secured : Secured held_message tables
unfolding held covers
held-Secured = record { unique = tables-UniqueIds; on_hold = refl; there = inl (inr (inl refl)) }

abbrev final : Tables
final = (delete_for_everyone held_message false 2 purged_tables).0

purge_then_delete : Steps tables final
purge_then_delete =
    and_then (purged always channels 100 5 counts purge_run)
      (and_then (deleted held_message false 2 (inl refl)) here)

Steps-Secured_example : Secured held_message final
Steps-Secured_example = Steps-Secured held_message tables final purge_then_delete refl held-Secured

-- A run of a policy of 30 days for channels, 100 seconds after the 30 days.
abbrev policy : Policy
policy = record { channel_days = some 30; chat_days = some 30 }

abbrev chat_lines : List Line
chat_lines = record { user_id = 2; created_at = 5 } ∷ record { user_id = 1; created_at = 5 } ∷ []

abbrev after_run : Run
after_run = record {
  tables = purged_tables;
  lines = record { user_id = 2; created_at = 5 } ∷ [];
  channel = some counts;
  chat = some (record { deleted = 0; cleared = 0; files = 0 });
}

policy_run : run_retention always policy 2592100 5 tables chat_lines ≡ some after_run
unfolding run_retention run_channels run_chats kept_lines person_held cutoff_for purge_scope
    delete_loop clear_loop leaves posts expired in_reach pending_card has_replies held covers
    participates delete_batch clear_batch delete_messages clear_messages files_of attached
    remove_stored_files remove_key remove_thumb delete_file see key_used thumb_used
policy_run = refl

run_retention-RunSafe_example : RunSafe tables chat_lines after_run
run_retention-RunSafe_example =
    run_retention-RunSafe always policy 2592100 5 tables chat_lines after_run tables-UniqueIds
      policy_run
