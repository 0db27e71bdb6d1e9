-- ===== src/Compliance/Deletion.antt =====
-- Deleting a message for everyone, with the copy that a hold keeps: src/messageDelete.js and
-- `preserveMessage` of src/legalHold.js.
use nova_connect.Prelude.{
  ℕ, Bool, true, false, not, some, List, [], ◌∷◌, ◌++◌, keep, map, if◌then◌else◌, ◌==◌, nat_eq,
}
use nova_connect.Compliance.Tables.{Metadata, Message, Attachment, Edit, Tables}
use nova_connect.Compliance.Holds.{holds_for}

-- `preserveMessage`
unfoldable pub preserve_message : Message → List ℕ → Bool → ℕ → Tables → Tables
preserve_message m hold_ids recalled by_user t = record t {
  preserved =
      t.preserved
      ++ record {
        message_id = m.id;
        hold_ids = hold_ids;
        author_id = m.user_id;
        body = m.body;
        metadata = m.metadata;
        edits = keep (λ (e : Edit). e.message_id == m.id) t.edits;
        files = keep (λ (a : Attachment). a.message_id == m.id) t.attachments;
        recalled = recalled;
        by_user = by_user;
      }
        ∷ [];
}

-- `JSON.stringify({ recalled: true })`
abbrev pub recalled_metadata : Metadata
recalled_metadata = record {
  card = false;
  pending = false;
  recalled = true;
  text = "{\"recalled\":true}";
}

-- The row after the update.
abbrev pub emptied_row : Message → Bool → Message → Message
emptied_row msg recalled m = record m {
  deleted = true;
  body = "";
  metadata = if recalled then some recalled_metadata else msg.metadata;
}

-- The two writes that always happen.
unfoldable pub wipe : Message → Bool → Tables → Tables
wipe msg recalled t = record t {
  messages =
      map (λ (m : Message). if m.id == msg.id then emptied_row msg recalled m else m) t.messages;
  edits = keep (λ (e : Edit). not (e.message_id == msg.id)) t.edits;
}

-- `deleteForEveryone`: `msg` is the row as its caller read it. The answer is the list of the holds
-- that kept a copy.
unfoldable pub delete_for_everyone : Message → Bool → ℕ → Tables → Tables × List ℕ
delete_for_everyone msg recalled by_user t =
    let hold_ids = if msg.deleted then [] else holds_for t msg.id in
    elim hold_ids [
      | [] ↦ (wipe msg recalled t, [])
      | h ∷ hs ↦ (wipe msg recalled (preserve_message msg (h ∷ hs) recalled by_user t), h ∷ hs)
    ]
