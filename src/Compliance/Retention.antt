-- ===== src/Compliance/Retention.antt =====
-- Message retention: src/retention.js.
use nova_connect.Prelude.{
  ℕ, zero, suc, ◌+◌, Bool, true, false, not, ◌&&◌, Option, none, some, String, List, [], ◌∷◌, any,
  keep, map, take, length, ltb, if◌then◌else◌, nat_eq,
}
use nova_connect.Compliance.Tables.{Message, Attachment, Version, Edit, Tables, is_id, elem}
use nova_connect.Compliance.Holds.{held}
use nova_connect.Compliance.Files.{attached, files_of, remove_stored_files}

pub data Reach : Type 0 where
  channels : Reach
  chats : Reach

-- `SCOPE`
unfoldable pub in_reach : Reach → Message → Bool
in_reach channels m = elim m.channel_id [ none ↦ false | some _ ↦ true ]
in_reach chats m = elim m.conversation_id [ none ↦ false | some _ ↦ true ]

-- `PENDING_CARD`
unfoldable pub pending_card : Message → Bool
pending_card m = elim m.metadata [ none ↦ false | some d ↦ d.card && d.pending ]

-- `expiredSql`
unfoldable pub expired : Reach → ℕ → Tables → Message → Bool
expired reach cutoff t m =
    in_reach reach m && ltb m.created_at cutoff && not (pending_card m) && not (held t m)

-- `EXISTS (SELECT 1 FROM messages r WHERE r.parent_message_id = m.id)`
unfoldable pub has_replies : ℕ → List Message → Bool
has_replies i ms = any (λ (r : Message). is_id i r.parent) ms

abbrev pub batch : ℕ
batch = 500

-- The rows of the first query, and of the second.
unfoldable pub leaves : Reach → ℕ → Tables → List Message
leaves reach cutoff t =
    take batch
      (keep (λ m. expired reach cutoff t m && not (has_replies m.id t.messages)) t.messages)

unfoldable pub posts : Reach → ℕ → Tables → List Message
posts reach cutoff t = take batch (
    keep
      (λ m.
        expired reach cutoff t m
        && (elim m.parent [ none ↦ true | some _ ↦ false ])
        && not m.deleted)
      t.messages)

abbrev pub ids_of : List Message → List ℕ
ids_of ms = map (λ (m : Message). m.id) ms

-- `DELETE FROM messages WHERE id IN (…)`: attachments, their versions and edits go with the rows
-- (`ON DELETE CASCADE`). The rows have no replies.
unfoldable pub delete_messages : List ℕ → Tables → Tables
delete_messages ids t = record t {
  messages = keep (λ (m : Message). not (elem m.id ids)) t.messages;
  attachments = keep (λ (a : Attachment). not (elem a.message_id ids)) t.attachments;
  versions = keep (λ (v : Version). not (attached ids t.attachments v.attachment_id)) t.versions;
  edits = keep (λ (e : Edit). not (elem e.message_id ids)) t.edits;
}

abbrev pub cleared : Message → Message
cleared m = record m { deleted = true; body = ""; metadata = none }

-- The updates of the second loop's body.
unfoldable pub clear_messages : List ℕ → Tables → Tables
clear_messages ids t = record t {
  messages = map (λ (m : Message). if elem m.id ids then cleared m else m) t.messages;
  attachments = keep (λ (a : Attachment). not (elem a.message_id ids)) t.attachments;
  versions = keep (λ (v : Version). not (attached ids t.attachments v.attachment_id)) t.versions;
  edits = keep (λ (e : Edit). not (elem e.message_id ids)) t.edits;
}

pub record Counts : Type 0 where
  pub deleted : ℕ
  pub cleared : ℕ
  pub files : ℕ

-- One round of the first loop, over the rows it found.
unfoldable pub delete_batch : (String → Bool) → List Message → Tables → Tables × ℕ
delete_batch works rows t =
    let ids = ids_of rows in
    remove_stored_files works (files_of ids t) (record { keys = []; thumbs = [] })
      (delete_messages ids t)

unfoldable pub clear_batch : (String → Bool) → List Message → Tables → Tables × ℕ
clear_batch works rows t =
    let ids = ids_of rows in
    remove_stored_files works (files_of ids t) (record { keys = []; thumbs = [] })
      (clear_messages ids t)

-- The first loop of `purgeScope`; `none` where the fuel does not reach.
unfoldable pub delete_loop :
    (String → Bool) → Reach → ℕ → ℕ → Counts → Tables → Option (Tables × Counts)
delete_loop works reach cutoff zero counts t = none
delete_loop works reach cutoff (suc fuel) counts t = elim (leaves reach cutoff t) [
  | [] ↦ some (t, counts)
  | r ∷ rs ↦
      let b = delete_batch works (r ∷ rs) t in
      delete_loop works reach cutoff fuel
        (record counts { deleted = counts.deleted + length (r ∷ rs); files = counts.files + b.1 })
        b.0
]

-- The second loop, which stops at a short batch too.
unfoldable pub clear_loop :
    (String → Bool) → Reach → ℕ → ℕ → Counts → Tables → Option (Tables × Counts)
clear_loop works reach cutoff zero counts t = none
clear_loop works reach cutoff (suc fuel) counts t = elim (posts reach cutoff t) [
  | [] ↦ some (t, counts)
  | r ∷ rs ↦
      let b = clear_batch works (r ∷ rs) t in
      let now = record counts {
        cleared = counts.cleared + length (r ∷ rs);
        files = counts.files + b.1;
      } in
      elim (ltb (length (r ∷ rs)) batch) [
        | true ↦ some (b.0, now)
        | false ↦ clear_loop works reach cutoff fuel now b.0
      ]
]

-- `purgeScope`
unfoldable pub purge_scope : (String → Bool) → Reach → ℕ → ℕ → Tables → Option (Tables × Counts)
purge_scope works reach cutoff fuel t =
    elim (delete_loop works reach cutoff fuel (record { deleted = 0; cleared = 0; files = 0 }) t) [
      | none ↦ none
      | some p ↦ clear_loop works reach cutoff fuel p.1 p.0
    ]
