-- ===== src/Messages/Posting.antt =====
-- New messages: POST /api/channels/:id/messages and POST /api/messages/:id/forward of
-- src/routes/messages.js, and POST /api/dm/:id/messages of src/routes/dm.js. A text is what `trim`
-- leaves, a GIF's address one that `parseGifUrl` takes, `says` whether the text names a person after an
-- @, and `author_name` what the author is called.
use Prim.Native.String.{◌++◌ as append}
use nova_connect.Prelude.{
  ℕ, ◌+◌, Bool, true, false, not, ◌&&◌, Option, none, some, String, List, [], ◌∷◌, ◌++◌, map, keep,
  insert, if◌then◌else◌, Result, ok, err, ◌>>=◌, ◌>>◌, guard, found, ◌==◌, nat_eq, pair_eq,
  string_eq, has,
}
use nova_connect.Messages.Announcement.{
  Announcement, Fields, ordinary, wrong, announced, parse_announcement, Metadata, announcement_of,
  present,
}
use nova_connect.Messages.State.{
  Message, File, Seat, Store, Place, in_channel, in_chat, message_new, thread_message, Effect,
  emitted, mentioned, indexed, Error, no_access, announcement_mistake, reply_announcement,
  empty_message, storage_failed, no_message, choose_place,
}
use nova_connect.Messages.Access.{load_channel_for_user, channel_member_ids, load_message}

-- `req.file`, and what becomes of it in the file store.
pub data Upload : Type 0 where
  no_file : Upload
  saved : String → Upload
  failed : Upload

abbrev pub is_some {ℓ} : {A : Type ℓ} → Option A → Bool
is_some none = false
is_some (some a) = true

abbrev pub Answer : Type 0
Answer = Result Error (Store × List Effect)

-- `parseAnnouncement` with the checks on its result.
unfoldable pub announcement_for : Fields → Option ℕ → Result Error (Option Announcement)
announcement_for f parent = elim (parse_announcement f) [
  | ordinary ↦ ok none
  | wrong m ↦ err (announcement_mistake m)
  | announced a ↦ if is_some parent then err reply_announcement else ok (some a)
]

abbrev pub has_file : Upload → Bool
has_file no_file = false
has_file (saved key) = true
has_file failed = true

abbrev pub metadata_for : Option String → Option Announcement → Option Metadata
metadata_for none none = none
metadata_for gif ann = some (record { gif_url = gif; announcement = ann; forwarded_from = none })

abbrev pub new_message : Place → ℕ → String → Option ℕ → Option Metadata → ℕ → Message
new_message place me body parent metadata now = record {
  user_id = me;
  channel_id = elim place [ in_channel c ↦ some c | in_chat d ↦ none ];
  conversation_id = elim place [ in_channel c ↦ none | in_chat d ↦ some d ];
  parent = parent;
  body = body;
  metadata = metadata;
  created_at = now;
  edited = false;
  deleted = false;
  pinned = none;
}

-- The row, its file if there is one, and the next number.
unfoldable pub store_message : Message → Upload → Store → Store
store_message m upload s = record s {
  messages = insert s.next_message m s.messages;
  next_message = s.next_message + 1;
  files = elim upload [
    | no_file ↦ s.files
    | saved key ↦
        s.files ++ record { message_id = s.next_message; key = key; uploaded_by = m.user_id } ∷ []
    | failed ↦ s.files
  ];
}

-- `saveAttachment` threw: the message is deleted again, and the request is answered with an error.
abbrev pub not_failed : Upload → Bool
not_failed no_file = true
not_failed (saved key) = true
not_failed failed = false

-- `recordMentions`, for the members of the channel.
unfoldable pub mentions : (ℕ → Bool) → ℕ → ℕ → List ℕ → List Effect
mentions says me id ms = map (λ u. mentioned u id) (keep (λ u. not (u == me) && says u) ms)

abbrev pub new_event : Option ℕ → Place → ℕ → Effect
new_event none place id = emitted place message_new id
new_event (some p) place id = emitted place thread_message id

-- POST /api/channels/:id/messages
unfoldable pub post_in_channel :
    ℕ → String → Option String → Option ℕ → Fields → Upload → (ℕ → Bool) → ℕ → ℕ → Store → Answer
post_in_channel c body gif parent fields upload says now me s = do
  channel ← found no_access (load_channel_for_user c me s.teams)
  ann ← announcement_for fields parent
  guard (not (body == "" && not (has_file upload) && not (is_some gif) && not (is_some ann)))
      empty_message
  guard (not_failed upload) storage_failed
  let m = new_message (in_channel c) me body parent (metadata_for gif ann) now
  ok (
    store_message m upload s,
    mentions says me s.next_message (channel_member_ids c channel s.teams)
        ++ (new_event parent (in_channel c) s.next_message ∷ indexed s.next_message ∷ []),
  )

-- `UPDATE dm_participants SET is_hidden = 0, is_unread = …` for a chat.
unfoldable pub show_chat : ℕ → ℕ → Store → Store
show_chat d me s = record s {
  seats =
      map
        (λ (e : (ℕ × ℕ) × Seat).
          if e.0.0 == d then (e.0, record { hidden = false; unread = not (e.0.1 == me) }) else e)
        s.seats;
}

-- POST /api/dm/:id/messages
unfoldable pub post_in_chat :
    ℕ → String → Option String → Option ℕ → Upload → ℕ → ℕ → Store → Answer
post_in_chat d body gif parent upload now me s = do
  guard (has (d, me) s.seats) no_access
  guard (not (body == "" && not (has_file upload) && not (is_some gif))) empty_message
  guard (not_failed upload) storage_failed
  let m = new_message (in_chat d) me body parent (metadata_for gif none) now
  ok (
    show_chat d me (store_message m upload s),
    new_event parent (in_chat d) s.next_message ∷ indexed s.next_message ∷ [],
  )

-- `lines.join('\n')`
unfoldable pub join_lines : List String → String
join_lines [] = ""
join_lines (x ∷ []) = x
join_lines (x ∷ y ∷ ys) = append x (append "\n" (join_lines (y ∷ ys)))

-- The text that is forwarded: an announcement's headline and subheading lead it.
unfoldable pub forwarded_text : Message → String
forwarded_text m = elim (announcement_of m.metadata) [
  | none ↦ m.body
  | some a ↦ join_lines (append "**" (append a.headline "**") ∷ present a.subhead ++ present m.body)
]

-- Where a message is forwarded to: a channel that is named goes first, and only it is checked.
unfoldable pub forward_target : Option ℕ → Option ℕ → ℕ → Store → Result Error Place
forward_target (some c) d me s = do
  ch ← found no_access (load_channel_for_user c me s.teams)
  ok (in_channel c)
forward_target none (some d) me s = do guard (has (d, me) s.seats) no_access; ok (in_chat d)
forward_target none none me s = err choose_place

-- The files of a message go along, as rows on the same stored objects.
unfoldable pub copied_files : ℕ → ℕ → ℕ → List File → List File
copied_files from to me files =
    map (λ (f : File). record { message_id = to; key = f.key; uploaded_by = me })
      (keep (λ (f : File). f.message_id == from) files)

unfoldable pub forward : ℕ → Option ℕ → Option ℕ → ℕ → ℕ → Store → Answer
forward id c d now me s = do
  seen ← found no_message (load_message id me s)
  guard (not seen.0.deleted) no_message
  place ← forward_target c d me s
  let metadata = some (record { gif_url = none; announcement = none; forwarded_from = some id })
  let m = new_message place me (forwarded_text seen.0) none metadata now
  let t = store_message m no_file s
  let u = record t { files = t.files ++ copied_files id s.next_message me s.files }
  ok (
    elim d [ none ↦ u | some chat ↦ show_chat chat me u ],
    emitted place message_new s.next_message ∷ indexed s.next_message ∷ [],
  )
