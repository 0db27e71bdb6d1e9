-- ===== src/Messages/Changing.antt =====
-- What may be done to a message that is there: reactions, edits, deletion and pins, of
-- src/routes/messages.js, with `deleteForEveryone` (src/messageDelete.js) on these rows.
use nova_connect.Prelude.{
  ℕ, Bool, true, false, not, ◌&&◌, ◌||◌, Option, none, some, String, List, [], ◌∷◌, ◌++◌, keep, any,
  lookup, insert, if◌then◌else◌, Result, ok, err, ◌>>=◌, ◌>>◌, guard, found, ◌==◌, nat_eq,
  string_eq, pair_eq,
}
use nova_connect.Teams.Handlers.{owner_there}
use nova_connect.Messages.Announcement.{
  Theme, blue, purple, green, orange, red, slate, Announcement, Fields, ordinary, wrong, announced,
  parse_announcement, Metadata, announcement_of,
}
use nova_connect.Messages.State.{
  Message, Edit, Reaction, Store, Place, message_update, thread_update, reaction_update,
  message_delete, thread_delete, Effect, emitted, indexed, unindexed, audited, Error,
  announcement_mistake, empty_message, no_message, not_yours, no_headline, wants_announcement,
  was_deleted, emoji_required,
}
use nova_connect.Messages.Access.{load_message}
use nova_connect.Messages.Posting.{Answer, is_some}

unfoldable pub is_reaction : ℕ → ℕ → String → Reaction → Bool
is_reaction id me emoji r = r.message_id == id && (r.user_id == me && r.emoji == emoji)

-- The two branches of POST /api/messages/:id/reactions.
unfoldable pub toggle : ℕ → ℕ → String → List Reaction → List Reaction
toggle id me emoji rs =
    if any (is_reaction id me emoji) rs
    then keep (λ r. not (is_reaction id me emoji r)) rs
    else rs ++ record { message_id = id; user_id = me; emoji = emoji } ∷ []

unfoldable pub react : ℕ → String → ℕ → Store → Answer
react id emoji me s = do
  seen ← found no_message (load_message id me s)
  guard (not (emoji == "")) emoji_required
  ok (
    record s { reactions = toggle id me emoji s.reactions },
    emitted seen.1 reaction_update id ∷ [],
  )

abbrev pub theme_beq : Theme → Theme → Bool
theme_beq blue blue = true
theme_beq purple purple = true
theme_beq green green = true
theme_beq orange orange = true
theme_beq red red = true
theme_beq slate slate = true
theme_beq _ _ = false

abbrev pub same_announcement : Option Announcement → Option Announcement → Bool
same_announcement none none = true
same_announcement (some a) (some b) =
    a.headline == b.headline && (a.subhead == b.subhead && theme_beq a.theme b.theme)
same_announcement none (some b) = false
same_announcement (some a) none = false

-- The metadata of an edit, and whether it is the message's own. A new announcement keeps the other
-- keys, so that only it can differ.
unfoldable pub edited_metadata : Message → Option Fields → Result Error (Option Metadata × Bool)
edited_metadata m none = ok (m.metadata, true)
edited_metadata m (some fields) = elim m.metadata [
  | none ↦ err no_headline
  | some meta ↦ elim meta.announcement [
    | none ↦ err no_headline
    | some old ↦ elim (parse_announcement fields) [
      | ordinary ↦ err wants_announcement
      | wrong e ↦ err (announcement_mistake e)
      | announced a ↦
          ok (some (record meta { announcement = some a }), same_announcement (some a) (some old))
    ]
  ]
]

abbrev pub update_event : Option ℕ → Place → ℕ → Effect
update_event none place id = emitted place message_update id
update_event (some p) place id = emitted place thread_update id

-- The transaction of an edit: the version that is replaced is kept.
unfoldable pub replace_text : ℕ → Message → String → Option Metadata → ℕ → Store → Store
replace_text id m body metadata now s = record s {
  edits =
      s.edits
      ++ record { message_id = id; body = m.body; metadata = m.metadata; replaced_at = now } ∷ [];
  messages = insert id (record m { body = body; metadata = metadata; edited = true }) s.messages;
}

-- PUT /api/messages/:id
unfoldable pub edit : ℕ → String → Option Fields → ℕ → ℕ → Store → Answer
edit id body fields now me s = do
  seen ← found no_message (load_message id me s)
  let m = seen.0
  guard (m.user_id == me) not_yours
  changed ← edited_metadata m fields
  guard (not (body == "" && not (is_some (announcement_of m.metadata)))) empty_message
  ok (
      if body == m.body && changed.1 then (s, []) else (
        replace_text id m body changed.0 now s,
        update_event m.parent seen.1 id ∷ indexed id ∷ [],
      ))

-- `deleteForEveryone`, by its author or a moderator.
unfoldable pub wipe_text : ℕ → Message → Store → Store
wipe_text id m s = record s {
  messages = insert id (record m { deleted = true; body = "" }) s.messages;
  edits = keep (λ (e : Edit). not (e.message_id == id)) s.edits;
}

-- Whether `me` may delete the message; `is_admin` is the role of the session.
unfoldable pub may_delete : Message → ℕ → Bool → Store → Bool
may_delete m me is_admin s = m.user_id == me || is_admin || (elim m.channel_id [
  | none ↦ false
  | some c ↦ elim (lookup c s.teams.channels) [
    | none ↦ false
    | some ch ↦ owner_there ch.team me s.teams
  ]
])

abbrev pub delete_event : Option ℕ → Place → ℕ → Effect
delete_event none place id = emitted place message_delete id
delete_event (some p) place id = emitted place thread_delete id

-- DELETE /api/messages/:id
unfoldable pub remove : ℕ → Bool → ℕ → Store → Answer
remove id is_admin me s = do
  seen ← found no_message (load_message id me s)
  guard (may_delete seen.0 me is_admin s) not_yours
  ok (
    wipe_text id seen.0 s,
    delete_event seen.0.parent seen.1 id ∷ unindexed id ∷ audited me id ∷ [],
  )

-- POST /api/messages/:id/pin
unfoldable pub pin : ℕ → ℕ → ℕ → Store → Answer
pin id now me s = do
  seen ← found no_message (load_message id me s)
  let m = seen.0
  guard (not m.deleted) was_deleted
  let pinned = if is_some m.pinned then none else some (now, me)
  ok (
    record s { messages = insert id (record m { pinned = pinned }) s.messages },
    update_event m.parent seen.1 id ∷ [],
  )
