-- ===== src/Messages/State.antt =====
-- The rows that a message's requests read and write, over the tables of teams and channels.
use nova_connect.Prelude.{ℕ, Bool, Option, String, List, Map}
use nova_connect.Teams.State.{Db}
use nova_connect.Messages.Announcement.{Metadata, Mistake}

pub record Message : Type 0 where
  pub user_id : ℕ
  pub channel_id : Option ℕ
  pub conversation_id : Option ℕ
  pub parent : Option ℕ
  pub body : String
  pub metadata : Option Metadata
  pub created_at : ℕ
  pub edited : Bool
  pub deleted : Bool
  -- When and by whom it was pinned.
  pub pinned : Option (ℕ × ℕ)

-- A row of `message_edits`.
pub record Edit : Type 0 where
  pub message_id : ℕ
  pub body : String
  pub metadata : Option Metadata
  pub replaced_at : ℕ

pub record Reaction : Type 0 where
  pub message_id : ℕ
  pub user_id : ℕ
  pub emoji : String

pub record File : Type 0 where
  pub message_id : ℕ
  pub key : String
  pub uploaded_by : ℕ

-- A row of `dm_participants`, at the key (chat, person).
pub record Seat : Type 0 where
  pub hidden : Bool
  pub unread : Bool

pub record Store : Type 0 where
  pub teams : Db
  pub seats : Map (ℕ × ℕ) Seat
  pub messages : Map ℕ Message
  pub next_message : ℕ
  pub edits : List Edit
  pub reactions : List Reaction
  pub files : List File

pub data Place : Type 0 where
  in_channel : ℕ → Place
  in_chat : ℕ → Place

pub data Name : Type 0 where
  message_new : Name
  thread_message : Name
  message_update : Name
  thread_update : Name
  reaction_update : Name
  message_delete : Name
  thread_delete : Name

-- What the requests send and store beside these rows.
pub data Effect : Type 0 where
  emitted : Place → Name → ℕ → Effect
  mentioned : ℕ → ℕ → Effect
  indexed : ℕ → Effect
  unindexed : ℕ → Effect
  audited : ℕ → ℕ → Effect

pub data Error : Type 0 where
  no_access : Error
  announcement_mistake : Mistake → Error
  reply_announcement : Error
  empty_message : Error
  storage_failed : Error
  no_message : Error
  not_yours : Error
  no_headline : Error
  wants_announcement : Error
  was_deleted : Error
  choose_place : Error
  emoji_required : Error
