-- ===== src/Compliance/Tables.antt =====
-- The tables that legal hold, retention and deletion read and write, with the columns they use
-- (migrations/). A time is a number: the database's text format compares as one. A table lists its
-- rows in the order of their ids.
use nova_connect.Prelude.{ℕ, Bool, Option, some, none, String, List, any, ◌==◌, nat_eq}

-- What the code reads of a message's metadata: whether the text contains `"cardType"` and
-- `"status":"pending"`, whether it is `{ recalled: true }`, and the text.
pub record Metadata : Type 0 where
  pub card : Bool
  pub pending : Bool
  pub recalled : Bool
  pub text : String

pub record Message : Type 0 where
  pub id : ℕ
  pub user_id : ℕ
  pub channel_id : Option ℕ
  pub conversation_id : Option ℕ
  pub parent : Option ℕ
  pub created_at : ℕ
  pub deleted : Bool
  pub body : String
  pub metadata : Option Metadata

pub data HoldScope : Type 0 where
  person : HoldScope
  channel : HoldScope
  chat : HoldScope

pub record Hold : Type 0 where
  pub id : ℕ
  pub scope_type : HoldScope
  pub scope_id : ℕ
  pub released : Bool

-- A stored file: `COALESCE(storage_key, filename)` and the thumbnail's key.
pub record File : Type 0 where
  pub key : String
  pub thumb_key : Option String

pub record Attachment : Type 0 where
  pub id : ℕ
  pub message_id : ℕ
  pub file : File

pub record Version : Type 0 where
  pub attachment_id : ℕ
  pub file : File

pub record Edit : Type 0 where
  pub message_id : ℕ
  pub body : String

-- A row of `dm_participants`.
pub record Participant : Type 0 where
  pub conversation_id : ℕ
  pub user_id : ℕ

-- A row of `preserved_messages`.
pub record Preserved : Type 0 where
  pub message_id : ℕ
  pub hold_ids : List ℕ
  pub author_id : ℕ
  pub body : String
  pub metadata : Option Metadata
  pub edits : List Edit
  pub files : List Attachment
  pub recalled : Bool
  pub by_user : ℕ

pub record Tables : Type 0 where
  pub messages : List Message
  pub attachments : List Attachment
  pub versions : List Version
  pub recordings : List String
  pub edits : List Edit
  pub holds : List Hold
  pub participants : List Participant
  pub preserved : List Preserved
  -- The keys of the objects in the file store.
  pub objects : List String

-- `column = value`, where the column may be null.
abbrev pub is_id : ℕ → Option ℕ → Bool
is_id i none = Bool.false
is_id i (some j) = j == i

abbrev pub elem : ℕ → List ℕ → Bool
elem i ids = any (λ j. j == i) ids
