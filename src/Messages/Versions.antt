-- ===== src/Messages/Versions.antt =====
-- The versions of a file: src/fileVersions.js, and the requests on them of src/routes/messages.js, from
-- somebody who may see the message with the file.
use nova_connect.Prelude.{
  ℕ, ◌+◌, ◌-◌, Bool, not, ◌||◌, Option, none, some, String, List, [], ◌∷◌, ◌++◌, find, length, ltb,
  if◌then◌else◌, Result, ok, err, ◌>>=◌, ◌>>◌, guard, found, ◌==◌, nat_eq,
}

-- The file columns of `attachments` and of `attachment_versions`.
pub record Columns : Type 0 where
  pub filename : String
  pub storage_key : Option String
  pub storage_driver : Option String
  pub original_name : String
  pub mime_type : String
  pub size : ℕ
  pub thumb_key : Option String
  pub thumb_driver : Option String
  pub thumb_mime : Option String
  pub image_width : Option ℕ
  pub image_height : Option ℕ
  pub thumb_state : Option String

-- A row of `attachment_versions`.
pub record Version : Type 0 where
  pub version_no : ℕ
  pub columns : Columns
  pub uploaded_by : ℕ
  pub uploaded_at : ℕ
  pub comment : Option String

-- A row of `attachments`, the current version.
pub record Current : Type 0 where
  pub columns : Columns
  pub version_no : ℕ
  pub comment : Option String
  pub version_by : Option ℕ
  pub version_at : Option ℕ
  pub uploaded_by : ℕ
  pub created_at : ℕ

-- An attachment with its kept versions, in the order in which they were kept.
pub record File : Type 0 where
  pub current : Current
  pub versions : List Version

pub data Error : Type 0 where
  too_many : Error
  not_allowed : Error
  was_deleted : Error
  choose_file : Error
  long_comment : Error
  storage_failed : Error
  no_version : Error

abbrev pub max_versions : ℕ
max_versions = 50

abbrev pub comment_max : ℕ
comment_max = 200

abbrev pub or_else {ℓ} : {A : Type ℓ} → Option A → A → A
or_else none b = b
or_else (some a) b = a

-- `x || null` of a number.
abbrev pub nonzero : Option ℕ → Option ℕ
nonzero none = none
nonzero (some n) = if n == 0 then none else some n

-- What the update writes of `next`: the state of the thumbnail is 'none' where there is none.
unfoldable pub written : Columns → Columns
written c = record c {
  image_width = nonzero c.image_width;
  image_height = nonzero c.image_height;
  thumb_state = some (or_else c.thumb_state "none");
}

-- The row that is kept of the current version.
unfoldable pub kept_version : Current → Version
kept_version c = record {
  version_no = c.version_no;
  columns = c.columns;
  uploaded_by = or_else c.version_by c.uploaded_by;
  uploaded_at = or_else c.version_at c.created_at;
  comment = c.comment;
}

-- `replaceCurrent`
unfoldable pub replace_current : Columns → ℕ → Option String → ℕ → File → Result Error File
replace_current next by comment now f = do
  guard (ltb (length f.versions) (max_versions - 1)) too_many
  ok (record {
    current = record f.current {
      columns = written next;
      version_no = f.current.version_no + 1;
      comment = comment;
      version_by = some by;
      version_at = some now;
    };
    versions = f.versions ++ kept_version f.current ∷ [];
  })

-- `canChange`
unfoldable pub can_change : File → ℕ → Bool → Bool
can_change f me is_admin = f.current.uploaded_by == me || is_admin

-- `parseComment`, with the length of what `trim` leaves.
unfoldable pub parse_comment : Option String → ℕ → Result Error (Option String)
parse_comment c len = if ltb comment_max len then err long_comment else ok c

-- POST /api/attachments/:id/versions; `stored` is what `storeUpload` gives, `none` if it throws.
unfoldable pub put_version :
    Bool → Bool → Bool → Option String → ℕ → Option Columns → ℕ → ℕ → File → Result Error File
put_version is_admin deleted has_file comment len stored now me f = do
  guard (can_change f me is_admin) not_allowed
  guard (not deleted) was_deleted
  guard has_file choose_file
  guard (ltb (length f.versions) (max_versions - 1)) too_many
  c ← parse_comment comment len
  next ← found storage_failed stored
  replace_current next me c now f

abbrev pub has_number : ℕ → Version → Bool
has_number n v = v.version_no == n

-- POST /api/attachments/:id/versions/:no/restore; `comment` says which version is restored.
unfoldable pub restore : (ℕ → Option String) → Bool → Bool → ℕ → ℕ → ℕ → File → Result Error File
restore comment is_admin deleted n now me f = do
  guard (can_change f me is_admin) not_allowed
  guard (not deleted) was_deleted
  v ← found no_version (find (has_number n) f.versions)
  replace_current v.columns me (comment v.version_no) now f
