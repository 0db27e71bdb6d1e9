-- ===== src/Compliance/Files.antt =====
-- The files of the messages that go, and the stored objects that nothing uses any more: `filesOf` and
-- `removeStoredFiles` of src/retention.js.
use nova_connect.Prelude.{
  ℕ, ◌+◌, Bool, false, not, ◌&&◌, ◌||◌, Option, none, some, String, List, [], ◌∷◌, ◌++◌, any, keep,
  map, if◌then◌else◌, ◌==◌, nat_eq, string_eq,
}
use nova_connect.Compliance.Tables.{File, Attachment, Version, Tables, elem}

-- Whether an attachment with this id belongs to one of the messages.
unfoldable pub attached : List ℕ → List Attachment → ℕ → Bool
attached ids rows a = any (λ (x : Attachment). x.id == a && elem x.message_id ids) rows

-- `filesOf`
unfoldable pub files_of : List ℕ → Tables → List File
files_of ids t =
    map (λ (a : Attachment). a.file)
      (keep (λ (a : Attachment). elem a.message_id ids) t.attachments)
    ++ map (λ (v : Version). v.file)
        (keep (λ (v : Version). attached ids t.attachments v.attachment_id) t.versions)

-- `SELECT 1 FROM attachments … UNION ALL … attachment_versions … UNION ALL … recordings`
unfoldable pub key_used : String → Tables → Bool
key_used k t =
    any (λ (a : Attachment). a.file.key == k) t.attachments
    || any (λ (v : Version). v.file.key == k) t.versions
    || any (λ r. r == k) t.recordings

abbrev pub is_key : String → Option String → Bool
is_key k none = false
is_key k (some j) = j == k

unfoldable pub thumb_used : String → Tables → Bool
thumb_used k t =
    any (λ (a : Attachment). is_key k a.file.thumb_key) t.attachments
    || any (λ (v : Version). is_key k v.file.thumb_key) t.versions

-- `deleteFile`: the store loses the object unless it fails, which the code reports and passes over.
unfoldable pub delete_file : (String → Bool) → String → Tables → Tables
delete_file works k t =
    if works k then record t { objects = keep (λ o. not (o == k)) t.objects } else t

-- The `seen` set of `removeStoredFiles`, with its two kinds of keys.
pub record Seen : Type 0 where
  pub keys : List String
  pub thumbs : List String

abbrev pub seen_in : String → List String → Bool
seen_in k ks = any (λ j. j == k) ks

-- The first half of the loop's body: the file itself. The number counts the objects removed.
unfoldable pub remove_key : (String → Bool) → File → Seen → Tables → Tables × ℕ
remove_key works f seen t =
    if f.key == "" || seen_in f.key seen.keys || key_used f.key t
    then (t, 0)
    else (delete_file works f.key t, if works f.key then 1 else 0)

-- The second half: its thumbnail.
unfoldable pub remove_thumb : (String → Bool) → File → Seen → Tables → Tables
remove_thumb works f seen t = elim f.thumb_key [
  | none ↦ t
  | some k ↦ if k == "" || seen_in k seen.thumbs || thumb_used k t then t else delete_file works k t
]

unfoldable pub see : File → Seen → Seen
see f seen = record seen {
  keys = f.key ∷ seen.keys;
  thumbs = elim f.thumb_key [ none ↦ seen.thumbs | some k ↦ k ∷ seen.thumbs ];
}

-- `removeStoredFiles`
unfoldable pub remove_stored_files : (String → Bool) → List File → Seen → Tables → Tables × ℕ
remove_stored_files works [] seen t = (t, 0)
remove_stored_files works (f ∷ fs) seen t =
    let one = remove_key works f seen t in
    let rest = remove_stored_files works fs (see f seen) (remove_thumb works f seen one.0) in
    (rest.0, one.1 + rest.1)
