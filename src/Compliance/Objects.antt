-- ===== src/Compliance/Objects.antt =====
-- The objects that `removeStoredFiles` of src/retention.js deletes.
use nova_connect.Prelude.{
  ℕ, ◌≡◌, refl, ap, ◌∙◌, Bool, true, false, not, ◌||◌, String, List, [], ◌∷◌, arith, any, if_split,
  option_split, ◌==◌, string_eq, In, In-keep, Bool-cases, inl, inr,
}
use nova_connect.Compliance.Tables.{File, Tables}
use nova_connect.Compliance.Files.{
  key_used, is_key, thumb_used, delete_file, Seen, remove_key, remove_thumb, see,
  remove_stored_files,
}

-- The tables without the file store.
abbrev pub rows_of : Tables → Tables
rows_of t = record t { objects = [] }

-- Two states that differ at most in the file store.
pub record SameRows (t u : Tables) : Type 0 where
  pub same : rows_of u ≡ rows_of t

SameRows-trans : (t u v : Tables) → SameRows t u → SameRows u v → SameRows t v
SameRows-trans t u v p q = record { same = q.same ∙ p.same }

delete_file-SameRows :
    (works : String → Bool) (k : String) (t : Tables) → SameRows t (delete_file works k t)
unfolding delete_file
delete_file-SameRows works k t =
    if_split (SameRows t) (works k) (λ _. record { same = refl }) (λ _. record { same = refl })

remove_key-SameRows :
    (works : String → Bool) (f : File) (seen : Seen) (t : Tables)
    → SameRows t (remove_key works f seen t).0
unfolding remove_key
remove_key-SameRows works f seen t =
    if_split (λ (r : Tables × ℕ). SameRows t r.0)
      (f.key == "" || any (λ j. j == f.key) seen.keys || key_used f.key t)
      (λ _. record { same = refl }) (λ _. delete_file-SameRows works f.key t)

remove_thumb-SameRows :
    (works : String → Bool) (f : File) (seen : Seen) (t : Tables)
    → SameRows t (remove_thumb works f seen t)
unfolding remove_thumb
remove_thumb-SameRows works f seen t =
    option_split (SameRows t) f.thumb_key (λ _. record { same = refl })
      λ k _.
        if_split (SameRows t) (k == "" || any (λ j. j == k) seen.thumbs || thumb_used k t)
          (λ _. record { same = refl }) (λ _. delete_file-SameRows works k t)

pub remove_stored_files-SameRows :
    (works : String → Bool) (fs : List File) (seen : Seen) (t : Tables)
    → SameRows t (remove_stored_files works fs seen t).0
unfolding remove_stored_files
remove_stored_files-SameRows works [] seen t = record { same = refl }
remove_stored_files-SameRows works (f ∷ fs) seen t =
    let one = (remove_key works f seen t).0 in
    let two = remove_thumb works f seen one in
    SameRows-trans t one _ (remove_key-SameRows works f seen t) (
      SameRows-trans one two _ (remove_thumb-SameRows works f seen one)
        (remove_stored_files-SameRows works fs (see f seen) two))

key_used-SameRows : (k : String) (t u : Tables) → SameRows t u → key_used k u ≡ key_used k t
unfolding key_used
key_used-SameRows k t u s = ap (key_used k) s.same

-- Deleting another object keeps this one.
delete_file-In :
    (works : String → Bool) (j k : String) (t : Tables)
    → (k == j) ≡ false
    → In k t.objects
    → In k (delete_file works j t).objects
unfolding delete_file
delete_file-In works j k t ne i =
    if_split (λ (u : Tables). In k u.objects) (works j)
      (λ _. In-keep (λ o. not (o == j)) k t.objects i (ground (arith, ne))) (λ _. i)

module _ (works : String → Bool) (k : String) where
  remove_key-In :
      (f : File) (seen : Seen) (t : Tables)
      → key_used k t ≡ true
      → In k t.objects
      → In k (remove_key works f seen t).0.objects
  unfolding remove_key
  remove_key-In f seen t used i =
      if_split (λ (r : Tables × ℕ). In k r.0.objects)
        (f.key == "" || any (λ j. j == f.key) seen.keys || key_used f.key t) (λ _. i)
        λ h. elim (Bool-cases (k == f.key)) [
          | inl e ↦
              ground (arith, h, used, ap (λ x. key_used x t) ((string_eq.beq_iff k f.key).0 e))
          | inr e ↦ delete_file-In works f.key k t e i
        ]

  remove_thumb-In :
      (f : File) (seen : Seen) (t : Tables)
      → is_key k f.thumb_key ≡ false
      → In k t.objects
      → In k (remove_thumb works f seen t).objects
  unfolding remove_thumb
  remove_thumb-In f seen t other i =
      option_split (λ (u : Tables). In k u.objects) f.thumb_key (λ _. i)
        λ j e.
          if_split (λ (u : Tables). In k u.objects)
            (j == "" || any (λ x. x == j) seen.thumbs || thumb_used j t) (λ _. i)
            λ _.
              delete_file-In works j k t
                (ground (arith, e, other, string_eq.beq_iff j k, string_eq.beq_iff k j)) i

  -- An object whose key an attachment, a version or a recording still uses stays in the store,
  -- provided that its key is not also the key of a thumbnail of the files that go.
  pub remove_stored_files-In :
      (fs : List File) (seen : Seen) (t : Tables)
      → any (λ (f : File). is_key k f.thumb_key) fs ≡ false
      → key_used k t ≡ true
      → In k t.objects
      → In k (remove_stored_files works fs seen t).0.objects
  unfolding remove_stored_files
  remove_stored_files-In [] seen t other used i = i
  remove_stored_files-In (f ∷ fs) seen t other used i =
      let one = (remove_key works f seen t).0 in
      let two = remove_thumb works f seen one in
      remove_stored_files-In fs (see f seen) two (ground (arith, other))
        (key_used-SameRows k one two (remove_thumb-SameRows works f seen one)
          ∙ key_used-SameRows k t one (remove_key-SameRows works f seen t)
          ∙ used)
        (remove_thumb-In f seen one (ground (arith, other)) (remove_key-In f seen t used i))
