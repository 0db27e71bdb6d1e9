-- ===== src/Messages/VersionLaws.antt =====
-- The versions of a file are numbered in order, at most fifty, and none of them is lost.
use nova_connect.Prelude.{
  ℕ, ◌+◌, ◌-◌, ◌<◌, ◌≡◌, ◌≢◌, refl, sym, ap, ◌∙◌, subst, Bool, true, false, Option, none, some,
  String, List, [], ◌∷◌, ◌++◌, arith, find, length, length-append, ltb, Result, ok, nat_eq,
  guard_split,
}
use mathlib.Core.List.{append_assoc}
use nova_connect.Messages.Versions.{
  Columns, Version, Current, File, Error, or_else, nonzero, too_many, max_versions, written,
  kept_version, replace_current, can_change, has_number, restore,
}

abbrev pub NumberedFrom : ℕ → List Version → Type 0
NumberedFrom n [] = Unit {0}
NumberedFrom n (v ∷ vs) = (v.version_no ≡ n) × NumberedFrom (n + 1) vs

-- The kept versions have the numbers from 1 on, the current one the next, and there is room for it.
pub record IsNumbered (f : File) : Type 0 where
  pub kept : NumberedFrom 1 f.versions
  pub next : f.current.version_no ≡ length f.versions + 1
  pub room : length f.versions < max_versions

NumberedFrom-last :
    (n : ℕ) (vs : List Version) (v : Version)
    → NumberedFrom n vs
    → v.version_no ≡ n + length vs
    → NumberedFrom n (vs ++ v ∷ [])
NumberedFrom-last n [] v k e = (omega (arith, e), tt)
NumberedFrom-last n (x ∷ vs) v k e = (k.0, NumberedFrom-last (n + 1) vs v k.1 (omega (arith, e)))

replace_current-IsNumbered :
    (next : Columns) (by : ℕ) (comment : Option String) (now : ℕ) (f g : File)
    → IsNumbered f
    → replace_current next by comment now f ≡ ok g
    → IsNumbered g
unfolding replace_current kept_version
replace_current-IsNumbered next by comment now f g k =
    guard_split (λ (a : Result Error File). a ≡ ok g → IsNumbered g)
      (ltb (length f.versions) (max_versions - 1)) too_many _ (λ h. cc)
      (λ room h.
        let is_g = ok_is h in
        subst IsNumbered is_g (record {
          kept =
              NumberedFrom-last 1 f.versions (kept_version f.current) k.kept
                (omega (arith, k.next));
          next = omega (arith, k.next, length-append f.versions (kept_version f.current ∷ []));
          room = ground (arith, room, length-append f.versions (kept_version f.current ∷ []));
        }))
  where
    ok_is : {x : File} → ◌≡◌ {A = Result Error File} (ok x) (ok g) → x ≡ g
    ok_is h = cc (h)

-- The last of the kept versions is found by its number.
find-last :
    (n : ℕ) (vs : List Version) (v : Version)
    → NumberedFrom n vs
    → v.version_no ≡ n + length vs
    → find (has_number v.version_no) (vs ++ v ∷ []) ≡ some v
find-last n [] v k e = ground arith
find-last n (x ∷ vs) v k e = ground (arith, k.0, e, find-last (n + 1) vs v k.1 (omega (arith, e)))

-- Columns that have a state of the thumbnail, and no zero for the size of an image.
pub record IsFilled (c : Columns) : Type 0 where
  pub width : c.image_width ≢ some 0
  pub height : c.image_height ≢ some 0
  pub state : String
  pub has_state : c.thumb_state ≡ some state

-- A kept version says of a current one all that it said of itself.
pub record KeepsCurrent (c : Current) (v : Version) : Type 0 where
  pub number : v.version_no ≡ c.version_no
  pub columns : v.columns ≡ c.columns
  pub comment : v.comment ≡ c.comment
  pub by : (u : ℕ) → c.version_by ≡ some u → v.uploaded_by ≡ u
  pub by_first : c.version_by ≡ none → v.uploaded_by ≡ c.uploaded_by
  pub at : (t : ℕ) → c.version_at ≡ some t → v.uploaded_at ≡ t
  pub at_first : c.version_at ≡ none → v.uploaded_at ≡ c.created_at

kept_version-KeepsCurrent : (c : Current) → KeepsCurrent c (kept_version c)
unfolding kept_version
kept_version-KeepsCurrent c = record {
  number = refl;
  columns = refl;
  comment = refl;
  by = λ u e. ground (arith, e);
  by_first = λ e. ground (arith, e);
  at = λ t e. ground (arith, e);
  at_first = λ e. ground (arith, e);
}

nonzero-same : (o : Option ℕ) → o ≢ some 0 → nonzero o ≡ o
nonzero-same none h = refl
nonzero-same (some n) h = ground (arith, h)

written-IsFilled : (c : Columns) → IsFilled c → written c ≡ c
unfolding written
written-IsFilled c f =
    ap (λ x. record (written c) { image_width = x }) (nonzero-same c.image_width f.width)
    ∙ ap (λ x. record (written c) { image_width = c.image_width; image_height = x })
        (nonzero-same c.image_height f.height)
    ∙ ap (λ x. record c { thumb_state = x })
        (ap (λ x. some (or_else x "none")) f.has_state ∙ sym f.has_state)

module _ (comment : ℕ → Option String) (is_admin : Bool) (me : ℕ) where
  -- What an accepted restoring has done.
  restored :
      (n now : ℕ) (f g : File)
      → restore comment is_admin false n now me f ≡ ok g
      → (g.versions ≡ f.versions ++ kept_version f.current ∷ [])
        × (g.current.version_no ≡ f.current.version_no + 1)
        × (can_change g me is_admin ≡ true)
  unfolding restore replace_current can_change
  restored n now f g = go (can_change f me is_admin) refl (find (has_number n) f.versions) refl
    where
      go :
          (b : Bool)
          → can_change f me is_admin ≡ b
          → (o : Option Version) → find (has_number n) f.versions ≡ o
          → restore comment is_admin false n now me f ≡ ok g
          → (g.versions ≡ f.versions ++ kept_version f.current ∷ [])
            × (g.current.version_no ≡ f.current.version_no + 1)
            × (can_change g me is_admin ≡ true)
      go false c o e h = ground (arith, c, h)
      go true c none e h = ground (arith, c, e, h)
      go true c (some v) e h = ground (arith, c, e, h)

  -- Restoring an earlier version loses nothing, and can be taken back: as long as there is room,
  -- restoring the version that was replaced brings back all columns of the file as they were, all
  -- versions that were kept still are, and the two that were replaced are kept after them, each with
  -- its number, its columns, its comment, and who put it there and when. Given that the versions are
  -- numbered in order, that the file's sizes of an image are not zero, and that it has a state of
  -- its thumbnail.
  pub restore-restore :
      (n now later : ℕ) (f g : File)
      → IsNumbered f
      → IsFilled f.current.columns
      → restore comment is_admin false n now me f ≡ ok g
      → length g.versions < max_versions - 1
      → (h : File) × (restore comment is_admin false f.current.version_no later me g ≡ ok h)
        × (h.current.columns ≡ f.current.columns)
        × (p : Version) × (q : Version) × (h.versions ≡ f.versions ++ p ∷ q ∷ [])
        × KeepsCurrent f.current p
        × KeepsCurrent g.current q
  restore-restore n now later f g k filled done room =
      let (vs, next, may) = restored n now f g done in
      let there : find (has_number f.current.version_no) g.versions
          ≡ some (kept_version f.current) =
        ap (find (has_number f.current.version_no)) vs ∙ last k in
      let h : File = record {
        current = record g.current {
          columns = written f.current.columns;
          version_no = g.current.version_no + 1;
          comment = comment f.current.version_no;
          version_by = some me;
          version_at = some later;
        };
        versions = g.versions ++ kept_version g.current ∷ [];
      } in
      (
        h,
        again h there may refl,
        written-IsFilled f.current.columns filled,
        kept_version f.current,
        kept_version g.current,
        ap (λ l. l ++ kept_version g.current ∷ []) vs
            ∙ append_assoc f.versions (kept_version f.current ∷ []) (kept_version g.current ∷ []),
        kept_version-KeepsCurrent f.current,
        kept_version-KeepsCurrent g.current,
      )
    where
      last :
          IsNumbered f
          → find (has_number f.current.version_no) (f.versions ++ kept_version f.current ∷ [])
            ≡ some (kept_version f.current)
      last k =
          unfold kept_version in
          find-last 1 f.versions (kept_version f.current) k.kept (omega (arith, k.next))

      again :
          (h : File)
          → find (has_number f.current.version_no) g.versions ≡ some (kept_version f.current)
          → can_change g me is_admin ≡ true
          → h ≡ record {
            current = record g.current {
              columns = written f.current.columns;
              version_no = g.current.version_no + 1;
              comment = comment f.current.version_no;
              version_by = some me;
              version_at = some later;
            };
            versions = g.versions ++ kept_version g.current ∷ [];
          }
          → restore comment is_admin false f.current.version_no later me g ≡ ok h
      again h there may e =
          unfold restore replace_current kept_version in ground (arith, there, may, room, e)
