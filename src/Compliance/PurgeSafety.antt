-- ===== src/Compliance/PurgeSafety.antt =====
-- The loops of `purgeScope` of src/retention.js against legal hold.
use nova_connect.Prelude.{
  ℕ, zero, suc, ◌+◌, ◌≡◌, subst, Bool, true, false, not, ◌&&◌, none, some, String, List, ◌∷◌, arith,
  keep, length, ltb, In-keep_in, In-keep_holds, In-take, Bool-cases, Option-cases, List-cases, inl,
  inr,
}
use nova_connect.Compliance.Tables.{Message, Tables}
use nova_connect.Compliance.Files.{files_of}
use nova_connect.Compliance.Retention.{
  Reach, expired, has_replies, batch, leaves, posts, ids_of, delete_messages, clear_messages,
  Counts, delete_batch, clear_batch, delete_loop, clear_loop, purge_scope,
}
use nova_connect.Compliance.Objects.{remove_stored_files-SameRows}
use nova_connect.Compliance.Purging.{
  UniqueIds, FreeRows, HeldSafe, HeldSafe-refl, HeldSafe-trans, HeldSafe-SameRows,
  delete_messages-HeldSafe, clear_messages-HeldSafe,
}

pub leaves-FreeRows : (reach : Reach) (cutoff : ℕ) (t : Tables) → FreeRows (leaves reach cutoff t) t
unfolding leaves expired
leaves-FreeRows reach cutoff t m i =
    let p : Message → Bool = λ n. expired reach cutoff t n && not (has_replies n.id t.messages) in
    let j = In-take batch m (keep p t.messages) i in
    (In-keep_in p m t.messages j, ground (arith, In-keep_holds p m t.messages j))

pub posts-FreeRows : (reach : Reach) (cutoff : ℕ) (t : Tables) → FreeRows (posts reach cutoff t) t
unfolding posts expired
posts-FreeRows reach cutoff t m i =
    let p : Message → Bool = λ n.
      expired reach cutoff t n
      && (elim n.parent [ none ↦ true | some _ ↦ false ])
      && not n.deleted in
    let j = In-take batch m (keep p t.messages) i in
    (In-keep_in p m t.messages j, ground (arith, In-keep_holds p m t.messages j))

pub delete_batch-HeldSafe :
    (works : String → Bool) (rows : List Message) (t : Tables)
    → UniqueIds t.messages
    → FreeRows rows t
    → HeldSafe t (delete_batch works rows t).0
unfolding delete_batch
delete_batch-HeldSafe works rows t q free =
    HeldSafe-SameRows t (delete_messages (ids_of rows) t) _ (delete_messages-HeldSafe rows t q free)
      (remove_stored_files-SameRows works (files_of (ids_of rows) t) _ _)

pub clear_batch-HeldSafe :
    (works : String → Bool) (rows : List Message) (t : Tables)
    → UniqueIds t.messages
    → FreeRows rows t
    → HeldSafe t (clear_batch works rows t).0
unfolding clear_batch
clear_batch-HeldSafe works rows t q free =
    HeldSafe-SameRows t (clear_messages (ids_of rows) t) _ (clear_messages-HeldSafe rows t q free)
      (remove_stored_files-SameRows works (files_of (ids_of rows) t) _ _)

module _ (works : String → Bool) (reach : Reach) (cutoff : ℕ) where
  pub delete_loop-HeldSafe :
      (fuel : ℕ) (counts c : Counts) (t u : Tables)
      → UniqueIds t.messages
      → delete_loop works reach cutoff fuel counts t ≡ some (u, c)
      → HeldSafe t u
  unfolding delete_loop
  delete_loop-HeldSafe zero counts c t u q e = cc
  delete_loop-HeldSafe (suc fuel) counts c t u q e = elim (List-cases (leaves reach cutoff t)) [
    | inl l ↦ subst (HeldSafe t) (ground (arith, l, e)) (HeldSafe-refl t q)
    | inr (r, rs, l) ↦
        let b = delete_batch works (r ∷ rs) t in
        let free = subst (λ x. FreeRows x t) l (leaves-FreeRows reach cutoff t) in
        let first = delete_batch-HeldSafe works (r ∷ rs) t q free in
        HeldSafe-trans t b.0 u first (
          delete_loop-HeldSafe fuel
            (record counts {
              deleted = counts.deleted + length (r ∷ rs);
              files = counts.files + b.1;
            })
            c b.0 u first.unique (ground (arith, l, e)))
  ]

  clear_loop-HeldSafe :
      (fuel : ℕ) (counts c : Counts) (t u : Tables)
      → UniqueIds t.messages
      → clear_loop works reach cutoff fuel counts t ≡ some (u, c)
      → HeldSafe t u
  unfolding clear_loop
  clear_loop-HeldSafe zero counts c t u q e = cc
  clear_loop-HeldSafe (suc fuel) counts c t u q e = elim (List-cases (posts reach cutoff t)) [
    | inl l ↦ subst (HeldSafe t) (ground (arith, l, e)) (HeldSafe-refl t q)
    | inr (r, rs, l) ↦
        let b = clear_batch works (r ∷ rs) t in
        let free = subst (λ x. FreeRows x t) l (posts-FreeRows reach cutoff t) in
        let first = clear_batch-HeldSafe works (r ∷ rs) t q free in
        elim (Bool-cases (ltb (length (r ∷ rs)) batch)) [
          | inl short ↦ subst (HeldSafe t) (ground (arith, l, e, short)) first
          | inr full ↦ HeldSafe-trans t b.0 u first (
              clear_loop-HeldSafe fuel
                (record counts {
                  cleared = counts.cleared + length (r ∷ rs);
                  files = counts.files + b.1;
                })
                c b.0 u first.unique (ground (arith, l, e, full)))
        ]
  ]

  -- A purge of the channels or of the chats leaves every message on legal hold in its place, with its
  -- text, its attachments and its earlier versions, and leaves what is on hold as it was, given that
  -- no two messages have one id.
  pub purge_scope-HeldSafe :
      (fuel : ℕ) (c : Counts) (t u : Tables)
      → UniqueIds t.messages
      → purge_scope works reach cutoff fuel t ≡ some (u, c)
      → HeldSafe t u
  unfolding purge_scope
  purge_scope-HeldSafe fuel c t u q e =
      elim (Option-cases
        (delete_loop works reach cutoff fuel (record { deleted = 0; cleared = 0; files = 0 }) t)) [
          | inl absent ↦ ground (arith, absent, e)
          | inr ((v, d), found) ↦
              let first = delete_loop-HeldSafe fuel _ d t v q found in
              HeldSafe-trans t v u first
                (clear_loop-HeldSafe fuel d c v u first.unique (ground (arith, found, e)))
        ]
