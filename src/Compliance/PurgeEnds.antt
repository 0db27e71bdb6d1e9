-- ===== src/Compliance/PurgeEnds.antt =====
-- How long the loops of `purgeScope` of src/retention.js run.
use nova_connect.Prelude.{
  ℕ, zero, suc, ◌+◌, ◌≤◌, ◌<◌, ◌≡◌, refl, sym, ap, subst, Bool, true, not, some, String, List, ◌∷◌,
  arith, keep, map, take, length, ltb, In, In-keep_in, In-keep_holds, In-take, length-keep-lt,
  length-keep-le, length-keep-map_lt, Bool-cases, List-cases, inl, inr, beq_refl, nat_eq, if_split,
}
use nova_connect.Compliance.Tables.{Message, Tables, elem}
use nova_connect.Compliance.Files.{files_of}
use nova_connect.Compliance.Retention.{
  Reach, batch, leaves, posts, ids_of, delete_messages, clear_messages, Counts, delete_batch,
  clear_batch, delete_loop, clear_loop, purge_scope,
}
use nova_connect.Compliance.Objects.{remove_stored_files-SameRows}
use nova_connect.Compliance.Purging.{clear_one}

pub delete_batch-messages :
    (works : String → Bool) (rows : List Message) (t : Tables)
    → (delete_batch works rows t).0.messages
      ≡ keep (λ (m : Message). not (elem m.id (ids_of rows))) t.messages
unfolding delete_batch delete_messages
delete_batch-messages works rows t =
    ap (λ (x : Tables). x.messages)
      (remove_stored_files-SameRows works (files_of (ids_of rows) t) _ _).same

pub clear_batch-messages :
    (works : String → Bool) (rows : List Message) (t : Tables)
    → (clear_batch works rows t).0.messages ≡ map (clear_one rows) t.messages
unfolding clear_batch clear_messages
clear_batch-messages works rows t =
    ap (λ (x : Tables). x.messages)
      (remove_stored_files-SameRows works (files_of (ids_of rows) t) _ _).same

-- The number of messages that still have their text.
abbrev unread : List Message → ℕ
unread ms = length (keep (λ (m : Message). not m.deleted) ms)

head-In :
    (p : Message → Bool) (r : Message) (rs ms : List Message)
    → take batch (keep p ms) ≡ r ∷ rs
    → In r ms × (p r ≡ true)
head-In p r rs ms e =
    let i = In-take batch r (keep p ms) (subst (In r) (sym e) (inl refl)) in
    (In-keep_in p r ms i, In-keep_holds p r ms i)

delete_batch-shrinks :
    (works : String → Bool) (reach : Reach) (cutoff : ℕ) (r : Message) (rs : List Message)
    (t : Tables)
    → leaves reach cutoff t ≡ r ∷ rs
    → length (delete_batch works (r ∷ rs) t).0.messages < length t.messages
unfolding leaves
delete_batch-shrinks works reach cutoff r rs t l = rw (delete_batch-messages works (r ∷ rs) t) (
    length-keep-lt (λ (m : Message). not (elem m.id (ids_of (r ∷ rs)))) r t.messages
      (head-In _ r rs t.messages l).0 (ground (arith, beq_refl r.id)))

pub clear_one-deleted :
    (rows : List Message) (y : Message) → y.deleted ≡ true → (clear_one rows y).deleted ≡ true
clear_one-deleted rows y e =
    if_split (λ (m : Message). m.deleted ≡ true) (elem y.id (ids_of rows)) (λ _. refl) (λ _. e)

pub clear_one-elem :
    (rows : List Message) (y : Message)
    → elem y.id (ids_of rows) ≡ true
    → (clear_one rows y).deleted ≡ true
clear_one-elem rows y e =
    if_split (λ (m : Message). m.deleted ≡ true) (elem y.id (ids_of rows)) (λ _. refl)
      (λ no_elem. ground (arith, e, no_elem))

clear_batch-shrinks :
    (works : String → Bool) (reach : Reach) (cutoff : ℕ) (r : Message) (rs : List Message)
    (t : Tables)
    → posts reach cutoff t ≡ r ∷ rs
    → unread (clear_batch works (r ∷ rs) t).0.messages < unread t.messages
unfolding posts
clear_batch-shrinks works reach cutoff r rs t l =
    let (i, h) = head-In _ r rs t.messages l in
    rw (clear_batch-messages works (r ∷ rs) t) (
      length-keep-map_lt (λ (m : Message). not m.deleted) (clear_one (r ∷ rs)) r t.messages
        (λ y e. ap not (clear_one-deleted (r ∷ rs) y (ground (arith, e)))) i (ground (arith, h))
        (ap not (clear_one-elem (r ∷ rs) r (ground (arith, beq_refl r.id)))))

module _ (works : String → Bool) (reach : Reach) (cutoff : ℕ) where
  delete_loop_ends :
      (fuel : ℕ) (counts : Counts) (t : Tables)
      → length t.messages < fuel
      → (p : Tables × Counts) × (delete_loop works reach cutoff fuel counts t ≡ some p)
        × (length p.0.messages ≤ length t.messages)
  unfolding delete_loop
  delete_loop_ends zero counts t h = absurd (omega (arith, h))
  delete_loop_ends (suc fuel) counts t h = elim (List-cases (leaves reach cutoff t)) [
    | inl l ↦ ((t, counts), ground (arith, l), omega arith)
    | inr (r, rs, l) ↦
        let b = delete_batch works (r ∷ rs) t in
        let less = delete_batch-shrinks works reach cutoff r rs t l in
        let rest =
          delete_loop_ends fuel
            (record counts {
              deleted = counts.deleted + length (r ∷ rs);
              files = counts.files + b.1;
            })
            b.0 (omega (arith, less, h)) in
        (rest.0, ground (arith, l, rest.1), omega (arith, rest.2, less))
  ]

  clear_loop_ends :
      (fuel : ℕ) (counts : Counts) (t : Tables)
      → unread t.messages < fuel
      → (p : Tables × Counts) × (clear_loop works reach cutoff fuel counts t ≡ some p)
  unfolding clear_loop
  clear_loop_ends zero counts t h = absurd (omega (arith, h))
  clear_loop_ends (suc fuel) counts t h = elim (List-cases (posts reach cutoff t)) [
    | inl l ↦ ((t, counts), ground (arith, l))
    | inr (r, rs, l) ↦
        let b = clear_batch works (r ∷ rs) t in
        let less = clear_batch-shrinks works reach cutoff r rs t l in
        let now = record counts {
          cleared = counts.cleared + length (r ∷ rs);
          files = counts.files + b.1;
        } in
        let rest = clear_loop_ends fuel now b.0 (omega (arith, less, h)) in
        elim (Bool-cases (ltb (length (r ∷ rs)) batch)) [
          | inl short ↦ ((b.0, now), ground (arith, l, short))
          | inr full ↦ (rest.0, ground (arith, l, full, rest.1))
        ]
  ]

  -- A purge comes to its end: one more round than there are messages is enough for both loops.
  pub purge_scope_ends :
      (fuel : ℕ) (t : Tables)
      → length t.messages < fuel
      → (p : Tables × Counts) × (purge_scope works reach cutoff fuel t ≡ some p)
  unfolding purge_scope
  purge_scope_ends fuel t h =
      let zeros : Counts = record { deleted = 0; cleared = 0; files = 0 } in
      let first = delete_loop_ends fuel zeros t h in
      let second = clear_loop_ends fuel first.0.1 first.0.0 (
        omega (
          arith,
          length-keep-le (λ (m : Message). not m.deleted) first.0.0.messages,
          first.2,
          h,
        )) in
      (second.0, ground (arith, first.1, second.1))
