-- ===== src/Compliance/Emptied.antt =====
-- Messages that are marked as deleted have no text, before and after a purge of src/retention.js.
use nova_connect.Prelude.{
  ℕ, zero, suc, ◌+◌, ◌≡◌, sym, ap, ◌∙◌, subst, Bool, true, not, some, String, List, ◌∷◌, arith,
  length, ltb, In, In-map_from, In-keep_in, Bool-cases, List-cases, inl, inr, nat_eq,
}
use nova_connect.Compliance.Tables.{Message, Tables, elem}
use nova_connect.Compliance.Retention.{
  Reach, batch, leaves, posts, ids_of, Counts, delete_batch, clear_batch, delete_loop, clear_loop,
}
use nova_connect.Compliance.Purging.{clear_one}
use nova_connect.Compliance.PurgeEnds.{delete_batch-messages, clear_batch-messages}

-- A message that is marked as deleted has no text.
abbrev pub Emptied : Tables → Type 0
Emptied t = (m : Message) → In m t.messages → m.deleted ≡ true → m.body ≡ ""

module _ (works : String → Bool) (reach : Reach) (cutoff : ℕ) where
  pub origin :
      (rows : List Message) (t : Tables) (m : Message)
      → In m (clear_batch works rows t).0.messages
      → (x : Message) × In x t.messages × (m ≡ clear_one rows x)
  origin rows t m i =
      In-map_from (clear_one rows) m t.messages (subst (In m) (clear_batch-messages works rows t) i)

  batch-Emptied :
      (rows : List Message) (t : Tables) → Emptied t → Emptied (clear_batch works rows t).0
  batch-Emptied rows t k m i h =
      let (x, j, e) = origin rows t m i in
      elim (Bool-cases (elem x.id (ids_of rows))) [
        | inl among ↦ ap (λ (y : Message). y.body) e ∙ ground (arith, among)
        | inr apart ↦
            let same : m ≡ x = e ∙ ground (arith, apart) in
            ap (λ (y : Message). y.body) same
            ∙ k x j (sym (ap (λ (y : Message). y.deleted) same) ∙ h)
      ]

  pub clear_loop-Emptied :
      (fuel : ℕ) (counts c : Counts) (t u : Tables)
      → Emptied t
      → clear_loop works reach cutoff fuel counts t ≡ some (u, c)
      → Emptied u
  unfolding clear_loop
  clear_loop-Emptied zero counts c t u k e = cc
  clear_loop-Emptied (suc fuel) counts c t u k e = elim (List-cases (posts reach cutoff t)) [
    | inl l ↦ subst Emptied {x = t} {y = u} (ground (arith, l, e)) k
    | inr (r, rs, l) ↦
        let rows = posts reach cutoff t in
        let v = (clear_batch works rows t).0 in
        let next = batch-Emptied rows t k in
        elim (Bool-cases (ltb (length rows) batch)) [
          | inl short ↦ subst Emptied {x = v} {y = u} (ground (arith, l, e, short)) next
          | inr full ↦
              clear_loop-Emptied fuel
                (record counts {
                  cleared = counts.cleared + length rows;
                  files = counts.files + (clear_batch works rows t).1;
                })
                c v u next (ground (arith, l, e, full))
        ]
  ]

  pub delete_loop-Emptied :
      (fuel : ℕ) (counts c : Counts) (t u : Tables)
      → Emptied t
      → delete_loop works reach cutoff fuel counts t ≡ some (u, c)
      → Emptied u
  unfolding delete_loop
  delete_loop-Emptied zero counts c t u k e = cc
  delete_loop-Emptied (suc fuel) counts c t u k e = elim (List-cases (leaves reach cutoff t)) [
    | inl l ↦ subst Emptied {x = t} {y = u} (ground (arith, l, e)) k
    | inr (r, rs, l) ↦
        let b = delete_batch works (r ∷ rs) t in
        delete_loop-Emptied fuel
          (record counts { deleted = counts.deleted + length (r ∷ rs); files = counts.files + b.1 })
          c b.0 u
          (λ m i h.
            k m
              (In-keep_in (λ (x : Message). not (elem x.id (ids_of (r ∷ rs)))) m t.messages
                (subst (In m) (delete_batch-messages works (r ∷ rs) t) i))
              h)
          (ground (arith, l, e))
  ]
