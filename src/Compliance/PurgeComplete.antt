-- ===== src/Compliance/PurgeComplete.antt =====
-- What `purgeScope` of src/retention.js leaves behind.
use nova_connect.Prelude.{
  ℕ, zero, suc, ◌+◌, ◌<◌, ◌≡◌, refl, sym, ap, ◌∙◌, subst, Bool, true, false, not, ◌&&◌, none, some,
  String, List, [], ◌∷◌, arith, keep, map, length, ltb, In, In-keep, In-map, In-map_from, any-In,
  In-take, In-keep_in, In-keep_holds, any-found, any-map, keep_none, take_none, take_short,
  Bool-cases, Option-cases, List-cases, inl, inr, nat_eq, nat_beq_iff, beq_refl, if_split, ◌==◌,
}
use nova_connect.Compliance.Tables.{Message, Tables, elem, is_id}
use nova_connect.Compliance.Holds.{held}
use nova_connect.Compliance.Retention.{
  Reach, expired, has_replies, batch, leaves, posts, ids_of, Counts, delete_batch, clear_batch,
  delete_loop, clear_loop, purge_scope,
}
use nova_connect.Compliance.Purging.{UniqueIds, HeldSafe, clear_one}
use nova_connect.Compliance.PurgeSafety.{posts-FreeRows, clear_batch-HeldSafe, delete_loop-HeldSafe}
use nova_connect.Compliance.PurgeEnds.{clear_batch-messages, clear_one-elem}
use nova_connect.Compliance.Emptied.{Emptied, origin, clear_loop-Emptied, delete_loop-Emptied}

-- A post that starts a thread and still has its text.
abbrev pub is_post : Message → Bool
is_post m = (elim m.parent [ none ↦ true | some _ ↦ false ]) && not m.deleted

-- What is past the limit and may go has replies, and is marked as deleted unless it is a reply itself.
abbrev IsFinished : Reach → ℕ → Tables → Type 0
IsFinished reach cutoff t =
    (m : Message)
    → In m t.messages
    → expired reach cutoff t m ≡ true
    → (has_replies m.id t.messages ≡ true) × (is_post m ≡ false)

-- Past the limit, there is what has replies, and a root among that is deleted and has no text.
abbrev pub IsPurged : Reach → ℕ → Tables → Type 0
IsPurged reach cutoff t =
    (m : Message)
    → In m t.messages
    → expired reach cutoff t m ≡ true
    → (has_replies m.id t.messages ≡ true) × (m.parent ≡ none → (m.deleted ≡ true) × (m.body ≡ ""))

module _ (reach : Reach) (cutoff : ℕ) where
  abbrev NoLeaf : Tables → Type 0
  NoLeaf t =
      (m : Message)
      → In m t.messages
      → expired reach cutoff t m ≡ true
      → has_replies m.id t.messages ≡ true

  abbrev NoPost : Tables → Type 0
  NoPost t = (m : Message) → In m t.messages → expired reach cutoff t m ≡ true → is_post m ≡ false

  leaves-NoLeaf : (t : Tables) → leaves reach cutoff t ≡ [] → NoLeaf t
  unfolding leaves
  leaves-NoLeaf t l m i h = ground (arith, h, keep_none _ m t.messages (take_none 499 _ l) i)

  posts-NoPost : (t : Tables) → posts reach cutoff t ≡ [] → NoPost t
  unfolding posts
  posts-NoPost t l m i h = ground (arith, h, keep_none _ m t.messages (take_none 499 _ l) i)

  has_replies-clear :
      (i : ℕ) (rows ms : List Message) → has_replies i (map (clear_one rows) ms) ≡ has_replies i ms
  unfolding has_replies
  has_replies-clear i rows ms =
      any-map (λ (r : Message). is_id i r.parent) (clear_one rows) ms
        λ y.
          if_split (λ (m : Message). is_id i m.parent ≡ is_id i y.parent) (elem y.id (ids_of rows))
            (λ _. refl) (λ _. refl)

  expired-same :
      (t u : Tables) (m : Message)
      → held u m ≡ held t m
      → expired reach cutoff u m ≡ expired reach cutoff t m
  unfolding expired
  expired-same t u m e = ground (arith, e)

  -- A message after a round of the second loop: it was cleared, or it was there and is not among the
  -- rows.
  abbrev Origin : List Message → Tables → Message → Type 0
  Origin rows t m = (x : Message) × In x t.messages × (m ≡ clear_one rows x)

module _ (works : String → Bool) (reach : Reach) (cutoff : ℕ) where
  clear_batch-NoLeaf :
      (rows : List Message) (t : Tables)
      → HeldSafe t (clear_batch works rows t).0
      → ((x : Message)
          → In x t.messages
          → elem x.id (ids_of rows) ≡ true
          → expired reach cutoff t x ≡ true)
      → NoLeaf reach cutoff t
      → NoLeaf reach cutoff (clear_batch works rows t).0
  clear_batch-NoLeaf rows t safe was replied m i h =
      let (x, j, e) = origin works reach cutoff rows t m i in
      let replies : has_replies x.id t.messages ≡ true =
        elim (Bool-cases (elem x.id (ids_of rows))) [
          | inl yes_elem ↦ replied x j (was x j yes_elem)
          | inr no_elem ↦ replied x j (
              sym (expired-same reach cutoff t _ x (safe.holds_same x))
              ∙ subst (λ y. expired reach cutoff (clear_batch works rows t).0 y ≡ true)
                  (e ∙ ground (arith, no_elem)) h)
        ] in
      ap (has_replies m.id) (clear_batch-messages works rows t)
      ∙ has_replies-clear reach cutoff m.id rows t.messages
      ∙ ap (λ k. has_replies k t.messages) (ap (λ (y : Message). y.id) e ∙ ground arith)
      ∙ replies

  -- The rows of the second query, read off an id.
  posts-elem :
      (t : Tables) (x : Message)
      → UniqueIds t.messages
      → In x t.messages
      → elem x.id (ids_of (posts reach cutoff t)) ≡ true
      → expired reach cutoff t x ≡ true
  unfolding posts
  posts-elem t x q i h =
      let p : Message → Bool = λ m.
        expired reach cutoff t m
        && (elim m.parent [ none ↦ true | some _ ↦ false ])
        && not m.deleted in
      let (k, at, same) = any-found (λ j. j == x.id) (ids_of (posts reach cutoff t)) h in
      let (r, in_rows, eq) = In-map_from (λ (m : Message). m.id) k (posts reach cutoff t) at in
      let kept = In-take batch r (keep p t.messages) in_rows in
      let equal = q r x (In-keep_in p r t.messages kept) i (sym eq ∙ (nat_beq_iff k x.id).0 same) in
      ground (arith, subst (λ y. p y ≡ true) equal (In-keep_holds p r t.messages kept))

  -- A post that the short batch passed over cannot be there.
  missed :
      (t : Tables) (x : Message)
      → In x t.messages
      → length (posts reach cutoff t) < batch
      → elem x.id (ids_of (posts reach cutoff t)) ≡ false
      → expired reach cutoff t x ≡ true
      → is_post x ≡ true
      → ⊥
  unfolding posts
  missed t x i short apart h p =
      let test : Message → Bool = λ m.
        expired reach cutoff t m
        && (elim m.parent [ none ↦ true | some _ ↦ false ])
        && not m.deleted in
      let all : posts reach cutoff t ≡ keep test t.messages =
        take_short batch (keep test t.messages) short in
      let in_rows : In x (posts reach cutoff t) =
        subst (In x) (sym all) (In-keep test x t.messages i (ground (arith, h, p))) in
      let found : elem x.id (ids_of (posts reach cutoff t)) ≡ true =
        any-In (λ j. j == x.id) x.id (ids_of (posts reach cutoff t))
          (In-map (λ (m : Message). m.id) x (posts reach cutoff t) in_rows) (beq_refl x.id) in
      ground (arith, apart, found)

  -- A short batch was all there was.
  short_batch-NoPost :
      (t : Tables)
      → HeldSafe t (clear_batch works (posts reach cutoff t) t).0
      → length (posts reach cutoff t) < batch
      → NoPost reach cutoff (clear_batch works (posts reach cutoff t) t).0
  short_batch-NoPost t safe short m i h =
      let rows = posts reach cutoff t in
      let u = (clear_batch works rows t).0 in
      let (x, j, e) = origin works reach cutoff rows t m i in
      elim (Bool-cases (elem x.id (ids_of rows))) [
        | inl among ↦ ground (arith, ap (λ (y : Message). y.deleted) e, clear_one-elem rows x among)
        | inr apart ↦
            let same : m ≡ x = e ∙ ground (arith, apart) in
            let still : expired reach cutoff t x ≡ true =
              sym (expired-same reach cutoff t u x (safe.holds_same x))
              ∙ subst (λ y. expired reach cutoff u y ≡ true) same h in
            elim (Bool-cases (is_post x)) [
              | inr cleared_one ↦ ap is_post same ∙ cleared_one
              | inl open_post ↦ absurd (missed t x j short apart still open_post)
            ]
      ]

  clear_loop-IsFinished :
      (fuel : ℕ) (counts c : Counts) (t u : Tables)
      → UniqueIds t.messages
      → NoLeaf reach cutoff t
      → clear_loop works reach cutoff fuel counts t ≡ some (u, c)
      → IsFinished reach cutoff u
  unfolding clear_loop
  clear_loop-IsFinished zero counts c t u q n e = cc
  clear_loop-IsFinished (suc fuel) counts c t u q n e = elim (List-cases (posts reach cutoff t)) [
    | inl l ↦
        subst (IsFinished reach cutoff) (ground (arith, l, e))
          λ m i h. (n m i h, posts-NoPost reach cutoff t l m i h)
    | inr (r, rs, l) ↦
        let rows = posts reach cutoff t in
        let v = (clear_batch works rows t).0 in
        let safe = clear_batch-HeldSafe works rows t q (posts-FreeRows reach cutoff t) in
        let next = clear_batch-NoLeaf rows t safe (λ x i h. posts-elem t x q i h) n in
        elim (Bool-cases (ltb (length rows) batch)) [
          | inl short ↦
              subst (IsFinished reach cutoff) (ground (arith, l, e, short))
                λ m i h. (next m i h, short_batch-NoPost t safe (ground (arith, short)) m i h)
          | inr full ↦
              clear_loop-IsFinished fuel
                (record counts {
                  cleared = counts.cleared + length rows;
                  files = counts.files + (clear_batch works rows t).1;
                })
                c v u safe.unique next (ground (arith, l, e, full))
        ]
  ]

  delete_loop-NoLeaf :
      (fuel : ℕ) (counts c : Counts) (t u : Tables)
      → delete_loop works reach cutoff fuel counts t ≡ some (u, c)
      → NoLeaf reach cutoff u
  unfolding delete_loop
  delete_loop-NoLeaf zero counts c t u e = cc
  delete_loop-NoLeaf (suc fuel) counts c t u e = elim (List-cases (leaves reach cutoff t)) [
    | inl l ↦ subst (NoLeaf reach cutoff) (ground (arith, l, e)) (leaves-NoLeaf reach cutoff t l)
    | inr (r, rs, l) ↦
        let b = delete_batch works (r ∷ rs) t in
        delete_loop-NoLeaf fuel
          (record counts { deleted = counts.deleted + length (r ∷ rs); files = counts.files + b.1 })
          c b.0 u (ground (arith, l, e))
  ]

  -- After a purge, a message that is past its limit and neither on hold nor a pending card has
  -- replies, and if it is not a reply itself it is marked as deleted and its text is empty. Given that
  -- no two messages have one id, and that before the purge no message that is marked as deleted has a
  -- text.
  pub purge_scope-IsPurged :
      (fuel : ℕ) (c : Counts) (t u : Tables)
      → UniqueIds t.messages
      → Emptied t
      → purge_scope works reach cutoff fuel t ≡ some (u, c)
      → IsPurged reach cutoff u
  unfolding purge_scope
  purge_scope-IsPurged fuel c t u q k e =
      elim (Option-cases
        (delete_loop works reach cutoff fuel (record { deleted = 0; cleared = 0; files = 0 }) t)) [
          | inl absent ↦ ground (arith, absent, e)
          | inr ((v, d), found) ↦
              emptied_too u
                (clear_loop-Emptied works reach cutoff fuel d c v u
                  (delete_loop-Emptied works reach cutoff fuel _ d t v k found)
                  (ground (arith, found, e)))
                (clear_loop-IsFinished fuel d c v u
                  (delete_loop-HeldSafe works reach cutoff fuel _ d t v q found).unique
                  (delete_loop-NoLeaf fuel _ d t v found) (ground (arith, found, e)))
        ]
    where
      emptied_too : (x : Tables) → Emptied x → IsFinished reach cutoff x → IsPurged reach cutoff x
      emptied_too x k f m i h =
          let (replies, no_post) = f m i h in
          (
            replies,
            λ root.
                let gone : m.deleted ≡ true = ground (arith, root, no_post) in (gone, k m i gone),
          )
