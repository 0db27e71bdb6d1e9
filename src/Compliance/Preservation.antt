-- ===== src/Compliance/Preservation.antt =====
-- Legal hold over time: purges, deletions and new holds in any order (src/retention.js,
-- src/messageDelete.js).
use nova_connect.Prelude.{
  ℕ, ◌≡◌, refl, sym, ap, ◌∙◌, subst, ◌⊎◌, inl, inr, Bool, true, false, some, String, List, [], ◌∷◌,
  ◌++◌, arith, map, In, In-map, In-map_from, find-In, keep-nonempty, beq_refl, nat_eq, nat_beq_iff,
  if◌then◌else◌, if_split, ◌==◌,
}
use nova_connect.Compliance.Tables.{Message, Hold, Preserved, Tables}
use nova_connect.Compliance.Holds.{held, covers, holds_for}
use nova_connect.Compliance.Retention.{Reach, Counts, purge_scope}
use nova_connect.Compliance.Deletion.{emptied_row, wipe, delete_for_everyone}
use nova_connect.Compliance.Purging.{UniqueIds}
use nova_connect.Compliance.PurgeSafety.{purge_scope-HeldSafe}

-- What changes the tables while holds are only added.
pub data Step : Tables → Tables → Type 0 where
  purged :
      {t u : Tables} (works : String → Bool) (reach : Reach) (cutoff fuel : ℕ) (c : Counts)
      → purge_scope works reach cutoff fuel t ≡ some (u, c)
      → Step t u
  deleted :
      {t : Tables} (msg : Message) (recalled : Bool) (by_user : ℕ)
      → In msg t.messages
      → Step t (delete_for_everyone msg recalled by_user t).0
  hold_added : {t : Tables} (h : Hold) → Step t (record t { holds = t.holds ++ h ∷ [] })

pub data Steps : Tables → Tables → Type 0 where
  here : {t : Tables} → Steps t t
  and_then : {t u v : Tables} → Step t u → Steps u v → Steps t v

-- A copy of the message for admins.
pub record Copy (m : Message) (t : Tables) : Type 0 where
  pub copy : Preserved
  pub kept : In copy t.preserved
  pub same_id : copy.message_id ≡ m.id
  pub same_body : copy.body ≡ m.body

-- The message is on hold, and it is there as it was or a copy of it is.
pub record Secured (m : Message) (t : Tables) : Type 0 where
  pub unique : UniqueIds t.messages
  pub on_hold : held t m ≡ true
  pub there : In m t.messages ⊎ Copy m t

pub purged-Secured :
    (works : String → Bool) (reach : Reach) (cutoff fuel : ℕ) (c : Counts) (m : Message)
    (t u : Tables)
    → purge_scope works reach cutoff fuel t ≡ some (u, c)
    → Secured m t
    → Secured m u
purged-Secured works reach cutoff fuel c m t u e s =
    let safe = purge_scope-HeldSafe works reach cutoff fuel c t u s.unique e in
    record {
      unique = safe.unique;
      on_hold = safe.holds_same m ∙ s.on_hold;
      there = elim s.there [
        | inl i ↦ inl (safe.stays m i s.on_hold)
        | inr k ↦ inr (record {
          copy = k.copy;
          kept = subst (In k.copy) (sym safe.preserved_same) k.kept;
          same_id = k.same_id;
          same_body = k.same_body;
        })
      ];
    }

-- Wiping the row keeps the ids, the holds and the copies, and every other row.
emptied-id :
    (msg : Message) (recalled : Bool) (m : Message)
    → (if m.id == msg.id then emptied_row msg recalled m else m).id ≡ m.id
emptied-id msg recalled m =
    if_split (λ (x : Message). x.id ≡ m.id) (m.id == msg.id) (λ _. refl) (λ _. refl)

pub wipe-UniqueIds :
    (msg : Message) (recalled : Bool) (t : Tables)
    → UniqueIds t.messages
    → UniqueIds (wipe msg recalled t).messages
unfolding wipe
wipe-UniqueIds msg recalled t q m n i j e =
    let f : Message → Message = λ x. if x.id == msg.id then emptied_row msg recalled x else x in
    let (a, ia, ea) = In-map_from f m t.messages i in
    let (b, ib, eb) = In-map_from f n t.messages j in
    let ids : a.id ≡ b.id =
      sym (emptied-id msg recalled a)
      ∙ sym (ap (λ (x : Message). x.id) ea)
      ∙ e
      ∙ ap (λ (x : Message). x.id) eb
      ∙ emptied-id msg recalled b in
    ea ∙ ap f (q a b ia ib ids) ∙ sym eb

pub wipe-In :
    (msg m : Message) (recalled : Bool) (t : Tables)
    → (m.id == msg.id) ≡ false
    → In m t.messages
    → In m (wipe msg recalled t).messages
unfolding wipe
wipe-In msg m recalled t other i =
    let f : Message → Message = λ x. if x.id == msg.id then emptied_row msg recalled x else x in
    let fixed : f m ≡ m = ground (arith, other) in
    subst (λ x. In x (map f t.messages)) fixed (In-map f m t.messages i)

-- The holds of a held row are found.
pub holds_for-found :
    (m : Message) (t : Tables)
    → UniqueIds t.messages
    → In m t.messages
    → held t m ≡ true
    → (h : ℕ) × (hs : List ℕ) × (holds_for t m.id ≡ h ∷ hs)
unfolding holds_for held
holds_for-found m t q i h =
    let (y, found, j, same) =
      find-In (λ (x : Message). x.id == m.id) m t.messages i (beq_refl m.id) in
    let equal = q y m j i ((nat_beq_iff y.id m.id).0 same) in
    let (k, ks, some_hold) = keep-nonempty (λ x. covers x m t.participants) t.holds h in
    (k.id, map (λ (x : Hold). x.id) ks, ground (arith, found, equal, some_hold))
