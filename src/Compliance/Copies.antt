-- ===== src/Compliance/Copies.antt =====
-- Deletions of src/messageDelete.js and the copies that a hold wants.
use nova_connect.Prelude.{
  ℕ, ◌≡◌, refl, sym, ap, ◌∙◌, subst, ◌⊎◌, inl, inr, Bool, true, false, List, [], ◌∷◌, arith, In,
  In-append_left, In-append_last, any-append_left, Bool-cases, nat_eq, nat_beq_iff, if◌then◌else◌,
  ◌==◌, list_split,
}
use nova_connect.Compliance.Tables.{Message, Tables}
use nova_connect.Compliance.Holds.{held, covers, holds_for}
use nova_connect.Compliance.Deletion.{preserve_message, wipe, delete_for_everyone}
use nova_connect.Compliance.Purging.{UniqueIds}
use nova_connect.Compliance.Preservation.{
  Step, purged, deleted, hold_added, Steps, here, and_then, Copy, Secured, purged-Secured,
  wipe-UniqueIds, wipe-In, holds_for-found,
}

-- The row is wiped either at once or after a copy of it.
abbrev Wiped : Message → Bool → Tables → Tables → Type 0
Wiped msg recalled t u =
    (u ≡ wipe msg recalled t)
    ⊎ ((hs : List ℕ) × (by_user : ℕ) × (u
          ≡ wipe msg recalled (preserve_message msg hs recalled by_user t)))

delete_for_everyone-Wiped :
    (msg : Message) (recalled : Bool) (by_user : ℕ) (t : Tables)
    → Wiped msg recalled t (delete_for_everyone msg recalled by_user t).0
unfolding delete_for_everyone
delete_for_everyone-Wiped msg recalled by_user t =
    list_split (λ (r : Tables × List ℕ). Wiped msg recalled t r.0)
      (if msg.deleted then [] else holds_for t msg.id) (λ _. inl refl)
      (λ h hs _. inr (h ∷ hs, by_user, refl))

delete_for_everyone-held :
    (m : Message) (recalled : Bool) (by_user : ℕ) (t : Tables)
    → UniqueIds t.messages
    → In m t.messages
    → held t m ≡ true
    → m.deleted ≡ false
    → (hs : List ℕ) × ((delete_for_everyone m recalled by_user t).0
        ≡ wipe m recalled (preserve_message m hs recalled by_user t))
unfolding delete_for_everyone
delete_for_everyone-held m recalled by_user t q i h d =
    let (k, ks, found) = holds_for-found m t q i h in (k ∷ ks, ground (arith, d, found))

module _ (m : Message) (msg : Message) (recalled : Bool) where
  wipe-Copy : (t : Tables) → Copy m t → Copy m (wipe msg recalled t)
  unfolding wipe
  wipe-Copy t c = record {
    copy = c.copy;
    kept = c.kept;
    same_id = c.same_id;
    same_body = c.same_body;
  }

  preserve-Copy :
      (hs : List ℕ) (by_user : ℕ) (t : Tables)
      → Copy m t
      → Copy m (preserve_message msg hs recalled by_user t)
  unfolding preserve_message
  preserve-Copy hs by_user t c = record {
    copy = c.copy;
    kept = In-append_left c.copy t.preserved _ c.kept;
    same_id = c.same_id;
    same_body = c.same_body;
  }

  Wiped-there :
      (t u : Tables)
      → Wiped msg recalled t u
      → (m.id == msg.id) ≡ false
      → In m t.messages
      → In m u.messages
  unfolding preserve_message
  Wiped-there t u (inl e) other i =
      subst (λ (x : Tables). In m x.messages) (sym e) (wipe-In msg m recalled t other i)
  Wiped-there t u (inr (hs, b, e)) other i =
      subst (λ (x : Tables). In m x.messages) (sym e)
        (wipe-In msg m recalled (preserve_message msg hs recalled b t) other i)

  Wiped-Copy : (t u : Tables) → Wiped msg recalled t u → Copy m t → Copy m u
  Wiped-Copy t u (inl e) c = subst (Copy m) (sym e) (wipe-Copy t c)
  Wiped-Copy t u (inr (hs, b, e)) c =
      subst (Copy m) (sym e)
        (wipe-Copy (preserve_message msg hs recalled b t) (preserve-Copy hs b t c))

  Wiped-frame :
      (t u : Tables)
      → Wiped msg recalled t u
      → UniqueIds t.messages
      → held t m ≡ true
      → UniqueIds u.messages × (held u m ≡ true)
  unfolding preserve_message held wipe
  Wiped-frame t u (inl e) q h = (
    subst (λ (x : Tables). UniqueIds x.messages) (sym e) (wipe-UniqueIds msg recalled t q),
    ap (λ x. held x m) e ∙ h,
  )
  Wiped-frame t u (inr (hs, b, e)) q h = (
    subst (λ (x : Tables). UniqueIds x.messages) (sym e)
        (wipe-UniqueIds msg recalled (preserve_message msg hs recalled b t) q),
    ap (λ x. held x m) e ∙ h,
  )

-- The copy that `preserveMessage` makes.
preserved-Copy :
    (m : Message) (recalled : Bool) (hs : List ℕ) (by_user : ℕ) (t : Tables)
    → Copy m (wipe m recalled (preserve_message m hs recalled by_user t))
unfolding wipe preserve_message
preserved-Copy m recalled hs by_user t = record {
  copy = _;
  kept = In-append_last _ t.preserved;
  same_id = refl;
  same_body = refl;
}

deleted-Secured :
    (msg m : Message) (recalled : Bool) (by_user : ℕ) (t : Tables)
    → In msg t.messages
    → m.deleted ≡ false
    → Secured m t
    → Secured m (delete_for_everyone msg recalled by_user t).0
deleted-Secured msg m recalled by_user t at d s =
    let u = (delete_for_everyone msg recalled by_user t).0 in
    let w = delete_for_everyone-Wiped msg recalled by_user t in
    let frame = Wiped-frame m msg recalled t u w s.unique s.on_hold in
    record {
      unique = frame.0;
      on_hold = frame.1;
      there = elim s.there [
        | inr c ↦ inr (Wiped-Copy m msg recalled t u w c)
        | inl i ↦ elim (Bool-cases (m.id == msg.id)) [
          | inr other ↦ inl (Wiped-there m msg recalled t u w other i)
          | inl same ↦
              let equal = s.unique m msg i at ((nat_beq_iff m.id msg.id).0 same) in
              let (hs, e) = delete_for_everyone-held m recalled by_user t s.unique i s.on_hold d in
              inr (
                subst (Copy m)
                  (sym e ∙ ap (λ x. (delete_for_everyone x recalled by_user t).0) equal)
                  (preserved-Copy m recalled hs by_user t))
        ]
      ];
    }

Step-Secured :
    (m : Message) (t u : Tables) → Step t u → m.deleted ≡ false → Secured m t → Secured m u
unfolding held
Step-Secured m t u (purged works reach cutoff fuel c e) d s =
    purged-Secured works reach cutoff fuel c m t u e s
Step-Secured m t u (deleted msg recalled by_user i) d s =
    deleted-Secured msg m recalled by_user t i d s
Step-Secured m t u (hold_added h) d s = record {
  unique = s.unique;
  on_hold = any-append_left (λ x. covers x m t.participants) t.holds (h ∷ []) s.on_hold;
  there = elim s.there [
    | inl i ↦ inl i
    | inr c ↦
        inr (record { copy = c.copy; kept = c.kept; same_id = c.same_id; same_body = c.same_body })
  ];
}

-- A message on legal hold is never lost while its hold lasts: after any sequence of purges, deletions,
-- recalls and new holds, it is either in its place as it was, or a copy with its text is kept.
pub Steps-Secured :
    (m : Message) (t u : Tables) → Steps t u → m.deleted ≡ false → Secured m t → Secured m u
Steps-Secured m t u here d s = s
Steps-Secured m t u (and_then {u = v} step rest) d s =
    Steps-Secured m v u rest d (Step-Secured m t v step d s)
