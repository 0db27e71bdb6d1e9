-- ===== src/Compliance/Purging.antt =====
-- Purges of src/retention.js against legal hold: what one change of the tables does.
use nova_connect.Prelude.{
  ◌≡◌, refl, sym, ap, ◌∙◌, subst, true, false, not, List, arith, map, if◌then◌else◌, ◌==◌, nat_eq,
  nat_beq_iff, In, In-keep, In-keep_in, In-map, In-map_from, any-found, Bool-cases, inl, inr,
}
use nova_connect.Compliance.Tables.{Message, Attachment, Edit, Tables, elem}
use nova_connect.Compliance.Holds.{held}
use nova_connect.Compliance.Retention.{ids_of, delete_messages, cleared, clear_messages}
use nova_connect.Compliance.Objects.{SameRows}

-- An id is the id of one message.
abbrev pub UniqueIds : List Message → Type 0
UniqueIds ms = (m n : Message) → In m ms → In n ms → m.id ≡ n.id → m ≡ n

-- Whatever is on hold in `t` is in `u` as it was, with its files and its earlier versions.
pub record HeldSafe (t u : Tables) : Type 0 where
  pub holds_same : (m : Message) → held u m ≡ held t m
  pub preserved_same : u.preserved ≡ t.preserved
  pub stays : (m : Message) → In m t.messages → held t m ≡ true → In m u.messages
  pub files_stay :
      (m : Message) (a : Attachment)
      → In m t.messages
      → held t m ≡ true
      → a.message_id ≡ m.id
      → In a t.attachments
      → In a u.attachments
  pub edits_stay :
      (m : Message) (e : Edit)
      → In m t.messages
      → held t m ≡ true
      → e.message_id ≡ m.id
      → In e t.edits
      → In e u.edits
  pub unique : UniqueIds u.messages

pub HeldSafe-refl : (t : Tables) → UniqueIds t.messages → HeldSafe t t
HeldSafe-refl t q = record {
  holds_same = λ m. refl;
  preserved_same = refl;
  stays = λ m i h. i;
  files_stay = λ m a i h e j. j;
  edits_stay = λ m e i h f j. j;
  unique = q;
}

pub HeldSafe-trans : (t u v : Tables) → HeldSafe t u → HeldSafe u v → HeldSafe t v
HeldSafe-trans t u v p q = record {
  holds_same = λ m. q.holds_same m ∙ p.holds_same m;
  preserved_same = q.preserved_same ∙ p.preserved_same;
  stays = λ m i h. q.stays m (p.stays m i h) (p.holds_same m ∙ h);
  files_stay = λ m a i h e j.
      q.files_stay m a (p.stays m i h) (p.holds_same m ∙ h) e (p.files_stay m a i h e j);
  edits_stay = λ m e i h f j.
      q.edits_stay m e (p.stays m i h) (p.holds_same m ∙ h) f (p.edits_stay m e i h f j);
  unique = q.unique;
}

pub HeldSafe-SameRows : (t u v : Tables) → HeldSafe t u → SameRows u v → HeldSafe t v
HeldSafe-SameRows t u v p s = record {
  holds_same = λ m. unfold held in ap (λ x. held x m) s.same ∙ p.holds_same m;
  preserved_same = ap (λ (x : Tables). x.preserved) s.same ∙ p.preserved_same;
  stays = λ m i h. subst (In m) (sym (ap (λ (x : Tables). x.messages) s.same)) (p.stays m i h);
  files_stay = λ m a i h e j.
      subst (In a) (sym (ap (λ (x : Tables). x.attachments) s.same)) (p.files_stay m a i h e j);
  edits_stay = λ m e i h f j.
      subst (In e) (sym (ap (λ (x : Tables). x.edits) s.same)) (p.edits_stay m e i h f j);
  unique = subst UniqueIds (sym (ap (λ (x : Tables). x.messages) s.same)) p.unique;
}

-- Rows of the table that are not on hold.
abbrev pub FreeRows : List Message → Tables → Type 0
FreeRows rows t = (m : Message) → In m rows → In m t.messages × (held t m ≡ false)

-- The id of a held message is not among the ids of such rows.
held-elem :
    (rows : List Message) (t : Tables) (m : Message)
    → UniqueIds t.messages
    → FreeRows rows t
    → In m t.messages
    → held t m ≡ true
    → elem m.id (ids_of rows) ≡ false
held-elem rows t m q free i h = elim (Bool-cases (elem m.id (ids_of rows))) [
  | inr e ↦ e
  | inl e ↦
      let (j, at, same) = any-found (λ j. j == m.id) (ids_of rows) e in
      let (r, in_rows, eq) = In-map_from (λ (x : Message). x.id) j rows at in
      let r_free = free r in_rows in
      let equal = q r m r_free.0 i (sym eq ∙ (nat_beq_iff j m.id).0 same) in
      ground (arith, sym r_free.1 ∙ ap (held t) equal, h)
]

pub delete_messages-HeldSafe :
    (rows : List Message) (t : Tables)
    → UniqueIds t.messages
    → FreeRows rows t
    → HeldSafe t (delete_messages (ids_of rows) t)
unfolding delete_messages held
delete_messages-HeldSafe rows t q free = record {
  holds_same = λ m. refl;
  preserved_same = refl;
  stays = λ m i h. In-keep _ m t.messages i (ap not (held-elem rows t m q free i h));
  files_stay = λ m a i h e j.
      In-keep _ a t.attachments j
        (ap (λ x. not (elem x (ids_of rows))) e ∙ ap not (held-elem rows t m q free i h));
  edits_stay = λ m e i h f j.
      In-keep _ e t.edits j
        (ap (λ x. not (elem x (ids_of rows))) f ∙ ap not (held-elem rows t m q free i h));
  unique = λ m n i j e. q m n (In-keep_in _ m t.messages i) (In-keep_in _ n t.messages j) e;
}

-- Clearing keeps the ids.
abbrev pub clear_one : List Message → Message → Message
clear_one rows m = if elem m.id (ids_of rows) then cleared m else m

clear_one-id : (rows : List Message) (m : Message) → (clear_one rows m).id ≡ m.id
clear_one-id rows m = ground arith

pub clear_messages-HeldSafe :
    (rows : List Message) (t : Tables)
    → UniqueIds t.messages
    → FreeRows rows t
    → HeldSafe t (clear_messages (ids_of rows) t)
unfolding clear_messages held
clear_messages-HeldSafe rows t q free = record {
  holds_same = λ m. refl;
  preserved_same = refl;
  stays = λ m i h.
      subst (λ x. In x (map (clear_one rows) t.messages))
        (ground (arith, held-elem rows t m q free i h)) (In-map (clear_one rows) m t.messages i);
  files_stay = λ m a i h e j.
      In-keep _ a t.attachments j
        (ap (λ x. not (elem x (ids_of rows))) e ∙ ap not (held-elem rows t m q free i h));
  edits_stay = λ m e i h f j.
      In-keep _ e t.edits j
        (ap (λ x. not (elem x (ids_of rows))) f ∙ ap not (held-elem rows t m q free i h));
  unique = λ m n i j e.
      let (a, ia, ea) = In-map_from (clear_one rows) m t.messages i in
      let (b, ib, eb) = In-map_from (clear_one rows) n t.messages j in
      ea
      ∙ ap (clear_one rows) (
          q a b ia ib (
            sym (clear_one-id rows a)
            ∙ sym (ap (λ (x : Message). x.id) ea)
            ∙ e
            ∙ ap (λ (x : Message). x.id) eb
            ∙ clear_one-id rows b))
      ∙ sym eb;
}
