-- ===== src/Messages/Stored.antt =====
-- The tables of messages as the requests keep them.
use nova_connect.Prelude.{
  ℕ, ◌<◌, ◌≤◌, ◌≡◌, refl, sym, ap, ◌∙◌, subst, Bool, true, false, not, ◌&&◌, Option, none, some,
  String, List, [], ◌∷◌, Map, arith, map, lookup, insert, has, if◌then◌else◌, if_split,
  option_split, ◌⊎◌, inl, inr, guard_split, found_split, chain_split, ◌==◌, nat_eq, pair_eq,
  string_eq, DistinctKeys, DistinctKeys-insert, lookup-insert, Bool-cases, nat_beq_iff,
}
use nova_connect.Teams.Invariant.{IsKept}
use nova_connect.Messages.Announcement.{Fields, Metadata, announcement_of}
use nova_connect.Messages.State.{
  Message, Seat, Store, Place, in_channel, in_chat, Effect, no_access, empty_message,
  storage_failed, no_message, not_yours, was_deleted, emoji_required,
}
use nova_connect.Messages.Access.{load_channel_for_user, load_message, load_message-lookup}
use nova_connect.Messages.Posting.{
  Upload, Answer, is_some, has_file, not_failed, announcement_for, new_message, store_message,
  post_in_channel, show_chat, post_in_chat, forwarded_text, forward_target, forward,
}
use nova_connect.Messages.Changing.{
  react, edited_metadata, replace_text, edit, wipe_text, may_delete, remove, pin,
}
use nova_connect.Messages.Requests.{
  Request, posts_in_channel, posts_in_chat, forwards, reacts, edits, removes, pins, handle,
  store_after,
}

-- A message is in one channel and in no chat, or in one chat and in no channel.
abbrev pub IsPlaced : Message → Type 0
IsPlaced m =
    ((c : ℕ) × (m.channel_id ≡ some c) × (m.conversation_id ≡ none))
    ⊎ ((d : ℕ) × (m.conversation_id ≡ some d) × (m.channel_id ≡ none))

abbrev pub AllPlaced : Map ℕ Message → Type 0
AllPlaced ms = (id : ℕ) (m : Message) → lookup id ms ≡ some m → IsPlaced m

-- Each message has a number that has been given out.
abbrev pub AllNumbered : ℕ → Map ℕ Message → Type 0
AllNumbered n ms = (id : ℕ) (m : Message) → lookup id ms ≡ some m → id < n

-- The numbers of messages and the seats are keys, no message has the next number, and each message is
-- in one place.
pub record IsFiled (s : Store) : Type 0 where
  pub teams : IsKept s.teams
  pub seats : DistinctKeys s.seats
  pub messages : DistinctKeys s.messages
  pub placed : AllPlaced s.messages
  pub numbered : AllNumbered s.next_message s.messages

-- A message is in no channel, or in no chat.
abbrev pub OnePlace : Message → Type 0
OnePlace m = (m.channel_id ≡ none) ⊎ (m.conversation_id ≡ none)

-- What the search needs of the tables.
pub record IsStored (s : Store) : Type 0 where
  pub teams : IsKept s.teams
  pub seats : DistinctKeys s.seats
  pub messages : DistinctKeys s.messages
  pub one_place : (id : ℕ) (m : Message) → lookup id s.messages ≡ some m → OnePlace m

placed-OnePlace : (m : Message) → IsPlaced m → OnePlace m
placed-OnePlace m (inl (c, in_c, no_chat)) = inr no_chat
placed-OnePlace m (inr (d, in_d, no_channel)) = inl no_channel

pub filed-IsStored : (s : Store) → IsFiled s → IsStored s
filed-IsStored s k = record {
  teams = k.teams;
  seats = k.seats;
  messages = k.messages;
  one_place = λ id m l. placed-OnePlace m (k.placed id m l);
}

inserted-AllNumbered :
    (n p j : ℕ) (x : Message) (ms : Map ℕ Message)
    → j < p
    → n ≤ p
    → AllNumbered n ms
    → AllNumbered p (insert j x ms)
inserted-AllNumbered n p j x ms new more all id m l = elim (Bool-cases (j == id)) [
  | inl same ↦ subst (λ z. z < p) ((nat_beq_iff j id).0 same) new
  | inr apart ↦
      let old = all id m (ground (arith, apart, l, lookup-insert j id x ms)) in
      omega (arith, old, more)
]

new-IsPlaced :
    (place : Place) (me : ℕ) (body : String) (parent : Option ℕ) (metadata : Option Metadata)
    (now : ℕ)
    → IsPlaced (new_message place me body parent metadata now)
new-IsPlaced (in_channel c) me body parent metadata now = inl (c, refl, refl)
new-IsPlaced (in_chat d) me body parent metadata now = inr (d, refl, refl)

inserted-IsPlaced :
    (j : ℕ) (n : Message) (ms : Map ℕ Message)
    → IsPlaced n
    → AllPlaced ms
    → AllPlaced (insert j n ms)
inserted-IsPlaced j n ms one all id m l = elim (Bool-cases (j == id)) [
  | inl same ↦
      let is_n : n ≡ m = ground (arith, same, l, lookup-insert j id n ms) in subst IsPlaced is_n one
  | inr apart ↦ all id m (ground (arith, apart, l, lookup-insert j id n ms))
]

-- Whatever else is stored with it.
changed_message-IsFiled :
    (j : ℕ) (n : Message) (s t : Store)
    → IsPlaced n
    → IsFiled s
    → t.teams ≡ s.teams
    → t.seats ≡ s.seats
    → t.messages ≡ insert j n s.messages
    → j < t.next_message
    → s.next_message ≤ t.next_message
    → IsFiled t
changed_message-IsFiled j n s t one k a b c new more = record {
  teams = subst IsKept (sym a) k.teams;
  seats = subst (λ m. DistinctKeys m) (sym b) k.seats;
  messages = subst (λ m. DistinctKeys m) (sym c) (DistinctKeys-insert j n s.messages k.messages);
  placed = subst AllPlaced (sym c) (inserted-IsPlaced j n s.messages one k.placed);
  numbered =
      subst (AllNumbered t.next_message) (sym c)
        (inserted-AllNumbered s.next_message t.next_message j n s.messages new more k.numbered);
}

store_message-IsFiled :
    (n : Message) (upload : Upload) (s : Store)
    → IsPlaced n
    → IsFiled s
    → IsFiled (store_message n upload s)
unfolding store_message
store_message-IsFiled n upload s one k =
    changed_message-IsFiled s.next_message n s _ one k refl refl refl (omega arith) (omega arith)

module _ (d me : ℕ) where
  abbrev shown : (ℕ × ℕ) × Seat → (ℕ × ℕ) × Seat
  shown e = if e.0.0 == d then (e.0, record { hidden = false; unread = not (e.0.1 == me) }) else e

  shown-key : (e : (ℕ × ℕ) × Seat) → (shown e).0 ≡ e.0
  shown-key e = if_split (λ (z : (ℕ × ℕ) × Seat). z.0 ≡ e.0) (e.0.0 == d) (λ _. refl) (λ _. refl)

  other_branch : (b : Bool) (x : Seat) {o : Option Seat} → b ≡ false → (if b then some x else o) ≡ o
  other_branch true x h = cc
  other_branch false x h = refl

  shown-lookup :
      (i : ℕ × ℕ) (m : Map (ℕ × ℕ) Seat) → lookup i m ≡ none → lookup i (map shown m) ≡ none
  unfolding lookup
  shown-lookup i [] l = refl
  shown-lookup i ((j, x) ∷ m) l =
      elim (Bool-cases (pair_eq.beq j i)) as (λ _. lookup i (map shown ((j, x) ∷ m)) ≡ none) [
        | inl same ↦ ground (arith, l, same)
        | inr apart ↦
            let still : (pair_eq.beq (shown (j, x)).0 i) ≡ false =
              ap (λ (z : ℕ × ℕ). pair_eq.beq z i) (shown-key (j, x)) ∙ apart in
            let rest = shown-lookup i m (ground (arith, l, apart)) in
            other_branch (pair_eq.beq (shown (j, x)).0 i) (shown (j, x)).1 still ∙ rest
      ]

  shown-DistinctKeys : (m : Map (ℕ × ℕ) Seat) → DistinctKeys m → DistinctKeys (map shown m)
  shown-DistinctKeys [] k = tt
  shown-DistinctKeys ((j, x) ∷ m) k = (
    ap (λ i. lookup i (map shown m)) (shown-key (j, x)) ∙ shown-lookup j m k.0,
    shown-DistinctKeys m k.1,
  )

show_chat-IsFiled : (d me : ℕ) (s : Store) → IsFiled s → IsFiled (show_chat d me s)
unfolding show_chat
show_chat-IsFiled d me s k = record {
  teams = k.teams;
  seats = shown-DistinctKeys d me s.seats k.seats;
  messages = k.messages;
  placed = k.placed;
  numbered = k.numbered;
}

module _ (me : ℕ) (s : Store) (k : IsFiled s) where
  abbrev Keeps : Answer → Type 0
  Keeps a = IsFiled (store_after s a)

  loaded-IsPlaced : (id : ℕ) (x : Message × Place) → load_message id me s ≡ some x → IsPlaced x.0
  loaded-IsPlaced id x l = k.placed id x.0 (load_message-lookup id me s x l)

  loaded_number :
      (id : ℕ) (x : Message × Place) → load_message id me s ≡ some x → id < s.next_message
  loaded_number id x l = k.numbered id x.0 (load_message-lookup id me s x l)

  post_in_channel-IsFiled :
      (c : ℕ) (body : String) (gif : Option String) (parent : Option ℕ) (fields : Fields)
      (upload : Upload) (says : ℕ → Bool) (now : ℕ)
      → Keeps (post_in_channel c body gif parent fields upload says now me s)
  unfolding post_in_channel
  post_in_channel-IsFiled c body gif parent fields upload says now =
      found_split Keeps (load_channel_for_user c me s.teams) no_access _ k (λ ch _.
        chain_split Keeps (announcement_for fields parent) _ (λ _ _. k)
          (λ ann _.
            guard_split Keeps
              (not (body == "" && not (has_file upload) && not (is_some gif) && not (is_some ann)))
              empty_message _ k
              (λ _.
                guard_split Keeps (not_failed upload) storage_failed _ k
                  (λ _. store_message-IsFiled _ upload s (inl (c, refl, refl)) k))))

  post_in_chat-IsFiled :
      (d : ℕ) (body : String) (gif : Option String) (parent : Option ℕ) (upload : Upload) (now : ℕ)
      → Keeps (post_in_chat d body gif parent upload now me s)
  unfolding post_in_chat
  post_in_chat-IsFiled d body gif parent upload now =
      guard_split Keeps (has (d, me) s.seats) no_access _ k (λ _.
        guard_split Keeps (not (body == "" && not (has_file upload) && not (is_some gif)))
          empty_message _ k
          (λ _. guard_split Keeps (not_failed upload) storage_failed _ k (λ _.
            show_chat-IsFiled d me _ (store_message-IsFiled _ upload s (inr (d, refl, refl)) k))))

  to_place :
      (place : Place) (m : Message) (j now : ℕ)
      → IsPlaced (
          new_message place me
            (forwarded_text m)
            none
            (some (record { gif_url = none; announcement = none; forwarded_from = some j }))
            now)
  to_place place m j now =
      new-IsPlaced place me (forwarded_text m) none
        (some (record { gif_url = none; announcement = none; forwarded_from = some j })) now

  forward-IsFiled : (j : ℕ) (c d : Option ℕ) (now : ℕ) → Keeps (forward j c d now me s)
  unfolding forward store_message
  forward-IsFiled j c d now = found_split Keeps (load_message j me s) no_message _ k (λ x _.
      guard_split Keeps (not x.0.deleted) no_message _ k (λ _.
        chain_split Keeps (forward_target c d me s) _ (λ _ _. k)
          (λ place _.
            option_split IsFiled d
              (λ _.
                changed_message-IsFiled s.next_message _ s _ (to_place place x.0 j now) k refl refl
                  refl (omega arith) (omega arith))
              (λ chat _. show_chat-IsFiled chat me _ (
                changed_message-IsFiled s.next_message _ s _ (to_place place x.0 j now) k refl refl
                  refl (omega arith) (omega arith))))))

  react-IsFiled : (j : ℕ) (emoji : String) → Keeps (react j emoji me s)
  unfolding react
  react-IsFiled j emoji = found_split Keeps (load_message j me s) no_message _ k (λ x _.
      guard_split Keeps (not (emoji == "")) emoji_required _ k (λ _. record {
        teams = k.teams;
        seats = k.seats;
        messages = k.messages;
        placed = k.placed;
        numbered = k.numbered;
      }))

  edit-IsFiled :
      (j : ℕ) (body : String) (fields : Option Fields) (now : ℕ)
      → Keeps (edit j body fields now me s)
  unfolding edit replace_text
  edit-IsFiled j body fields now = found_split Keeps (load_message j me s) no_message _ k (λ x l.
      guard_split Keeps (x.0.user_id == me) not_yours _ k (λ _.
        chain_split Keeps (edited_metadata x.0 fields) _ (λ _ _. k)
          (λ changed _.
            guard_split Keeps (not (body == "" && not (is_some (announcement_of x.0.metadata))))
              empty_message _ k
              (λ _.
                if_split (λ (z : Store × List Effect). IsFiled z.0) (body == x.0.body && changed.1)
                  (λ _. k)
                  (λ _.
                    changed_message-IsFiled j _ s _ (loaded-IsPlaced j x l) k refl refl refl
                      (loaded_number j x l) (omega arith))))))

  remove-IsFiled : (j : ℕ) (is_admin : Bool) → Keeps (remove j is_admin me s)
  unfolding remove wipe_text
  remove-IsFiled j is_admin = found_split Keeps (load_message j me s) no_message _ k (λ x l.
      guard_split Keeps (may_delete x.0 me is_admin s) not_yours _ k (λ _.
        changed_message-IsFiled j _ s _ (loaded-IsPlaced j x l) k refl refl refl
          (loaded_number j x l) (omega arith)))

  pin-IsFiled : (j now : ℕ) → Keeps (pin j now me s)
  unfolding pin
  pin-IsFiled j now = found_split Keeps (load_message j me s) no_message _ k (λ x l.
      guard_split Keeps (not x.0.deleted) was_deleted _ k (λ _.
        changed_message-IsFiled j _ s _ (loaded-IsPlaced j x l) k refl refl refl
          (loaded_number j x l) (omega arith)))

  -- Every request on messages keeps the tables in order: numbers and seats stay keys, the number that the
  -- next message gets is that of no message, so that none is overwritten, and each message is in one
  -- channel and no chat, or in one chat and no channel.
  pub handle-IsFiled : (r : Request) → IsFiled (store_after s (handle r me s))
  unfolding handle
  handle-IsFiled (posts_in_channel c body gif parent fields upload says now) =
      post_in_channel-IsFiled c body gif parent fields upload says now
  handle-IsFiled (posts_in_chat d body gif parent upload now) =
      post_in_chat-IsFiled d body gif parent upload now
  handle-IsFiled (forwards j c d now) = forward-IsFiled j c d now
  handle-IsFiled (reacts j emoji) = react-IsFiled j emoji
  handle-IsFiled (edits j body fields now) = edit-IsFiled j body fields now
  handle-IsFiled (removes j is_admin) = remove-IsFiled j is_admin
  handle-IsFiled (pins j now) = pin-IsFiled j now
