-- ===== src/Messages/Requests.antt =====
-- The requests on messages as one function, and what they do to the words of a message.
use nova_connect.Prelude.{
  ℕ, ◌<◌, ◌≡◌, refl, sym, ap, ◌∙◌, Bool, true, false, not, ◌&&◌, Option, some, ◌⊎◌, inl, inr,
  String, List, Map, arith, lookup, insert, has, if_split, option_split, ok, err, guard_split,
  found_split, chain_split, ◌==◌, nat_eq, string_eq, pair_eq, lookup-insert, Bool-cases,
  nat_beq_iff,
}
use nova_connect.Messages.Announcement.{Fields, announcement_of}
use nova_connect.Messages.State.{
  Message, Store, Place, Effect, no_access, empty_message, storage_failed, no_message, not_yours,
  was_deleted, emoji_required,
}
use nova_connect.Messages.Access.{load_channel_for_user, load_message, load_message-lookup}
use nova_connect.Messages.Posting.{
  Upload, no_file, Answer, is_some, has_file, not_failed, announcement_for, store_message,
  post_in_channel, show_chat, post_in_chat, forward_target, forward,
}
use nova_connect.Messages.Changing.{
  react, edited_metadata, replace_text, edit, wipe_text, may_delete, remove, pin,
}

pub data Request : Type 0 where
  posts_in_channel :
      ℕ → String → Option String → Option ℕ → Fields → Upload → (ℕ → Bool) → ℕ → Request
  posts_in_chat : ℕ → String → Option String → Option ℕ → Upload → ℕ → Request
  forwards : ℕ → Option ℕ → Option ℕ → ℕ → Request
  reacts : ℕ → String → Request
  edits : ℕ → String → Option Fields → ℕ → Request
  removes : ℕ → Bool → Request
  pins : ℕ → ℕ → Request

unfoldable pub handle : Request → ℕ → Store → Answer
handle (posts_in_channel c body gif parent fields upload says now) me s =
    post_in_channel c body gif parent fields upload says now me s
handle (posts_in_chat d body gif parent upload now) me s =
    post_in_chat d body gif parent upload now me s
handle (forwards id c d now) me s = forward id c d now me s
handle (reacts id emoji) me s = react id emoji me s
handle (edits id body fields now) me s = edit id body fields now me s
handle (removes id is_admin) me s = remove id is_admin me s
handle (pins id now) me s = pin id now me s

-- A refused request changes nothing.
abbrev pub store_after : Store → Answer → Store
store_after s (ok (s', effects)) = s'
store_after s (err e) = s

-- The words are as they were, or the message is deleted and has none.
abbrev pub KeepsWords : Message → Message → Type 0
KeepsWords m m' =
    (m'.user_id ≡ m.user_id)
    × (((m'.body ≡ m.body) × (m'.metadata ≡ m.metadata)) ⊎ ((m'.body ≡ "") × (m'.deleted ≡ true)))

module _ (s : Store) (id me : ℕ) (m : Message) (there : lookup id s.messages ≡ some m)
    (old : id < s.next_message) (other : (m.user_id == me) ≡ false) where
  abbrev KeptIn : Map ℕ Message → Type 0
  KeptIn ms = (m' : Message) × (lookup id ms ≡ some m') × KeepsWords m m'

  abbrev Kept : Store → Type 0
  Kept t = KeptIn t.messages

  same : Kept s
  same = (m, there, (refl, inl (refl, refl)))

  store_message-Kept : (new : Message) (upload : Upload) → Kept (store_message new upload s)
  unfolding store_message
  store_message-Kept new upload = (
    m,
    ground (arith, there, lookup-insert s.next_message id new s.messages),
    (refl, inl (refl, refl)),
  )

  -- Another version of a message is stored: of another one, or with the same words, or with none.
  stored-Kept : (j : ℕ) (n : Message) → (j ≡ id → KeepsWords m n) → KeptIn (insert j n s.messages)
  stored-Kept j n words = elim (Bool-cases (j == id)) as (λ _. KeptIn (insert j n s.messages)) [
    | inl is_it ↦ (
      n,
      ground (arith, is_it, lookup-insert j id n s.messages),
      words ((nat_beq_iff j id).0 is_it),
    )
    | inr apart ↦
        (m, ground (arith, there, apart, lookup-insert j id n s.messages), (refl, inl (refl, refl)))
  ]

  abbrev Keeps : Answer → Type 0
  Keeps a = Kept (store_after s a)

  -- The loaded message, where it is the one in question.
  is_m : (j : ℕ) (x : Message × Place) → load_message j me s ≡ some x → j ≡ id → x.0 ≡ m
  is_m j x l e =
      let both : some x.0 ≡ some m =
        sym (load_message-lookup j me s x l) ∙ ap (λ z. lookup z s.messages) e ∙ there in
      cc (both)

  edit-Keeps :
      (j : ℕ) (body : String) (fields : Option Fields) (now : ℕ)
      → Keeps (edit j body fields now me s)
  unfolding edit replace_text
  edit-Keeps j body fields now = found_split Keeps (load_message j me s) no_message _ same (λ x l.
      guard_split Keeps (x.0.user_id == me) not_yours _ same (λ mine.
        chain_split Keeps (edited_metadata x.0 fields) _ (λ _ _. same)
          (λ changed _.
            guard_split Keeps (not (body == "" && not (is_some (announcement_of x.0.metadata))))
              empty_message _ same
              (λ _.
                if_split (λ (z : Store × List Effect). Kept z.0) (body == x.0.body && changed.1)
                  (λ _. same)
                  (λ _. stored-Kept j _ (λ e.
                    let q = ap (λ (z : Message). z.user_id) (is_m j x l e) in
                    ground (arith, q, mine, other)))))))

  remove-Keeps : (j : ℕ) (is_admin : Bool) → Keeps (remove j is_admin me s)
  unfolding remove wipe_text
  remove-Keeps j is_admin = found_split Keeps (load_message j me s) no_message _ same (λ x l.
      guard_split Keeps (may_delete x.0 me is_admin s) not_yours _ same (λ _.
        stored-Kept j _ (λ e. (ap (λ (z : Message). z.user_id) (is_m j x l e), inr (refl, refl)))))

  pin-Keeps : (j now : ℕ) → Keeps (pin j now me s)
  unfolding pin
  pin-Keeps j now = found_split Keeps (load_message j me s) no_message _ same (λ x l.
      guard_split Keeps (not x.0.deleted) was_deleted _ same (λ _. stored-Kept j _ (λ e.
        let q = is_m j x l e in
        (
          ap (λ (z : Message). z.user_id) q,
          inl (ap (λ (z : Message). z.body) q, ap (λ (z : Message). z.metadata) q),
        ))))

  react-Keeps : (j : ℕ) (emoji : String) → Keeps (react j emoji me s)
  unfolding react
  react-Keeps j emoji =
      found_split Keeps (load_message j me s) no_message _ same
        (λ x _. guard_split Keeps (not (emoji == "")) emoji_required _ same (λ _. same))

  post_in_channel-Keeps :
      (c : ℕ) (body : String) (gif : Option String) (parent : Option ℕ) (fields : Fields)
      (upload : Upload) (says : ℕ → Bool) (now : ℕ)
      → Keeps (post_in_channel c body gif parent fields upload says now me s)
  unfolding post_in_channel
  post_in_channel-Keeps c body gif parent fields upload says now =
      found_split Keeps (load_channel_for_user c me s.teams) no_access _ same (λ ch _.
        chain_split Keeps (announcement_for fields parent) _ (λ _ _. same)
          (λ ann _.
            guard_split Keeps
              (not (body == "" && not (has_file upload) && not (is_some gif) && not (is_some ann)))
              empty_message _ same
              (λ _.
                guard_split Keeps (not_failed upload) storage_failed _ same
                  (λ _. store_message-Kept _ upload))))

  post_in_chat-Keeps :
      (d : ℕ) (body : String) (gif : Option String) (parent : Option ℕ) (upload : Upload) (now : ℕ)
      → Keeps (post_in_chat d body gif parent upload now me s)
  unfolding post_in_chat show_chat
  post_in_chat-Keeps d body gif parent upload now =
      guard_split Keeps (has (d, me) s.seats) no_access _ same (λ _.
        guard_split Keeps (not (body == "" && not (has_file upload) && not (is_some gif)))
          empty_message _ same
          (λ _.
            guard_split Keeps (not_failed upload) storage_failed _ same
              (λ _. store_message-Kept _ upload)))

  forward-Keeps : (j : ℕ) (c d : Option ℕ) (now : ℕ) → Keeps (forward j c d now me s)
  unfolding forward show_chat
  forward-Keeps j c d now = found_split Keeps (load_message j me s) no_message _ same (λ x _.
      guard_split Keeps (not x.0.deleted) no_message _ same (λ _.
        chain_split Keeps (forward_target c d me s) _ (λ _ _. same)
          (λ place _.
            option_split Kept d (λ _. store_message-Kept _ no_file)
              (λ chat _. store_message-Kept _ no_file))))

  -- Nobody but its author can change the words of a message: whatever another person requests, it has
  -- the text, the headline and the author that it had, or it is deleted and its text is gone.
  pub handle-KeepsWords :
      (r : Request)
      → (m' : Message) × (lookup id (store_after s (handle r me s)).messages ≡ some m')
        × KeepsWords m m'
  unfolding handle
  handle-KeepsWords (posts_in_channel c body gif parent fields upload says now) =
      post_in_channel-Keeps c body gif parent fields upload says now
  handle-KeepsWords (posts_in_chat d body gif parent upload now) =
      post_in_chat-Keeps d body gif parent upload now
  handle-KeepsWords (forwards j c d now) = forward-Keeps j c d now
  handle-KeepsWords (reacts j emoji) = react-Keeps j emoji
  handle-KeepsWords (edits j body fields now) = edit-Keeps j body fields now
  handle-KeepsWords (removes j is_admin) = remove-Keeps j is_admin
  handle-KeepsWords (pins j now) = pin-Keeps j now
