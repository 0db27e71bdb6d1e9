-- ===== src/Messages/Gaps.antt =====
-- Two checks that requests on messages do not make.
use nova_connect.Prelude.{
  ℕ, beq_refl, lookup-insert, ◌≡◌, sym, ◌∙◌, subst, true, false, not, none, some, String, List, [],
  ◌∷◌, Map, arith, map, lookup, if◌then◌else◌, ok, ◌==◌, nat_eq, string_eq, pair_eq, nat_beq_iff,
  guard_split, found_split, chain_split,
}
use nova_connect.Messages.State.{Message, Seat, Store, Place, Effect, no_message, indexed}
use nova_connect.Messages.Access.{load_message}
use nova_connect.Messages.Posting.{Answer, store_message, show_chat, forward_target, forward}
use nova_connect.Messages.Changing.{edited_metadata, replace_text, edit, update_event}

lookup-shown :
    (d u me : ℕ) (seat : Seat) (m : Map (ℕ × ℕ) Seat)
    → lookup (d, u) m ≡ some seat
    → lookup
        (d, u)
        (map
          (λ (e : (ℕ × ℕ) × Seat).
            if e.0.0 == d then (e.0, record { hidden = false; unread = not (e.0.1 == me) }) else e)
          m)
      ≡ some (record { hidden = false; unread = not (u == me) })
unfolding lookup
lookup-shown d u me seat [] l = cc
lookup-shown d u me seat (((c, v), x) ∷ m) l =
    ground (arith, l, lookup-shown d u me seat m, nat_beq_iff v u)

-- A message forwarded into a channel, with the number of a chat in the request as well, marks that chat
-- as unread for everyone in it, and shows it where it was hidden, whether or not the sender is in it.
pub forward-marks :
    (id c d u me now : ℕ) (seat : Seat) (s t : Store) (effects : List Effect)
    → (u == me) ≡ false
    → lookup (d, u) s.seats ≡ some seat
    → forward id (some c) (some d) now me s ≡ ok (t, effects)
    → lookup (d, u) t.seats ≡ some (record { hidden = false; unread = true })
unfolding forward show_chat store_message
forward-marks id c d u me now seat s t effects other there =
    found_split Accepted (load_message id me s) no_message _ (λ h. cc)
      (λ x _.
        guard_split Accepted (not x.0.deleted) no_message _ (λ h. cc)
          (λ _.
            chain_split Accepted (forward_target (some c) (some d) me s) _ (λ _ _ h. cc)
              (λ place _ h.
                let seats : t.seats ≡ shown = ground (arith, h) in
                subst (λ (z : Map (ℕ × ℕ) Seat). lookup (d, u) z ≡ some marked) (sym seats)
                  (lookup-shown d u me seat s.seats there ∙ ground (arith, other)))))
  where
    marked : Seat
    marked = record { hidden = false; unread = true }

    shown : Map (ℕ × ℕ) Seat
    shown =
        map
          (λ (e : (ℕ × ℕ) × Seat).
            if e.0.0 == d then (e.0, record { hidden = false; unread = not (e.0.1 == me) }) else e)
          s.seats

    Accepted : Answer → Type 0
    Accepted a =
        a ≡ ok (t, effects)
        → lookup (d, u) t.seats ≡ some (record { hidden = false; unread = true })

-- The author of a message that is deleted and has no text can edit it, if they may still see it: for
-- a text that is not empty the request is accepted, everyone in the place is sent the message again,
-- it is put into the search index, and it is stored with the new text, still marked as deleted.
pub edit-deleted :
    (id now me : ℕ) (body : String) (m : Message) (place : Place) (s : Store)
    → load_message id me s ≡ some (m, place)
    → m.user_id ≡ me
    → m.deleted ≡ true
    → m.body ≡ ""
    → (body == "") ≡ false
    → (t : Store) × (edit id body none now me s
        ≡ ok (t, update_event m.parent place id ∷ indexed id ∷ []))
      × (lookup id t.messages ≡ some (record m { body = body; edited = true; deleted = true }))
unfolding edit edited_metadata replace_text
edit-deleted id now me body m place s l mine gone empty text = (
  replace_text id m body m.metadata now s,
  ground (
    arith,
    l,
    mine,
    gone,
    empty,
    text,
    string_eq.beq_iff body m.body,
    string_eq.beq_iff body "",
    nat_beq_iff m.user_id me,
  ),
  ground (
    arith,
    gone,
    beq_refl id,
    lookup-insert id id (record m { body = body; edited = true }) s.messages,
  ),
)
