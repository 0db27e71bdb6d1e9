-- ===== src/Messages/Reactions.antt =====
-- A reaction is a switch.
use nova_connect.Prelude.{
  ℕ, ◌≡◌, refl, Bool, true, not, ◌&&◌, ◌||◌, String, List, [], ◌∷◌, ◌++◌, arith, any, keep,
  if◌then◌else◌, ◌==◌, nat_eq, string_eq, Bool-cases, inl, inr,
}
use nova_connect.Messages.State.{Reaction}
use nova_connect.Messages.Changing.{is_reaction, toggle}

-- The three things that tell reactions apart are the same.
same_key : ℕ → ℕ → String → ℕ → ℕ → String → Bool
same_key id me emoji j u other = id == j && (me == u && emoji == other)

module _ (id me : ℕ) (emoji : String) (j u : ℕ) (other : String) where
  -- The reaction that the request names, compared with another one.
  named_key :
      (r : Reaction)
      → is_reaction id me emoji r ≡ true
      → is_reaction j u other r ≡ same_key id me emoji j u other
  unfolding is_reaction same_key
  named_key r h =
      let a : r.message_id ≡ id = ground (arith, h) in
      let b : r.user_id ≡ me = ground (arith, h) in
      let c : r.emoji ≡ emoji = (string_eq.beq_iff r.emoji emoji).0 (ground (arith, h)) in
      rw (a, b, c)

  other_key :
      (r : Reaction)
      → same_key id me emoji j u other ≡ true
      → is_reaction j u other r ≡ is_reaction id me emoji r
  unfolding is_reaction same_key
  other_key r h =
      let a : id ≡ j = ground (arith, h) in
      let b : me ≡ u = ground (arith, h) in
      let c : emoji ≡ other = (string_eq.beq_iff emoji other).0 (ground (arith, h)) in rw (a, b, c)

  new_key :
      is_reaction j u other (record { message_id = id; user_id = me; emoji = emoji })
      ≡ same_key id me emoji j u other
  unfolding is_reaction same_key
  new_key = refl

  any-append_one :
      (rs : List Reaction)
      → any
          (is_reaction j u other)
          (rs ++ record { message_id = id; user_id = me; emoji = emoji } ∷ [])
        ≡ (any (is_reaction j u other) rs || same_key id me emoji j u other)
  any-append_one [] = ground (arith, new_key)
  any-append_one (r ∷ rs) = ground (arith, any-append_one rs)

  any-keep_others :
      (rs : List Reaction)
      → any (is_reaction j u other) (keep (λ r. not (is_reaction id me emoji r)) rs)
        ≡ (any (is_reaction j u other) rs && not (same_key id me emoji j u other))
  any-keep_others [] = refl
  any-keep_others (r ∷ rs) = ground (arith, any-keep_others rs, named_key r, other_key r)

  any-same :
      (rs : List Reaction)
      → same_key id me emoji j u other ≡ true
      → any (is_reaction j u other) rs ≡ any (is_reaction id me emoji) rs
  any-same [] h = refl
  any-same (r ∷ rs) h = ground (arith, any-same rs h, other_key r)

  -- Which reactions are there after one request: the one that it names is switched.
  toggle_lem :
      (rs : List Reaction)
      → any (is_reaction j u other) (toggle id me emoji rs) ≡ (
          if same_key id me emoji j u other
          then not (any (is_reaction j u other) rs)
          else any (is_reaction j u other) rs)
  unfolding toggle
  toggle_lem rs = elim (Bool-cases (any (is_reaction id me emoji) rs)) [
    | inl there ↦ ground (arith, there, any-same rs, any-keep_others rs)
    | inr absent ↦ ground (arith, absent, any-same rs, any-append_one rs)
  ]

-- Reacting twice with one emoji leaves everybody's reactions to every message as they were.
pub toggle-toggle :
    (id me j u : ℕ) (emoji other : String) (rs : List Reaction)
    → any (is_reaction j u other) (toggle id me emoji (toggle id me emoji rs))
      ≡ any (is_reaction j u other) rs
toggle-toggle id me j u emoji other rs = ground (
  arith,
  toggle_lem id me emoji j u other rs,
  toggle_lem id me emoji j u other (toggle id me emoji rs),
)
