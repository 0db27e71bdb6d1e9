-- ===== src/Messages/Scopes.antt =====
-- Live events and search reach the same channels as reading does.
use nova_connect.Prelude.{
  ℕ, ◌≡◌, ◌↔◌, ◌≢◌, sym, ap, ◌∙◌, Bool, not, ◌&&◌, none, some, List, Map, arith, map, keep, lookup,
  ◌==◌, nat_eq, pair_eq, In, In-keep, In-keep_in, In-keep_holds, In-map, In-map_from,
  In-append_left, In-append_right, In-append_cases, In-lookup, lookup-In, inl, inr, Option-cases,
  Bool-cases, nat_beq_iff, beq_refl,
}
use nova_connect.Teams.State.{Role, Channel, Account, Db, is_team_member, initial}
use nova_connect.Teams.Membership.{Request, run}
use nova_connect.Teams.Invariant.{IsKept}
use nova_connect.Teams.Soundness.{run-initial-IsKept}
use nova_connect.Messages.Access.{load_channel_for_user, channel_scope}

module _ (c u : ℕ) (s : Db) (k : IsKept s) where
  abbrev public : ℕ × Channel → Bool
  public e = is_team_member e.1.team u s && not e.1.private

  abbrev mine : (ℕ × ℕ) × Role → Bool
  mine e = e.0.1 == u

  pub scope-access : In c (channel_scope u s) → load_channel_for_user c u s ≢ none
  unfolding channel_scope load_channel_for_user
  scope-access i =
      elim (In-append_cases c (map (λ (e : ℕ × Channel). e.0) (keep public s.channels)) _ i) [
        | inl j ↦
            let (e, at, q) = In-map_from (λ (x : ℕ × Channel). x.0) c (keep public s.channels) j in
            let there =
              In-lookup e.0 e.1 s.channels k.channel_keys (In-keep_in public e s.channels at) in
            let open_to_me = In-keep_holds public e s.channels at in
            let here : lookup c s.channels ≡ some e.1 = ap (λ x. lookup x s.channels) q ∙ there in
            λ none_there. ground (arith, here, open_to_me, none_there)
        | inr j ↦
            let (e, at, q) =
              In-map_from (λ (x : (ℕ × ℕ) × Role). x.0.0) c (keep mine s.channel_members) j in
            let row =
              In-lookup e.0 e.1 s.channel_members k.channel_member_keys
                (In-keep_in mine e s.channel_members at) in
            let is_me = (nat_beq_iff e.0.1 u).0 (In-keep_holds mine e s.channel_members at) in
            let row' : lookup (c, u) s.channel_members ≡ some e.1 =
              ap (λ (x : ℕ × ℕ). lookup x s.channel_members) (λ t. (q t, sym is_me t)) ∙ row in
            let (ch, r, there, in_team) = k.inside c u e.1 row' in
            λ none_there. ground (arith, there, in_team, row', none_there)
      ]

  access-scope : load_channel_for_user c u s ≢ none → In c (channel_scope u s)
  unfolding channel_scope load_channel_for_user
  access-scope visible = elim (Option-cases (lookup c s.channels)) [
    | inl out ↦ absurd (visible (ground (arith, out)))
    | inr (ch, there) ↦ elim (Bool-cases (public (c, ch))) [
      | inl open_to_me ↦
          In-append_left c (map (λ (e : ℕ × Channel). e.0) (keep public s.channels)) _ (
            In-map (λ (e : ℕ × Channel). e.0) (c, ch) (keep public s.channels)
              (In-keep public (c, ch) s.channels (lookup-In c ch s.channels there) open_to_me))
      | inr closed ↦ elim (Option-cases (lookup (c, u) s.channel_members)) [
        | inl out ↦ absurd (visible (ground (arith, there, closed, out)))
        | inr (r, row) ↦
            In-append_right c (map (λ (e : ℕ × Channel). e.0) (keep public s.channels)) _ (
              In-map (λ (e : (ℕ × ℕ) × Role). e.0.0) ((c, u), r) (keep mine s.channel_members)
                (In-keep mine ((c, u), r) s.channel_members
                  (lookup-In (c, u) r s.channel_members row) (beq_refl u)))
      ]
    ]
  ]

-- After any sequence of requests on teams and channels, the channels whose live events reach a person's
-- sockets, and which a search of theirs looks at, are exactly those whose messages they may read.
pub channel_scope-access :
    (users : Map ℕ Account) (rs : List (Request × ℕ)) (c u : ℕ)
    → In c (channel_scope u (run rs (initial users)))
      ↔ (load_channel_for_user c u (run rs (initial users)) ≢ none)
channel_scope-access users rs c u =
    let k = run-initial-IsKept users rs in
    (scope-access c u (run rs (initial users)) k, access-scope c u (run rs (initial users)) k)
