-- ===== src/Teams/Invariant.antt =====
-- The invariant of the tables of teams and channels, and what the writes of the requests do to it.
use nova_connect.Prelude.{
  ℕ, ◌<◌, ◌≡◌, ◌≢◌, sym, ap, ◌∙◌, Bool, true, false, not, ◌&&◌, some, ◌⊎◌, inl, inr, arith, Map,
  lookup, insert, erase, lookup-insert, lookup-erase, DistinctKeys, DistinctKeys-insert,
  DistinctKeys-erase, DistinctKeys-keep, keep_found, length-keep-erase, kept_there, insert_there,
  erased_there, Bool-cases, nat_beq_iff, ◌==◌, nat_eq, pair_eq,
}
use nova_connect.Teams.State.{
  Role, owner, is_owner, Team, Channel, Db, in_team, owners_count, drop_member,
}

abbrev pub Owned : Map (ℕ × ℕ) Role → ℕ → Type 0
Owned members t = (u : ℕ) × (lookup (t, u) members ≡ some owner)

-- A team of which somebody but `u` is an owner.
abbrev pub OwnedBesides : Map (ℕ × ℕ) Role → ℕ → ℕ → Type 0
OwnedBesides members t u = (v : ℕ) × ((u == v) ≡ false) × (lookup (t, v) members ≡ some owner)

-- Someone in a channel that is there is in its team.
abbrev pub InTeam : Map (ℕ × ℕ) Role → Map ℕ Channel → ℕ → ℕ → Type 0
InTeam members channels c u =
    (ch : Channel) × (r : Role) × (lookup c channels ≡ some ch)
    × (lookup (ch.team, u) members ≡ some r)

pub record Kept (teams : Map ℕ Team) (members : Map (ℕ × ℕ) Role) (channels : Map ℕ Channel)
    (channel_members : Map (ℕ × ℕ) Role) (next_channel : ℕ) : Type 0 where
  pub member_keys : DistinctKeys members
  pub channel_keys : DistinctKeys channels
  pub channel_member_keys : DistinctKeys channel_members
  pub owned : (t : ℕ) (team : Team) → lookup t teams ≡ some team → Owned members t
  pub homed :
      (t u : ℕ) (r : Role)
      → lookup (t, u) members ≡ some r
      → (team : Team) × (lookup t teams ≡ some team)
  pub inside :
      (c u : ℕ) (r : Role) → lookup (c, u) channel_members ≡ some r → InTeam members channels c u
  pub counted : (c : ℕ) (ch : Channel) → lookup c channels ≡ some ch → c < next_channel

-- Every team has an owner, members belong to a team that is there, and whoever is in a channel is in
-- the channel's team.
abbrev pub IsKept : Db → Type 0
IsKept s = Kept s.teams s.members s.channels s.channel_members s.next_channel

pub other_owner :
    (t u : ℕ) (s : Db) → DistinctKeys s.members → 1 < owners_count t s → OwnedBesides s.members t u
unfolding owners_count
other_owner t u s d h =
    let p : (ℕ × ℕ) × Role → Bool = λ e. e.0.0 == t && is_owner e.1 in
    let (k, r, l, q) =
      keep_found p (erase (t, u) s.members) (DistinctKeys-erase (t, u) s.members d)
        (omega (arith, h, length-keep-erase p (t, u) s.members d)) in
    let (apart, there) = erased_there (t, u) k r s.members l in go k r apart there q
  where
    go :
        (k : ℕ × ℕ) (r : Role)
        → ((t, u) == k) ≡ false
        → lookup k s.members ≡ some r
        → (k.0 == t && is_owner r) ≡ true
        → OwnedBesides s.members t u
    go (t', v) owner apart l q =
        let e : t' ≡ t = ground (arith, q) in
        (v, ground (arith, apart, e), ap (λ x. lookup (x, v) s.members) (sym e) ∙ l)
    go (t', v) r apart l q = ground (arith, l, q)

-- Where `u` is no owner, the owner is somebody else.
pub owner_besides :
    (t u : ℕ) (s : Db) (team : Team)
    → IsKept s
    → lookup t s.teams ≡ some team
    → lookup (t, u) s.members ≢ some owner
    → OwnedBesides s.members t u
owner_besides t u s team k l n =
    let (v, e) = k.owned t team l in
    elim (Bool-cases (u == v)) [
      | inl same ↦ absurd (n (ap (λ x. lookup (t, x) s.members) ((nat_beq_iff u v).0 same) ∙ e))
      | inr other ↦ (v, other, e)
    ]

-- A write of a role that is `owner`, or of somebody beside whom there is an owner, keeps every team
-- owned.
insert-Owned :
    (t u t' : ℕ) (r : Role) (members : Map (ℕ × ℕ) Role)
    → (r ≡ owner) ⊎ OwnedBesides members t u
    → Owned members t'
    → Owned (insert (t, u) r members) t'
insert-Owned t u t' r members (inl e) (v, o) =
    (v, ground (arith, e, o, lookup-insert (t, u) (t', v) r members))
insert-Owned t u t' r members (inr (v, n, o)) (w, q) = elim (Bool-cases (t == t')) [
  | inl same ↦
      let e = (nat_beq_iff t t').0 same in
      (
        v,
        ground (
          arith,
          n,
          ap (λ x. lookup (x, v) members) (sym e) ∙ o,
          lookup-insert (t, u) (t', v) r members,
        ),
      )
  | inr apart ↦ (w, ground (arith, apart, q, lookup-insert (t, u) (t', w) r members))
]

erase-Owned :
    (t u t' : ℕ) (members : Map (ℕ × ℕ) Role)
    → (t ≡ t' → OwnedBesides members t u)
    → Owned members t'
    → Owned (erase (t, u) members) t'
erase-Owned t u t' members other (w, q) = elim (Bool-cases (t == t')) [
  | inl same ↦
      let e = (nat_beq_iff t t').0 same in
      let (v, n, o) = other e in
      (
        v,
        ground (
          arith,
          n,
          ap (λ x. lookup (x, v) members) (sym e) ∙ o,
          lookup-erase (t, u) (t', v) members,
        ),
      )
  | inr apart ↦ (w, ground (arith, apart, q, lookup-erase (t, u) (t', w) members))
]

module _ (s : Db) (k : IsKept s) where
  -- A member is added, or gets a role.
  pub insert_member-IsKept :
      (t u : ℕ) (r : Role) (team : Team)
      → lookup t s.teams ≡ some team
      → (r ≡ owner) ⊎ OwnedBesides s.members t u
      → IsKept (record s { members = insert (t, u) r s.members })
  insert_member-IsKept t u r team there other = record {
    member_keys = DistinctKeys-insert (t, u) r s.members k.member_keys;
    channel_keys = k.channel_keys;
    channel_member_keys = k.channel_member_keys;
    owned = λ t' team' l. insert-Owned t u t' r s.members other (k.owned t' team' l);
    homed = λ t' u' r' l. elim (Bool-cases (t == t')) [
      | inl same ↦ (team, ap (λ x. lookup x s.teams) (sym ((nat_beq_iff t t').0 same)) ∙ there)
      | inr apart ↦
          k.homed t' u' r' (ground (arith, apart, l, lookup-insert (t, u) (t', u') r s.members))
    ];
    inside = λ c u' r' l.
        let (ch, r2, there', at) = k.inside c u' r' l in
        let (r3, after) = insert_there (t, u) (ch.team, u') r r2 s.members at in
        (ch, r3, there', after);
    counted = k.counted;
  }

  -- The rows of a person who leaves a team or is removed go.
  pub drop_member-IsKept :
      (t u : ℕ)
      → ((team : Team) → lookup t s.teams ≡ some team → OwnedBesides s.members t u)
      → IsKept (drop_member t u s)
  unfolding drop_member
  drop_member-IsKept t u other =
      let p : (ℕ × ℕ) × Role → Bool = λ e. not (e.0.1 == u && in_team t e.0.0 s) in
      record {
        member_keys = DistinctKeys-erase (t, u) s.members k.member_keys;
        channel_keys = k.channel_keys;
        channel_member_keys = DistinctKeys-keep p s.channel_members k.channel_member_keys;
        owned = λ t' team' l.
            erase-Owned t u t' s.members (λ e. other team' (ap (λ x. lookup x s.teams) e ∙ l))
              (k.owned t' team' l);
        homed = λ t' u' r' l. k.homed t' u' r' (erased_there (t, u) (t', u') r' s.members l).1;
        inside = λ c u' r' l.
            let (old, q) = kept_there p (c, u') r' s.channel_members k.channel_member_keys l in
            let (ch, r2, there, at) = k.inside c u' r' old in
            (
              ch,
              r2,
              there,
              ground (arith, q, there, at, lookup-erase (t, u) (ch.team, u') s.members),
            );
        counted = k.counted;
      }
