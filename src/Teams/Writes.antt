-- ===== src/Teams/Writes.antt =====
-- The other writes keep the invariant: new teams and channels, roles in channels, and the deletions
-- of channels and teams.
use nova_connect.Prelude.{
  ℕ, ◌+◌, ◌<◌, ◌≡◌, sym, ap, ◌∙◌, Bool, not, some, inl, inr, arith, lookup, insert, lookup-insert,
  lookup-erase, DistinctKeys-insert, DistinctKeys-erase, lookup-keep, DistinctKeys-keep, kept_there,
  insert_there, erased_there, Bool-cases, nat_beq_iff, beq_refl, ◌==◌, nat_eq, pair_eq,
}
use nova_connect.Teams.State.{Role, owner, Team, Channel, Db, in_team, drop_channel, drop_team}
use nova_connect.Teams.Invariant.{IsKept, InTeam, Owned}

module _ (s : Db) (k : IsKept s) where
  pub insert_channel_member-IsKept :
      (c u : ℕ) (r : Role)
      → InTeam s.members s.channels c u
      → IsKept (record s { channel_members = insert (c, u) r s.channel_members })
  insert_channel_member-IsKept c u r at = record {
    member_keys = k.member_keys;
    channel_keys = k.channel_keys;
    channel_member_keys = DistinctKeys-insert (c, u) r s.channel_members k.channel_member_keys;
    owned = k.owned;
    homed = k.homed;
    inside = λ c' u' r' l.
        elim (Bool-cases (pair_eq.beq (c, u) (c', u')))
          as (λ _. InTeam s.members s.channels c' u') [
            | inl same ↦
                let (ch, q, x, y) = at in
                let ec : c ≡ c' = ground (arith, same) in
                let eu : u ≡ u' = ground (arith, same) in
                (
                  ch,
                  q,
                  ap (λ z. lookup z s.channels) (sym ec) ∙ x,
                  ap (λ z. lookup (ch.team, z) s.members) (sym eu) ∙ y,
                )
            | inr apart ↦
                k.inside c' u' r'
                  (ground (arith, apart, l, lookup-insert (c, u) (c', u') r s.channel_members))
          ];
    counted = k.counted;
  }

  -- A new channel of a team that is there.
  pub insert_channel-IsKept :
      (ch : Channel)
      → IsKept (record s {
        channels = insert s.next_channel ch s.channels;
        next_channel = s.next_channel + 1;
      })
  insert_channel-IsKept ch = record {
    member_keys = k.member_keys;
    channel_keys = DistinctKeys-insert s.next_channel ch s.channels k.channel_keys;
    channel_member_keys = k.channel_member_keys;
    owned = k.owned;
    homed = k.homed;
    inside = λ c u r l.
        let (old, q, x, y) = k.inside c u r l in
        (
          old,
          q,
          ground (arith, x, k.counted c old x, lookup-insert s.next_channel c ch s.channels),
          y,
        );
    counted = λ c old l. elim (Bool-cases (s.next_channel == c)) as (λ _. c < s.next_channel + 1) [
      | inl same ↦ ground (arith, same)
      | inr apart ↦
          let was : lookup c s.channels ≡ some old =
            ground (arith, apart, l, lookup-insert s.next_channel c ch s.channels) in
          omega (arith, k.counted c old was)
    ];
  }

  -- A channel is changed, and stays in its team.
  pub update_channel-IsKept :
      (c : ℕ) (old new : Channel)
      → lookup c s.channels ≡ some old
      → new.team ≡ old.team
      → IsKept (record s { channels = insert c new s.channels })
  update_channel-IsKept c old new there same_team = record {
    member_keys = k.member_keys;
    channel_keys = DistinctKeys-insert c new s.channels k.channel_keys;
    channel_member_keys = k.channel_member_keys;
    owned = k.owned;
    homed = k.homed;
    inside = λ c' u r l.
        let (ch, q, x, y) = k.inside c' u r l in
        elim (Bool-cases (c == c')) as (λ _. InTeam s.members (insert c new s.channels) c' u) [
          | inl same ↦
              let e = (nat_beq_iff c c').0 same in
              let both : some ch ≡ some old =
                sym x ∙ ap (λ z. lookup z s.channels) (sym e) ∙ there in
              let is_old : ch ≡ old = cc (both) in
              (
                new,
                q,
                ground (arith, same, lookup-insert c c' new s.channels),
                ap (λ z. lookup (z, u) s.members)
                      (same_team ∙ ap (λ (z : Channel). z.team) (sym is_old))
                    ∙ y,
              )
          | inr apart ↦ (ch, q, ground (arith, apart, x, lookup-insert c c' new s.channels), y)
        ];
    counted = λ c' ch l. elim (Bool-cases (c == c')) as (λ _. c' < s.next_channel) [
      | inl same ↦ ground (arith, same, k.counted c old there)
      | inr apart ↦ k.counted c' ch (ground (arith, apart, l, lookup-insert c c' new s.channels))
    ];
  }

  pub drop_channel-IsKept : (c : ℕ) → IsKept (drop_channel c s)
  unfolding drop_channel
  drop_channel-IsKept c =
      let p : (ℕ × ℕ) × Role → Bool = λ e. not (e.0.0 == c) in
      record {
        member_keys = k.member_keys;
        channel_keys = DistinctKeys-erase c s.channels k.channel_keys;
        channel_member_keys = DistinctKeys-keep p s.channel_members k.channel_member_keys;
        owned = k.owned;
        homed = k.homed;
        inside = λ c' u r l.
            let (old, apart) = kept_there p (c', u) r s.channel_members k.channel_member_keys l in
            let (ch, q, x, y) = k.inside c' u r old in
            (ch, q, ground (arith, apart, x, lookup-erase c c' s.channels), y);
        counted = λ c' ch l. k.counted c' ch (erased_there c c' ch s.channels l).1;
      }

  pub drop_team-IsKept : (t : ℕ) → IsKept (drop_team t s)
  unfolding drop_team
  drop_team-IsKept t =
      let pm : (ℕ × ℕ) × Role → Bool = λ e. not (e.0.0 == t) in
      let pc : ℕ × Channel → Bool = λ e. not (e.1.team == t) in
      let pr : (ℕ × ℕ) × Role → Bool = λ e. not (in_team t e.0.0 s) in
      record {
        member_keys = DistinctKeys-keep pm s.members k.member_keys;
        channel_keys = DistinctKeys-keep pc s.channels k.channel_keys;
        channel_member_keys = DistinctKeys-keep pr s.channel_members k.channel_member_keys;
        owned = λ t' team l.
            let (apart, there) = erased_there t t' team s.teams l in
            let (v, o) = k.owned t' team there in
            (v, ground (arith, apart, o, lookup-keep pm (t', v) s.members k.member_keys));
        homed = λ t' u r l.
            let (old, apart) = kept_there pm (t', u) r s.members k.member_keys l in
            let (team, there) = k.homed t' u r old in
            (team, ground (arith, apart, there, lookup-erase t t' s.teams));
        inside = λ c u r l.
            let (old, out) = kept_there pr (c, u) r s.channel_members k.channel_member_keys l in
            let (ch, q, x, y) = k.inside c u r old in
            (
              ch,
              q,
              ground (arith, x, out, lookup-keep pc c s.channels k.channel_keys),
              ground (arith, x, y, out, lookup-keep pm (ch.team, u) s.members k.member_keys),
            );
        counted = λ c ch l. k.counted c ch (kept_there pc c ch s.channels k.channel_keys l).0;
      }

  -- A new team with its owner.
  pub insert_team-IsKept :
      (t u : ℕ) (team : Team)
      → IsKept (record s { teams = insert t team s.teams; members = insert (t, u) owner s.members })
  insert_team-IsKept t u team = record {
    member_keys = DistinctKeys-insert (t, u) owner s.members k.member_keys;
    channel_keys = k.channel_keys;
    channel_member_keys = k.channel_member_keys;
    owned = λ t' row l.
        elim (Bool-cases (t == t')) as (λ _. Owned (insert (t, u) owner s.members) t') [
          | inl same ↦
              (u, ground (arith, same, beq_refl u, lookup-insert (t, u) (t', u) owner s.members))
          | inr apart ↦
              let (v, o) =
                k.owned t' row (ground (arith, apart, l, lookup-insert t t' team s.teams)) in
              (v, ground (arith, apart, o, lookup-insert (t, u) (t', v) owner s.members))
        ];
    homed = λ t' u' r l.
        elim (Bool-cases (t == t'))
          as (λ _. (x : Team) × (lookup t' (insert t team s.teams) ≡ some x)) [
            | inl same ↦ (team, ground (arith, same, lookup-insert t t' team s.teams))
            | inr apart ↦
                let (row, there) =
                  k.homed t' u' r
                    (ground (arith, apart, l, lookup-insert (t, u) (t', u') owner s.members)) in
                (row, ground (arith, apart, there, lookup-insert t t' team s.teams))
          ];
    inside = λ c u' r l.
        let (ch, q, x, y) = k.inside c u' r l in
        let (z, w) = insert_there (t, u) (ch.team, u') owner q s.members y in (ch, z, x, w);
    counted = k.counted;
  }

  -- A team's settings are changed.
  pub update_team-IsKept :
      (t : ℕ) (old new : Team)
      → lookup t s.teams ≡ some old
      → IsKept (record s { teams = insert t new s.teams })
  update_team-IsKept t old new there = record {
    member_keys = k.member_keys;
    channel_keys = k.channel_keys;
    channel_member_keys = k.channel_member_keys;
    owned = λ t' row l. elim (Bool-cases (t == t')) as (λ _. Owned s.members t') [
      | inl same ↦
          k.owned t' old (ap (λ z. lookup z s.teams) (sym ((nat_beq_iff t t').0 same)) ∙ there)
      | inr apart ↦ k.owned t' row (ground (arith, apart, l, lookup-insert t t' new s.teams))
    ];
    homed = λ t' u r l. let (row, at) = k.homed t' u r l in insert_there t t' new row s.teams at;
    inside = k.inside;
    counted = k.counted;
  }
