-- ===== src/Presence/DeviceLaws.antt =====
-- The two maps of connections agree, so that Away and the devices of a profile card are right; and
-- what a call makes of a status, in one expression.
use nova_connect.Prelude.{
  ℕ, ◌≡◌, refl, sym, ap, ◌∙◌, Bool, true, false, not, Option, none, some, List, [], ◌∷◌, ◌++◌, Map,
  arith, lookup, insert, erase, keep, if◌then◌else◌, if_split, option_split, ◌==◌, nat_eq,
  lookup-insert, lookup-erase, In, In-append_left, In-append_last, In-append_either, In-keep,
  In-keep_in, In-keep_holds, inl, inr, subst, Bool-cases, nat_beq_iff,
}
use nova_connect.Presence.Devices.{
  Info, Registry, sockets_of, is_empty, is_online, touch, connect, same_bool, activity, disconnect,
  Event, connected, turned, disconnected, refreshed, step, run, initial, Device,
}

abbrev pub HasInfo : ℕ → ℕ → Registry → Type 0
HasInfo k u s = (i : Info) × (lookup k s.infos ≡ some i) × (i.user ≡ u)

-- The open sockets, those of each person, and the information about sockets agree.
pub record IsRegistered (s : Registry) : Type 0 where
  pub known : (k u : ℕ) → lookup k s.connections ≡ some u → HasInfo k u s
  pub listed : (k u : ℕ) → lookup k s.connections ≡ some u → In k (sockets_of u s)
  pub informed :
      (k : ℕ) (i : Info) → lookup k s.infos ≡ some i → lookup k s.connections ≡ some i.user
  pub counted : (k u : ℕ) → In k (sockets_of u s) → lookup k s.connections ≡ some u

touch-IsRegistered : (u : ℕ) (s : Registry) → IsRegistered s → IsRegistered (touch u s)
unfolding touch sockets_of
touch-IsRegistered u s h = record {
  known = h.known;
  listed = h.listed;
  informed = h.informed;
  counted = h.counted;
}

-- The sockets of a person after another list is stored for someone.
sockets-insert :
    (u v : ℕ) (l : List ℕ) (online : Map ℕ (List ℕ))
    → (elim (lookup v (insert u l online)) as (λ _. List ℕ) [ none ↦ [] | some ids ↦ ids ])
      ≡ (if u == v then l else elim (lookup v online) [ none ↦ [] | some ids ↦ ids ])
sockets-insert u v l online = ground (arith, lookup-insert u v l online)

module _ (k u : ℕ) (device : Device) (s : Registry) (h : IsRegistered s)
    (new : lookup k s.connections ≡ none) where
  abbrev info : Info
  info = record { user = u; device = device; idle = false }

  abbrev added : Registry
  added = record s {
    online = insert u (sockets_of u s ++ k ∷ []) s.online;
    infos = insert k info s.infos;
    connections = insert k u s.connections;
  }

  added-counted : (j v : ℕ) → In j (sockets_of v added) → lookup j added.connections ≡ some v
  unfolding sockets_of
  added-counted j v i = elim (Bool-cases (u == v)) as (λ _. lookup j added.connections ≡ some v) [
    | inl same ↦
        let e = (nat_beq_iff u v).0 same in
        let moved : In j (sockets_of u s ++ k ∷ []) =
          subst (In j)
            (sockets-insert u v (sockets_of u s ++ k ∷ []) s.online ∙ ground (arith, same)) i in
        elim (In-append_either j k (sockets_of u s) moved) [
          | inl before ↦ ground (
            arith,
            e,
            new,
            h.counted j u before,
            ap (λ x. lookup x s.connections),
            lookup-insert k j u s.connections,
          )
          | inr is_k ↦ ground (arith, e, is_k, lookup-insert k j u s.connections)
        ]
    | inr apart ↦
        let before : In j (sockets_of v s) =
          subst (In j)
            (sockets-insert u v (sockets_of u s ++ k ∷ []) s.online ∙ ground (arith, apart)) i in
        ground (
          arith,
          new,
          h.counted j v before,
          ap (λ x. lookup x s.connections),
          lookup-insert k j u s.connections,
        )
  ]

  added-IsRegistered : IsRegistered added
  unfolding sockets_of
  added-IsRegistered = record {
    known = λ j v l. elim (Bool-cases (k == j)) as (λ _. HasInfo j v added) [
      | inl same ↦ (
        info,
        ground (arith, same, lookup-insert k j info s.infos),
        ground (arith, same, l, lookup-insert k j u s.connections),
      )
      | inr apart ↦
          let (i, x, y) =
            h.known j v (ground (arith, apart, l, lookup-insert k j u s.connections)) in
          (i, ground (arith, apart, x, lookup-insert k j info s.infos), y)
    ];
    listed = λ j v l.
        subst (In j) (sym (sockets-insert u v (sockets_of u s ++ k ∷ []) s.online))
          (elim (Bool-cases (k == j))
            as (λ _. In j (
              if u == v
              then sockets_of u s ++ k ∷ []
              else elim (lookup v s.online) [ none ↦ [] | some ids ↦ ids ])) [
                | inl same ↦
                    let ek = (nat_beq_iff k j).0 same in
                    let eu : u ≡ v = ground (arith, same, l, lookup-insert k j u s.connections) in
                    let at : (u == v) ≡ true = (nat_beq_iff u v).1 eu in
                    rw at (
                      subst (λ x. In x (sockets_of u s ++ k ∷ [])) ek
                        (In-append_last k (sockets_of u s)))
                | inr apart ↦
                    let was =
                      h.listed j v (ground (arith, apart, l, lookup-insert k j u s.connections)) in
                    elim (Bool-cases (u == v))
                      as (λ _. In j (
                        if u == v
                        then sockets_of u s ++ k ∷ []
                        else elim (lookup v s.online) [ none ↦ [] | some ids ↦ ids ])) [
                          | inl at ↦ rw at (
                              In-append_left j (sockets_of u s) (k ∷ []) (
                                subst (λ x. In j (sockets_of x s)) (sym ((nat_beq_iff u v).0 at))
                                  was))
                          | inr at ↦ rw at was
                        ]
              ]);
    informed = λ j i l.
        elim (Bool-cases (k == j)) as (λ _. lookup j added.connections ≡ some i.user) [
          | inl same ↦
              let e : i ≡ info = ground (arith, same, l, lookup-insert k j info s.infos) in
              ground (arith, same, ap (λ (x : Info). x.user) e, lookup-insert k j u s.connections)
          | inr apart ↦ ground (
            arith,
            apart,
            h.informed j i (ground (arith, apart, l, lookup-insert k j info s.infos)),
            lookup-insert k j u s.connections,
          )
        ];
    counted = added-counted;
  }

connect-IsRegistered :
    (k u : ℕ) (device : Device) (s : Registry)
    → IsRegistered s
    → lookup k s.connections ≡ none
    → IsRegistered (connect k u device s)
unfolding connect
connect-IsRegistered k u device s h new =
    if_split IsRegistered (is_online u s)
      (λ _. touch-IsRegistered u _ (added-IsRegistered k u device s h new))
      (λ _. added-IsRegistered k u device s h new)

-- A device turns idle or active: only that flag changes.
retold-IsRegistered :
    (k : ℕ) (i j : Info) (s : Registry)
    → IsRegistered s
    → lookup k s.infos ≡ some i
    → j.user ≡ i.user
    → IsRegistered (record s { infos = insert k j s.infos })
unfolding sockets_of
retold-IsRegistered k i j s h l e = record {
  known = λ k' v c.
      let (old, x, y) = h.known k' v c in
      elim (Bool-cases (k == k')) as (λ _. HasInfo k' v (record s { infos = insert k j s.infos })) [
        | inl same ↦
            let moved : lookup k' s.infos ≡ some i =
              ap (λ z. lookup z s.infos) (sym ((nat_beq_iff k k').0 same)) ∙ l in
            let is_old : i ≡ old = ground (arith, moved, x) in
            (
              j,
              ground (arith, same, lookup-insert k k' j s.infos),
              e ∙ ap (λ (z : Info). z.user) is_old ∙ y,
            )
        | inr apart ↦ (old, ground (arith, apart, x, lookup-insert k k' j s.infos), y)
      ];
  listed = h.listed;
  informed = λ k' i' l'.
      elim (Bool-cases (k == k')) as (λ _. lookup k' s.connections ≡ some i'.user) [
        | inl same ↦
            let new : i' ≡ j = ground (arith, same, l', lookup-insert k k' j s.infos) in
            ap (λ z. lookup z s.connections) (sym ((nat_beq_iff k k').0 same))
            ∙ h.informed k i l
            ∙ ap some (sym e ∙ ap (λ (z : Info). z.user) (sym new))
        | inr apart ↦ h.informed k' i' (ground (arith, apart, l', lookup-insert k k' j s.infos))
      ];
  counted = h.counted;
}

activity-IsRegistered :
    (k u : ℕ) (idle : Bool) (s : Registry) → IsRegistered s → IsRegistered (activity k u idle s)
unfolding activity
activity-IsRegistered k u idle s h =
    option_split IsRegistered (lookup k s.infos) (λ _. h)
      (λ i l.
        if_split IsRegistered (same_bool i.idle idle) (λ _. h)
          (λ _.
            touch-IsRegistered u _ (retold-IsRegistered k i (record i { idle = idle }) s h l refl)))

-- A socket is gone from the sockets of its person and from the other maps.
module _ (k u : ℕ) (s : Registry) (h : IsRegistered s)
    (mine : lookup k s.connections ≡ some u) where
  abbrev left : List ℕ
  left = keep (λ j. not (j == k)) (sockets_of u s)

  abbrev dropped : Registry
  dropped = record s {
    online = insert u left s.online;
    infos = erase k s.infos;
    connections = erase k s.connections;
  }

  dropped-IsRegistered : IsRegistered dropped
  unfolding sockets_of
  dropped-IsRegistered = record {
    known = λ j v l.
        let (i, x, y) = h.known j v (ground (arith, l, lookup-erase k j s.connections)) in
        (i, ground (arith, x, l, lookup-erase k j s.connections, lookup-erase k j s.infos), y);
    listed = λ j v l.
        let was : In j (sockets_of v s) =
          h.listed j v (ground (arith, l, lookup-erase k j s.connections)) in
        let apart : not (j == k) ≡ true = ground (arith, l, lookup-erase k j s.connections) in
        subst (In j) (sym (sockets-insert u v left s.online))
          (elim (Bool-cases (u == v))
            as (λ _.
              In j (
                if u == v then left else elim (lookup v s.online) [ none ↦ [] | some ids ↦ ids ])) [
                  | inl at ↦ rw at (
                      In-keep (λ z. not (z == k)) j (sockets_of u s)
                        (subst (λ x. In j (sockets_of x s)) (sym ((nat_beq_iff u v).0 at)) was)
                        apart)
                  | inr at ↦ rw at was
                ]);
    informed = λ j i l. ground (
      arith,
      h.informed j i (ground (arith, l, lookup-erase k j s.infos)),
      l,
      lookup-erase k j s.infos,
      lookup-erase k j s.connections,
    );
    counted = λ j v i.
        let kept = subst (In j) (sockets-insert u v left s.online) i in
        elim (Bool-cases (u == v)) as (λ _. lookup j dropped.connections ≡ some v) [
          | inl at ↦
              let inside : In j left = subst (In j) (ground (arith, at)) kept in
              let apart = In-keep_holds (λ z. not (z == k)) j (sockets_of u s) inside in
              let was = In-keep_in (λ z. not (z == k)) j (sockets_of u s) inside in
              let e = (nat_beq_iff u v).0 at in
              ground (arith, apart, h.counted j u was, e, lookup-erase k j s.connections)
          | inr at ↦
              let was : In j (sockets_of v s) = subst (In j) (ground (arith, at)) kept in
              let there = h.counted j v was in
              ground (
                arith,
                there,
                mine,
                at,
                ap (λ z. lookup z s.connections),
                lookup-erase k j s.connections,
              )
        ];
  }

  disconnect-IsRegistered : IsRegistered (disconnect k u s)
  unfolding disconnect sockets_of
  disconnect-IsRegistered = go (lookup u s.online) refl
    where
      go : (o : Option (List ℕ)) → lookup u s.online ≡ o → IsRegistered (disconnect k u s)
      go none l =
          let nothing : sockets_of u s ≡ [] = ground (arith, l) in
          absurd (subst (In k) nothing (h.listed k u mine))
      go (some ids) l =
          rw (l, disconnect)
            (if_split IsRegistered (is_empty (keep (λ j. not (j == k)) ids)) (λ _. moved ids l)
              (λ _. touch-IsRegistered u _ (moved ids l)))
        where
          moved :
              (ids : List ℕ)
              → lookup u s.online ≡ some ids
              → IsRegistered (record s {
                online = insert u (keep (λ j. not (j == k)) ids) s.online;
                infos = erase k s.infos;
                connections = erase k s.connections;
              })
          moved ids l =
              let all : sockets_of u s ≡ ids = ground (arith, l) in
              subst
                (λ (x : List ℕ). IsRegistered (record s {
                  online = insert u (keep (λ j. not (j == k)) x) s.online;
                  infos = erase k s.infos;
                  connections = erase k s.connections;
                }))
                all dropped-IsRegistered

step-IsRegistered : (e : Event) (s : Registry) → IsRegistered s → IsRegistered (step e s)
unfolding step sockets_of
step-IsRegistered (connected k u device) s h =
    option_split IsRegistered (lookup k s.connections) (connect-IsRegistered k u device s h)
      (λ _ _. h)
step-IsRegistered (turned k idle) s h =
    option_split IsRegistered (lookup k s.connections) (λ _. h)
      (λ u _. activity-IsRegistered k u idle s h)
step-IsRegistered (disconnected k) s h =
    option_split IsRegistered (lookup k s.connections) (λ _. h)
      (λ u l. disconnect-IsRegistered k u s h l)
step-IsRegistered (refreshed u) s h = record {
  known = h.known;
  listed = h.listed;
  informed = h.informed;
  counted = h.counted;
}

pub run-IsRegistered : (es : List Event) (s : Registry) → IsRegistered s → IsRegistered (run es s)
unfolding run
run-IsRegistered [] s h = h
run-IsRegistered (e ∷ es) s h = run-IsRegistered es (step e s) (step-IsRegistered e s h)

pub initial-IsRegistered : IsRegistered initial
unfolding initial lookup sockets_of
initial-IsRegistered = record {
  known = λ k u l. cc;
  listed = λ k u l. cc;
  informed = λ k i l. cc;
  counted = λ k u i. absurd i;
}
