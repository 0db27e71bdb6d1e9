-- ===== src/Presence/Sweep.antt =====
-- A refresh of one person's status, and the scheduler's sweep over many.
use nova_connect.Prelude.{
  ℕ, ◌≡◌, ◌≢◌, refl, sym, ap, ◌∙◌, Bool, true, false, ◌&&◌, ◌||◌, Option, none, some, List, [], ◌∷◌,
  arith, lookup, keep, if◌then◌else◌, ◌==◌, nat_eq, DistinctKeys, DistinctKeys-keep, kept_there,
  lookup-keep, lookup-insert, Bool-cases, nat_beq_iff, inl, inr, beq_refl,
}
use nova_connect.Presence.Rules.{
  Status, online, offline, ooo, dnd, busy, away, brb, in_meeting, in_call, presenting, is,
}
use nova_connect.Presence.Refresh.{
  Account, Seen, Users, shown_for, presence_for, same_choice, write_presence, refresh_read,
  refresh_write, settled_gone, sweep_one, is_swept, sweep_rows, sweep,
}

is_eq : (a b : Status) → is a b ≡ true → a ≡ b
is_eq online b h = ground (arith, h)
is_eq offline b h = ground (arith, h)
is_eq ooo b h = ground (arith, h)
is_eq dnd b h = ground (arith, h)
is_eq busy b h = ground (arith, h)
is_eq away b h = ground (arith, h)
is_eq brb b h = ground (arith, h)
is_eq in_meeting b h = ground (arith, h)
is_eq in_call b h = ground (arith, h)
is_eq presenting b h = ground (arith, h)

is_refl : (a : Status) → is a a ≡ true
is_refl a = ground arith

same_choice_refl : (c : Option Status) → same_choice c c ≡ true
same_choice_refl none = refl
same_choice_refl (some a) = is_refl a

-- A row in which nothing has changed since it was read gets the status.
write_presence-read :
    (u v : ℕ) (a : Account) (shown : Status) (users : Users)
    → lookup u users ≡ some a
    → lookup v (write_presence u a shown users).0
      ≡ (if u == v then some (record a { status = shown }) else lookup v users)
unfolding write_presence
write_presence-read u v a shown users l = ground (
  arith,
  l,
  is_eq shown a.status,
  is_refl a.status,
  same_choice_refl a.preference,
  nat_beq_iff u v,
  ap (λ x. lookup x users),
  lookup-insert u v (record a { status = shown }) users,
)

-- A refresh that no other request comes between stores the status that the rules show.
pub refresh-shown :
    (u v : ℕ) (a : Account) (seen : Seen) (now : ℕ) (users : Users)
    → lookup u users ≡ some a
    → seen.connected ≡ true
    → lookup v (refresh_write u (refresh_read u seen now users) users).0 ≡ (
        if u == v
        then some (record a { status = shown_for a a.preference seen now })
        else lookup v users)
unfolding refresh_write refresh_read presence_for
refresh-shown u v a seen now users l c =
    ground (arith, l, c, write_presence-read u v a (shown_for a a.preference seen now) users l)

-- A refresh whose person chose another status, or whose stored status changed, after it had read the
-- row writes nothing and tells nobody.
pub refresh-stale :
    (u : ℕ) (b : Account) (seen : Seen) (now : ℕ) (before after : Users)
    → lookup u after ≡ some b
    → ((a : Account)
        → lookup u before ≡ some a
        → (is b.status a.status && same_choice b.preference a.preference) ≡ false)
    → refresh_write u (refresh_read u seen now before) after ≡ (after, [])
unfolding refresh_write refresh_read presence_for write_presence
refresh-stale u b seen now before after l changed = go (lookup u before) refl
  where
    go :
        (o : Option Account)
        → lookup u before ≡ o
        → refresh_write u (refresh_read u seen now before) after ≡ (after, [])
    go none e = ground (arith, e)
    go (some a) e = ground (arith, e, l, changed a e)

-- What the sweep makes of a row that it looks at.
abbrev one_status : Account → Seen → ℕ → Status
one_status a seen now =
    if seen.connected || settled_gone a.status then shown_for a a.preference seen now else a.status

sweep_one-lookup :
    (u v : ℕ) (a : Account) (seen : Seen) (now : ℕ) (users : Users)
    → lookup u users ≡ some a
    → lookup v (sweep_one u a seen now users).0
      ≡ (if u == v then some (record a { status = one_status a seen now }) else lookup v users)
unfolding sweep_one
sweep_one-lookup u v a seen now users l = ground (
  arith,
  l,
  nat_beq_iff u v,
  ap (λ x. lookup x users),
  write_presence-read u v a (shown_for a a.preference seen now) users l,
)

sweep_rows-lookup :
    (seen : ℕ → Seen) (now v : ℕ) (rows : List (ℕ × Account)) (users : Users)
    → DistinctKeys rows
    → ((j : ℕ) (b : Account) → lookup j rows ≡ some b → lookup j users ≡ some b)
    → lookup v (sweep_rows seen now rows users).0 ≡ (elim (lookup v rows) [
      | none ↦ lookup v users
      | some b ↦ some (record b { status = one_status b (seen v) now })
    ])
unfolding sweep_rows lookup
sweep_rows-lookup seen now v [] users d h = refl
sweep_rows-lookup seen now v ((j, b) ∷ rows) users d h =
    let there : lookup j users ≡ some b = h j b (ground (arith, beq_refl j)) in
    let users' = (sweep_one j b (seen j) now users).0 in
    let first = sweep_one-lookup j v b (seen j) now users there in
    let rest = sweep_rows-lookup seen now v rows users' d.1 (λ i c l.
      let apart : (j == i) ≡ false =
        ground (arith, l, d.0, nat_beq_iff j i, ap (λ x. lookup x rows)) in
      ground (
        arith,
        apart,
        h i c (ground (arith, apart, l)),
        sweep_one-lookup j i b (seen j) now users there,
      )) in
    rest ∙ elim (Bool-cases (j == v)) [
      | inl same ↦
          let e = (nat_beq_iff j v).0 same in
          let gone : lookup v rows ≡ none = ap (λ x. lookup x rows) (sym e) ∙ d.0 in
          ground (arith, same, gone, first, ap seen e)
      | inr apart ↦ ground (arith, apart, first)
    ]

sweep-lookup :
    (seen : ℕ → Seen) (now u : ℕ) (a : Account) (users : Users)
    → DistinctKeys users
    → lookup u users ≡ some a
    → lookup u (sweep seen now users).0
      ≡ some (record a {
        status = if is_swept a (seen u) then one_status a (seen u) now else a.status;
      })
unfolding sweep
sweep-lookup seen now u a users d l =
    let p : ℕ × Account → Bool = λ e. is_swept e.1 (seen e.0) in
    sweep_rows-lookup seen now u (keep p users) users (DistinctKeys-keep p users d)
      (λ j b q. (kept_there p j b users d q).0)
    ∙ ground (arith, l, lookup-keep p u users d)

not_is : (a b : Status) → a ≢ b → is a b ≡ false
not_is a b n = elim (Bool-cases (is a b)) [
  | inl same ↦ absurd (n (is_eq a b same))
  | inr apart ↦ apart
]

-- What a sweep does to the row `a` of a person, of whom `seen` is known; `after` is the row then.
pub record Swept (a : Account) (seen : Seen) (now : ℕ) (after : Option Account) : Type 0 where
  pub here :
      seen.connected ≡ true → after ≡ some (record a { status = shown_for a a.preference seen now })
  pub reconnecting : seen.connected ≡ false → a.status ≢ offline → a.status ≢ ooo → after ≡ some a
  pub out_of_office :
      seen.connected ≡ false
      → a.status ≡ ooo
      → after ≡ some (record a { status = shown_for a a.preference seen now })
  pub turned_on :
      seen.connected ≡ false
      → a.status ≡ offline
      → a.row.ooo_enabled ≡ true
      → after ≡ some (record a { status = shown_for a a.preference seen now })
  pub away_for_good :
      seen.connected ≡ false → a.status ≡ offline → a.row.ooo_enabled ≡ false → after ≡ some a

-- After the sweep, a person who is connected has the status that the rules show. One who is not, and
-- whose status is neither Offline nor Out of office, keeps it, so that no reconnection is cut short;
-- one who shows as Out of office, or is Offline with out of office on, has the status that the rules
-- show; and one who is Offline without it stays so.
pub sweep-Swept :
    (seen : ℕ → Seen) (now u : ℕ) (a : Account) (users : Users)
    → DistinctKeys users
    → lookup u users ≡ some a
    → Swept a (seen u) now (lookup u (sweep seen now users).0)
sweep-Swept seen now u a users d l =
    let at = sweep-lookup seen now u a users d l in
    record {
      here = λ c. at ∙ ground (arith, c);
      reconnecting =
          λ c n m. at ∙ ground (arith, c, not_is a.status offline n, not_is a.status ooo m);
      out_of_office = λ c s. at ∙ ground (arith, c, ap (λ z. is z ooo) s, is_refl ooo);
      turned_on = λ c s o. at ∙ ground (arith, c, o, ap (λ z. is z offline) s, is_refl offline);
      away_for_good = λ c s o. at ∙ ground (arith, c, o, ap (λ z. is z ooo) s);
    }
