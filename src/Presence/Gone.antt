-- ===== src/Presence/Gone.antt =====
-- Somebody who stays away is written as gone.
use nova_connect.Prelude.{
  ℕ, ◌+◌, ◌≡◌, refl, sym, ap, ◌∙◌, true, false, not, none, some, List, [], ◌∷◌, ◌++◌, keep, any,
  length, if◌then◌else◌, ◌==◌, nat_eq, pair_eq, In, In-append_last, any-In, length-append, inl, inr,
  arith, Bool-cases, beq_refl,
}
use nova_connect.Presence.Rules.{Row, offline, ooo, is_out_of_office, shown_status}
use nova_connect.Presence.Grace.{
  Entry, Job, settle, go_offline, Person, without, cancel, start_grace, nobody, close, fire,
  is_valid, begin_job, start_job, gone_status, end_write, drain,
}

module _ (row : Row) (now : ℕ) where
  abbrev turn : Person → Person
  turn p = end_write row now false (start_job p)

  -- What a turn leaves when nothing is to be written.
  abbrev Quiet : Person → Person → List Job → Type 0
  Quiet p t js =
      (t.queue ≡ js)
      × (t.entry ≡ p.entry)
      × (t.writing ≡ none)
      × (t.open_sockets ≡ p.open_sockets)
      × (t.status ≡ p.status)
      × (t.last_seen ≡ p.last_seen)

  settle-Quiet :
      (i : ℕ) (js : List Job) (p : Person)
      → p.queue ≡ settle i ∷ js
      → p.writing ≡ none
      → Quiet p (turn p) js
  unfolding start_job begin_job end_write
  settle-Quiet i js p q w = ground (arith, q, w)

  stale-Quiet :
      (d : Entry) (js : List Job) (p : Person)
      → p.queue ≡ go_offline d ∷ js
      → p.writing ≡ none
      → is_valid d p ≡ false
      → Quiet p (turn p) js
  unfolding start_job begin_job end_write is_valid
  stale-Quiet d js p q w v = ground (arith, q, w, v)

  -- Without an entry and a write, the jobs that are left change neither the status nor the time.
  quiet :
      (js : List Job) (p : Person)
      → p.queue ≡ js
      → p.entry ≡ none
      → p.writing ≡ none
      → ((drain row now (length js) p).status ≡ p.status)
        × ((drain row now (length js) p).last_seen ≡ p.last_seen)
  unfolding drain is_valid
  quiet [] p q e w = (refl, refl)
  quiet (j ∷ js) p q e w =
      let (a, b, c, d, f, g) = one j q in
      let (x, y) = quiet js (turn p) a (b ∙ e) c in (x ∙ f, y ∙ g)
    where
      one : (j : Job) → p.queue ≡ j ∷ js → Quiet p (turn p) js
      one (settle i) q = settle-Quiet i js p q w
      one (go_offline d) q = stale-Quiet d js p q w (ground (arith, e))

  -- The job of the entry that is there writes.
  abbrev pub Gone : Entry → Person → Type 0
  Gone e p = (p.status ≡ (if is_out_of_office row now then ooo else offline)) × (p.last_seen ≡ e.1)

  -- The rules show somebody who is not connected as Offline, or as Out of office.
  gone_status-shown : gone_status row now ≡ (if is_out_of_office row now then ooo else offline)
  unfolding gone_status shown_status
  gone_status-shown = ground arith

  fresh-Gone :
      (e : Entry) (js : List Job) (p : Person)
      → p.queue ≡ go_offline e ∷ js
      → p.writing ≡ none
      → p.entry ≡ some e
      → nobody p.open_sockets ≡ true
      → ((turn p).queue ≡ js)
        × ((turn p).entry ≡ none)
        × ((turn p).writing ≡ none)
        × Gone e (turn p)
  unfolding start_job begin_job end_write is_valid
  fresh-Gone e js p q w at n = ground (arith, q, w, at, n, beq_refl e, gone_status-shown)

  drain-Gone :
      (e : Entry) (js : List Job) (p : Person)
      → p.queue ≡ js
      → In (go_offline e) js
      → p.writing ≡ none
      → p.entry ≡ some e
      → nobody p.open_sockets ≡ true
      → Gone e (drain row now (length js) p)
  unfolding drain is_valid
  drain-Gone e [] p q i w at n = absurd i
  drain-Gone e (settle k ∷ js) p q i w at n =
      let (a, b, c, d, f, g) = settle-Quiet k js p q w in
      let later : In (go_offline e) js = ground (arith, i) in
      drain-Gone e js (turn p) a later c (b ∙ at) (ap nobody d ∙ n)
  drain-Gone e (go_offline d ∷ js) p q i w at n = elim (Bool-cases (e == d)) [
    | inl same ↦
        let is_e : d ≡ e = sym ((pair_eq.beq_iff e d).0 same) in
        let (a, b, c, (x, y)) = fresh-Gone e js p (q ∙ ap (λ z. go_offline z ∷ js) is_e) w at n in
        let (u, v) = quiet js (turn p) a b c in (u ∙ x, v ∙ y)
    | inr apart ↦
        let (a, b, c, o, f, g) = stale-Quiet d js p q w (ground (arith, at, apart)) in
        let later : In (go_offline e) js = ground (arith, i, apart, beq_refl e) in
        drain-Gone e js (turn p) a later c (b ∙ at) (ap nobody o ∙ n)
  ]

  -- Somebody whose last socket has closed and who does not come back is written as gone, with the time
  -- of that moment: once no write is under way, the timer fires and the jobs of the queue run, and the
  -- writes do not fail, the status is Offline, or Out of office while that is on.
  pub closed-Gone :
      (k at : ℕ) (p : Person)
      → p.writing ≡ none
      → nobody (without k p.open_sockets) ≡ true
      → Gone
          (p.next_entry, at)
          (drain row now (length p.queue + 1) (fire (p.next_entry, at) (close k at p)))
  unfolding fire close start_grace
  closed-Gone k at p w n =
      let e : Entry = (p.next_entry, at) in
      let timers : List Entry = cancel p.entry p.timers ++ e ∷ [] in
      let waiting : any (λ x. x == e) timers ≡ true =
        any-In (λ x. x == e) e timers (In-append_last e (cancel p.entry p.timers)) (beq_refl e) in
      rw (n, waiting, ← length-append p.queue (go_offline e ∷ []))
        (drain-Gone e (p.queue ++ go_offline e ∷ [])
          (record p {
            entry = some e;
            timers = keep (λ x. not (x == e)) timers;
            queue = p.queue ++ go_offline e ∷ [];
            open_sockets = without k p.open_sockets;
            settled = without k p.settled;
            next_entry = p.next_entry + 1;
          })
          refl (In-append_last (go_offline e) p.queue) w refl n)
