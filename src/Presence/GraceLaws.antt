-- ===== src/Presence/GraceLaws.antt =====
-- A write that takes somebody offline never lands over a connection that is set up.
use nova_connect.Prelude.{
  ℕ, ◌≡◌, refl, sym, ◌∙◌, subst, Bool, true, not, none, some, List, [], ◌∷◌, keep, any, All,
  option_split, list_split, ◌≢◌, if_split, ◌==◌, nat_eq, pair_eq, In, In-append_left,
  In-append_either, In-keep, In-keep_in, In-keep_holds, any-found, nat_beq_iff, inl, inr, arith,
  Option-cases,
}
use nova_connect.Presence.Rules.{Status, Row}
use nova_connect.Presence.Grace.{
  Entry, Job, settle, go_offline, Person, without, reconnect, start_grace, nobody, close, fire,
  is_valid, begin_job, start_job, end_write, announce, Event, opened, closed, fired, job_started,
  write_ended, announced, step, run, initial,
}

-- While a write goes on nobody is settled, and settled sockets are open.
pub record IsCalm (p : Person) : Type 0 where
  pub alone : (e : Entry) → p.writing ≡ some e → p.settled ≡ []
  pub within : (k : ℕ) → In k p.settled → In k p.open_sockets

keep-nil : (q : ℕ → Bool) (ks : List ℕ) → ks ≡ [] → keep q ks ≡ []
keep-nil q [] h = refl
keep-nil q (k ∷ ks) h = cc

settled-nil :
    (p : Person) (ks : List ℕ)
    → IsCalm p
    → p.settled ≡ ks
    → nobody p.open_sockets ≡ true
    → p.settled ≡ []
settled-nil p [] h e n = e
settled-nil p (k ∷ ks) h e n = go p.open_sockets refl (h.within k (subst (In k) (sym e) (inl refl)))
  where
    go : (l : List ℕ) → p.open_sockets ≡ l → In k p.open_sockets → p.settled ≡ []
    go [] q i = absurd (subst (In k) q i)
    go (j ∷ js) q i = ground (arith, n, q)

close-IsCalm : (k now : ℕ) (p : Person) → IsCalm p → IsCalm (close k now p)
unfolding close start_grace
close-IsCalm k now p h =
    if_split IsCalm (nobody (without k p.open_sockets))
      (λ _. record { alone = alone; within = inside })
      (λ _. record { alone = alone; within = inside })
  where
    alone : (e : Entry) → p.writing ≡ some e → without k p.settled ≡ []
    alone e w = keep-nil (λ j. not (j == k)) p.settled (h.alone e w)

    inside : (j : ℕ) → In j (without k p.settled) → In j (without k p.open_sockets)
    inside j i =
        In-keep (λ x. not (x == k)) j p.open_sockets
          (h.within j (In-keep_in (λ x. not (x == k)) j p.settled i))
          (In-keep_holds (λ x. not (x == k)) j p.settled i)

begin_job-IsCalm : (j : Job) (p : Person) → IsCalm p → p.writing ≡ none → IsCalm (begin_job j p)
unfolding begin_job
begin_job-IsCalm (settle k) p h w =
    if_split IsCalm (any (λ i. i == k) p.open_sockets)
      (λ there.
        let (j, at, e) = any-found (λ i. i == k) p.open_sockets there in
        record {
          alone = λ e q. cc (w, q);
          within = λ i m. elim (In-append_either i k p.settled m) [
            | inl was ↦ h.within i was
            | inr is_k ↦ subst (λ x. In x p.open_sockets) ((nat_beq_iff j k).0 e ∙ sym is_k) at
          ];
        })
      (λ _. record { alone = h.alone; within = h.within })
begin_job-IsCalm (go_offline e) p h w =
    if_split IsCalm (is_valid e p)
      (λ v.
        let gone : nobody p.open_sockets ≡ true = unfold is_valid in ground (arith, v) in
        record { alone = λ _ _. settled-nil p p.settled h refl gone; within = h.within })
      (λ _. h)

start_job-IsCalm : (p : Person) → IsCalm p → IsCalm (start_job p)
unfolding start_job
start_job-IsCalm p h =
    option_split IsCalm p.writing
      (λ w.
        list_split IsCalm p.queue (λ _. h)
          (λ j js _.
            begin_job-IsCalm j (record p { queue = js })
              (record { alone = h.alone; within = h.within }) w))
      (λ _ _. h)

end_write-IsCalm :
    (row : Row) (now : ℕ) (fails : Bool) (p : Person)
    → IsCalm p
    → IsCalm (end_write row now fails p)
unfolding end_write
end_write-IsCalm row now fails p h =
    option_split IsCalm p.writing (λ _. h)
      (λ e w.
        if_split IsCalm fails (λ _. record { alone = λ _ q. cc; within = h.within })
          (λ _. record { alone = λ _ q. cc; within = h.within }))

step-IsCalm : (e : Event) (p : Person) → IsCalm p → IsCalm (step e p)
unfolding step reconnect fire announce
step-IsCalm (opened k) p h =
    if_split IsCalm (any (λ i. i == k) p.open_sockets) (λ _. h)
      (λ _. record {
        alone = h.alone;
        within = λ j i. In-append_left j p.open_sockets (k ∷ []) (h.within j i);
      })
step-IsCalm (closed k now) p h =
    if_split IsCalm (any (λ i. i == k) p.open_sockets) (λ _. close-IsCalm k now p h) (λ _. h)
step-IsCalm (fired e) p h =
    if_split IsCalm (any (λ t. t == e) p.timers)
      (λ _. record { alone = h.alone; within = h.within }) (λ _. h)
step-IsCalm job_started p h = start_job-IsCalm p h
step-IsCalm (write_ended row now fails) p h = end_write-IsCalm row now fails p h
step-IsCalm (announced k shown now) p h =
    if_split IsCalm (any (λ i. i == k) p.ready) (λ _. record { alone = h.alone; within = h.within })
      (λ _. h)

run-IsCalm : (es : List Event) (p : Person) → IsCalm p → IsCalm (run es p)
unfolding run
run-IsCalm [] p h = h
run-IsCalm (e ∷ es) p h = run-IsCalm es (step e p) (step-IsCalm e p h)

initial-IsCalm : (status : Status) (last_seen : ℕ) → IsCalm (initial status last_seen)
unfolding initial
initial-IsCalm status last_seen = record { alone = λ e q. refl; within = λ k i. i }

-- Neither the socket `k` closes nor does a socket's setup store a status.
abbrev pub LeavesAlone : ℕ → Event → Type 0
LeavesAlone k (closed j now) = j ≢ k
LeavesAlone k (announced j shown now) = ⊥
LeavesAlone k e = Unit {0}

not-nil : (k : ℕ) (ks : List ℕ) → In k ks → ks ≢ []
not-nil k [] i e = i
not-nil k (j ∷ js) i e = cc

module _ (k : ℕ) (p : Person) (h : IsCalm p) (at : In k p.settled) where
  no_write : p.writing ≡ none
  no_write = elim (Option-cases p.writing) [
    | inl e ↦ e
    | inr (e, w) ↦ absurd (not-nil k p.settled at (h.alone e w))
  ]

  abbrev Stays : Person → Type 0
  Stays x = In k x.settled × (x.status ≡ p.status)

  begin_job-Stays : (j : Job) (js : List Job) → Stays (begin_job j (record p { queue = js }))
  unfolding begin_job
  begin_job-Stays (settle i) js =
      if_split Stays (any (λ z. z == i) p.open_sockets)
        (λ _. (In-append_left k p.settled (i ∷ []) at, refl)) (λ _. (at, refl))
  begin_job-Stays (go_offline e) js =
      if_split Stays (is_valid e (record p { queue = js })) (λ _. (at, refl)) (λ _. (at, refl))

  start_job-Stays : Stays (start_job p)
  unfolding start_job
  start_job-Stays =
      option_split Stays p.writing
        (λ _. list_split Stays p.queue (λ _. (at, refl)) (λ j js _. begin_job-Stays j js))
        (λ _ _. (at, refl))

  step-Stays : (e : Event) → LeavesAlone k e → Stays (step e p)
  unfolding step reconnect close start_grace fire end_write
  step-Stays (opened j) _ =
      if_split Stays (any (λ i. i == j) p.open_sockets) (λ _. (at, refl)) (λ _. (at, refl))
  step-Stays (closed j now) n =
      let kept : In k (without j p.settled) =
        In-keep (λ i. not (i == j)) k p.settled at (ground (arith, λ (e : j ≡ k). n e)) in
      if_split Stays (any (λ i. i == j) p.open_sockets)
        (λ _.
          if_split Stays (nobody (without j p.open_sockets)) (λ _. (kept, refl))
            (λ _. (kept, refl)))
        (λ _. (at, refl))
  step-Stays (fired e) _ =
      if_split Stays (any (λ t. t == e) p.timers) (λ _. (at, refl)) (λ _. (at, refl))
  step-Stays job_started _ = start_job-Stays
  step-Stays (write_ended row now fails) _ = rw (no_write, end_write) (at, refl)
  step-Stays (announced j shown now) n = absurd n

run-stays :
    (k : ℕ) (es : List Event) (p : Person)
    → IsCalm p
    → In k p.settled
    → All (LeavesAlone k) es
    → (run es p).status ≡ p.status
unfolding run
run-stays k [] p h at a = refl
run-stays k (e ∷ es) p h at (n, a) =
    let (kept, same) = step-Stays k p h at e n in
    run-stays k es (step e p) (step-IsCalm e p h) kept a ∙ same

-- Whatever has happened since the start of the server: once the setup of a socket is past its wait,
-- no late write of an earlier disconnection changes the person's status while the socket stays open.
pub settled-stays :
    (status : Status) (last_seen k : ℕ) (before after : List Event)
    → In k (run before (initial status last_seen)).settled
    → All (LeavesAlone k) after
    → (run after (run before (initial status last_seen))).status
      ≡ (run before (initial status last_seen)).status
settled-stays status last_seen k before after at a =
    run-stays k after (run before (initial status last_seen))
      (run-IsCalm before (initial status last_seen) (initial-IsCalm status last_seen)) at a
