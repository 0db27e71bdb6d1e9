-- ===== src/Calls/RestartLaws.antt =====
-- An interrupted call gets its outcome, once.
use nova_connect.Prelude.{
  Bool, ◌-◌, ℕ, ◌≡◌, refl, sym, ap, ◌∙◌, subst, true, false, Option, none, some, List, [], ◌∷◌,
  ◌++◌, arith, Map, lookup, has, if◌then◌else◌, ◌==◌, nat_eq, Bool-cases, Option-cases, inl, inr,
  if_split, In, lookup-erase, nat_beq_iff,
}
use mathlib.Core.List.{append_assoc, append-nil}
use nova_connect.Calls.State.{
  Scope, channel, dm, meeting_ended, call_ended, call_cancelled, group_ended, group_missed,
  post_outcome, update_post, Call, Effect, Recovery, State, scope_eq,
}
use nova_connect.Calls.Lifecycle.{outcome_posts, direct_outcome, group_outcome, outcome_posted}
use nova_connect.Calls.Duration.{format_duration}
use nova_connect.Calls.Restart.{
  interrupted_posts, recover_one, recover, Post, is_stale, mark_ended, swept,
}

-- No two keys are the same.
abbrev pub Distinct : List ℕ → Type 0
Distinct [] = Unit {0}
Distinct (k ∷ ks) = ((j : ℕ) → In j ks → (k == j) ≡ false) × Distinct ks

-- What should be posted for a call that was interrupted, up to when it was last seen: a meeting's post
-- says how long it took, if it has one; a 1:1 call that connected shows its length, and is cancelled
-- otherwise; a group call that connected shows its length, and is missed otherwise.
abbrev pub due_posts : Scope → Bool → Option ℕ → Option ℕ → ℕ → ℕ → ℕ → ℕ → List Effect
due_posts (channel ch) direct none connected by started seen id = []
due_posts (channel ch) direct (some p) connected by started seen id =
    update_post ch p (meeting_ended (format_duration (seen - started))) id ∷ []
due_posts (dm d) true post (some from) by started seen id =
    post_outcome (dm d) by (call_ended (format_duration (seen - from))) id ∷ []
due_posts (dm d) true post none by started seen id = post_outcome (dm d) by call_cancelled id ∷ []
due_posts (dm d) false post (some from) by started seen id =
    post_outcome (dm d) by (group_ended (format_duration (seen - started))) id ∷ []
due_posts (dm d) false post none by started seen id = post_outcome (dm d) by group_missed id ∷ []

abbrev pub due_for : Recovery → List Effect
due_for r =
    due_posts r.scope r.direct r.post_id r.connected_at r.started_by r.started_at r.last_seen_at
      r.id

interrupted-due_for : (r : Recovery) → interrupted_posts r ≡ due_for r
unfolding outcome_posts direct_outcome group_outcome
interrupted-due_for r = go r.scope refl r.post_id refl r.direct refl r.connected_at refl
  where
    go :
        (sc : Scope)
        → r.scope ≡ sc
        → (p : Option ℕ) → r.post_id ≡ p
        → (d : Bool) → r.direct ≡ d
        → (c : Option ℕ) → r.connected_at ≡ c
        → interrupted_posts r ≡ due_for r
    go (channel ch) e none f d g c h = ground (arith, e, f)
    go (channel ch) e (some q) f d g c h = ground (arith, e, f)
    go (dm x) e p f true g (some a) h = ground (arith, e, g, h)
    go (dm x) e p f true g none h = ground (arith, e, g, h)
    go (dm x) e p f false g (some a) h = ground (arith, e, g, h)
    go (dm x) e p f false g none h = ground (arith, e, g, h)

abbrev one_for : Option Recovery → Map ℕ Call → List Effect → List Effect
one_for none calls rest = rest
one_for (some r) calls rest = if has r.id calls then rest else due_for r ++ rest

-- What is posted for the records as they are before the sweep.
pub posts_for : List ℕ → State → List Effect
posts_for [] s = []
posts_for (k ∷ ks) s = let rest = posts_for ks s in one_for (lookup k s.recovery) s.calls rest

-- The record of a key is gone, or is that of a call that runs.
abbrev pub Settled : ℕ → State → Type 0
Settled k s = (r : Recovery) → lookup k s.recovery ≡ some r → has r.id s.calls ≡ true

recover_one-calls : (k : ℕ) (s : State) → (recover_one k s).calls ≡ s.calls
unfolding recover_one outcome_posted
recover_one-calls k s = elim (Option-cases (lookup k s.recovery)) [
  | inl e ↦ ground (arith, e)
  | inr (r, e) ↦ elim (Bool-cases (has r.id s.calls)) [
    | inl b ↦ ground (arith, e, b)
    | inr b ↦ ground (arith, e, b)
  ]
]

recover_one-other :
    (k j : ℕ) (s : State)
    → (k == j) ≡ false
    → lookup j (recover_one k s).recovery ≡ lookup j s.recovery
unfolding recover_one outcome_posted
recover_one-other k j s apart = elim (Option-cases (lookup k s.recovery)) [
  | inl e ↦ ground (arith, e)
  | inr (r, e) ↦ elim (Bool-cases (has r.id s.calls)) [
    | inl b ↦ ground (arith, e, b)
    | inr b ↦ ground (arith, e, b, apart, lookup-erase k j s.recovery)
  ]
]

recover_one-Settled : (k : ℕ) (s : State) → Settled k (recover_one k s)
unfolding recover_one outcome_posted
recover_one-Settled k s x l = elim (Option-cases (lookup k s.recovery)) [
  | inl e ↦ ground (arith, e, l)
  | inr (r, e) ↦ elim (Bool-cases (has r.id s.calls)) [
    | inl b ↦ ground (arith, e, b, l, ap (λ (z : Recovery). has z.id s.calls))
    | inr b ↦ ground (arith, e, b, l, lookup-erase k k s.recovery)
  ]
]

recover_one-out :
    (k : ℕ) (s : State) (rest : List Effect)
    → (recover_one k s).out ++ rest ≡ s.out ++ one_for (lookup k s.recovery) s.calls rest
unfolding recover_one outcome_posted
recover_one-out k s rest = elim (Option-cases (lookup k s.recovery)) [
  | inl e ↦ ground (arith, e)
  | inr (r, e) ↦ elim (Bool-cases (has r.id s.calls)) [
    | inl b ↦ ground (arith, e, b)
    | inr b ↦
        ground (arith, e, b, append_assoc s.out (interrupted_posts r) rest, interrupted-due_for r)
  ]
]

-- What is to be posted depends on the records of the keys and on which calls run.
posts_for-same :
    (ks : List ℕ) (s t : State)
    → t.calls ≡ s.calls
    → ((j : ℕ) → In j ks → lookup j t.recovery ≡ lookup j s.recovery)
    → posts_for ks t ≡ posts_for ks s
unfolding posts_for
posts_for-same [] s t c h = refl
posts_for-same (k ∷ ks) s t c h =
    let rest = posts_for-same ks s t c (λ j i. h j (inr i)) in
    let here = h k (inl refl) in
    ap (λ o. one_for o t.calls (posts_for ks t)) here
    ∙ ap (λ m. one_for (lookup k s.recovery) m (posts_for ks t)) c
    ∙ ap (one_for (lookup k s.recovery) s.calls) rest

recover-out : (ks : List ℕ) (s : State) → Distinct ks → (recover ks s).out ≡ s.out ++ posts_for ks s
unfolding recover posts_for
recover-out [] s d = sym (append-nil s.out)
recover-out (k ∷ ks) s d =
    recover-out ks (recover_one k s) d.1
    ∙ ap (λ l. (recover_one k s).out ++ l)
        (posts_for-same ks s (recover_one k s) (recover_one-calls k s)
          (λ j i. recover_one-other k j s (d.0 j i)))
    ∙ recover_one-out k s (posts_for ks s)

-- What is settled stays so.
Settled-later : (k : ℕ) (ks : List ℕ) (s : State) → Settled k s → Settled k (recover ks s)
unfolding recover
Settled-later k [] s h = h
Settled-later k (j ∷ ks) s h = Settled-later k ks (recover_one j s) (one j k s h)
  where
    one : (j k : ℕ) (s : State) → Settled k s → Settled k (recover_one j s)
    one j k s h = elim (Bool-cases (j == k)) [
      | inl same ↦
          subst (λ (z : ℕ). Settled z (recover_one j s)) ((nat_beq_iff j k).0 same)
            (recover_one-Settled j s)
      | inr apart ↦ λ r l.
          let before = h r (sym (recover_one-other j k s apart) ∙ l) in
          ap (λ m. has r.id m) (recover_one-calls j s) ∙ before
    ]

recover-Settled : (ks : List ℕ) (s : State) (k : ℕ) → In k ks → Settled k (recover ks s)
unfolding recover
recover-Settled [] s k i = absurd i
recover-Settled (j ∷ ks) s k (inl e) =
    Settled-later k ks (recover_one j s)
      (subst (λ (z : ℕ). Settled z (recover_one j s)) (sym e) (recover_one-Settled j s))
recover-Settled (j ∷ ks) s k (inr i) = recover-Settled ks (recover_one j s) k i

recover_idle : (ks : List ℕ) (s : State) → ((k : ℕ) → In k ks → Settled k s) → recover ks s ≡ s
unfolding recover
recover_idle [] s h = refl
recover_idle (k ∷ ks) s h =
    ap (recover ks) (still (h k (inl refl))) ∙ recover_idle ks s (λ j i. h j (inr i))
  where
    still : Settled k s → recover_one k s ≡ s
    still h =
        unfold recover_one in
        elim (Option-cases (lookup k s.recovery)) [
          | inl e ↦ ground (arith, e)
          | inr (r, e) ↦ ground (arith, e, h r e)
        ]

-- After a crash, exactly the records of calls that do not run have their outcome posted, each once and
-- in the order of the keys: the length of a call counts to when it was last seen, and a call that never
-- connected is cancelled or, in a group chat, missed; only records of running calls stay, so that doing it again does nothing.
pub recover-posts :
    (ks : List ℕ) (s : State)
    → Distinct ks
    → ((recover ks s).out ≡ s.out ++ posts_for ks s)
      × (((k : ℕ) → In k ks → Settled k (recover ks s))
          × (recover ks (recover ks s) ≡ recover ks s))
recover-posts ks s d = (
  recover-out ks s d,
  (recover-Settled ks s, recover_idle ks (recover ks s) (recover-Settled ks s)),
)

-- After the second part, no post that is shown says of a meeting that does not run that it was started.
swept-fresh : (s : State) (e : ℕ × Post) → is_stale s (swept s e).1 ≡ false
unfolding mark_ended
swept-fresh s e =
    if_split (λ (z : ℕ × Post). is_stale s z.1 ≡ false) (is_stale s e.1) (λ _. ended e.1)
      (λ fresh. fresh)
  where
    ended : (p : Post) → is_stale s (mark_ended p) ≡ false
    ended p = ground arith
