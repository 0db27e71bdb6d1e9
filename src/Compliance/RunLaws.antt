-- ===== src/Compliance/RunLaws.antt =====
-- A run of retention of src/retention.js against legal hold.
use nova_connect.Prelude.{
  ℕ, ◌≡◌, sym, ap, ◌∙◌, subst, Bool, true, Option, none, some, String, List, arith, In, In-keep,
  Option-cases, inl, inr, nat_eq,
}
use nova_connect.Compliance.Tables.{Tables}
use nova_connect.Compliance.Retention.{channels, chats, purge_scope}
use nova_connect.Compliance.Purging.{UniqueIds, HeldSafe, HeldSafe-refl, HeldSafe-trans}
use nova_connect.Compliance.PurgeSafety.{purge_scope-HeldSafe}
use nova_connect.Compliance.Runs.{
  Policy, cutoff_for, Line, person_held, kept_lines, Run, period, run_channels, run_chats,
  run_retention,
}

-- What is on hold is kept, and so are the lines of the meeting chats that a person on hold wrote.
pub record RunSafe (t : Tables) (lines : List Line) (r : Run) : Type 0 where
  pub held_safe : HeldSafe t r.tables
  pub lines_stay : (l : Line) → In l lines → person_held l.user_id r.tables ≡ true → In l r.lines

run_channels-RunSafe :
    (works : String → Bool) (limit : Option ℕ) (now fuel : ℕ) (t : Tables) (lines : List Line)
    (r : Run)
    → UniqueIds t.messages
    → run_channels works limit now fuel t lines ≡ some r
    → HeldSafe t r.tables × (r.lines ≡ lines)
unfolding run_channels
run_channels-RunSafe works none now fuel t lines r q e =
    (subst (HeldSafe t) (ground (arith, e)) (HeldSafe-refl t q), ground (arith, e))
run_channels-RunSafe works (some n) now fuel t lines r q e =
    elim (Option-cases (purge_scope works channels (cutoff_for n now) fuel t)) [
      | inl absent ↦ ground (arith, absent, e)
      | inr ((u, c), found) ↦ (
        subst (HeldSafe t) (ground (arith, found, e))
            (purge_scope-HeldSafe works channels (cutoff_for n now) fuel c t u q found),
        ground (arith, found, e),
      )
    ]

kept_lines-In :
    (cutoff : ℕ) (t : Tables) (lines : List Line) (l : Line)
    → In l lines
    → person_held l.user_id t ≡ true
    → In l (kept_lines cutoff t lines)
unfolding kept_lines
kept_lines-In cutoff t lines l i h = In-keep _ l lines i (ground (arith, h))

run_chats-RunSafe :
    (works : String → Bool) (limit : Option ℕ) (now fuel : ℕ) (s r : Run)
    → UniqueIds s.tables.messages
    → run_chats works limit now fuel s ≡ some r
    → HeldSafe s.tables r.tables
      × ((l : Line) → In l s.lines → person_held l.user_id r.tables ≡ true → In l r.lines)
unfolding run_chats
run_chats-RunSafe works none now fuel s r q e =
    let same : s ≡ r = ground (arith, e) in
    (
      subst (λ (x : Run). HeldSafe s.tables x.tables) same (HeldSafe-refl s.tables q),
      λ l i h. subst (λ (x : Run). In l x.lines) same i,
    )
run_chats-RunSafe works (some n) now fuel s r q e =
    elim (Option-cases (purge_scope works chats (cutoff_for n now) fuel s.tables)) [
      | inl absent ↦ ground (arith, absent, e)
      | inr ((u, c), found) ↦
          let tables_eq : u ≡ r.tables = ground (arith, found, e) in
          let lines_eq : kept_lines (cutoff_for n now) u s.lines ≡ r.lines =
            ground (arith, found, e) in
          (
            subst (HeldSafe s.tables) tables_eq
                (purge_scope-HeldSafe works chats (cutoff_for n now) fuel c s.tables u q found),
            λ l i h. subst (In l) lines_eq (
                kept_lines-In (cutoff_for n now) u s.lines l i
                  (ap (person_held l.user_id) tables_eq ∙ h)),
          )
    ]

-- A run with any policy keeps every message on legal hold as it was, and the meeting-chat lines of
-- every person on hold, given that no two messages have one id.
pub run_retention-RunSafe :
    (works : String → Bool) (policy : Policy) (now fuel : ℕ) (t : Tables) (lines : List Line)
    (r : Run)
    → UniqueIds t.messages
    → run_retention works policy now fuel t lines ≡ some r
    → RunSafe t lines r
unfolding run_retention
run_retention-RunSafe works policy now fuel t lines r q e =
    elim (Option-cases (run_channels works (period policy.channel_days) now fuel t lines)) [
      | inl absent ↦ ground (arith, absent, e)
      | inr (s, found) ↦
          let (first, same) =
            run_channels-RunSafe works (period policy.channel_days) now fuel t lines s q found in
          let (second, stay) =
            run_chats-RunSafe works (period policy.chat_days) now fuel s r first.unique
              (ground (arith, found, e)) in
          record {
            held_safe = HeldSafe-trans t s.tables r.tables first second;
            lines_stay = λ l i h. stay l (subst (In l) (sym same) i) h;
          }
    ]
