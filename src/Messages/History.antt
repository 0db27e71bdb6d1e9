-- ===== src/Messages/History.antt =====
-- The versions of a message that "(edited)" shows: `editVersions` of src/editHistory.js, and what an
-- edit does to them.
use nova_connect.Prelude.{
  ℕ, ◌≡◌, refl, sym, ap, ◌∙◌, Bool, true, false, not, ◌&&◌, Option, none, some, ◌⊎◌, inl, inr,
  String, List, [], ◌∷◌, ◌++◌, map, keep, arith, lookup, if◌then◌else◌, ok, ◌==◌, nat_eq, string_eq,
  subst, lookup-insert, beq_refl, guard_split, found_split, chain_split, if_split,
}
use mathlib.Core.List.{reverse, reverse-append, map-append}
use nova_connect.Messages.Announcement.{Announcement, Fields, Metadata, announcement_of}
use nova_connect.Messages.State.{
  Message, Edit, Store, Place, Effect, no_message, not_yours, empty_message,
}
use nova_connect.Messages.Access.{load_message, load_message-lookup}
use nova_connect.Messages.Posting.{is_some, Answer}
use nova_connect.Messages.Changing.{edited_metadata, replace_text, edit}
use nova_connect.Messages.Headlines.{wanted, edited_metadata-wanted}

pub record Version : Type 0 where
  pub body : String
  pub announcement : Option Announcement
  pub written_at : Option ℕ
  pub current : Bool
  pub original : Bool

-- The versions, oldest first: `written` is when the first of them was written, and `first` says
-- whether it is the first of all. `untracked` is the column `edits_untracked`.
unfoldable pub versions_from : Bool → Bool → ℕ → List Edit → Message → List Version
versions_from untracked first written [] m =
    record {
      body = m.body;
      announcement = announcement_of m.metadata;
      written_at = if first && untracked then none else some written;
      current = true;
      original = first && not untracked;
    }
    ∷ []
versions_from untracked first written (e ∷ es) m =
    record {
      body = e.body;
      announcement = announcement_of e.metadata;
      written_at = if first && untracked then none else some written;
      current = false;
      original = first && not untracked;
    }
    ∷ versions_from untracked false e.replaced_at es m

-- `editVersions`
unfoldable pub edit_versions : Bool → Message → List Edit → List Version
edit_versions untracked m es = reverse (versions_from untracked true m.created_at es m)

-- The rows that GET /api/messages/:id/history reads.
unfoldable pub edits_of : ℕ → Store → List Edit
edits_of id s = keep (λ (e : Edit). e.message_id == id) s.edits

-- A version that is no longer the current one.
abbrev pub retire : Version → Version
retire v = record v { current = false }

keep-last :
    (id : ℕ) (es : List Edit) (e : Edit)
    → (e.message_id == id) ≡ true
    → keep (λ (x : Edit). x.message_id == id) (es ++ e ∷ [])
      ≡ keep (λ (x : Edit). x.message_id == id) es ++ e ∷ []
keep-last id [] e h = ground (arith, h)
keep-last id (x ∷ es) e h = ground (arith, keep-last id es e h)

module _ (untracked : Bool) (m n : Message) (e : Edit) where
  abbrev newest : Version
  newest = record {
    body = n.body;
    announcement = announcement_of n.metadata;
    written_at = some e.replaced_at;
    current = true;
    original = false;
  }

  versions_from-last :
      (first : Bool) (written : ℕ) (es : List Edit)
      → e.body ≡ m.body
      → e.metadata ≡ m.metadata
      → versions_from untracked first written (es ++ e ∷ []) n
        ≡ map retire (versions_from untracked first written es m) ++ newest ∷ []
  unfolding versions_from
  versions_from-last first written [] b d = ground (arith, b, d, ap announcement_of d)
  versions_from-last first written (x ∷ es) b d =
      ap
        (λ vs.
          record {
            body = x.body;
            announcement = announcement_of x.metadata;
            written_at = if first && untracked then none else some written;
            current = false;
            original = first && not untracked;
          }
          ∷ vs)
        (versions_from-last false x.replaced_at es b d)

reverse-map : (f : Version → Version) (vs : List Version) → reverse (map f vs) ≡ map f (reverse vs)
reverse-map f [] = refl
reverse-map f (v ∷ vs) =
    reverse-append (f v ∷ []) (map f vs)
    ∙ ap (λ l. l ++ f v ∷ []) (reverse-map f vs)
    ∙ sym (map-append f (reverse vs) (v ∷ []))
    ∙ ap (map f) (sym (reverse-append (v ∷ []) vs))

-- A version on top of earlier ones, with the text `body` and the headline `ann`, written at `now`.
abbrev pub OnTop : String → Option Announcement → ℕ → List Version → List Version → Type 0
OnTop body ann now old vs =
    (v : Version) × (vs ≡ v ∷ map retire old)
    × (v.body ≡ body)
    × (v.announcement ≡ ann)
    × (v.written_at ≡ some now)
    × (v.current ≡ true)
    × (v.original ≡ false)

module _ (untracked : Bool) (id : ℕ) (s : Store) (m : Message) (body : String) (now : ℕ) where
  replace_text-OnTop :
      (metadata : Option Metadata)
      → OnTop body (announcement_of metadata) now (edit_versions untracked m (edits_of id s)) (
          edit_versions untracked
            (record m { body = body; metadata = metadata; edited = true })
            (edits_of id (replace_text id m body metadata now s)))
  unfolding edit_versions edits_of replace_text
  replace_text-OnTop metadata =
      let n : Message = record m { body = body; metadata = metadata; edited = true } in
      let e : Edit = record {
        message_id = id;
        body = m.body;
        metadata = m.metadata;
        replaced_at = now;
      } in
      let es = keep (λ (x : Edit). x.message_id == id) s.edits in
      let old = versions_from untracked true m.created_at es m in
      (
        newest untracked m n e,
        ap (λ l. reverse (versions_from untracked true m.created_at l n))
              (keep-last id s.edits e (beq_refl id))
            ∙ ap reverse (versions_from-last untracked m n e true m.created_at es refl refl)
            ∙ reverse-append (map retire old) (newest untracked m n e ∷ [])
            ∙ ap (λ l. newest untracked m n e ∷ l) (reverse-map retire old),
        refl,
        refl,
        refl,
        refl,
        refl,
      )

-- The words of an edit are those that the message has.
abbrev pub SameWords : String → Option Fields → Message → Type 0
SameWords body fields m = (body ≡ m.body) × (wanted fields m ≡ announcement_of m.metadata)

-- What an accepted edit has done: nothing for the same words, and for others a new version on top.
abbrev pub Edited : Bool → ℕ → String → Option Fields → ℕ → Message → Store → Store → Type 0
Edited untracked id body fields now m s t =
    (SameWords body fields m × (t ≡ s))
    ⊎ (¬ SameWords body fields m
        × ((n : Message) × (lookup id t.messages ≡ some n)
            × (n.body ≡ body)
            × (announcement_of n.metadata ≡ wanted fields m)
            × OnTop body (wanted fields m) now (edit_versions untracked m (edits_of id s))
                (edit_versions untracked n (edits_of id t))))

loaded_message :
    (id me : ℕ) (s : Store) (m : Message) (x : Message × Place)
    → lookup id s.messages ≡ some m
    → load_message id me s ≡ some x
    → x.0 ≡ m
loaded_message id me s m x there l =
    let both : some x.0 ≡ some m = sym (load_message-lookup id me s x l) ∙ there in cc (both)

-- An edit that is accepted changes nothing if the text and the headline are the same. Otherwise the
-- message has the text and the headline of the edit, and the history has one version more, on top: the
-- current one, with that text and that headline, not the original, and written at the time of the edit;
-- every earlier version keeps its place, its words and its time.
pub edit-Edited :
    (untracked : Bool) (id : ℕ) (body : String) (fields : Option Fields) (now me : ℕ) (m : Message)
    (s t : Store) (effects : List Effect)
    → lookup id s.messages ≡ some m
    → edit id body fields now me s ≡ ok (t, effects)
    → Edited untracked id body fields now m s t
unfolding edit
edit-Edited untracked id body fields now me m s t effects there =
    found_split Accepted (load_message id me s) no_message _ (λ h. cc)
      (λ x l.
        let e = loaded_message id me s m x there l in
        guard_split Accepted (x.0.user_id == me) not_yours _ (λ h. cc)
          (λ _.
            chain_split Accepted (edited_metadata x.0 fields) _ (λ _ _ h. cc)
              (λ changed made.
                let (said, same_said, kept_same) = change x m e changed made in
                guard_split Accepted
                  (not (body == "" && not (is_some (announcement_of x.0.metadata)))) empty_message _
                  (λ h. cc)
                  (λ _.
                    if_split (λ z. Accepted (ok z)) (body == x.0.body && changed.1)
                      (λ same h. inl (
                        (
                          (string_eq.beq_iff body m.body).0
                              (ground (arith, same, ap (λ (z : Message). z.body) e)),
                          same_said (ground (arith, same)),
                        ),
                        ground (arith, h),
                      ))
                      (λ other h.
                        let is_t : t ≡ replace_text id x.0 body changed.0 now s =
                          ground (arith, h) in
                        let after : (λ (z : Message). replace_text id z body changed.0 now s) x.0
                            ≡ replace_text id m body changed.0 now s =
                          ap (λ (z : Message). replace_text id z body changed.0 now s) e in
                        subst (Edited untracked id body fields now m s) (sym (is_t ∙ after)) (
                          inr (
                            λ (one_body, one_headline). ground (
                              arith,
                              other,
                              (string_eq.beq_iff body x.0.body).1
                                  (one_body ∙ sym (ap (λ (z : Message). z.body) e)),
                              kept_same one_headline,
                            ),
                            (
                              record m { body = body; metadata = changed.0; edited = true },
                              replaced_there changed.0,
                              refl,
                              said,
                              subst
                                  (λ a.
                                    OnTop body a now (edit_versions untracked m (edits_of id s)) (
                                      edit_versions untracked
                                        (record m {
                                          body = body;
                                          metadata = changed.0;
                                          edited = true;
                                        })
                                        (edits_of id (replace_text id m body changed.0 now s))))
                                  said (replace_text-OnTop untracked id s m body now changed.0),
                            ),
                          )))))))
  where
    Accepted : Answer → Type 0
    Accepted a = a ≡ ok (t, effects) → Edited untracked id body fields now m s t

    replaced_there :
        (metadata : Option Metadata)
        → lookup id (replace_text id m body metadata now s).messages
          ≡ some (record m { body = body; metadata = metadata; edited = true })
    replaced_there metadata =
        unfold replace_text in
        ground (
          arith,
          lookup-insert id id (record m { body = body; metadata = metadata; edited = true })
              s.messages,
        )

    change :
        (x : Message × Place) (n : Message)
        → x.0 ≡ n
        → (changed : Option Metadata × Bool) → edited_metadata x.0 fields ≡ ok changed
        → (announcement_of changed.0 ≡ wanted fields n)
          × (changed.1 ≡ true → wanted fields n ≡ announcement_of n.metadata)
          × (wanted fields n ≡ announcement_of n.metadata → changed.1 ≡ true)
    change x n e changed made =
        edited_metadata-wanted n fields changed
          (subst (λ z. edited_metadata z fields ≡ ok changed) e made)
