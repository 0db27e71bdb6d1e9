-- ===== src/Messages/Headlines.antt =====
-- What an edit of src/routes/messages.js makes of the headline of a post.
use nova_connect.Prelude.{
  Result, ◌≡◌, refl, sym, ap, ◌∙◌, Bool, true, Option, none, some, arith, ok, nat_eq, string_eq,
  beq_refl,
}
use nova_connect.Messages.Announcement.{
  Theme, blue, purple, green, orange, red, slate, Announcement, Fields, Parsed, ordinary, wrong,
  announced, parse_announcement, Metadata, announcement_of,
}
use nova_connect.Messages.State.{Error, Message}
use nova_connect.Messages.Changing.{theme_beq, same_announcement, edited_metadata}

-- The headline that an edit asks for: the message's own, or the one that the request sends.
abbrev pub wanted : Option Fields → Message → Option Announcement
wanted none m = announcement_of m.metadata
wanted (some f) m = elim (parse_announcement f) [
  | ordinary ↦ none
  | wrong e ↦ none
  | announced a ↦ some a
]

theme_sound : (x y : Theme) → theme_beq x y ≡ true → x ≡ y
theme_sound blue blue h = refl
theme_sound blue purple h = cc
theme_sound blue green h = cc
theme_sound blue orange h = cc
theme_sound blue red h = cc
theme_sound blue slate h = cc
theme_sound purple blue h = cc
theme_sound purple purple h = refl
theme_sound purple green h = cc
theme_sound purple orange h = cc
theme_sound purple red h = cc
theme_sound purple slate h = cc
theme_sound green blue h = cc
theme_sound green purple h = cc
theme_sound green green h = refl
theme_sound green orange h = cc
theme_sound green red h = cc
theme_sound green slate h = cc
theme_sound orange blue h = cc
theme_sound orange purple h = cc
theme_sound orange green h = cc
theme_sound orange orange h = refl
theme_sound orange red h = cc
theme_sound orange slate h = cc
theme_sound red blue h = cc
theme_sound red purple h = cc
theme_sound red green h = cc
theme_sound red orange h = cc
theme_sound red red h = refl
theme_sound red slate h = cc
theme_sound slate blue h = cc
theme_sound slate purple h = cc
theme_sound slate green h = cc
theme_sound slate orange h = cc
theme_sound slate red h = cc
theme_sound slate slate h = refl

theme_same : (x : Theme) → theme_beq x x ≡ true
theme_same blue = refl
theme_same purple = refl
theme_same green = refl
theme_same orange = refl
theme_same red = refl
theme_same slate = refl

same_announcement_sound : (a b : Announcement) → same_announcement (some a) (some b) ≡ true → a ≡ b
same_announcement_sound a b h =
    let p : a.headline ≡ b.headline =
      (string_eq.beq_iff a.headline b.headline).0 (ground (arith, h)) in
    let q : a.subhead ≡ b.subhead = (string_eq.beq_iff a.subhead b.subhead).0 (ground (arith, h)) in
    let t : a.theme ≡ b.theme = theme_sound a.theme b.theme (ground (arith, h)) in
    ap (λ x. record a { headline = x }) p
    ∙ ap (λ x. record a { headline = b.headline; subhead = x }) q
    ∙ ap (λ x. record { headline = b.headline; subhead = b.subhead; theme = x }) t

same_announcement_refl : (a : Announcement) → same_announcement (some a) (some a) ≡ true
same_announcement_refl a =
    ground (arith, beq_refl a.headline, beq_refl a.subhead, theme_same a.theme)

-- What an accepted change of the metadata is, and when it is none.
pub edited_metadata-wanted :
    (m : Message) (fields : Option Fields) (changed : Option Metadata × Bool)
    → edited_metadata m fields ≡ ok changed
    → (announcement_of changed.0 ≡ wanted fields m)
      × (changed.1 ≡ true → wanted fields m ≡ announcement_of m.metadata)
      × (wanted fields m ≡ announcement_of m.metadata → changed.1 ≡ true)
unfolding edited_metadata
edited_metadata-wanted m none changed h =
    let is_it = ok_is h in
    (
      sym (ap (λ (z : Option Metadata × Bool). announcement_of z.0) is_it),
      λ _. refl,
      λ _. sym (ap (λ (z : Option Metadata × Bool). z.1) is_it),
    )
  where
    ok_is :
        {x : Option Metadata × Bool}
        → ◌≡◌ {A = Result Error (Option Metadata × Bool)} (ok x) (ok changed)
        → x ≡ changed
    ok_is q = cc (q)
edited_metadata-wanted m (some f) changed h = go m.metadata refl (parse_announcement f) refl
  where
    Goal : Type 0
    Goal =
        (announcement_of changed.0 ≡ wanted (some f) m)
        × (changed.1 ≡ true → wanted (some f) m ≡ announcement_of m.metadata)
        × (wanted (some f) m ≡ announcement_of m.metadata → changed.1 ≡ true)

    go : (o : Option Metadata) → m.metadata ≡ o → (p : Parsed) → parse_announcement f ≡ p → Goal
    go none e p q = ground (arith, e, h)
    go (some meta) e p q = inner meta.announcement refl p q
      where
        inner :
            (x : Option Announcement)
            → meta.announcement ≡ x
            → (p : Parsed) → parse_announcement f ≡ p
            → Goal
        inner none i p q = ground (arith, e, i, h)
        inner (some old) i ordinary q = ground (arith, e, i, q, h)
        inner (some old) i (wrong y) q = ground (arith, e, i, q, h)
        inner (some old) i (announced a) q =
            let is_it : changed ≡ (
              some (record meta { announcement = some a }),
              same_announcement (some a) (some old),
            ) =
              ground (arith, e, i, q, h) in
            let own : announcement_of m.metadata ≡ some old = ap announcement_of e ∙ i in
            let new : wanted (some f) m ≡ some a = ground (arith, q) in
            let flag : changed.1 ≡ same_announcement (some a) (some old) =
              ap (λ (z : Option Metadata × Bool). z.1) is_it in
            (
              ap (λ (z : Option Metadata × Bool). announcement_of z.0) is_it ∙ sym new,
              λ t. new ∙ ap some (same_announcement_sound a old (sym flag ∙ t)) ∙ sym own,
              λ t.
                  let equal : some a ≡ some old = sym new ∙ t ∙ own in
                  flag ∙ ap (same_announcement (some a)) (sym equal) ∙ same_announcement_refl a,
            )
