-- ===== src/Messages/Access.antt =====
-- Who may see a channel, a chat and a message: `loadChannelForUser`, `channelMemberIds` and
-- `loadMessageWithAccess` of src/routes/messages.js, the rooms that src/realtime.js joins a socket to,
-- and the scope of src/search.js. The last two run one query.
use nova_connect.Prelude.{
  ℕ, ◌≡◌, arith, inl, inr, Option-cases, Bool, false, not, ◌&&◌, Option, none, some, List, ◌++◌,
  map, keep, lookup, has, if◌then◌else◌, ◌==◌, nat_eq, pair_eq,
}
use nova_connect.Teams.State.{Role, Channel, Db, is_team_member, members_of}
use nova_connect.Messages.State.{Message, Seat, Store, Place, in_channel, in_chat}

-- `loadChannelForUser`
unfoldable pub load_channel_for_user : ℕ → ℕ → Db → Option Channel
load_channel_for_user c u s = elim (lookup c s.channels) [
  | none ↦ none
  | some ch ↦
      if not (is_team_member ch.team u s)
      then none
      else if ch.private && not (has (c, u) s.channel_members)
      then none
      else some ch
]

-- `channelMemberIds`
unfoldable pub channel_member_ids : ℕ → Channel → Db → List ℕ
channel_member_ids c ch s =
    if ch.private
    then map (λ (e : (ℕ × ℕ) × Role). e.0.1)
        (keep (λ (e : (ℕ × ℕ) × Role). e.0.0 == c) s.channel_members)
    else members_of ch.team s

unfoldable pub in_conversation : Option ℕ → ℕ → Store → Bool
in_conversation none u s = false
in_conversation (some d) u s = has (d, u) s.seats

-- `loadMessageWithAccess`
unfoldable pub load_message : ℕ → ℕ → Store → Option (Message × Place)
load_message id u s = elim (lookup id s.messages) [
  | none ↦ none
  | some m ↦ elim m.channel_id [
    | some c ↦ elim (load_channel_for_user c u s.teams) [
      | none ↦ none
      | some ch ↦ some (m, in_channel c)
    ]
    | none ↦ elim m.conversation_id [
      | none ↦ none
      | some d ↦ if has (d, u) s.seats then some (m, in_chat d) else none
    ]
  ]
]

-- A message that is loaded is the stored one.
pub load_message-lookup :
    (id u : ℕ) (s : Store) (x : Message × Place)
    → load_message id u s ≡ some x
    → lookup id s.messages ≡ some x.0
unfolding load_message
load_message-lookup id u s x l = elim (Option-cases (lookup id s.messages)) [
  | inl out ↦ ground (arith, l, out)
  | inr (n, at) ↦ elim (Option-cases n.channel_id) [
    | inl nc ↦ elim (Option-cases n.conversation_id) [
      | inl nd ↦ ground (arith, l, at, nc, nd)
      | inr (d, hd) ↦ ground (arith, l, at, nc, hd)
    ]
    | inr (c, hc) ↦ elim (Option-cases (load_channel_for_user c u s.teams)) [
      | inl out ↦ ground (arith, l, at, hc, out)
      | inr (ch, e) ↦ ground (arith, l, at, hc, e)
    ]
  ]
]

-- The query of `roomsForUser` and of `visibleScope`: the public channels of one's teams, and the
-- channels that one is in.
unfoldable pub channel_scope : ℕ → Db → List ℕ
channel_scope u s =
    map (λ (e : ℕ × Channel). e.0)
      (keep (λ (e : ℕ × Channel). is_team_member e.1.team u s && not e.1.private) s.channels)
    ++ map (λ (e : (ℕ × ℕ) × Role). e.0.0)
        (keep (λ (e : (ℕ × ℕ) × Role). e.0.1 == u) s.channel_members)

unfoldable pub chat_scope : ℕ → Store → List ℕ
chat_scope u s =
    map (λ (e : (ℕ × ℕ) × Seat). e.0.0) (keep (λ (e : (ℕ × ℕ) × Seat). e.0.1 == u) s.seats)
