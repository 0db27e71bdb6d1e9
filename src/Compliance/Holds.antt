-- ===== src/Compliance/Holds.antt =====
-- Which messages are on legal hold, and what that blocks: src/legalHold.js.
use nova_connect.Prelude.{
  ℕ, Bool, not, ◌&&◌, ◌||◌, Option, none, some, List, [], any, keep, find, map, ◌==◌, nat_eq,
}
use nova_connect.Compliance.Tables.{
  Message, person, channel, chat, Hold, Participant, Tables, is_id,
}

-- `EXISTS (SELECT 1 FROM dm_participants …)`
unfoldable pub participates : Option ℕ → ℕ → List Participant → Bool
participates conversation user ps =
    any (λ (p : Participant). is_id p.conversation_id conversation && p.user_id == user) ps

-- The condition of `heldSql` and of `holdsFor` for one hold.
unfoldable pub covers : Hold → Message → List Participant → Bool
covers h m ps = not h.released && (elim h.scope_type [
  | channel ↦ is_id h.scope_id m.channel_id
  | chat ↦ is_id h.scope_id m.conversation_id
  | person ↦ h.scope_id == m.user_id || participates m.conversation_id h.scope_id ps
])

-- `heldSql`
unfoldable pub held : Tables → Message → Bool
held t m = any (λ h. covers h m t.participants) t.holds

-- `holdsFor`
unfoldable pub holds_for : Tables → ℕ → List ℕ
holds_for t id = elim (find (λ (m : Message). m.id == id) t.messages) [
  | none ↦ []
  | some m ↦ map (λ (h : Hold). h.id) (keep (λ h. covers h m t.participants) t.holds)
]

-- `channelDeleteBlock`
unfoldable pub channel_blocked : ℕ → Tables → Bool
channel_blocked c t = any (λ (m : Message). is_id c m.channel_id && held t m) t.messages

-- `coveredCount`, the condition of its query.
unfoldable pub counted : Hold → Message → List Participant → Bool
counted h m ps = elim h.scope_type [
  | channel ↦ is_id h.scope_id m.channel_id
  | chat ↦ is_id h.scope_id m.conversation_id
  | person ↦ m.user_id == h.scope_id || participates m.conversation_id h.scope_id ps
]
