-- ===== src/Presence/Devices.antt =====
-- Who is connected, with which devices, and whether in a call: `onlineSockets`, `socketInfo`,
-- `allIdle`, `devicesOf` and `callActivity` of src/realtime.js.
use nova_connect.Prelude.{
  ℕ, ◌≡◌, ◌↔◌, Bool, true, false, not, ◌&&◌, ◌||◌, Option, none, some, List, [], ◌∷◌, ◌++◌, Map,
  arith, lookup, insert, erase, keep, any, every, if◌then◌else◌, Eq, ◌==◌, nat_eq,
}
use nova_connect.Rooms.{RoomUser, RoomId, gcall, meet, breakout, other}
use nova_connect.Presence.Rules.{Status, in_call, in_meeting, presenting}

-- What `deviceOf` makes of the header 'user-agent'.
pub data Device : Type 0 where
  web : Device
  desktop : Device
  iphone : Device
  mobile : Device

abbrev pub device_beq : Device → Device → Bool
device_beq web web = true
device_beq desktop desktop = true
device_beq iphone iphone = true
device_beq mobile mobile = true
device_beq _ _ = false

pub device_beq_iff : (a b : Device) → (device_beq a b ≡ true) ↔ (a ≡ b)
device_beq_iff web b = ground arith
device_beq_iff desktop b = ground arith
device_beq_iff iphone b = ground arith
device_beq_iff mobile b = ground arith

instance abbrev pub device_eq : Eq Device
device_eq = record { beq = device_beq; beq_iff = device_beq_iff }

pub record Info : Type 0 where
  pub user : ℕ
  pub device : Device
  pub idle : Bool

-- `connections` says whose each open socket is, as the closure of its listeners does; `touched` are
-- the people whose status is to be computed again shortly (`presenceTimers`).
pub record Registry : Type 0 where
  pub online : Map ℕ (List ℕ)
  pub infos : Map ℕ Info
  pub connections : Map ℕ ℕ
  pub touched : List ℕ

-- `onlineSockets.get(userId) || []`
unfoldable pub sockets_of : ℕ → Registry → List ℕ
sockets_of u s = elim (lookup u s.online) [ none ↦ [] | some ids ↦ ids ]

abbrev pub is_empty : List ℕ → Bool
is_empty [] = true
is_empty (x ∷ xs) = false

-- `isOnline`
unfoldable pub is_online : ℕ → Registry → Bool
is_online u s = not (is_empty (sockets_of u s))

-- `socketInfo.get(id)?.idle`
unfoldable pub idle_socket : Map ℕ Info → ℕ → Bool
idle_socket infos k = elim (lookup k infos) [ none ↦ false | some i ↦ i.idle ]

unfoldable pub all_idle : ℕ → Registry → Bool
all_idle u s = not (is_empty (sockets_of u s)) && every (idle_socket s.infos) (sockets_of u s)

-- The loop of `devicesOf`.
unfoldable pub devices_from : Map ℕ Info → List ℕ → Map Device Bool → Map Device Bool
devices_from infos [] seen = seen
devices_from infos (k ∷ ks) seen = devices_from infos ks (elim (lookup k infos) [
  | none ↦ seen
  | some i ↦
      insert i.device ((elim (lookup i.device seen) [ none ↦ false | some b ↦ b ]) || not i.idle)
        seen
])

unfoldable pub devices_of : ℕ → Registry → Map Device Bool
devices_of u s = devices_from s.infos (sockets_of u s) []

-- `touchPresence`: the timer of a person starts again.
unfoldable pub touch : ℕ → Registry → Registry
touch u s = record s {
  touched = if any (λ v. v == u) s.touched then s.touched else s.touched ++ u ∷ [];
}

-- A new connection, up to its first wait.
unfoldable pub connect : ℕ → ℕ → Device → Registry → Registry
connect k u device s =
    let added = record s {
      online = insert u (sockets_of u s ++ k ∷ []) s.online;
      infos = insert k (record { user = u; device = device; idle = false }) s.infos;
      connections = insert k u s.connections;
    } in
    if is_online u s then touch u added else added

abbrev pub same_bool : Bool → Bool → Bool
same_bool true b = b
same_bool false b = not b

-- 'presence:activity'
unfoldable pub activity : ℕ → ℕ → Bool → Registry → Registry
activity k u idle s = elim (lookup k s.infos) [
  | none ↦ s
  | some i ↦
      if same_bool i.idle idle
      then s
      else touch u (record s { infos = insert k (record i { idle = idle }) s.infos })
]

-- 'disconnect', the part on these maps; whether nobody is left says `is_online` afterwards.
unfoldable pub disconnect : ℕ → ℕ → Registry → Registry
disconnect k u s =
    let gone = record s { infos = erase k s.infos; connections = erase k s.connections } in
    elim (lookup u s.online) [
      | none ↦ gone
      | some ids ↦
          let left = keep (λ j. not (j == k)) ids in
          let after = record gone { online = insert u left s.online } in
          if is_empty left then after else touch u after
    ]

pub data Event : Type 0 where
  connected : ℕ → ℕ → Device → Event
  turned : ℕ → Bool → Event
  disconnected : ℕ → Event
  refreshed : ℕ → Event

-- A socket's id is new; the other events come from an open socket, or from a person's timer.
unfoldable pub step : Event → Registry → Registry
step (connected k u device) s = elim (lookup k s.connections) [
  | none ↦ connect k u device s
  | some _ ↦ s
]
step (turned k idle) s = elim (lookup k s.connections) [ none ↦ s | some u ↦ activity k u idle s ]
step (disconnected k) s = elim (lookup k s.connections) [ none ↦ s | some u ↦ disconnect k u s ]
step (refreshed u) s = record s { touched = keep (λ v. not (v == u)) s.touched }

unfoldable pub run : List Event → Registry → Registry
run [] s = s
run (e ∷ es) s = run es (step e s)

unfoldable pub initial : Registry
initial = record { online = []; infos = []; connections = []; touched = [] }

-- `m.roomId.startsWith('meet:')`; another text is no room that the code makes.
abbrev pub is_meeting_room : RoomId → Bool
is_meeting_room (gcall n) = false
is_meeting_room (meet c) = true
is_meeting_room (breakout c n) = true
is_meeting_room (other c) = false

-- The loop of `callActivity`, with what `scopeForRoom` and the SFU say of a room's entry.
unfoldable pub activity_from :
    (RoomId → Bool) → (RoomUser → Bool) → ℕ → Option Status → List RoomUser → Option Status
activity_from is_channel shares u kind [] = kind
activity_from is_channel shares u kind (m ∷ ms) =
    let skip = activity_from is_channel shares u kind ms in
    let next =
      activity_from is_channel shares u
        (if is_meeting_room m.room_id || is_channel m.room_id
          then some in_meeting
          else some (elim kind [ none ↦ in_call | some k ↦ k ]))
        ms in
    if not (m.user_id == u) || m.in_lobby then skip else if shares m then some presenting else next

unfoldable pub call_activity :
    (RoomId → Bool) → (RoomUser → Bool) → ℕ → List RoomUser → Option Status
call_activity is_channel shares u ms = activity_from is_channel shares u none ms
