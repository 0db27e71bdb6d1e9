-- ===== src/Presence/Away.antt =====
-- When a person counts as idle, and what their calls make of their status.
use nova_connect.Prelude.{
  ℕ, ◌≡◌, ◌↔◌, refl, sym, ap, ◌∙◌, Bool, true, not, ◌&&◌, ◌||◌, Option, none, some, List, [], ◌∷◌,
  arith, lookup, any, every, if◌then◌else◌, ◌==◌, nat_eq, In, inl, inr, subst,
}
use nova_connect.Rooms.{RoomUser, RoomId}
use nova_connect.Presence.Rules.{Status, in_call, in_meeting, presenting}
use nova_connect.Presence.Devices.{
  Info, Registry, sockets_of, idle_socket, all_idle, Event, run, initial, is_meeting_room,
  activity_from, call_activity,
}
use nova_connect.Presence.DeviceLaws.{HasInfo, IsRegistered, run-IsRegistered, initial-IsRegistered}

every-In : (p : ℕ → Bool) (k : ℕ) (ks : List ℕ) → every p ks ≡ true → In k ks → p k ≡ true
every-In p k [] e i = absurd i
every-In p k (j ∷ ks) e (inl q) = ground (arith, e, ap p q)
every-In p k (j ∷ ks) e (inr i) = every-In p k ks (ground (arith, e)) i

In-every : (p : ℕ → Bool) (ks : List ℕ) → ((k : ℕ) → In k ks → p k ≡ true) → every p ks ≡ true
In-every p [] h = refl
In-every p (k ∷ ks) h = ground (arith, h k (inl refl), In-every p ks (λ j i. h j (inr i)))

-- Someone has a device open, and each of their devices is idle.
abbrev pub Idle : ℕ → Registry → Type 0
Idle u s =
    ((k : ℕ) × HasInfo k u s)
    × ((k : ℕ) (i : Info) → lookup k s.infos ≡ some i → i.user ≡ u → i.idle ≡ true)

module _ (u : ℕ) (s : Registry) (h : IsRegistered s) where
  all_idle-Idle : all_idle u s ≡ true → Idle u s
  unfolding all_idle idle_socket
  all_idle-Idle a = (
    first (sockets_of u s) refl,
    λ k i l e.
        let mine : lookup k s.connections ≡ some u = h.informed k i l ∙ ap some e in
        let idle =
          every-In (idle_socket s.infos) k (sockets_of u s) (ground (arith, a))
            (h.listed k u mine) in
        ground (arith, idle, l),
  )
    where
      first : (l : List ℕ) → sockets_of u s ≡ l → (k : ℕ) × HasInfo k u s
      first [] e = ground (arith, a, e)
      first (k ∷ ks) e = (k, h.known k u (h.counted k u (subst (In k) (sym e) (inl refl))))

  Idle-all_idle : Idle u s → all_idle u s ≡ true
  unfolding all_idle idle_socket
  Idle-all_idle ((k, (i, l, e)), each) =
      let all : every (idle_socket s.infos) (sockets_of u s) ≡ true =
        In-every (idle_socket s.infos) (sockets_of u s) (λ j at.
          let (i', l', e') = h.known j u (h.counted j u at) in
          ground (arith, each j i' l' e', l')) in
      go (sockets_of u s) refl (h.listed k u (h.informed k i l ∙ ap some e)) all
    where
      go :
          (ks : List ℕ)
          → sockets_of u s ≡ ks
          → In k (sockets_of u s)
          → every (idle_socket s.infos) (sockets_of u s) ≡ true
          → all_idle u s ≡ true
      go [] q at all = absurd (subst (In k) q at)
      go (j ∷ js) q at all = ground (arith, q, all)

-- After any sequence of connections, activity and disconnections from the start of the server, a
-- person counts as idle exactly when they have a device open and every device they have open is idle.
pub run-all_idle :
    (u : ℕ) (es : List Event) → (all_idle u (run es initial) ≡ true) ↔ Idle u (run es initial)
run-all_idle u es =
    let h = run-IsRegistered es initial initial-IsRegistered in
    (all_idle-Idle u (run es initial) h, Idle-all_idle u (run es initial) h)

module _ (is_channel : RoomId → Bool) (shares : RoomUser → Bool) (u : ℕ) where
  abbrev pub mine : RoomUser → Bool
  mine m = m.user_id == u && not m.in_lobby

  abbrev pub meets : RoomUser → Bool
  meets m = is_meeting_room m.room_id || is_channel m.room_id

  abbrev found_kind : Option Status → List RoomUser → Option Status
  found_kind kind ms =
      if any (λ m. mine m && shares m) ms
      then some presenting
      else if any (λ m. mine m && meets m) ms
      then some in_meeting
      else if any mine ms
      then some (elim kind [ none ↦ in_call | some k ↦ k ])
      else kind

  activity_from-found_kind :
      (kind : Option Status) (ms : List RoomUser)
      → activity_from is_channel shares u kind ms ≡ found_kind kind ms
  unfolding activity_from
  activity_from-found_kind kind [] = refl
  activity_from-found_kind kind (m ∷ ms) = ground (
    arith,
    activity_from-found_kind kind ms,
    activity_from-found_kind (some in_meeting) ms,
    activity_from-found_kind (some (elim kind [ none ↦ in_call | some k ↦ k ])) ms,
  )

  -- Whatever the order of a person's rooms, a shared screen in any of them shows as presenting, else a
  -- meeting or a channel's call as in a meeting, else any other call as in a call; rooms where the
  -- person waits in the lobby do not count.
  pub call_activity-priority :
      (ms : List RoomUser)
      → call_activity is_channel shares u ms ≡ (
          if any (λ m. mine m && shares m) ms
          then some presenting
          else if any (λ m. mine m && meets m) ms
          then some in_meeting
          else if any mine ms
          then some in_call
          else none)
  unfolding call_activity
  call_activity-priority ms = activity_from-found_kind none ms
