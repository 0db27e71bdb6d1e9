-- ===== src/Calls/DurationLaws.antt =====
-- What the lengths that src/callPosts.js shows say of the time that they stand for.
use nova_connect.Prelude.{ℕ, ◌+◌, ◌*◌, ◌/◌, ◌≤◌, ◌<◌, ◌≡◌, arith, ltb, if_split}
use nova_connect.Calls.Duration.{Duration, secs, mins, hours, whole_seconds, format_duration}

-- The text's parts are in range, and stand for `s` seconds: exactly below an hour, and to the
-- minute from there on.
abbrev pub Shows : ℕ → Duration → Type 0
Shows s (secs a) = (1 ≤ a) × (a < 60) × (a ≡ s)
Shows s (mins m a) = (1 ≤ m) × (m < 60) × (a < 60) × (m * 60 + a ≡ s)
Shows s (hours h m) = (1 ≤ h) × (m < 60) × ((h * 60 + m) * 60 ≤ s) × (s < (h * 60 + m + 1) * 60)

-- Any length is shown within its units' ranges, and is that of the time rounded to whole seconds
-- (at least one): exact below an hour, to the minute above.
pub format_duration-Shows : (ms : ℕ) → Shows (whole_seconds ms) (format_duration ms)
unfolding format_duration
format_duration-Shows ms =
    if_split (Shows s) (ltb s 60) (λ h. ground arith)
      λ h. if_split (Shows s) (ltb (s / 60) 60) (λ k. ground arith) (λ k. ground arith)
  where
    s : ℕ
    s = whole_seconds ms
