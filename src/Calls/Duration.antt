-- ===== src/Calls/Duration.antt =====
-- formatDuration of src/callPosts.js. The text is kept as its parts: `secs 45` is "45s",
-- `mins 5 12` is "5m 12s" and `hours 1 5` is "1h 5m".
use nova_connect.Prelude.{ℕ, ◌+◌, ◌/◌, ◌%◌, max, ltb, if◌then◌else◌}

pub data Duration : Type 0 where
  secs : ℕ → Duration
  mins : ℕ → ℕ → Duration
  hours : ℕ → ℕ → Duration

-- `Math.max(1, Math.round(ms / 1000))`
abbrev pub whole_seconds : ℕ → ℕ
whole_seconds ms = max 1 ((ms + 500) / 1000)

unfoldable pub format_duration : ℕ → Duration
format_duration ms =
    let s = whole_seconds ms in
    let m = s / 60 in
    if ltb s 60 then secs s else if ltb m 60 then mins m (s % 60) else hours (m / 60) (m % 60)
