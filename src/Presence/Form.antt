-- ===== src/Presence/Form.antt =====
-- `parseOutOfOffice` of src/presenceRules.js. `clean` is what is left of the message after `trim` with
-- its length; a time is none, an instant in milliseconds, or not a date.
use nova_connect.Prelude.{
  ℕ, ◌+◌, ◌/◌, ◌≡◌, ◌≤◌, max, refl, Bool, true, false, not, ◌&&◌, Option, none, some, String, arith,
  ltb, leb, if◌then◌else◌, Result, ok, err, ◌>>=◌, ◌>>◌, guard, ◌==◌, nat_eq, string_eq,
}
use nova_connect.Presence.Rules.{Row, is_out_of_office}

pub data Instant : Type 0 where
  missing : Instant
  at : ℕ → Instant
  invalid : Instant

pub data FormError : Type 0 where
  choose_enabled : FormError
  message_too_long : FormError
  invalid_times : FormError
  end_before_start : FormError
  end_in_past : FormError

pub record Form : Type 0 where
  pub enabled : Option Bool
  pub message : String
  pub message_length : ℕ
  pub start_at : Instant
  pub end_at : Instant

abbrev pub ooo_message_max : ℕ
ooo_message_max = 500

-- `time(v)`: `none` for `undefined`, which stands for a value that is no date.
unfoldable pub time_of : Instant → Option (Option ℕ)
time_of missing = some none
time_of (at ms) = some (some ms)
time_of invalid = none

-- `toDbTime`
unfoldable pub to_db_time : ℕ → ℕ
to_db_time ms = ms / 1000

abbrev pub db_time : Option ℕ → Option ℕ
db_time none = none
db_time (some ms) = some (to_db_time ms)

-- `start !== null && end !== null && end <= start`
abbrev pub not_after : Option ℕ → Option ℕ → Bool
not_after (some start) (some end) = leb end start
not_after _ _ = false

abbrev pub is_past : Option ℕ → ℕ → Bool
is_past none now = false
is_past (some end) now = leb end now

abbrev pub both : Option (Option ℕ) → Option (Option ℕ) → Result FormError (Option ℕ × Option ℕ)
both (some s) (some e) = ok (s, e)
both _ _ = err invalid_times

unfoldable pub parse_out_of_office : Form → ℕ → Result FormError Row
parse_out_of_office b now_ms = elim b.enabled [
  | none ↦ err choose_enabled
  | some enabled ↦ do
    guard (not (ltb ooo_message_max b.message_length)) message_too_long
    times ← both (time_of b.start_at) (time_of b.end_at)
    guard (not (not_after times.0 times.1)) end_before_start
    guard (not (enabled && is_past times.1 now_ms)) end_in_past
    ok (record {
      ooo_enabled = enabled;
      ooo_message = if b.message == "" then none else some b.message;
      ooo_start_at = db_time times.0;
      ooo_end_at = db_time times.1;
      status_message = none;
      status_message_expires_at = none;
    })
]

-- The first moment at which an accepted form can hold, in the database's seconds.
abbrev pub start_of : Instant → ℕ
start_of (at ms) = to_db_time ms
start_of _ = 0

unfoldable pub first_moment : Form → ℕ → ℕ
first_moment b now_ms = max (start_of b.start_at) (to_db_time now_ms)

-- An end is at least a second after the start and after now.
abbrev pub LastsASecond : Form → ℕ → Type 0
LastsASecond b now_ms =
    ((s e : ℕ) → b.start_at ≡ at s → b.end_at ≡ at e → s + 1000 ≤ e)
    × ((e : ℕ) → b.end_at ≡ at e → now_ms + 1000 ≤ e)

-- A form that is accepted and turned on puts the person out of office from its start on, or from now
-- on if it has begun, as long as its end is a second or more after both.
pub accepted-InForce :
    (b : Form) (now_ms : ℕ) (row : Row)
    → parse_out_of_office b now_ms ≡ ok row
    → row.ooo_enabled ≡ true
    → LastsASecond b now_ms
    → is_out_of_office row (first_moment b now_ms) ≡ true
unfolding parse_out_of_office is_out_of_office first_moment time_of to_db_time
accepted-InForce b now_ms row h on lasts = go b.start_at b.end_at refl refl
  where
    go :
        (s e : Instant)
        → b.start_at ≡ s
        → b.end_at ≡ e
        → is_out_of_office row (first_moment b now_ms) ≡ true
    go missing missing p q = ground (arith, h, on, p, q)
    go missing (at e) p q = ground (arith, h, on, p, q, lasts.1 e q)
    go (at s) missing p q = ground (arith, h, on, p, q)
    go (at s) (at e) p q = ground (arith, h, on, p, q, lasts.1 e q, lasts.0 s e p q)
    go invalid e p q = ground (arith, h, p)
    go s invalid p q = ground (arith, h, q)

-- An end in the second of the start, though later, is accepted, and then the person is never out of
-- office.
pub same_second-never :
    (b : Form) (s e t now_ms : ℕ) (row : Row)
    → b.start_at ≡ at s
    → b.end_at ≡ at e
    → to_db_time s ≡ to_db_time e
    → parse_out_of_office b now_ms ≡ ok row
    → is_out_of_office row t ≡ false
unfolding parse_out_of_office is_out_of_office time_of
same_second-never b s e t now_ms row p q same h = ground (arith, h, p, q, same)
