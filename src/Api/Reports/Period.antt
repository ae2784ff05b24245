-- ===== src/Api/Reports/Period.antt =====
-- The period of a consumption report in terms of days.
use tasker_rfid.Prelude.{ℕ, ◌+◌, ◌≤◌, ◌<◌, ◌≡◌, ◌↔◌, true, false, Option, arith}
use tasker_rfid.Prelude.Results.{ok}
use tasker_rfid.Api.Reports.{within, Clock, first_day, or_else, both_none, period}

-- A later date begins no earlier.
abbrev pub IsMonotone : (ℕ → ℕ) → Type 0
IsMonotone f = (a b : ℕ) → a ≤ b → f a ≤ f b

-- If dates are asked for and the request is answered, then a time on the day `d` is in the period
-- exactly if `d` is not before the first date nor after the last: both ends are included.
pub period-includes :
    (clock : Clock) (days : ℕ) (from_date to_date : Option ℕ) (between : ℕ × ℕ) (d at : ℕ)
    → IsMonotone clock.midnight
    → both_none from_date to_date ≡ false
    → period clock days from_date to_date ≡ ok between
    → clock.midnight d ≤ at
    → at < clock.midnight (d + 1)
    → (within between at ≡ true)
      ↔ ((or_else first_day from_date ≤ d) × (d ≤ or_else clock.today to_date))
unfolding period
period-includes clock days from_date to_date between d at mono given answered begun open_still =
    let start = or_else first_day from_date in
    let end = or_else clock.today to_date in
    ground (arith, mono start d, mono (d + 1) start, mono (end + 1) d, mono (d + 1) (end + 1))
