-- ===== src/Capacity/Period.antt =====
-- packages/api/src/capacity/capacity.service.ts: how many seconds of a period are left.
-- A date is a number of milliseconds. What the code takes from date-fns, date-fns-tz and the local
-- time zone is a parameter.
use open_vm_x_ai.Common.{
  ℕ, ◌+◌, ◌-◌, ◌*◌, ◌/◌, ◌<◌, ◌≤◌, ◌≡◌, refl, Option, none, some, String, str_eq, leb,
  if◌then◌else◌, arith,
}
use open_vm_x_ai.Common.Int.{ℤ, pos, negsuc}
use open_vm_x_ai.Capacity.{CapacityPeriod, minute, hour, day, week, month, lifetime, period_name}

-- `get_seconds` and `get_minutes` are the methods of `Date`. The other fields are the dates that the
-- code computes with the libraries: the zoned `now`, the first moment of the day after it, and the
-- last moments of its week and of the month of the current time.
pub record Calendar : Type 0 where
  pub get_seconds : ℕ → ℕ
  pub get_minutes : ℕ → ℕ
  pub zoned : ℕ → ℕ
  pub start_of_next_day : ℕ → ℕ
  pub end_of_week : ℕ → ℕ
  pub end_of_month : ℕ
  pub zoned_current_time : ℕ
  pub seconds_lt : (now : ℕ) → get_seconds now < 60
  pub minutes_lt : (now : ℕ) → get_minutes now < 60

-- `Math.floor((end - begin) / 1000)`: rounded down, below zero too.
unfoldable pub floor_seconds : ℕ → ℕ → ℤ
floor_seconds end begin =
    if leb begin end then pos ((end - begin) / 1000) else negsuc ((begin - end - 1) / 1000)

module _ (cal : Calendar) where
  open cal use {
    get_seconds, get_minutes, zoned, start_of_next_day, end_of_week, end_of_month,
    zoned_current_time, seconds_lt, minutes_lt,
  }

  unfoldable pub get_remaining_seconds_by_minute : ℕ → ℕ
  get_remaining_seconds_by_minute now = 60 - get_seconds now

  unfoldable pub get_remaining_seconds_by_hour : ℕ → ℕ
  get_remaining_seconds_by_hour now = 3600 - (get_minutes now * 60 + get_seconds now)

  unfoldable pub get_remaining_seconds_by_day : ℕ → ℤ
  get_remaining_seconds_by_day now = floor_seconds (start_of_next_day now) (zoned now)

  unfoldable pub get_remaining_seconds_of_week : ℕ → ℤ
  get_remaining_seconds_of_week now = floor_seconds (end_of_week now) (zoned now)

  -- The month is that of the current time, whatever `now` is.
  unfoldable pub get_remaining_seconds_of_month : ℤ
  get_remaining_seconds_of_month = floor_seconds end_of_month zoned_current_time

  -- `capacityPeriodMap[period](timestamp)`, for a name of the enum.
  unfoldable pub remaining_seconds : String → ℕ → Option ℤ
  unfolding get_remaining_seconds_by_minute get_remaining_seconds_by_hour
      get_remaining_seconds_by_day get_remaining_seconds_of_week get_remaining_seconds_of_month
  remaining_seconds period now =
      if str_eq period "minute"
      then some (pos (get_remaining_seconds_by_minute now))
      else if str_eq period "hour"
      then some (pos (get_remaining_seconds_by_hour now))
      else if str_eq period "day"
      then some (get_remaining_seconds_by_day now)
      else if str_eq period "week"
      then some (get_remaining_seconds_of_week now)
      else if str_eq period "month"
      then some get_remaining_seconds_of_month
      else if str_eq period "lifetime"
      then some (negsuc 0)
      else none

  -- Every period of the enum has its function.
  pub remaining_seconds-total :
      (p : CapacityPeriod) (now : ℕ) → (z : ℤ) × (remaining_seconds (period_name p) now ≡ some z)
  unfolding remaining_seconds period_name
  remaining_seconds-total minute now = (_, refl)
  remaining_seconds-total hour now = (_, refl)
  remaining_seconds-total day now = (_, refl)
  remaining_seconds-total week now = (_, refl)
  remaining_seconds-total month now = (_, refl)
  remaining_seconds-total lifetime now = (_, refl)

  -- Within a minute between 1 and 60 seconds are left, within an hour between 1 and 3600, and the
  -- two agree: an hour has the rest of its minute left and the whole minutes after it.
  pub remaining_seconds_agree :
      (now : ℕ)
      → (1 ≤ get_remaining_seconds_by_minute now)
        × (get_remaining_seconds_by_minute now ≤ 60)
        × (1 ≤ get_remaining_seconds_by_hour now)
        × (get_remaining_seconds_by_hour now ≤ 3600)
        × (get_remaining_seconds_by_hour now
            ≡ get_remaining_seconds_by_minute now + (59 - get_minutes now) * 60)
  unfolding get_remaining_seconds_by_minute get_remaining_seconds_by_hour
  remaining_seconds_agree now = omega (arith, seconds_lt now, minutes_lt now)
