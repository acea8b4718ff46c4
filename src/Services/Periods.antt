-- ===== src/Services/Periods.antt =====
-- The billing periods of app/services/usage.py: `_as_utc`, `add_month`, `calendar_period` and
-- `subscription_period`, with its `while` loop.
pub mod Coverage
use tenantforge.Prelude.{
  ℕ, zero, suc, ◌+◌, ◌-◌, Option, none, some, leb, ltb, ◌==◌, if◌then◌else◌, min,
}
use tenantforge.Model.Errors.{Result, ok, err, value_error, ◌>>=◌}
use tenantforge.Model.Time.{Datetime, as_utc, stamp, months, days_in_month}
use tenantforge.Model.Tables.{Subscription}

-- The next month, with the day clipped to its length.
abbrev pub month_after : Datetime → Datetime
month_after d =
    let year = d.year + (if d.month == 12 then 1 else 0) in
    let month = if d.month == 12 then 1 else d.month + 1 in
    record {
      year = year;
      month = month;
      day = min d.day (days_in_month year month);
      micros = d.micros;
    }

-- `value.replace(...)` refuses the year 10000.
unfoldable pub add_month : Datetime → Result Datetime
add_month d = if leb (month_after d).year 9999 then ok (month_after d) else err value_error

-- `current.replace(day=1, hour=0, minute=0, second=0, microsecond=0)`
abbrev pub month_start : Datetime → Datetime
month_start d = record d { day = 1; micros = 0 }

unfoldable pub calendar_period : Datetime → Result (Datetime × Datetime)
calendar_period current = add_month (month_start current) >>= λ end. ok (month_start current, end)

-- `while current >= end: start = end; end = add_month(end)`
unfoldable pub roll_forward : ℕ → Datetime → Datetime → Datetime → Result (Datetime × Datetime)
roll_forward zero start end current = ok (start, end)
roll_forward (suc fuel) start end current =
    let rest = add_month end >>= λ next. roll_forward fuel end next current in
    if leb (stamp end) (stamp current) then rest else ok (start, end)

-- One round for each month from the end of the stored period to the present.
abbrev pub rounds : Datetime → Datetime → ℕ
rounds end current = suc (suc (months current - months end))

unfoldable pub period_of : Datetime → Datetime → Datetime → Result (Datetime × Datetime)
period_of start end current =
    if leb (stamp end) (stamp start)
    then calendar_period current
    else if ltb (stamp current) (stamp start)
    then ok (start, end)
    else roll_forward (rounds end current) start end current

unfoldable pub subscription_period : Option Subscription → Datetime → Result (Datetime × Datetime)
subscription_period none current = calendar_period current
subscription_period (some s) current =
    period_of (as_utc s.current_period_start) (as_utc s.current_period_end) current
