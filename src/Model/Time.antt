-- ===== src/Model/Time.antt =====
-- Python's `datetime` as the program uses it: calendar fields, comparison, `timedelta`.
use tenantforge.Prelude.{
  ℕ, zero, suc, ◌+◌, ◌-◌, ◌*◌, ◌/◌, ◌%◌, ◌≤◌, ◌<◌, ◌≡◌, Bool, ◌&&◌, ◌||◌, not, ltb, leb, ◌==◌,
  if◌then◌else◌, arith,
}
use tenantforge.Model.Errors.{Result, ok, err, overflow_error, ◌>>=◌, first_returns}

-- Microseconds of a day.
abbrev pub day_micros : ℕ
day_micros = 86400000000

-- The fields of a `datetime` in UTC; `micros` holds hour, minute, second and microsecond.
pub record Datetime : Type 0 where
  pub year : ℕ
  pub month : ℕ
  pub day : ℕ
  pub micros : ℕ

-- A `datetime` value: naive, or aware, which is held by its instant in UTC.
pub data Timestamp : Type 0 where
  naive aware : Datetime → Timestamp

-- `calendar.isleap`.
unfoldable pub is_leap : ℕ → Bool
is_leap y = (y % 4 == 0) && (not (y % 100 == 0) || (y % 400 == 0))

-- `calendar.monthrange(year, month)[1]`.
unfoldable pub days_in_month : ℕ → ℕ → ℕ
unfolding is_leap
days_in_month y m =
    if (m == 4) || (m == 6) || (m == 9) || (m == 11)
    then 30
    else if m == 2
    then 28 + (if is_leap y then 1 else 0)
    else 31

-- `datetime` packs its fields into bytes, year first, and compares those.
abbrev pub stamp : Datetime → ℕ
stamp d = ((d.year * 16 + d.month) * 32 + d.day) * day_micros + d.micros

abbrev pub months : Datetime → ℕ
months d = d.year * 12 + d.month

-- The range of the fields.
pub record IsDatetime (d : Datetime) : Type 0 where
  pub year_low : 1 ≤ d.year
  pub year_high : d.year ≤ 9999
  pub month_low : 1 ≤ d.month
  pub month_high : d.month ≤ 12
  pub day_low : 1 ≤ d.day
  pub day_high : d.day ≤ days_in_month d.year d.month
  pub micros_high : d.micros < day_micros

pub days_in_month_bounds : (y m : ℕ) → (28 ≤ days_in_month y m) × (days_in_month y m ≤ 31)
unfolding days_in_month
days_in_month_bounds y m = ground arith

-- `d + timedelta(days=1)`: the next day, `OverflowError` past the year 9999.
unfoldable pub next_day : Datetime → Result Datetime
next_day d =
    if ltb d.day (days_in_month d.year d.month)
    then ok (record d { day = d.day + 1 })
    else if ltb d.month 12
    then ok (record d { month = d.month + 1; day = 1 })
    else if ltb d.year 9999
    then ok (record d { year = d.year + 1; month = 1; day = 1 })
    else err overflow_error

-- `d + timedelta(days=n)`.
unfoldable pub add_days : ℕ → Datetime → Result Datetime
unfolding next_day
add_days zero d = ok d
add_days (suc n) d = next_day d >>= λ t. add_days n t

-- `date.toordinal`: days since 31 December of the year 0.
days_before_month : ℕ → ℕ → ℕ
days_before_month y zero = 0
days_before_month y (suc zero) = 0
days_before_month y (suc (suc m)) = days_before_month y (suc m) + days_in_month y (suc m)

unfoldable pub ordinal : Datetime → ℕ
unfolding days_before_month
ordinal d =
    let y = d.year - 1 in
    y * 365 + y / 4 - y / 100 + y / 400 + days_before_month d.year d.month + d.day

-- Microseconds since 1 January of the year 1.
abbrev pub instant : Datetime → ℕ
instant d = ordinal d * day_micros + d.micros

-- `int((b - a).total_seconds())`, and 0 where `b` is earlier.
unfoldable pub seconds_between : Datetime → Datetime → ℕ
seconds_between a b = (instant b - instant a) / 1000000

-- A later day, and the same time of it.
next_day-stamp :
    (d t : Datetime) → IsDatetime d → next_day d ≡ ok t → IsDatetime t × (stamp d < stamp t)
unfolding next_day
next_day-stamp d t v h = ground (
  arith,
  days_in_month_bounds d.year d.month,
  days_in_month_bounds d.year (d.month + 1),
  days_in_month_bounds (d.year + 1) 1,
)

pub add_days-stamp :
    (n : ℕ) (d t : Datetime)
    → IsDatetime d
    → add_days n d ≡ ok t
    → IsDatetime t × (stamp d ≤ stamp t)
unfolding add_days
add_days-stamp zero d t v h = ground arith
add_days-stamp (suc n) d t v h =
    let (u, first, rest) = first_returns (next_day d) (λ t. add_days n t) h in
    let (w, lt) = next_day-stamp d u v first in
    let (w', le) = add_days-stamp n u t w rest in (w', omega arith)

-- The instant of a value in UTC: `astimezone(UTC)`, with a naive value read as UTC.
abbrev pub as_utc : Timestamp → Datetime
as_utc (naive d) = d
as_utc (aware d) = d

-- `_has_expired(expires_at, now)` of services/auth.py and services/invitations.py, where `now` is
-- an aware value in UTC, which is made naive to be compared with a naive one.
unfoldable pub has_expired : Timestamp → Datetime → Bool
has_expired (aware e) now = leb (stamp e) (stamp now)
has_expired (naive e) now = leb (stamp e) (stamp now)
