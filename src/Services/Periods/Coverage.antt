-- ===== src/Services/Periods/Coverage.antt =====
-- The billing period that app/services/usage.py computes: the `while` loop ends, and the period
-- contains the present.
use tenantforge.Model.Tables.{Subscription}
use tenantforge.Model.Time.{
  as_utc, Datetime, days_in_month, stamp, months, IsDatetime, days_in_month_bounds,
}
use tenantforge.Model.Errors.{Result, ok}
use tenantforge.Prelude.{
  false, Option, none, some, ltb, ℕ, zero, suc, refl, inl, inr, leb, Bool-cases, ◌+◌, ◌≤◌, ◌<◌, min,
  ◌≡◌, arith,
}
use tenantforge.Services.Periods.{
  rounds, month_after, period_of, subscription_period, month_start, calendar_period, roll_forward,
  add_month,
}

-- The result of a period is a pair, and the present is in it.
pub record Covered (r : Result (Datetime × Datetime)) (current : Datetime) : Type 0 where
  pub start : Datetime
  pub end : Datetime
  pub returned : r ≡ ok (start, end)
  pub begun : stamp start ≤ stamp current
  pub open_end : stamp current < stamp end

-- The next month, with the day clipped to its length.
pub record NextMonth (d t : Datetime) : Type 0 where
  pub valid : IsDatetime t
  pub later : stamp d < stamp t
  pub next : months t ≡ months d + 1
  pub clipped : t.day ≡ min d.day (days_in_month t.year t.month)
  pub same_time : t.micros ≡ d.micros

pub add_month-ok : (d t : Datetime) → IsDatetime d → add_month d ≡ ok t → NextMonth d t
unfolding add_month
add_month-ok d t v h = record {
  valid = ground (arith, days_in_month_bounds t.year t.month);
  later = ground (arith, days_in_month_bounds d.year d.month, days_in_month_bounds t.year t.month);
  next = ground arith;
  clipped = ground arith;
  same_time = ground arith;
}

add_month-succeeds : (d : Datetime) → d.year ≤ 9998 → (t : Datetime) × (add_month d ≡ ok t)
unfolding add_month
add_month-succeeds d low = (month_after d, ground arith)

-- Of two valid dates, the one in the later month is later.
months-stamp :
    (a b : Datetime) → IsDatetime a → IsDatetime b → months a < months b → stamp a < stamp b
months-stamp a b va vb h =
    ground (arith, days_in_month_bounds a.year a.month, days_in_month_bounds b.year b.month)

month_start-IsDatetime : (d : Datetime) → IsDatetime d → IsDatetime (month_start d)
month_start-IsDatetime d v = record {
  year_low = v.year_low;
  year_high = v.year_high;
  month_low = v.month_low;
  month_high = v.month_high;
  day_low = omega arith;
  day_high = omega (arith, days_in_month_bounds d.year d.month);
  micros_high = omega arith;
}

-- The month of a date contains it.
pub calendar_period-covers :
    (d : Datetime) → IsDatetime d → d.year ≤ 9998 → Covered (calendar_period d) d
unfolding calendar_period
calendar_period-covers d v low =
    let (t, e) = add_month-succeeds (month_start d) low in
    let next = add_month-ok (month_start d) t (month_start-IsDatetime d v) e in
    let vt = next.valid in
    let later = months-stamp d t v vt (omega (arith, next.next)) in
    record {
      start = month_start d;
      end = t;
      returned = rw e refl;
      begun = omega (arith, v.day_low);
      open_end = later;
    }

-- The loop, with enough rounds for the months that are left.
roll_forward-covers :
    (n : ℕ) (start end d : Datetime)
    → IsDatetime end
    → IsDatetime d
    → d.year ≤ 9998
    → stamp start ≤ stamp d
    → months d < months end + n
    → Covered (roll_forward n start end d) d
unfolding roll_forward
roll_forward-covers zero start end d ve v low begun enough = record {
  start = start;
  end = end;
  returned = refl;
  begun = begun;
  open_end = months-stamp d end v ve (omega arith);
}
roll_forward-covers (suc n) start end d ve v low begun enough =
    elim (Bool-cases (leb (stamp end) (stamp d))) [
      | inl over ↦
          let (t, e) = add_month-succeeds end (
            ground (
              arith,
              days_in_month_bounds end.year end.month,
              days_in_month_bounds d.year d.month,
            )) in
          let next = add_month-ok end t ve e in
          let rest =
            roll_forward-covers n end t d next.valid v low (ground arith)
              (omega (arith, next.next)) in
          rw (over, e) rest
      | inr within ↦ rw within (record {
        start = start;
        end = end;
        returned = refl;
        begun = begun;
        open_end = ground arith;
      })
    ]

-- What is known of a stored subscription: its dates are dates, and unless it is empty its period
-- has begun.
pub record Started (s : Subscription) (d : Datetime) : Type 0 where
  pub end_valid : IsDatetime (as_utc s.current_period_end)
  pub has_begun :
      stamp (as_utc s.current_period_start) < stamp (as_utc s.current_period_end)
      → stamp (as_utc s.current_period_start) ≤ stamp d

abbrev pub StartedBy : Option Subscription → Datetime → Type 0
StartedBy none d = Unit {0}
StartedBy (some s) d = Started s d

period_of-covers :
    (start end d : Datetime)
    → IsDatetime end
    → IsDatetime d
    → d.year ≤ 9998
    → (stamp start < stamp end → stamp start ≤ stamp d)
    → Covered (period_of start end d) d
unfolding period_of
period_of-covers start end d ve v low begun = elim (Bool-cases (leb (stamp end) (stamp start))) [
  | inl empty ↦ rw empty (calendar_period-covers d v low)
  | inr proper ↦
      let le = begun (ground arith) in
      let early : ltb (stamp d) (stamp start) ≡ false = ground arith in
      rw (proper, early) (roll_forward-covers (rounds end d) start end d ve v low le (omega arith))
]

-- For a valid present before the year 9999, with no subscription or with one whose stored period
-- ends at a valid date and has begun (or is empty), `subscription_period` ends its loop without an
-- error, and the period it returns contains the present.
pub subscription_period-covers :
    (found : Option Subscription) (d : Datetime)
    → IsDatetime d
    → d.year ≤ 9998
    → StartedBy found d
    → Covered (subscription_period found d) d
unfolding subscription_period
subscription_period-covers none d v low started = calendar_period-covers d v low
subscription_period-covers (some s) d v low started =
    period_of-covers (as_utc s.current_period_start) (as_utc s.current_period_end) d
      started.end_valid v low started.has_begun
