-- ===== src/Infrastructure/RateLimit.antt =====
-- app/infrastructure/rate_limit.py: a fixed window counter in Redis. Times are whole microseconds
-- in place of floats, and the key `prefix:identifier:window` is the record of its parts.
pub mod Window
pub mod RetryAfter
use tenantforge.Prelude.{
  ℕ, ◌+◌, ◌-◌, ◌*◌, ◌/◌, max, Bool, ◌&&◌, ◌||◌, Option, none, some, List, [], ◌∷◌, ltb, leb, ◌==◌,
  if◌then◌else◌, scalar, update_where, delete_where, Text, text_eq,
}
use tenantforge.Model.Errors.{AppError, rate_limit_exceeded, retry_after}

abbrev pub second : ℕ
second = 1000000

pub record Counter : Type 0 where
  pub identifier : Text
  pub window : ℕ
  pub count : ℕ
  pub expires_at : ℕ

pub record RateLimitResult : Type 0 where
  pub allowed : Bool
  pub limit : ℕ
  pub remaining : ℕ
  pub retry_after : ℕ

abbrev pub counter_is : Text → ℕ → Counter → Bool
counter_is i window c = text_eq c.identifier i && (c.window == window)

abbrev pub expired : ℕ → Counter → Bool
expired now c = leb c.expires_at now

abbrev pub hits : Option Counter → ℕ
hits none = 0
hits (some c) = c.count

-- `INCR` on a key that lives, or on a new key, which is given its time to live.
unfoldable pub increment_window : Text → ℕ → ℕ → ℕ → List Counter → ℕ × List Counter
increment_window i window ttl now counters =
    let live = delete_where (expired now) counters in
    elim (scalar (counter_is i window) live) [
      | none ↦ (
        1,
        record { identifier = i; window = window; count = 1; expires_at = now + ttl * second }
            ∷ live,
      )
      | some c ↦ (
        c.count + 1,
        update_where (counter_is i window) (λ r. record r { count = r.count + 1 }) live,
      )
    ]

-- `math.floor(now / window_seconds)`
abbrev pub window_of : ℕ → ℕ → ℕ
window_of window_seconds now = now / (window_seconds * second)

-- `max(1, math.ceil((window + 1) * window_seconds - now))`
abbrev pub seconds_left : ℕ → ℕ → ℕ
seconds_left window_seconds now =
    max 1
      (((window_of window_seconds now + 1) * window_seconds * second - now + (second - 1)) / second)

-- `none` is the `ValueError` of a limit or a window that is not positive.
unfoldable pub check : Text → ℕ → ℕ → ℕ → List Counter → Option RateLimitResult × List Counter
check i limit window_seconds now counters =
    if ltb limit 1 || ltb window_seconds 1
    then (none, counters)
    else let (count, counters') =
        increment_window i (window_of window_seconds now) (window_seconds + 1) now counters in
      (
        some (record {
          allowed = leb count limit;
          limit = limit;
          remaining = limit - count;
          retry_after = seconds_left window_seconds now;
        }),
        counters',
      )

pub data Enforced : Type 0 where
  passed : RateLimitResult → Enforced
  refused : AppError → Enforced
  invalid : Enforced

abbrev pub enforced : Option RateLimitResult → Enforced
enforced none = invalid
enforced (some r) =
    if r.allowed
    then passed r
    else refused (record {
      status_code = 429;
      code = rate_limit_exceeded;
      headers = retry_after r.retry_after ∷ [];
    })

unfoldable pub enforce : Text → ℕ → ℕ → ℕ → List Counter → Enforced × List Counter
unfolding check
enforce i limit window_seconds now counters =
    let (result, counters') = check i limit window_seconds now counters in
    (enforced result, counters')
