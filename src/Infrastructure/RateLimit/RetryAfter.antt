-- ===== src/Infrastructure/RateLimit/RetryAfter.antt =====
-- The `Retry-After` of app/infrastructure/rate_limit.py.
use native.Mathlib.Nat.{mul_assoc, div-mul-le_self, lt-div-mul-add}
use tenantforge.Prelude.{◌-◌, ℕ, ◌+◌, ◌*◌, ◌≤◌, ◌<◌, ◌≡◌, arith}
use tenantforge.Infrastructure.RateLimit.{seconds_left, window_of, second}
use tenantforge.Infrastructure.RateLimit.Window.{window_end}

window_bounds :
    (window_seconds now : ℕ)
    → 1 ≤ window_seconds
    → (now < window_end window_seconds (window_of window_seconds now))
      × (window_end window_seconds (window_of window_seconds now) ≤ now + window_seconds * second)
window_bounds window_seconds now positive =
    let begun = div-mul-le_self now (window_seconds * second) in
    let ends = lt-div-mul-add {a = now} {b = window_seconds * second} (omega arith) in
    (ground arith, ground arith)

-- `Retry-After` is at least one second and at most the length of a window, and after it the window
-- of the request is over; a second earlier it is not over.
pub seconds_left_bounds :
    (window_seconds now : ℕ)
    → 1 ≤ window_seconds
    → (1 ≤ seconds_left window_seconds now)
      × (seconds_left window_seconds now ≤ window_seconds)
      × (window_end window_seconds (window_of window_seconds now)
          ≤ now + seconds_left window_seconds now * second)
      × (now + (seconds_left window_seconds now - 1) * second
          < window_end window_seconds (window_of window_seconds now))
seconds_left_bounds window_seconds now positive =
    let b = window_bounds window_seconds now positive in
    let same : (window_of window_seconds now + 1) * window_seconds * second
        ≡ window_end window_seconds (window_of window_seconds now) =
      mul_assoc _ _ _ in
    rw same (ground (arith, b))
