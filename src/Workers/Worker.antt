-- ===== src/Workers/Worker.antt =====
-- app/workers/worker.py. Metrics and logs are left out. What a handler does to the database is not
-- seen here: it returns, or it raises an exception of the named type.
pub mod Outcomes
pub mod Retries
pub mod Schedule
use tenantforge.Model.Json.{Fields, JsonCodec}
use tenantforge.Prelude.{
  ℤ, pos, negsuc, at_least, ℕ, ◌+◌, ◌-◌, min, Option, none, some, List, [], ◌∷◌, leb, if◌then◌else◌,
  length, get_elem?, Text, codes,
}
use tenantforge.Infrastructure.Queue.{
  Job, JobError, Parsed, parsed, failed, Redis, dequeue, acknowledge, retry, move_to_dead_letter,
  recover_in_flight,
}

abbrev pub Handler : Type 0
Handler = Fields → Option Text

abbrev pub Handlers : Type 0
Handlers = Text → Option Handler

pub record Config : Type 0 where
  pub max_attempts : ℕ
  pub retry_delays : List ℕ

-- `MAX_ATTEMPTS` and `RETRY_DELAYS` of queue.py.
abbrev pub default_config : Config
default_config = record { max_attempts = 3; retry_delays = 1 ∷ 2 ∷ 4 ∷ [] }

-- Redis and the delays that the worker has slept, the last one first.
pub record State : Type 0 where
  pub redis : Redis
  pub slept : List ℕ

-- How a poll ended: `False`, `True`, or an exception of `dequeue` or of the index of the delay.
pub data Polled : Type 0 where
  idle handled index_error : Polled
  unreadable_job : JobError → Polled

-- The type name of the exception that a handler raises; an unknown type is a `ValueError`.
abbrev pub attempted : Option Handler → Fields → Option Text
attempted none payload = some (codes "ValueError")
attempted (some h) payload = h payload

-- `retry_delays[min(attempt, len(retry_delays) - 1)]`, where a negative index counts from the end.
abbrev pub from_end : List ℕ → ℕ → Option ℕ
from_end delays k = if leb k (length delays) then get_elem? delays (length delays - k) else none

unfoldable pub delay_at : List ℕ → ℤ → Option ℕ
delay_at delays (pos a) = get_elem? delays (min a (length delays - 1))
delay_at delays (negsuc a) = from_end delays (a + 1)

-- `except Exception: ... await self.sleep(1)`
abbrev pub paused : Polled → State → State
paused (unreadable_job e) t = record t { slept = 1 ∷ t.slept }
paused index_error t = record t { slept = 1 ∷ t.slept }
paused idle t = t
paused handled t = t

module _ (codec : JsonCodec) (sha256 : Text → Text) (config : Config) where
  -- After the delay: `sleep`, then `retry`.
  abbrev pub delayed : Job → State → Option ℕ → Polled × State
  delayed j s none = (index_error, s)
  delayed j s (some delay) =
      (handled, record { redis = retry codec j s.redis; slept = delay ∷ s.slept })

  -- The `except` branch of a handler that raised.
  unfoldable pub handle_failure : Text → Text → Job → State → Polled × State
  handle_failure now error j s =
      if at_least j.attempt config.max_attempts
      then (handled, record s { redis = move_to_dead_letter codec now error j s.redis })
      else delayed j s (delay_at config.retry_delays j.attempt)

  unfoldable pub finish : Text → Job → State → Option Text → Polled × State
  finish now j s (some error) = handle_failure now error j s
  finish now j s none = (handled, record s { redis = acknowledge codec j s.redis })

  unfoldable pub run_job : Handlers → Text → State → Parsed (Option Job) → Polled × State
  run_job handlers now s (failed e) = (unreadable_job e, s)
  run_job handlers now s (parsed none) = (idle, s)
  run_job handlers now s (parsed (some j)) =
      finish now j s (attempted (handlers j.job_type) j.payload)

  unfoldable pub run_once : Handlers → Text → State → Polled × State
  run_once handlers now s =
      let (job, redis) = dequeue codec now sha256 s.redis in
      run_job handlers now (record s { redis = redis }) job

  -- `run_forever` for as many polls as there are entries in the list of handlers, which may
  -- answer differently at each poll; a poll that raises sleeps for a second.
  unfoldable pub poll : List Handlers → Text → State → State
  poll [] now s = s
  poll (h ∷ rest) now s = let (polled, s') = run_once h now s in poll rest now (paused polled s')

  unfoldable pub run_forever : List Handlers → Text → State → State
  run_forever hs now s =
      let (n, redis) = recover_in_flight (length s.redis.processing) s.redis in
      poll hs now (record s { redis = redis })
