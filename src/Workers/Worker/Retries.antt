-- ===== src/Workers/Worker/Retries.antt =====
-- The bounded retries of app/workers/worker.py.
use tenantforge.Infrastructure.Queue.Recovery.{rpop-one}
use tenantforge.Model.Json.{Json, JsonCodec}
use tenantforge.Infrastructure.Queue.{
  next_attempt, Job, redact_fields, job_fields, to_json, exhausted,
}
use tenantforge.Prelude.{
  subst, ◌-◌, ◌≤◌, ◌<◌, refl, true, false, arith, leb, pos, ℕ, zero, suc, ◌+◌, min, ◌≡◌, some, List,
  [], ◌∷◌, length, get_elem?, Text,
}
use tenantforge.Workers.Worker.{
  Handlers, Config, State, handled, attempted, delay_at, poll, run_once,
}
use tenantforge.Workers.Worker.Outcomes.{run_once_settles}

-- The same job at another attempt.
abbrev pub at_attempt : Job → ℕ → Job
at_attempt j k = record j { attempt = pos k }

abbrev pub times : ℕ → Handlers → List Handlers
times zero h = []
times (suc n) h = h ∷ times n h

-- The queue of one job, and what else the state holds.
abbrev pub with_job : JsonCodec → Job → State → State
with_job codec j s = record s { redis = record (s.redis) { queue = to_json codec j ∷ [] } }

abbrev pub without_job : State → State
without_job s = record s { redis = record (s.redis) { queue = [] } }

get_elem?-below : (xs : List ℕ) (i : ℕ) → i < length xs → (x : ℕ) × (get_elem? xs i ≡ some x)
get_elem?-below [] i h = absurd (omega arith)
get_elem?-below (x ∷ xs) zero h = (x, refl)
get_elem?-below (x ∷ xs) (suc i) h = get_elem?-below xs i (omega arith)

-- There is a delay for each attempt.
pub delay_at-some :
    (delays : List ℕ) (a : ℕ) → 1 ≤ length delays → (x : ℕ) × (delay_at delays (pos a) ≡ some x)
unfolding delay_at
delay_at-some delays a h = get_elem?-below delays (min a (length delays - 1)) (omega arith)

module _ (codec : JsonCodec) (sha256 : Text → Text) (config : Config) (handlers : Handlers)
    (now : Text) (j : Job) (error : Text) where
  -- How the lists end when the handler of the job always raises.
  pub record GivenUp (left : ℕ) (s s' : State) : Type 0 where
    pub no_job : s'.redis.queue ≡ []
    pub processing : s'.redis.processing ≡ s.redis.processing
    pub dead_letter :
        s'.redis.dead_letters
        ≡ exhausted
            (job_fields
              (record j { attempt = pos config.max_attempts; payload = redact_fields j.payload }))
            now
            error
          ∷ s.redis.dead_letters
    pub delays : length s'.slept ≡ left + length s.slept

  -- The job before its last attempt, and at it.
  once_more :
      (a : ℕ) (s : State)
      → a < config.max_attempts
      → 1 ≤ length config.retry_delays
      → attempted (handlers j.job_type) j.payload ≡ some error
      → codec.loads (to_json codec (at_attempt j a)) ≡ some (Json.obj (job_fields (at_attempt j a)))
      → (delay : ℕ) × (run_once codec sha256 config handlers now (with_job codec (at_attempt j a) s)
          ≡ (handled, with_job codec (at_attempt j (a + 1)) (record s { slept = delay ∷ s.slept })))
  unfolding next_attempt
  once_more a s more delays fails reads =
      let (delay, e) = delay_at-some config.retry_delays a delays in
      let step =
        run_once_settles codec sha256 config handlers now (with_job codec (at_attempt j a) s)
          (at_attempt j a) [] (rpop-one (to_json codec (at_attempt j a))) reads in
      let not_last : leb config.max_attempts a ≡ false = ground arith in
      (delay, rw (step, fails, not_last, e) refl)

  last_time :
      (s : State)
      → attempted (handlers j.job_type) j.payload ≡ some error
      → codec.loads (to_json codec (at_attempt j config.max_attempts))
        ≡ some (Json.obj (job_fields (at_attempt j config.max_attempts)))
      → GivenUp 0 s (
          poll codec sha256 config
            (handlers ∷ [])
            now
            (with_job codec (at_attempt j config.max_attempts) s))
  unfolding poll
  last_time s fails reads =
      let a = config.max_attempts in
      let step =
        run_once_settles codec sha256 config handlers now (with_job codec (at_attempt j a) s)
          (at_attempt j a) [] (rpop-one (to_json codec (at_attempt j a))) reads in
      let last : leb config.max_attempts a ≡ true = ground arith in
      rw (step, fails, last)
        (record { no_job = refl; processing = refl; dead_letter = refl; delays = omega arith })

  poll-handled :
      (hs : List Handlers) (s s' : State)
      → run_once codec sha256 config handlers now s ≡ (handled, s')
      → poll codec sha256 config (handlers ∷ hs) now s ≡ poll codec sha256 config hs now s'
  unfolding poll
  poll-handled hs s s' e = rw e refl

  given_up :
      (n a : ℕ) (s : State)
      → a + n ≡ config.max_attempts
      → 1 ≤ length config.retry_delays
      → attempted (handlers j.job_type) j.payload ≡ some error
      → ((k : ℕ)
          → codec.loads (to_json codec (at_attempt j k))
            ≡ some (Json.obj (job_fields (at_attempt j k))))
      → GivenUp n s (
          poll codec sha256 config (times (suc n) handlers) now (with_job codec (at_attempt j a) s))
  given_up zero a s e delays fails reads =
      let same : config.max_attempts ≡ a = omega arith in
      subst
        (λ x.
          GivenUp 0 s
            (poll codec sha256 config (handlers ∷ []) now (with_job codec (at_attempt j x) s)))
        same (last_time s fails (reads config.max_attempts))
  given_up (suc n) a s e delays fails reads =
      let (delay, step) = once_more a s (omega arith) delays fails (reads a) in
      let rest =
        given_up n (a + 1) (record s { slept = delay ∷ s.slept }) (omega arith) delays fails
          reads in
      rw (poll-handled (times (suc n) handlers) _ _ step) (record {
        no_job = rest.no_job;
        processing = rest.processing;
        dead_letter = rest.dead_letter;
        delays = omega (arith, rest.delays);
      })

  -- A job at attempt `a`, alone in the queue, whose handler raises at every call, or which has no
  -- handler: where `json.loads` reads back each text that the job is queued as, and there is a
  -- delay, it is a redacted dead letter after `max_attempts - a + 1` polls. The queue is empty
  -- then, no entry of it is left in the processing list, and the worker slept once before each
  -- retry.
  pub poll_gives_up :
      (a : ℕ) (s : State)
      → a ≤ config.max_attempts
      → 1 ≤ length config.retry_delays
      → attempted (handlers j.job_type) j.payload ≡ some error
      → ((k : ℕ)
          → codec.loads (to_json codec (at_attempt j k))
            ≡ some (Json.obj (job_fields (at_attempt j k))))
      → GivenUp (config.max_attempts - a) s (
          poll codec sha256 config
            (times (suc (config.max_attempts - a)) handlers)
            now
            (with_job codec (at_attempt j a) s))
  poll_gives_up a s low = given_up (config.max_attempts - a) a s (omega arith)
