-- ===== src/Tests/Background.antt =====
-- The queue and its worker.
use tenantforge.Workers.Worker.Schedule.Refined.{Restarts, run_forever-Implements}
use tenantforge.Workers.Worker.Schedule.Drained.{run_forever-drains}
use tenantforge.Workers.Worker.Schedule.{Task, Board, turns, texts, Implements}
use tenantforge.Model.Json.{Json, Fields, JsonCodec}
use tenantforge.Infrastructure.Queue.Redaction.{is_clean, redact-is_clean}
use tenantforge.Infrastructure.Queue.Recovery.{rpop-one, recover_in_flight_all}
use tenantforge.Infrastructure.Queue.Encoding.{from_json-to_json}
use tenantforge.Prelude.{
  pos, ℕ, suc, ◌-◌, ◌≡◌, refl, true, Option, none, some, [], ◌∷◌, ◌++◌, arith, length, Text, codes,
  text_eq,
}
use tenantforge.Model.Json
use tenantforge.Infrastructure.Queue.{
  redact, from_json, Job, Redis, job_fields, to_json, parsed, recover_in_flight,
}
use tenantforge.Workers.Worker.{run_forever, attempted, run_once, poll, Handlers, Config, State}
use tenantforge.Workers.Worker.Retries.{GivenUp, at_attempt, times, with_job, poll_gives_up}
use tenantforge.Workers.Worker.Outcomes.{settled, run_once_settles}

abbrev reset_mail : Fields
reset_mail = Fields.field (codes "token") (Json.str (codes "secret")) Fields.end

abbrev mail : Job
mail = record {
  id = codes "1";
  job_type = codes "mail";
  payload = reset_mail;
  attempt = pos 0;
  created_at = codes "now";
}

-- A codec for the attempts of one job.
abbrev attempt_of : Option Json → Text
attempt_of (some (Json.int (pos n))) = n ∷ []
attempt_of _ = []

abbrev written_as : Json → Text
written_as (Json.obj entries) = attempt_of (Json.get (codes "attempt") entries)
written_as _ = []

abbrev read_as : Text → Option Json
read_as [] = none
read_as (n ∷ t) = some (Json.obj (job_fields (at_attempt mail n)))

abbrev codec : JsonCodec
codec = record {
  dumps = written_as;
  loads = read_as;
  str_of_other = λ v. [];
  int_of_text = λ t. none;
  truncate = λ t. pos 0;
}

reads_back :
    (k : ℕ)
    → codec.loads (to_json codec (at_attempt mail k))
      ≡ some (Json.obj (job_fields (at_attempt mail k)))
unfolding to_json job_fields Json.get text_eq
reads_back k = refl

abbrev no_handlers : Handlers
no_handlers t = none

abbrev config : Config
config = record { max_attempts = 3; retry_delays = 1 ∷ 2 ∷ 4 ∷ [] }

abbrev quiet : State
quiet = record {
  redis = record { queue = []; processing = codes "other" ∷ []; dead_letters = [] };
  slept = [];
}

from_json-to_json_example : from_json codec (to_json codec mail) ≡ parsed mail
from_json-to_json_example = from_json-to_json codec mail (reads_back 0)

abbrev waiting : State
waiting = with_job codec mail quiet

run_once_settles_example :
    run_once codec (λ t. t) config no_handlers [] waiting
    ≡ settled codec config mail []
        (attempted (no_handlers mail.job_type) mail.payload)
        (record waiting { redis = record (waiting.redis) { queue = [] } })
run_once_settles_example =
    run_once_settles codec (λ t. t) config no_handlers [] waiting mail []
      (rpop-one (to_json codec mail)) (reads_back 0)

poll_gives_up_example :
    GivenUp codec
      (λ t. t)
      config
      no_handlers
      []
      mail
      (codes "ValueError")
      (config.max_attempts - 0)
      quiet
      (poll codec
        (λ t. t)
        config
        (times (suc (config.max_attempts - 0)) no_handlers)
        []
        (with_job codec (at_attempt mail 0) quiet))
poll_gives_up_example =
    poll_gives_up codec (λ t. t) config no_handlers [] mail (codes "ValueError") 0 quiet
      (omega arith) (omega arith) refl reads_back

abbrev crashed : Redis
crashed = record {
  queue = codes "c" ∷ [];
  processing = codes "a" ∷ codes "b" ∷ [];
  dead_letters = [];
}

recover_in_flight_all_example : recover_in_flight (length crashed.processing) crashed ≡ (
  length crashed.processing,
  record {
    queue = crashed.processing ++ crashed.queue;
    processing = [];
    dead_letters = crashed.dead_letters;
  },
)
recover_in_flight_all_example = recover_in_flight_all crashed

redact-is_clean_example :
    (is_clean (redact (Json.obj reset_mail)) ≡ true)
    × (redact (redact (Json.obj reset_mail)) ≡ redact (Json.obj reset_mail))
redact-is_clean_example = redact-is_clean (Json.obj reset_mail)

abbrev mail_task : Task
mail_task = record { job = mail; tries = 2 }

abbrev one_task : Board
one_task = record { backlog = mail_task ∷ []; dead = [] }

-- The worker that claimed the job crashed.
abbrev interrupted : State
interrupted = record {
  redis = record {
    queue = [];
    processing = to_json codec (at_attempt mail 2) ∷ [];
    dead_letters = [];
  };
  slept = [];
}

interrupted-Restarts : Restarts codec (λ t. t) config [] one_task interrupted
unfolding texts
interrupted-Restarts = record { lists = refl; dead_letters = refl; readable = (reads_back, tt) }

run_forever-Implements_example :
    Implements codec
      (turns config [] (times 2 no_handlers) one_task)
      (run_forever codec (λ t. t) config (times 2 no_handlers) [] interrupted)
run_forever-Implements_example =
    run_forever-Implements codec (λ t. t) config [] (times 2 no_handlers) one_task interrupted
      (omega arith) interrupted-Restarts

run_forever-drains_example :
    ((run_forever codec (λ t. t) config (times 2 no_handlers) [] interrupted).redis.queue ≡ [])
    × ((run_forever codec (λ t. t) config (times 2 no_handlers) [] interrupted).redis.processing
        ≡ [])
run_forever-drains_example =
    run_forever-drains config codec (λ t. t) [] (times 2 no_handlers) one_task interrupted
      (omega arith) interrupted-Restarts (omega arith)
