-- ===== src/Workers/Worker/Schedule.antt =====
-- What the queue and the worker promise: a line of tasks, served in turn. The lists of texts, the
-- claims and the sleeps of app/infrastructure/queue.py and app/workers/worker.py implement it.
pub mod Refined
pub mod Drained
use tenantforge.Workers.Worker.Retries.{at_attempt}
use tenantforge.Model.Json.{Json, JsonCodec}
use tenantforge.Infrastructure.Queue.{
  Job, redact_fields, job_fields, DeadLetter, to_json, exhausted,
}
use tenantforge.Workers.Worker.{Handlers, attempted, Config, State}
use tenantforge.Prelude.{
  pos, ℕ, ◌+◌, ◌≡◌, Option, none, some, List, [], ◌∷◌, ◌++◌, All, Text, leb, if◌then◌else◌, length,
}

-- A job and the number of its attempt.
pub record Task : Type 0 where
  pub job : Job
  pub tries : ℕ

abbrev pub current_job : Task → Job
current_job t = at_attempt t.job t.tries

-- The tasks that wait, the next one first, and the dead letters.
pub record Board : Type 0 where
  pub backlog : List Task
  pub dead : List DeadLetter

abbrev pub letter : ℕ → Text → Text → Task → DeadLetter
letter tries now error t =
    exhausted
      (job_fields (record (t.job) { attempt = pos tries; payload = redact_fields t.job.payload }))
      now error

module _ (config : Config) (now : Text) where
  -- A task that was tried: it is done, a dead letter, or the last of the line again.
  abbrev pub tried : Option Text → Task → List Task → List DeadLetter → Board
  tried none t rest dead = record { backlog = rest; dead = dead }
  tried (some error) t rest dead =
      if leb config.max_attempts t.tries
      then record { backlog = rest; dead = letter t.tries now error t ∷ dead }
      else record { backlog = rest ++ (record t { tries = t.tries + 1 } ∷ []); dead = dead }

  -- The next task is tried, if there is one.
  abbrev pub next_turn : Handlers → List Task → List DeadLetter → Board
  next_turn h [] dead = record { backlog = []; dead = dead }
  next_turn h (t ∷ rest) dead = tried (attempted (h t.job.job_type) t.job.payload) t rest dead

  unfoldable pub turns : List Handlers → Board → Board
  turns [] b = b
  turns (h ∷ hs) b = turns hs (next_turn h b.backlog b.dead)

module _ (codec : JsonCodec) where
  -- The queue holds the texts of the tasks, the next one at its right end.
  unfoldable pub texts : List Task → List Text
  texts [] = []
  texts (t ∷ ts) = texts ts ++ (to_json codec (current_job t) ∷ [])

  -- `json.loads` reads the job back at every attempt.
  abbrev pub IsReadable : Task → Type 0
  IsReadable t =
      (k : ℕ)
      → codec.loads (to_json codec (at_attempt t.job k))
        ≡ some (Json.obj (job_fields (at_attempt t.job k)))

  pub record Implements (b : Board) (s : State) : Type 0 where
    pub queue : s.redis.queue ≡ texts b.backlog
    pub processing : s.redis.processing ≡ []
    pub dead_letters : s.redis.dead_letters ≡ b.dead
    pub readable : All IsReadable b.backlog
