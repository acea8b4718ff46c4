-- ===== src/Workers/Worker/Schedule/Drained.antt =====
-- The polls of app/workers/worker.py until its line is empty.
use tenantforge.Workers.Worker.{Config, State}
use tenantforge.Workers.Worker.Schedule.Refined.{Restarts, run_forever-Implements}
use tenantforge.Workers.Worker.Schedule.{Task, Board, tried, turns, texts}
use tenantforge.Workers.Worker.{Handlers, attempted, run_forever}
use tenantforge.Model.Json.{JsonCodec}
use tenantforge.Infrastructure.Queue.{DeadLetter}
use tenantforge.Prelude.{
  ℕ, ◌+◌, ◌-◌, ◌≤◌, ◌<◌, ◌≡◌, refl, ap, ◌∙◌, inl, inr, Option, none, some, List, [], ◌∷◌, ◌++◌,
  arith, length, Text, leb, Bool-cases,
}

module _ (config : Config) where
  -- The turns that a task may still take.
  abbrev pub turns_left : Task → ℕ
  turns_left t = (config.max_attempts - t.tries) + 1

  abbrev pub all_turns : List Task → ℕ
  all_turns [] = 0
  all_turns (t ∷ ts) = turns_left t + all_turns ts

  all_turns-append :
      (ts : List Task) (t : Task) → all_turns (ts ++ (t ∷ [])) ≡ all_turns ts + turns_left t
  all_turns-append [] t = omega arith
  all_turns-append (x ∷ ts) t = omega (arith, all_turns-append ts t)

  module _ (now : Text) where
    tried-shrinks :
        (answer : Option Text) (t : Task) (rest : List Task) (dead : List DeadLetter)
        → all_turns (tried config now answer t rest dead).backlog + 1
          ≤ turns_left t + all_turns rest
    tried-shrinks none t rest dead = omega arith
    tried-shrinks (some error) t rest dead = elim (Bool-cases (leb config.max_attempts t.tries)) [
      | inl last ↦ rw last (omega arith)
      | inr more ↦
          let again = all_turns-append rest (record t { tries = t.tries + 1 }) in
          let below : t.tries < config.max_attempts = ground arith in
          rw more (omega (arith, again, below))
    ]

    turns-drained :
        (hs : List Handlers) (ts : List Task) (dead : List DeadLetter)
        → all_turns ts ≤ length hs
        → (turns config now hs (record { backlog = ts; dead = dead })).backlog ≡ []
    unfolding turns
    turns-drained [] [] dead enough = refl
    turns-drained [] (t ∷ ts) dead enough = absurd (omega arith)
    turns-drained (h ∷ hs) [] dead enough = turns-drained hs [] dead (omega arith)
    turns-drained (h ∷ hs) (t ∷ ts) dead enough =
        let answer = attempted (h t.job.job_type) t.job.payload in
        let b = tried config now answer t ts dead in
        turns-drained hs b.backlog b.dead (omega (arith, tried-shrinks answer t ts dead))

  -- Whatever the handlers answer, a worker that starts on the lists of a queue and polls as often
  -- as its tasks have attempts left, one more than `max_attempts - tries` for each, ends with an
  -- empty queue and an empty processing list. The texts of the jobs are read back, and there is a
  -- delay.
  pub run_forever-drains :
      (codec : JsonCodec) (sha256 : Text → Text) (now : Text) (hs : List Handlers) (b : Board)
      (s : State)
      → 1 ≤ length config.retry_delays
      → Restarts codec sha256 config now b s
      → all_turns b.backlog ≤ length hs
      → ((run_forever codec sha256 config hs now s).redis.queue ≡ [])
        × ((run_forever codec sha256 config hs now s).redis.processing ≡ [])
  unfolding texts
  run_forever-drains codec sha256 now hs b s delays v enough =
      let done = run_forever-Implements codec sha256 config now hs b s delays v in
      let empty = turns-drained now hs b.backlog b.dead enough in
      (done.queue ∙ ap (texts codec) empty, done.processing)
