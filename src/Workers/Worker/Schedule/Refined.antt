-- ===== src/Workers/Worker/Schedule/Refined.antt =====
-- The worker of app/workers/worker.py beside the line of tasks.
use tenantforge.Infrastructure.Queue.Recovery.{recover_in_flight_all}
use tenantforge.Workers.Worker.Schedule.{
  turns, letter, next_turn, IsReadable, Task, current_job, Board, tried, texts, Implements,
}
use tenantforge.Workers.Worker.Retries.{delay_at-some}
use tenantforge.Workers.Worker.Outcomes.{settled, run_once_settles}
use tenantforge.Model.Json.{JsonCodec}
use tenantforge.Infrastructure.Queue.{next_attempt, DeadLetter, rpop, to_json, dequeue}
use tenantforge.Workers.Worker.{
  run_forever, handled, Handlers, attempted, run_job, run_once, poll, Config, State,
}
use tenantforge.Prelude.{
  All, ◌+◌, sym, inl, inr, none, All-append, leb, Bool-cases, ◌≤◌, ◌≡◌, refl, ap, ◌∙◌, Option, some,
  List, [], ◌∷◌, ◌++◌, Text, length,
}

rpop-last : (x : Text) (xs : List Text) → rpop (xs ++ (x ∷ [])) ≡ some (x, xs)
unfolding rpop
rpop-last x [] = refl
rpop-last x (y ∷ ys) = rw (rpop-last x ys) refl

texts-append :
    (codec : JsonCodec) (ts : List Task) (t : Task)
    → texts codec (ts ++ (t ∷ [])) ≡ to_json codec (current_job t) ∷ texts codec ts
unfolding texts
texts-append codec [] t = refl
texts-append codec (x ∷ ts) t = rw (texts-append codec ts t) refl

module _ (codec : JsonCodec) (sha256 : Text → Text) (config : Config) (now : Text) where
  -- A poll is a turn.
  abbrev pub run : List Handlers → State → State
  run hs s = poll codec sha256 config hs now s

  pub record Turned (h : Handlers) (hs : List Handlers) (b : Board) (s : State) : Type 0 where
    pub after : State
    pub polled : run (h ∷ hs) s ≡ run hs after
    pub holds : Implements codec b after

  poll-none :
      (h : Handlers) (hs : List Handlers) (dead : List DeadLetter) (s : State)
      → Implements codec (record { backlog = []; dead = dead }) s
      → run (h ∷ hs) s ≡ run hs s
  unfolding poll run_once run_job dequeue rpop texts
  poll-none h hs dead s v = rw v.queue refl

  -- How the worker settles the task, where it has a delay for each attempt.
  settled-holds :
      (t : Task) (rest : List Task) (dead : List DeadLetter) (s : State) (answer : Option Text)
      → 1 ≤ length config.retry_delays
      → Implements codec (record { backlog = t ∷ rest; dead = dead }) s
      → (after : State) × (settled codec config
            (current_job t)
            now
            answer
            (record s { redis = record (s.redis) { queue = texts codec rest } })
          ≡ (handled, after))
        × Implements codec (tried config now answer t rest dead) after
  unfolding next_attempt
  settled-holds t rest dead s none delays v = (
    record s { redis = record (s.redis) { queue = texts codec rest } },
    refl,
    record {
      queue = refl;
      processing = v.processing;
      dead_letters = v.dead_letters;
      readable = v.readable.1;
    },
  )
  settled-holds t rest dead s (some error) delays v =
      elim (Bool-cases (leb config.max_attempts t.tries)) [
        | inl last ↦ rw last (
          record s {
            redis = record (s.redis) {
              queue = texts codec rest;
              dead_letters = letter t.tries now error t ∷ s.redis.dead_letters;
            };
          },
          refl,
          record {
            queue = refl;
            processing = v.processing;
            dead_letters = ap (λ ds. letter t.tries now error t ∷ ds) v.dead_letters;
            readable = v.readable.1;
          },
        )
        | inr more ↦
            let (delay, found) = delay_at-some config.retry_delays t.tries delays in
            let again : Task = record t { tries = t.tries + 1 } in
            rw (more, found)
              (
                record {
                  slept = delay ∷ s.slept;
                  redis = record (s.redis) {
                    queue = to_json codec (current_job again) ∷ texts codec rest;
                  };
                },
                refl,
                record {
                  queue = sym (texts-append codec rest again);
                  processing = v.processing;
                  dead_letters = v.dead_letters;
                  readable =
                      All-append (IsReadable codec) rest (again ∷ []) v.readable.1
                        (v.readable.0, tt);
                },
              )
      ]

  poll-task :
      (h : Handlers) (hs : List Handlers) (t : Task) (rest : List Task) (dead : List DeadLetter)
      (s : State)
      → 1 ≤ length config.retry_delays
      → Implements codec (record { backlog = t ∷ rest; dead = dead }) s
      → Turned h hs (next_turn config now h (t ∷ rest) dead) s
  unfolding poll texts
  poll-task h hs t rest dead s delays v =
      let runs =
        run_once_settles codec sha256 config h now s (current_job t) (texts codec rest)
          (ap rpop v.queue ∙ rpop-last (to_json codec (current_job t)) (texts codec rest))
          (v.readable.0 t.tries) in
      let (after, settles, holds) =
        settled-holds t rest dead s (attempted (h t.job.job_type) t.job.payload) delays v in
      record { after = after; polled = rw (runs ∙ settles) refl; holds = holds }

  poll-Implements :
      (hs : List Handlers) (ts : List Task) (dead : List DeadLetter) (s : State)
      → 1 ≤ length config.retry_delays
      → Implements codec (record { backlog = ts; dead = dead }) s
      → Implements codec (turns config now hs (record { backlog = ts; dead = dead })) (run hs s)
  unfolding poll turns
  poll-Implements [] ts dead s delays v = v
  poll-Implements (h ∷ hs) [] dead s delays v =
      rw (poll-none h hs dead s v) (poll-Implements hs [] dead s delays v)
  poll-Implements (h ∷ hs) (t ∷ ts) dead s delays v =
      let turned = poll-task h hs t ts dead s delays v in
      let b = next_turn config now h (t ∷ ts) dead in
      rw turned.polled (poll-Implements hs b.backlog b.dead turned.after delays turned.holds)

  -- Redis after a restart: what was claimed comes before what waits.
  pub record Restarts (b : Board) (s : State) : Type 0 where
    pub lists : s.redis.processing ++ s.redis.queue ≡ texts codec b.backlog
    pub dead_letters : s.redis.dead_letters ≡ b.dead
    pub readable : All (IsReadable codec) b.backlog

  -- A worker that starts on the lists of a queue, some of their jobs claimed by a worker that
  -- crashed, and that polls as often as there are handlers in `hs`, implements the line of tasks:
  -- each poll serves the next task, whichever way its handler answers, which leaves the line where
  -- it returns, becomes a redacted dead letter at its last attempt, and is else the last of the
  -- line. Nothing stays claimed. The texts of the jobs are read back, and there is a delay.
  pub run_forever-Implements :
      (hs : List Handlers) (b : Board) (s : State)
      → 1 ≤ length config.retry_delays
      → Restarts b s
      → Implements codec (turns config now hs b) (run_forever codec sha256 config hs now s)
  unfolding run_forever
  run_forever-Implements hs b s delays v = rw (recover_in_flight_all s.redis) (
      poll-Implements hs b.backlog b.dead _ delays (record {
        queue = v.lists;
        processing = refl;
        dead_letters = v.dead_letters;
        readable = v.readable;
      }))
