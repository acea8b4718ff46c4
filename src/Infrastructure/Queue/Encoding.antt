-- ===== src/Infrastructure/Queue/Encoding.antt =====
-- `Job.to_json` and `Job.from_json` of app/infrastructure/queue.py, and the lists of one job.
use tenantforge.Prelude.{arith, text_eq, ◌≡◌, refl, some, List, ◌∷◌, Text, text_eq_refl}
use tenantforge.Infrastructure.Queue.{
  rpop, Job, parsed, Redis, job_fields, job_of_fields, to_json, from_json, lrem, dequeue,
}
use tenantforge.Model.Json
use tenantforge.Model.Json.{Json, JsonCodec}

-- Where `json.loads` gives back the object that `json.dumps` wrote for a job, `from_json` gives
-- back the job, every field of it.
pub from_json-to_json :
    (codec : JsonCodec) (j : Job)
    → codec.loads (to_json codec j) ≡ some (Json.obj (job_fields j))
    → from_json codec (to_json codec j) ≡ parsed j
unfolding from_json job_of_fields job_fields Json.get text_eq
from_json-to_json codec j h = rw h refl

-- The first occurrence is the head.
pub lrem-head : (v : Text) (xs : List Text) → lrem v (v ∷ xs) ≡ xs
unfolding lrem
lrem-head v xs = rw (text_eq_refl v) refl

-- A job is claimed: it has left the queue for the processing list.
pub dequeue-ok :
    (codec : JsonCodec) (now : Text) (sha256 : Text → Text) (r : Redis) (j : Job) (rest : List Text)
    → rpop r.queue ≡ some (to_json codec j, rest)
    → codec.loads (to_json codec j) ≡ some (Json.obj (job_fields j))
    → dequeue codec now sha256 r
      ≡ (parsed (some j), record r { queue = rest; processing = to_json codec j ∷ r.processing })
unfolding dequeue
dequeue-ok codec now sha256 r j rest e loads = ground (arith, e, from_json-to_json codec j loads)
