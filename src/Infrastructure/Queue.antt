-- ===== src/Infrastructure/Queue.antt =====
-- app/infrastructure/queue.py: jobs in Redis lists. The head of a list is its left end. The texts
-- of `json.dumps` and `json.loads` go through a `JsonCodec`.
pub mod Redaction
pub mod Recovery
pub mod Encoding
use tenantforge.Prelude.{
  ℤ, pos, suc_ℤ, ℕ, zero, suc, ◌+◌, Bool, Option, none, some, List, [], ◌∷◌, if◌then◌else◌, exists,
  Text, codes, text_eq, lower,
}
use tenantforge.Model.Json.{Json, Fields, Items, JsonCodec, str_of}
use tenantforge.Model.Json

-- What `from_json` may raise; `dequeue` puts the name into the envelope.
pub data JobError : Type 0 where
  json_decode_error value_error key_error type_error : JobError

pub data Parsed {ℓ} (A : Type ℓ) : Type ℓ where
  parsed : A → Parsed A
  failed : JobError → Parsed A

infixl 5 ◌>>=◌
abbrev pub ◌>>=◌ {ℓ κ} : {A : Type ℓ} {B : Type κ} → Parsed A → (A → Parsed B) → Parsed B
failed problem >>= rest = failed problem
parsed value >>= rest = rest value

pub record Job : Type 0 where
  pub id : Text
  pub job_type : Text
  pub payload : Fields
  pub attempt : ℤ
  pub created_at : Text

-- `SENSITIVE_PAYLOAD_KEYS`
abbrev pub sensitive_payload_keys : List Text
sensitive_payload_keys =
    codes "api_key"
    ∷ codes "authorization"
    ∷ codes "password"
    ∷ codes "refresh_token"
    ∷ codes "token"
    ∷ []

unfoldable pub is_sensitive : Text → Bool
is_sensitive key = exists (text_eq (lower key)) sensitive_payload_keys

abbrev pub redacted : Json
redacted = Json.str (codes "[redacted]")

unfoldable mutual
  -- `_redact_payload`, on a value, on the items of a list and on the entries of a dict.
  pub redact : Json → Json
  redact Json.null = Json.null
  redact (Json.bool b) = Json.bool b
  redact (Json.int i) = Json.int i
  redact (Json.float t) = Json.float t
  redact (Json.str t) = Json.str t
  redact (Json.arr items) = Json.arr (redact_items items)
  redact (Json.obj entries) = Json.obj (redact_fields entries)

  pub redact_items : Items → Items
  redact_items Items.nil = Items.nil
  redact_items (Items.cons v items) = Items.cons (redact v) (redact_items items)

  pub redact_fields : Fields → Fields
  redact_fields Fields.end = Fields.end
  redact_fields (Fields.field key v entries) =
      Fields.field key (if is_sensitive key then redacted else redact v) (redact_fields entries)

-- `next_attempt`
unfoldable pub next_attempt : Job → Job
next_attempt j = record j { attempt = suc_ℤ j.attempt }

-- `asdict(job)`, in the order of the fields.
unfoldable pub job_fields : Job → Fields
job_fields j = Fields.field (codes "id") (Json.str j.id) (
    Fields.field (codes "type") (Json.str j.job_type) (
      Fields.field (codes "payload") (Json.obj j.payload) (
        Fields.field (codes "attempt") (Json.int j.attempt)
          (Fields.field (codes "created_at") (Json.str j.created_at) Fields.end))))

abbrev pub optional : Option Json → JobError → Parsed Json
optional none e = failed e
optional (some v) e = parsed v

-- `data[key]`
abbrev pub item : Text → Fields → Parsed Json
item key entries = optional (Json.get key entries) key_error

-- The checks that `data` and `data.get("payload")` are dicts.
abbrev pub payload_of : Option Json → Parsed Fields
payload_of (some (Json.obj entries)) = parsed entries
payload_of _ = failed value_error

abbrev pub optional_int : Option ℤ → Parsed ℤ
optional_int none = failed value_error
optional_int (some i) = parsed i

-- `int(value)`; a float is finite.
unfoldable pub int_of : JsonCodec → Json → Parsed ℤ
int_of codec (Json.int i) = parsed i
int_of codec (Json.bool b) = parsed (pos (if b then 1 else 0))
int_of codec (Json.float t) = parsed (codec.truncate t)
int_of codec (Json.str t) = optional_int (codec.int_of_text t)
int_of codec _ = failed type_error

unfoldable pub job_of_fields : JsonCodec → Fields → Parsed Job
unfolding int_of
job_of_fields codec entries = do
  payload ← payload_of (Json.get (codes "payload") entries)
  id ← item (codes "id") entries
  job_type ← item (codes "type") entries
  raw_attempt ← item (codes "attempt") entries
  attempt ← int_of codec raw_attempt
  created_at ← item (codes "created_at") entries
  parsed (record {
    id = str_of codec id;
    job_type = str_of codec job_type;
    payload = payload;
    attempt = attempt;
    created_at = str_of codec created_at;
  })

abbrev pub job_of_value : JsonCodec → Option Json → Parsed Job
job_of_value codec none = failed json_decode_error
job_of_value codec (some (Json.obj entries)) = job_of_fields codec entries
job_of_value codec (some _) = failed value_error

-- The envelopes of the dead-letter queue. `failed_at` is the time of the call.
pub data DeadLetter : Type 0 where
  exhausted : Fields → Text → Text → DeadLetter
  unreadable : Text → JobError → Text → DeadLetter

-- The three lists of the queue.
pub record Redis : Type 0 where
  pub queue : List Text
  pub processing : List Text
  pub dead_letters : List DeadLetter

-- `LREM list 1 value`: the first occurrence from the left.
unfoldable pub lrem : Text → List Text → List Text
lrem v [] = []
lrem v (x ∷ xs) = if text_eq x v then xs else x ∷ lrem v xs

-- The right end of a list and what is left of it.
unfoldable pub rpop : List Text → Option (Text × List Text)
rpop [] = none
rpop (x ∷ xs) = some (elim (rpop xs) [ none ↦ (x, []) | some (y, ys) ↦ (y, x ∷ ys) ])

-- `RPOPLPUSH queue processing`, which `BRPOPLPUSH` is once there is an element.
abbrev pub claim : Redis → Option (Text × Redis)
claim r = elim (rpop r.queue) [
  | none ↦ none
  | some (raw, rest) ↦ some (raw, record r { queue = rest; processing = raw ∷ r.processing })
]

module _ (codec : JsonCodec) where
  -- `Job.to_json` and `Job.from_json`
  unfoldable pub to_json : Job → Text
  to_json j = codec.dumps (Json.obj (job_fields j))

  unfoldable pub from_json : Text → Parsed Job
  from_json raw = job_of_value codec (codec.loads raw)

  -- `Job.create`: an empty type is a `ValueError`.
  unfoldable pub create_job : Text → Text → Text → Fields → Parsed Job
  create_job id now [] payload = failed value_error
  create_job id now (c ∷ job_type) payload = parsed (record {
    id = id;
    job_type = c ∷ job_type;
    payload = payload;
    attempt = pos 0;
    created_at = now;
  })

  unfoldable pub enqueue : Job → Redis → Redis
  enqueue j r = record r { queue = to_json j ∷ r.queue }

  -- A job that was claimed, none, or one that could not be read and is a dead letter now.
  abbrev pub read_claimed :
      Text → (Text → Text) → Text → Redis → Parsed Job → Parsed (Option Job) × Redis
  read_claimed now sha256 raw r (parsed j) = (parsed (some j), r)
  read_claimed now sha256 raw r (failed e) = (
    failed e,
    record r {
      processing = lrem raw r.processing;
      dead_letters = unreadable now e (sha256 raw) ∷ r.dead_letters;
    },
  )

  unfoldable pub dequeue : Text → (Text → Text) → Redis → Parsed (Option Job) × Redis
  dequeue now sha256 r = elim (claim r) [
    | none ↦ (parsed none, r)
    | some (raw, r') ↦ read_claimed now sha256 raw r' (from_json raw)
  ]

  unfoldable pub acknowledge : Job → Redis → Redis
  acknowledge j r = record r { processing = lrem (to_json j) r.processing }

  unfoldable pub retry : Job → Redis → Redis
  retry j r = record r {
    processing = lrem (to_json j) r.processing;
    queue = to_json (next_attempt j) ∷ r.queue;
  }

  unfoldable pub move_to_dead_letter : Text → Text → Job → Redis → Redis
  move_to_dead_letter now error j r = record r {
    processing = lrem (to_json j) r.processing;
    dead_letters =
        exhausted (job_fields (record j { payload = redact_fields j.payload })) now error
        ∷ r.dead_letters;
  }

-- `recover_in_flight`, with the number of rounds as fuel: each moves one entry back.
unfoldable pub recover_in_flight : ℕ → Redis → ℕ × Redis
recover_in_flight zero r = (0, r)
recover_in_flight (suc fuel) r = elim (rpop r.processing) [
  | none ↦ (0, r)
  | some (raw, rest) ↦
      let (n, r') =
        recover_in_flight fuel (record r { processing = rest; queue = raw ∷ r.queue }) in
      (n + 1, r')
]
