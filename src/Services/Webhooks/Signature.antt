-- ===== src/Services/Webhooks/Signature.antt =====
-- The signature of a webhook request: `build_webhook_signature` and `verify_webhook_signature` of
-- app/services/webhooks.py. Times are whole microseconds in place of floats. HMAC-SHA-256 and the
-- texts of integers are parameters.
pub mod Built
pub mod Verified
use tenantforge.Services.Webhooks.{webhook_error}
use tenantforge.Session.{Done, or_error, checked}
use tenantforge.Prelude.{
  ℤ, pos, negsuc, ℕ, ◌+◌, ◌-◌, ◌*◌, ◌≤◌, ◌≡◌, Bool, true, ◌&&◌, Option, none, some, List, [], ◌∷◌,
  ◌++◌, scalar, exists, Text, codes, text_eq, strip, leb, ◌==◌, if◌then◌else◌,
}
use tenantforge.Model.Errors.{AppError, Result, invalid_webhook_signature, app_error, err, ◌>>=◌}

abbrev pub comma : ℕ
comma = 44

abbrev pub equals_sign : ℕ
equals_sign = 61

-- `hmac.new(secret.encode(), payload, hashlib.sha256).hexdigest()`, `str(number)` and `int(text)`,
-- which is `none` on a `ValueError`.
pub record Signing : Type 0 where
  pub hmac_sha256 : Text → Text → Text
  pub str_of_int : ℤ → Text
  pub int_of_text : Text → Option ℤ

-- `SIGNATURE_TOLERANCE_SECONDS`
abbrev pub signature_tolerance_seconds : ℕ
signature_tolerance_seconds = 300

abbrev pub put_first : ℕ → List Text → List Text
put_first c [] = (c ∷ []) ∷ []
put_first c (part ∷ parts) = (c ∷ part) ∷ parts

-- `text.split(separator)`
unfoldable pub split : ℕ → Text → List Text
split separator [] = [] ∷ []
split separator (c ∷ t) =
    if c == separator then [] ∷ split separator t else put_first c (split separator t)

-- `text.partition(separator)`; without the separator the value is empty.
unfoldable pub partition : ℕ → Text → Text × Text
partition separator [] = ([], [])
partition separator (c ∷ t) =
    if c == separator then ([], t) else (c ∷ (partition separator t).0, (partition separator t).1)

-- `if separator and value: values.setdefault(key, []).append(value)`
abbrev pub entered : Text × Text → List (Text × Text) → List (Text × Text)
entered (key, []) values = values
entered (key, c ∷ value) values = (key, c ∷ value) ∷ values

unfoldable pub values_of : List Text → List (Text × Text)
values_of [] = []
values_of (part ∷ parts) = entered (partition equals_sign (strip part)) (values_of parts)

-- The values of a header, with their keys, in order.
unfoldable pub header_values : Text → List (Text × Text)
header_values header = values_of (split comma header)

abbrev pub key_is : Text → Text × Text → Bool
key_is key entry = text_eq entry.0 key

-- `int(values["t"][0])`
abbrev pub timestamp_of : Signing → Option (Text × Text) → Option ℤ
timestamp_of signing none = none
timestamp_of signing (some entry) = signing.int_of_text entry.1

-- `abs(current_time - timestamp)`, in microseconds.
unfoldable pub distance : ℕ → ℤ → ℕ
distance now (pos t) = (now - t * 1000000) + (t * 1000000 - now)
distance now (negsuc t) = now + (t + 1) * 1000000

unfoldable pub signed_payload : Signing → Text → ℤ → Text
signed_payload signing payload timestamp = signing.str_of_int timestamp ++ (codes "." ++ payload)

-- `hmac.compare_digest(expected, value)` for a value under `v1`.
abbrev pub is_signature : Text → Text × Text → Bool
is_signature expected entry = key_is (codes "v1") entry && text_eq entry.1 expected

abbrev pub signature_error : AppError
signature_error = webhook_error invalid_webhook_signature

module _ (signing : Signing) (secret : Text) where
  unfoldable pub build_webhook_signature : Text → ℤ → Text
  build_webhook_signature payload timestamp =
      let digest = signing.hmac_sha256 secret (signed_payload signing payload timestamp) in
      codes "t=" ++ (signing.str_of_int timestamp ++ (codes ",v1=" ++ digest))

  -- The rest of `verify_webhook_signature`, from the parts of the header.
  unfoldable pub verify_values : Text → ℕ → ℕ → List (Text × Text) → Result Done
  verify_values payload now tolerance values = do
    timestamp ← or_error (timestamp_of signing (scalar (key_is (codes "t")) values)) signature_error
    _ ← checked (leb (distance now timestamp) (tolerance * 1000000)) signature_error
    checked
        (exists
          (is_signature (signing.hmac_sha256 secret (signed_payload signing payload timestamp)))
          values)
        signature_error

  unfoldable pub verify_webhook_signature : Text → Option Text → ℕ → ℕ → Result Done
  unfolding verify_values
  verify_webhook_signature payload none now tolerance = err (app_error signature_error)
  verify_webhook_signature payload (some []) now tolerance = err (app_error signature_error)
  verify_webhook_signature payload (some (c ∷ header)) now tolerance =
      verify_values payload now tolerance (header_values (c ∷ header))

  -- What an accepted signature shows.
  pub record IsSigned (payload : Text) (now tolerance : ℕ) (header : Text) : Type 0 where
    pub timestamp : ℤ
    -- the first `t` of the header is the timestamp, which is recent
    pub dated :
        timestamp_of signing (scalar (key_is (codes "t")) (header_values header)) ≡ some timestamp
    pub recent : distance now timestamp ≤ tolerance * 1000000
    -- one of its `v1` is the digest of the timestamp and the payload under the secret
    pub signed :
        exists
          (is_signature (signing.hmac_sha256 secret (signed_payload signing payload timestamp)))
          (header_values header)
        ≡ true
