-- ===== src/Tests/Web.antt =====
-- Primitives, adapters and headers for requests that compute.
use tenantforge.Tests.Fixtures.{primitives, day_of_january, database}
use tenantforge.Services.Webhooks.Signature.{Signing}
use tenantforge.Services.Webhooks.{BillingWebhook}
use tenantforge.Security.Crypto.{Claims, Primitives}
use tenantforge.Model.Tables.{Uuid}
use tenantforge.Api.Email.{Adapters}
use tenantforge.Api.Deps.{Headers}
use tenantforge.Prelude.{◌+◌, ℤ, pos, negsuc, Option, none, some, [], ◌∷◌, ◌++◌, Text, codes}
use tenantforge.Model.Json.{Json, JsonCodec, Fields}
use tenantforge.Api.{App}

-- A token is its subject, which is one character.
abbrev pub claims_of : Text → Claims
claims_of t = record {
  sub = t;
  token_type = codes "access";
  jti = 0;
  iat = day_of_january 15;
  lifetime = 15;
}

abbrev pub first_of : Text → Option Uuid
first_of [] = none
first_of (i ∷ t) = some i

abbrev pub web : Primitives
web = record primitives { parse_uuid = first_of; jwt_decode = λ t secret now. some (claims_of t) }

abbrev pub headers_of : Text → Headers
headers_of token = record {
  authorization = some (record { scheme = codes "Bearer"; credentials = token });
  x_api_key = none;
  stripe_signature = none;
  client_host = none;
}

abbrev pub json_codec : JsonCodec
json_codec = record {
  dumps = λ v. [];
  loads = λ t. none;
  str_of_other = λ v. [];
  int_of_text = λ t. none;
  truncate = λ t. pos 0;
}

abbrev pub acme_object : Fields
acme_object =
    Fields.field (codes "object")
      (Json.obj (Fields.field (codes "organization_id") (Json.str (codes "3")) Fields.end))
      Fields.end

abbrev pub cancellation : BillingWebhook
cancellation = record {
  id = codes "evt";
  event_type = codes "subscription.cancelled";
  contents = acme_object;
}

abbrev pub number_in : Text → Option ℤ
number_in [] = none
number_in (n ∷ t) = some (pos n)

abbrev pub digits : ℤ → Text
digits (pos n) = n ∷ []
digits (negsuc n) = []

abbrev pub signing : Signing
signing = record {
  hmac_sha256 = λ secret t. secret ++ t;
  str_of_int = digits;
  int_of_text = number_in;
}

abbrev pub adapters : Adapters
adapters = record {
  signing = signing;
  webhooks = record {
    json = json_codec;
    model_dump = λ e. Json.null;
    model_validate = λ v. some cancellation;
    parse_uuid = λ t. some 3;
    from_iso = λ t. none;
    from_timestamp = λ v. none;
    next_reading = λ t. record t { micros = t.micros + 1 };
  };
  isoformat = λ t. [];
  validate_json = λ t. some cancellation;
}

abbrev pub idle_app : App
idle_app = record {
  db = database;
  saved = database;
  counters = [];
  redis = record { queue = []; processing = []; dead_letters = [] };
  outages = [];
}

abbrev pub of_alice : Headers
of_alice = headers_of (0 ∷ [])

abbrev pub of_bob : Headers
of_bob = headers_of (1 ∷ [])
