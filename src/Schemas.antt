-- ===== src/Schemas.antt =====
-- app/schemas: what Pydantic checks of a request beyond the types of its fields, and what the
-- validators of the models make of them. `none` is a `ValidationError`. The lengths of a field are
-- checked before its validator runs.
use tenantforge.Services.Projects.{ProjectCreate, ProjectUpdate}
use tenantforge.Services.Organizations.{OrganizationCreate, OrganizationUpdate}
use tenantforge.Services.Invitations.{InvitationCreate}
use tenantforge.Model.Enums.{Role, ProjectStatus}
use tenantforge.Prelude.{
  ℤ, pos, negsuc, ℕ, Bool, true, false, not, ◌&&◌, ◌||◌, Option, none, some, [], ◌∷◌, length,
  exists, Text, codes, lower, strip, starts_with, leb, ◌==◌, if◌then◌else◌,
}

-- A field of a partial update: not sent, sent as null, or sent with a value.
pub data Sent {ℓ} (A : Type ℓ) : Type ℓ where
  unset nulled : Sent A
  given : A → Sent A

-- `Field(min_length=..., max_length=...)`
abbrev pub has_length : ℕ → ℕ → Text → Bool
has_length low high t = leb low (length t) && leb (length t) high

abbrev pub required_if : {A : Type 0} → Bool → A → Option A
required_if test a = if test then some a else none

abbrev pub is_slug_character : ℕ → Bool
is_slug_character c = (leb 97 c && leb c 122) || (leb 48 c && leb c 57)

-- `^[a-z0-9]+(?:-[a-z0-9]+)*$`: whether a group has begun, and the rest of the text.
unfoldable pub in_slug : Bool → Text → Bool
in_slug begun [] = begun
in_slug begun (c ∷ t) =
    (is_slug_character c && in_slug true t) || (begun && (c == 45) && in_slug false t)

abbrev pub matches_slug : Text → Bool
matches_slug t = in_slug false t

-- `text.rpartition("@")`, which is `none` without a separator.
unfoldable pub rpartition_at : Text → Option (Text × Text)
rpartition_at [] = none
rpartition_at (c ∷ t) = elim (rpartition_at t) [
  | some (local, domain) ↦ some (c ∷ local, domain)
  | none ↦ if c == 64 then some ([], t) else none
]

abbrev pub is_dot : ℕ → Bool
is_dot c = c == 46

abbrev pub is_address : Text → Option (Text × Text) → Bool
is_address email none = false
is_address email (some ([], domain)) = false
is_address email (some (c ∷ local, domain)) =
    exists is_dot domain && not (starts_with email (codes ".")) && leb (length email) 320

-- `normalize_email`; a domain with a dot is not empty.
unfoldable pub normalize_email : Text → Option Text
normalize_email value =
    let email = lower (strip value) in required_if (is_address email (rpartition_at email)) email

abbrev pub with_email_of : {A : Type 0} → Option Text → (Text → Option A) → Option A
with_email_of none rest = none
with_email_of (some email) rest = rest email

-- schemas/auth.py
unfoldable pub register_request : Text → Text → Option (Text × Text)
register_request address password =
    with_email_of (normalize_email address)
      λ email. required_if (has_length 8 128 password) (email, password)

unfoldable pub login_request : Text → Text → Option (Text × Text)
login_request address password =
    with_email_of (normalize_email address)
      λ email. required_if (has_length 1 128 password) (email, password)

unfoldable pub refresh_request : Text → Option Text
refresh_request token = required_if (has_length 32 512 token) token

-- schemas/organizations.py
unfoldable pub organization_create : Text → Text → Option OrganizationCreate
organization_create name slug =
    required_if (has_length 1 120 name && has_length 2 80 slug && matches_slug slug)
      (record { name = strip name; slug = strip slug })

-- A field that may be left out, but not null: `none` is an error, `some none` a field not sent.
abbrev pub changed : {A : Type 0} → (A → Option A) → Sent A → Option (Option A)
changed check unset = some none
changed check nulled = none
changed check (given a) = elim (check a) [ none ↦ none | some b ↦ some (some b) ]

abbrev pub stripped_name : Text → Option Text
stripped_name name = required_if (has_length 1 120 name) (strip name)

abbrev pub stripped_slug : Text → Option Text
stripped_slug slug = required_if (has_length 2 80 slug && matches_slug slug) (strip slug)

-- `require_change`
abbrev pub organization_changes :
    Option (Option Text) → Option (Option Text) → Option OrganizationUpdate
organization_changes none slug = none
organization_changes (some name) none = none
organization_changes (some none) (some none) = none
organization_changes (some name) (some slug) = some (record { name = name; slug = slug })

unfoldable pub organization_update : Sent Text → Sent Text → Option OrganizationUpdate
organization_update name slug =
    organization_changes (changed stripped_name name) (changed stripped_slug slug)

-- schemas/projects.py
abbrev pub is_description : Option Text → Bool
is_description none = true
is_description (some t) = leb (length t) 10000

unfoldable pub project_create : Text → Option Text → Option ProjectCreate
project_create name description =
    required_if (has_length 1 120 name && is_description description)
      (record { name = strip name; description = description })

abbrev pub long_name : Text → Option Text
long_name name = required_if (has_length 1 120 name) name

-- A description may be null.
abbrev pub new_description : Sent Text → Option (Option (Option Text))
new_description unset = some none
new_description nulled = some (some none)
new_description (given t) = required_if (is_description (some t)) (some (some t))

abbrev pub project_changes :
    Option (Option Text)
    → Option (Option (Option Text))
    → Option (Option ProjectStatus)
    → Option ProjectUpdate
project_changes none description status = none
project_changes (some name) none status = none
project_changes (some name) (some description) none = none
project_changes (some none) (some none) (some none) = none
project_changes (some name) (some description) (some status) =
    some (record { name = name; description = description; status = status })

unfoldable pub project_update : Sent Text → Sent Text → Sent ProjectStatus → Option ProjectUpdate
project_update name description status =
    project_changes (changed long_name name) (new_description description)
      (changed (λ s. some s) status)

-- schemas/invitations.py
unfoldable pub invitation_create : Text → Role → Option InvitationCreate
invitation_create address role =
    with_email_of (normalize_email address) λ email. some (record { email = email; role = role })

-- schemas/api_keys.py
unfoldable pub api_key_create : Text → Option Text
api_key_create name = required_if (has_length 1 100 name) (strip name)

-- schemas/usage.py, and the query of routes/audit.py.
abbrev pub in_range : ℕ → ℕ → ℤ → Option ℕ
in_range low high (pos n) = required_if (leb low n && leb n high) n
in_range low high (negsuc n) = none

unfoldable pub usage_event_create : ℤ → Option ℕ
usage_event_create quantity = in_range 1 1000 quantity

abbrev pub not_negative : ℤ → Option ℕ
not_negative (pos n) = some n
not_negative (negsuc n) = none

abbrev pub both : {A B : Type 0} → Option A → Option B → Option (A × B)
both none b = none
both (some a) none = none
both (some a) (some b) = some (a, b)

unfoldable pub audit_query : ℤ → ℤ → Option (ℕ × ℕ)
audit_query limit offset = both (in_range 1 100 limit) (not_negative offset)
