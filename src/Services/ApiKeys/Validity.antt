-- ===== src/Services/ApiKeys/Validity.antt =====
-- API keys in app/services/api_keys.py: a new key authenticates, a revoked one does not.
use tenantforge.Services.Rows.{key_hash_is, add_api_key}
use tenantforge.Services.Organizations.{holds_role, only_owner}
use tenantforge.Security.Crypto.{Primitives, draw, hash_token, generate_api_key}
use tenantforge.Services.Audit.Rules.{on-audit}
use tenantforge.Session.Rules.{on-insert, on-modify, on-when_last, on-read, on-step, or_error-ok}
use tenantforge.Session.{◌>>=◌, Done}
use tenantforge.Services.Invitations.{is_none}
use tenantforge.Model.Time.{Datetime, Timestamp, aware}
use tenantforge.Model.Tables.{Uuid, ApiKey, World}
use tenantforge.Model.Errors.{ok}
use tenantforge.Prelude.{
  ap, codes, starts_with, text_eq_refl, ◌≢◌, none, exists, scalar-All, scalar-exists, Text, sym, ℕ,
  ◌≤◌, ◌≡◌, refl, inl, inr, true, false, ◌&&◌, some, List, [], ◌∷◌, arith, FallingKeys,
  scalar-key-lt, scalar, update_where, All, scalar-holds, ◌==◌, Bool-cases,
}
use tenantforge.Services.ApiKeys.{
  ApiKeyPrincipal, create_api_key, live_key, authenticate_api_key, lock_owner, save_revoked,
  revoke_api_key,
}

abbrev pub ApiKeyKeys : ℕ → List ApiKey → Type 0
ApiKeyKeys = FallingKeys (λ k. k.id)

-- Every row with the key is revoked.
abbrev Dead : Uuid → ApiKey → Type 0
Dead i k = (k.id == i) ≡ true → is_none k.revoked_at ≡ false

Dead-update :
    (i : Uuid) (t : Timestamp) (ks : List ApiKey)
    → All (Dead i) (update_where (λ k. k.id == i) (λ k. record k { revoked_at = some t }) ks)
unfolding update_where
Dead-update i t [] = tt
Dead-update i t (k ∷ ks) = (λ h. ground arith, Dead-update i t ks)

Dead-above : (i : Uuid) (n : ℕ) (ks : List ApiKey) → ApiKeyKeys n ks → n ≤ i → All (Dead i) ks
Dead-above i n [] b h = tt
Dead-above i n (k ∷ ks) b h = (λ e. absurd (ground arith), Dead-above i k.id ks b.1 (omega arith))

Dead-found :
    (o i : Uuid) (n : ℕ) (ks : List ApiKey) (t : ApiKey)
    → ApiKeyKeys n ks
    → scalar (λ k. (k.id == i) && (k.organization_id == o)) ks ≡ some t
    → is_none t.revoked_at ≡ false
    → All (Dead i) ks
unfolding scalar
Dead-found o i n [] t b e r = tt
Dead-found o i n (k ∷ ks) t b e r = elim (Bool-cases ((k.id == i) && (k.organization_id == o))) [
  | inl here ↦
      let same : k ≡ t = ground arith in (λ _. rw same r, Dead-above i k.id ks b.1 (ground arith))
  | inr there ↦
      let rest : scalar (λ k. (k.id == i) && (k.organization_id == o)) ks ≡ some t = ground arith in
      let low = scalar-key-lt (λ k. k.id) _ k.id ks t b.1 rest in
      let at_row = scalar-holds (λ k. (k.id == i) && (k.organization_id == o)) ks t rest in
      (λ h. absurd (ground arith), Dead-found o i k.id ks t b.1 rest r)
]

revoke_api_key-ok :
    (o i actor : Uuid) (w w' : World) {d : Done}
    → ApiKeyKeys w.next_uuid w.api_keys
    → revoke_api_key o i actor w ≡ (ok d, w')
    → All (Dead i) w'.api_keys
unfolding revoke_api_key lock_owner
revoke_api_key-ok o i actor w w' keys h = on-read _ _ _ h refl λ _ _ h.
    on-read _ _ _ h refl λ stored found h. on-step _ _ _ h refl λ h.
      let found = or_error-ok _ _ found in
      on-when_last _ _ _ h
        (λ revoked kept.
          rw (sym kept) (Dead-found o i w.next_uuid w.api_keys stored keys found revoked))
        (λ _ h. on-audit _ _ _ _ _ _ _ _ _ (on-modify _ _ _ h) λ _ h.
          let at_row =
            scalar-holds (λ k. (k.id == i) && (k.organization_id == o)) w.api_keys stored found in
          let same : stored.id ≡ i = ground arith in
          let written : w'.api_keys ≡ (save_revoked i (aware w.clock) w).api_keys =
            rw (sym same) (ground arith) in
          rw written (Dead-update i (aware w.clock) w.api_keys))

module _ (p : Primitives) where
  -- An authentication that returned: the key it found.
  authenticate_api_key-ok :
      (raw : Text) (w w' : World) {a : ApiKeyPrincipal}
      → authenticate_api_key p raw w ≡ (ok a, w')
      → (k : ApiKey) × (live_key p raw w ≡ some k)
        × (a.key_id ≡ k.id)
        × (a.organization_id ≡ k.organization_id)
  unfolding authenticate_api_key
  authenticate_api_key-ok raw w w' h = on-read _ _ _ h refl λ _ _ h.
      on-read _ _ _ h refl λ k found h. on-step _ _ _ h refl λ h. (
        k,
        or_error-ok _ _ found,
        ground (arith, on-modify _ _ _ h),
        ground (arith, on-modify _ _ _ h),
      )

  live_is_not-Dead :
      (i : Uuid) (raw : Text) (ks : List ApiKey) (k : ApiKey)
      → All (Dead i) ks
      → scalar (λ k. key_hash_is (hash_token p raw) k && is_none k.revoked_at) ks ≡ some k
      → k.id ≢ i
  live_is_not-Dead i raw ks k dead e same =
      let at_row =
        scalar-holds (λ k. key_hash_is (hash_token p raw) k && is_none k.revoked_at) ks k e in
      let revoked =
        scalar-All (Dead i) (λ k. key_hash_is (hash_token p raw) k && is_none k.revoked_at) ks k
          dead e in
      let it = revoked (ground arith) in absurd (ground arith)

  -- Once a key is revoked, no text authenticates as it, at any later time (only the clock moves
  -- until then). Keys of the table are assumed to fall along it, as they do where each new row
  -- takes the next key.
  pub revoked_key_is_refused :
      (o i actor : Uuid) (w w' w'' : World) (later : Datetime) (raw : Text) {d : Done}
      {a : ApiKeyPrincipal}
      → ApiKeyKeys w.next_uuid w.api_keys
      → revoke_api_key o i actor w ≡ (ok d, w')
      → authenticate_api_key p raw (record w' { clock = later }) ≡ (ok a, w'')
      → a.key_id ≢ i
  revoked_key_is_refused o i actor w w' w'' later raw keys h auth same =
      let dead = revoke_api_key-ok o i actor w w' keys h in
      let (k, found, is_key, _) =
        authenticate_api_key-ok raw (record w' { clock = later }) w'' auth in
      live_is_not-Dead i raw w'.api_keys k dead found (cc (is_key, same))

  -- A creation that returned.
  create_api_key-ok :
      (o actor : Uuid) (label : Text) (w w' : World) {key : ApiKey} {raw : Text}
      → create_api_key p o actor label w ≡ (ok (key, raw), w')
      → (exists (holds_role only_owner o actor) w.memberships ≡ true)
        × (raw ≡ (generate_api_key p w.next_secret).0)
        × (key.organization_id ≡ o)
        × (key.key_hash ≡ hash_token p raw)
        × (key.revoked_at ≡ none)
        × (w'.api_keys ≡ key ∷ w.api_keys)
  unfolding create_api_key lock_owner draw add_api_key
  create_api_key-ok o actor label w w' h = on-read _ _ _ h refl λ _ member_row h.
      on-step _ _ _ h refl λ h. on-insert _ _ _ _ _ _ _ h refl λ _ h.
        on-audit _ _ _ _ _ _ _ _ _ h λ _ h. (
          scalar-exists _ _ _ (or_error-ok _ _ member_row),
          ground arith,
          ground arith,
          ground arith,
          ground arith,
          ground arith,
        )

  generated_prefix : (n : ℕ) → starts_with (generate_api_key p n).0 (codes "tf_live_") ≡ true
  unfolding generate_api_key starts_with
  generated_prefix n = refl

  new_key_is_live :
      (raw : Text) (key : ApiKey) (ks : List ApiKey)
      → key.key_hash ≡ hash_token p raw
      → key.revoked_at ≡ none
      → scalar (λ k. key_hash_is (hash_token p raw) k && is_none k.revoked_at) (key ∷ ks) ≡ some key
  unfolding scalar
  new_key_is_live raw key ks hashed live =
      ground (arith, text_eq_refl (hash_token p raw), hashed, live)

  -- An owner of the organization who creates a key is given a text that authenticates, at any later
  -- time (only the clock moves until then), as that key and for that organization. Nobody else
  -- creates one.
  pub created_key_authenticates :
      (o actor : Uuid) (label : Text) (w w' : World) (later : Datetime) {key : ApiKey} {raw : Text}
      → create_api_key p o actor label w ≡ (ok (key, raw), w')
      → (exists (holds_role only_owner o actor) w.memberships ≡ true)
        × ((authenticate_api_key p raw (record w' { clock = later })).0
            ≡ ok (record { key_id = key.id; organization_id = o }))
  unfolding authenticate_api_key ◌>>=◌
  created_key_authenticates o actor label w w' later {key} {raw} h =
      let (owns, raw_is, here, hashed, live, written) = create_api_key-ok o actor label w w' h in
      let known : starts_with raw (codes "tf_live_") ≡ true =
        rw raw_is (generated_prefix w.next_secret) in
      let found : live_key p raw w' ≡ some key =
        rw written (new_key_is_live raw key w.api_keys hashed live) in
      (
        owns,
        rw (known, found) (ap (λ x. ok (record { key_id = key.id; organization_id = x })) here),
      )
