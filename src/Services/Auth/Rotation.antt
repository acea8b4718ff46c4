-- ===== src/Services/Auth/Rotation.antt =====
-- Refresh tokens in app/services/auth.py: a token is rotated once.
use tenantforge.Session.{◌>>=◌}
use tenantforge.Services.Invitations.{is_none}
use tenantforge.Session.Rules.{on-modify, or_error-ok, on-read, on-step, on-insert, checked-ok}
use tenantforge.Services.Rows.{refresh_is, add_refresh_token}
use tenantforge.Security.Crypto.{
  Primitives, Settings, draw, generate_opaque_token, hash_token, create_access_token,
}
use tenantforge.Model.Time.{Datetime, has_expired, aware}
use tenantforge.Model.Tables.{User, RefreshToken, World}
use tenantforge.Model.Errors.{authentication_error, refresh_token_reused, app_error, err, ok}
use tenantforge.Prelude.{
  inl, inr, List, scalar-exists, text_eq, text_eq→eq, Bool-cases, scalar-update_found, some, scalar,
  ◌≡◌, refl, true, false, none, ◌∷◌, arith, exists, Text,
}
use tenantforge.Services.Auth.{
  save_token_revoked, active_user, rotate_refresh_token, IssuedTokens, issue_tokens,
}

-- A new token with a hash of its own does not hide a stored one.
past_new :
    (h : Text) (new t : RefreshToken) (xs : List RefreshToken)
    → scalar (refresh_is h) xs ≡ some t
    → exists (refresh_is new.token_hash) xs ≡ false
    → scalar (refresh_is h) (new ∷ xs) ≡ some t
unfolding scalar
past_new h new t xs e fresh = elim (Bool-cases (text_eq new.token_hash h)) [
  | inl same ↦
      let eq : new.token_hash ≡ h = text_eq→eq new.token_hash h same in
      let there : exists (refresh_is h) xs ≡ true = scalar-exists (refresh_is h) xs t e in
      absurd (cc (rw eq at fresh))
  | inr other ↦ rw other e
]

module _ (p : Primitives) (settings : Settings) (dummy : Text) where
  -- What `issue_tokens` has written.
  record Issued (user : User) (tokens : IssuedTokens) (w w' : World) : Type 0 where
    new_token : RefreshToken
    activated : user.is_active ≡ true
    written : w'.refresh_tokens ≡ new_token ∷ w.refresh_tokens
    hashed : new_token.token_hash ≡ hash_token p tokens.refresh_token
    fresh : exists (refresh_is new_token.token_hash) w.refresh_tokens ≡ false
    of_user : new_token.user_id ≡ user.id
    not_revoked : new_token.revoked_at ≡ none

  issue_tokens-ok :
      (user : User) (w w' : World) {tokens : IssuedTokens}
      → issue_tokens p settings dummy user w ≡ (ok tokens, w')
      → Issued user tokens w w'
  unfolding issue_tokens draw add_refresh_token create_access_token hash_token
  issue_tokens-ok user w w' h = on-read _ _ _ h refl λ _ activated h.
      on-read _ _ _ h refl λ now _ h. on-step _ _ _ h refl λ h. on-read _ _ _ h refl λ expires _ h.
        on-insert _ _ _ _ _ _ _ h refl λ fresh h. on-step _ _ _ h refl λ h. record {
          new_token = record {
            id = w.next_uuid;
            user_id = user.id;
            token_hash = hash_token p (generate_opaque_token p w.next_secret);
            expires_at = aware expires;
            revoked_at = none;
            created_at = aware now;
          };
          activated = checked-ok _ _ activated;
          written = ground arith;
          hashed = ground arith;
          fresh = ground arith;
          of_user = refl;
          not_revoked = refl;
        }

  -- A rotation that returned.
  record Rotated (raw : Text) (tokens : IssuedTokens) (w w' : World) : Type 0 where
    stored : RefreshToken
    user : User
    found : scalar (refresh_is (hash_token p raw)) w.refresh_tokens ≡ some stored
    unused : is_none stored.revoked_at ≡ true
    unexpired : has_expired stored.expires_at w.clock ≡ false
    owner_active : active_user stored.user_id w ≡ some user
    issued : Issued user tokens (save_token_revoked stored.id (aware w.clock) w) w'

  rotate_refresh_token-ok :
      (raw : Text) (w w' : World) {tokens : IssuedTokens}
      → rotate_refresh_token p settings dummy raw w ≡ (ok tokens, w')
      → Rotated raw tokens w w'
  unfolding rotate_refresh_token
  rotate_refresh_token-ok raw w w' h = on-step _ _ _ h refl λ h.
      on-read _ _ _ h refl λ stored found h. on-read _ _ _ h refl λ _ unused h.
        on-read _ _ _ h refl λ _ unexpired h. on-read _ _ _ h refl λ user is_active h. record {
          stored = stored;
          user = user;
          found = or_error-ok _ _ found;
          unused = checked-ok _ _ unused;
          unexpired = ground (arith, checked-ok _ _ unexpired);
          owner_active = or_error-ok _ _ is_active;
          issued = issue_tokens-ok user _ w' (on-modify _ _ _ h);
        }

  -- The rotated token is still found, and it is revoked.
  Rotated-found :
      (raw : Text) (w w' : World) {tokens : IssuedTokens}
      → (c : Rotated raw tokens w w')
      → scalar (refresh_is (hash_token p raw)) w'.refresh_tokens
        ≡ some (record (c.stored) { revoked_at = some (aware w.clock) })
  Rotated-found raw w w' c =
      let old =
        scalar-update_found (λ t. t.id) (refresh_is (hash_token p raw))
          (λ t. record t { revoked_at = some (aware w.clock) }) w.refresh_tokens c.stored
          (λ x. refl) c.found in
      rw c.issued.written (past_new _ c.issued.new_token _ _ old c.issued.fresh)

  -- Whoever presents a token that was rotated once, at any later time (only the clock moves until
  -- then), is refused with the code of a reused token, and nothing is written.
  pub rotate_refresh_token_once :
      (raw : Text) (w w' : World) (later : Datetime) {tokens : IssuedTokens}
      → rotate_refresh_token p settings dummy raw w ≡ (ok tokens, w')
      → rotate_refresh_token p settings dummy raw (record w' { clock = later })
        ≡ (err (app_error (authentication_error refresh_token_reused)), record w' { clock = later })
  unfolding rotate_refresh_token ◌>>=◌
  rotate_refresh_token_once raw w w' later h =
      let c = rotate_refresh_token-ok raw w w' h in rw (Rotated-found raw w w' c) refl

  -- A rotation that returns had an unexpired token that was not revoked, and the account of the
  -- token is active. The row of the new refresh token holds its hash and belongs to that account,
  -- and the only other change of the table is that the presented token is revoked.
  pub rotate_refresh_token_admits :
      (raw : Text) (w w' : World) {tokens : IssuedTokens}
      → rotate_refresh_token p settings dummy raw w ≡ (ok tokens, w')
      → (stored : RefreshToken) × (user : User) × (new_token : RefreshToken) × (scalar
            (refresh_is (hash_token p raw))
            w.refresh_tokens
          ≡ some stored)
        × (stored.revoked_at ≡ none)
        × (has_expired stored.expires_at w.clock ≡ false)
        × (active_user stored.user_id w ≡ some user)
        × (new_token.token_hash ≡ hash_token p tokens.refresh_token)
        × (new_token.user_id ≡ user.id)
        × (w'.refresh_tokens
            ≡ new_token ∷ (save_token_revoked stored.id (aware w.clock) w).refresh_tokens)
  rotate_refresh_token_admits raw w w' h =
      let c = rotate_refresh_token-ok raw w w' h in
      (
        c.stored,
        c.user,
        c.issued.new_token,
        c.found,
        ground (arith, c.unused),
        c.unexpired,
        c.owner_active,
        c.issued.hashed,
        c.issued.of_user,
        c.issued.written,
      )
