-- ===== src/Services/Webhooks/Signature/Verified.antt =====
-- What `verify_webhook_signature` accepts.
use tenantforge.Session.Rules.{or_error-ok, checked-ok}
use tenantforge.Session.{Done, or_error, checked}
use tenantforge.Services.Webhooks.Signature.{
  Signing, split, partition, values_of, header_values, key_is, timestamp_of, distance,
  signed_payload, is_signature, signature_error, verify_values, verify_webhook_signature, IsSigned,
}
use tenantforge.Model.Errors.{first_returns, ok}
use tenantforge.Prelude.{
  [], ◌∷◌, ℕ, ◌*◌, ◌≡◌, refl, ◌↔◌, true, some, arith, scalar, exists, Text, codes, strip, leb,
  leb→le,
}

module _ (signing : Signing) (secret payload : Text) (now tolerance : ℕ) where
  values-IsSigned :
      (header : Text) {d : Done}
      → verify_values signing secret payload now tolerance (header_values header) ≡ ok d
      → IsSigned signing secret payload now tolerance header
  unfolding verify_values
  values-IsSigned header h =
      let values = header_values header in
      let (t, dated, h1) =
        first_returns
          (or_error (timestamp_of signing (scalar (key_is (codes "t")) values)) signature_error) _
          h in
      let (_, recent, signs) =
        first_returns (checked (leb (distance now t) (tolerance * 1000000)) signature_error) _ h1 in
      record {
        timestamp = t;
        dated = or_error-ok (timestamp_of signing (scalar (key_is (codes "t")) values)) _ dated;
        recent = leb→le _ _ (checked-ok (leb (distance now t) (tolerance * 1000000)) _ recent);
        signed =
            checked-ok
              (exists (is_signature (signing.hmac_sha256 secret (signed_payload signing payload t)))
                values)
              _ signs;
      }

  signed-values :
      (header : Text)
      → IsSigned signing secret payload now tolerance header
      → verify_values signing secret payload now tolerance (header_values header) ≡ ok tt
  unfolding verify_values
  signed-values header v =
      let recent : leb (distance now v.timestamp) (tolerance * 1000000) ≡ true =
        ground (arith, v.recent) in
      rw (v.dated, recent, v.signed) refl

  -- An empty header has no values.
  empty-IsSigned : ¬ IsSigned signing secret payload now tolerance []
  unfolding header_values split values_of partition strip scalar
  empty-IsSigned v = absurd (cc (v.dated))

  -- A header is accepted exactly if its first `t` is the text of an integer, that time is at most
  -- the tolerance away from now, on either side, and one of its `v1` is the digest, under the
  -- secret, of that time and the payload.
  pub verify_webhook_signature_iff :
      (header : Text)
      → (verify_webhook_signature signing secret payload (some header) now tolerance ≡ ok tt)
        ↔ IsSigned signing secret payload now tolerance header
  unfolding verify_webhook_signature
  verify_webhook_signature_iff [] = (λ h. absurd (cc), λ v. absurd (empty-IsSigned v))
  verify_webhook_signature_iff (c ∷ header) =
      (λ h. values-IsSigned (c ∷ header) h, λ v. signed-values (c ∷ header) v)
