-- ===== src/Services/Webhooks/Signature/Built.antt =====
-- `build_webhook_signature` against `verify_webhook_signature`.
use tenantforge.Session.{checked}
use tenantforge.Services.Webhooks.Signature.{
  Signing, distance, signed_payload, signature_error, build_webhook_signature, verify_values,
  verify_webhook_signature, comma, split, partition, values_of, header_values,
}
use tenantforge.Prelude.{
  Bool, true, ◌||◌, ℤ, ◌*◌, ◌&&◌, some, scalar, exists, text_eq, leb, ℕ, ◌≡◌, refl, false, [], ◌∷◌,
  ◌++◌, Text, codes, is_space, Unspaced, strip-Unspaced, ◌==◌,
}
use tenantforge.Model.Errors.{◌>>=◌}

-- Texts of digits: neither blanks nor commas, as `str(number)` and `hexdigest()` give them.
abbrev pub IsPlain : Text → Type 0
IsPlain [] = Unit
IsPlain (c ∷ t) = ((c == comma) ≡ false) × (is_space c ≡ false) × IsPlain t

plain-Unspaced : (t : Text) → IsPlain t → Unspaced t
plain-Unspaced [] h = tt
plain-Unspaced (c ∷ t) h = (h.1, plain-Unspaced t h.2)

split-first :
    (part rest : Text)
    → IsPlain part
    → split comma (part ++ (comma ∷ rest)) ≡ part ∷ split comma rest
unfolding split
split-first [] rest h = refl
split-first (c ∷ part) rest h = rw (h.0, split-first part rest h.2) refl

split-last : (part : Text) → IsPlain part → split comma part ≡ part ∷ []
unfolding split
split-last [] h = refl
split-last (c ∷ part) h = rw (h.0, split-last part h.2) refl

-- The text of a number, or of a digest.
abbrev pub IsPrinted : Text → Type 0
IsPrinted [] = ⊥
IsPrinted (c ∷ t) = IsPlain (c ∷ t)

-- The two fields of a header that was built.
built_values :
    (time digest : Text)
    → IsPrinted time
    → IsPrinted digest
    → header_values (codes "t=" ++ (time ++ (codes ",v1=" ++ digest)))
      ≡ (codes "t", time) ∷ (codes "v1", digest) ∷ []
unfolding header_values values_of partition is_space
built_values [] digest ht hd = absurd ht
built_values (a ∷ time) [] ht hd = absurd hd
built_values (a ∷ time) (b ∷ digest) ht hd =
    let part_t : Text = codes "t=" ++ (a ∷ time) in
    let part_v : Text = codes "v1=" ++ (b ∷ digest) in
    let plain_t : IsPlain part_t = (refl, refl, (refl, refl, ht)) in
    let plain_v : IsPlain part_v = (refl, refl, (refl, refl, (refl, refl, hd))) in
    rw
      (
        split-first part_t part_v plain_t,
        split-last part_v plain_v,
        strip-Unspaced part_t (plain-Unspaced part_t plain_t),
        strip-Unspaced part_v (plain-Unspaced part_v plain_v),
      )
      refl

both_checked :
    (a b : Bool)
    → (checked a signature_error >>= λ _. checked (b || false) signature_error)
      ≡ checked (a && b) signature_error
both_checked true true = refl
both_checked true false = refl
both_checked false b = refl

-- A header that was built for one payload under one secret, and that is checked for another under
-- another: it passes exactly if its time is at most the tolerance away from now and both digests
-- are the same. With the same secret and payload the digests are the same. The texts of the time
-- and of the digest are neither empty nor hold a blank or a comma, and `int` reads the time back.
pub verify-build :
    (signing : Signing) (secret other payload received : Text) (timestamp : ℤ) (now tolerance : ℕ)
    → IsPrinted (signing.str_of_int timestamp)
    → IsPrinted (signing.hmac_sha256 secret (signed_payload signing payload timestamp))
    → signing.int_of_text (signing.str_of_int timestamp) ≡ some timestamp
    → verify_webhook_signature signing other received
        (some (build_webhook_signature signing secret payload timestamp))
        now
        tolerance
      ≡ checked
          (leb (distance now timestamp) (tolerance * 1000000)
            && text_eq
                (signing.hmac_sha256 secret (signed_payload signing payload timestamp))
                (signing.hmac_sha256 other (signed_payload signing received timestamp)))
          signature_error
unfolding verify_webhook_signature verify_values build_webhook_signature scalar exists text_eq
verify-build signing secret other payload received timestamp now tolerance ht hd reads =
    let digest = signing.hmac_sha256 secret (signed_payload signing payload timestamp) in
    rw (built_values (signing.str_of_int timestamp) digest ht hd, reads)
      (both_checked (leb (distance now timestamp) (tolerance * 1000000)) _)
