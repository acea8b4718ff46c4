-- ===== src/Infrastructure/Queue/Redaction.antt =====
-- `_redact_payload` of app/infrastructure/queue.py: no sensitive value reaches the dead letters.
use tenantforge.Prelude.{
  ◌≡◌, refl, sym, ap, inl, inr, Bool, true, false, ◌&&◌, arith, codes, text_eq, text_eq_refl,
  text_eq→eq, if◌then◌else◌, Bool-cases,
}
use tenantforge.Infrastructure.Queue.{is_sensitive, redacted, redact, redact_items, redact_fields}
use tenantforge.Model.Json.{Json, Items, Fields}

-- A text that is the replacement.
abbrev pub is_redacted : Json → Bool
is_redacted (Json.str t) = text_eq t (codes "[redacted]")
is_redacted _ = false

unfoldable mutual
  -- No entry under a sensitive key, at any depth, holds anything but the replacement.
  pub is_clean : Json → Bool
  is_clean Json.null = true
  is_clean (Json.bool b) = true
  is_clean (Json.int i) = true
  is_clean (Json.float t) = true
  is_clean (Json.str t) = true
  is_clean (Json.arr items) = is_clean_items items
  is_clean (Json.obj entries) = is_clean_fields entries

  pub is_clean_items : Items → Bool
  is_clean_items Items.nil = true
  is_clean_items (Items.cons v items) = is_clean v && is_clean_items items

  pub is_clean_fields : Fields → Bool
  is_clean_fields Fields.end = true
  is_clean_fields (Fields.field key v entries) =
      (if is_sensitive key then is_redacted v else is_clean v) && is_clean_fields entries

mutual
  unfolding is_clean is_clean_items is_clean_fields redact redact_items redact_fields

  clean : (v : Json) → is_clean (redact v) ≡ true
  clean Json.null = refl
  clean (Json.bool b) = refl
  clean (Json.int i) = refl
  clean (Json.float t) = refl
  clean (Json.str t) = refl
  clean (Json.arr items) = clean_items items
  clean (Json.obj entries) = clean_fields entries

  clean_items : (items : Items) → is_clean_items (redact_items items) ≡ true
  clean_items Items.nil = refl
  clean_items (Items.cons v items) = rw (clean v) (clean_items items)

  clean_fields : (entries : Fields) → is_clean_fields (redact_fields entries) ≡ true
  clean_fields Fields.end = refl
  clean_fields (Fields.field key v entries) = elim (Bool-cases (is_sensitive key)) [
    | inl e ↦ rw (e, text_eq_refl (codes "[redacted]")) (clean_fields entries)
    | inr e ↦ rw (e, clean v) (clean_fields entries)
  ]

is_redacted→eq : (v : Json) → is_redacted v ≡ true → redacted ≡ v
is_redacted→eq (Json.str t) h = ap (λ x. Json.str x) (sym (text_eq→eq t (codes "[redacted]") h))
is_redacted→eq Json.null h = absurd (cc)
is_redacted→eq (Json.bool b) h = absurd (cc)
is_redacted→eq (Json.int i) h = absurd (cc)
is_redacted→eq (Json.float t) h = absurd (cc)
is_redacted→eq (Json.arr items) h = absurd (cc)
is_redacted→eq (Json.obj entries) h = absurd (cc)

mutual
  unfolding is_clean is_clean_items is_clean_fields redact redact_items redact_fields

  untouched : (v : Json) → is_clean v ≡ true → redact v ≡ v
  untouched Json.null h = refl
  untouched (Json.bool b) h = refl
  untouched (Json.int i) h = refl
  untouched (Json.float t) h = refl
  untouched (Json.str t) h = refl
  untouched (Json.arr items) h = ap (λ x. Json.arr x) (untouched_items items h)
  untouched (Json.obj entries) h = ap (λ x. Json.obj x) (untouched_fields entries h)

  untouched_items : (items : Items) → is_clean_items items ≡ true → redact_items items ≡ items
  untouched_items Items.nil h = refl
  untouched_items (Items.cons v items) h =
      cc (untouched v (ground arith), untouched_items items (ground arith))

  untouched_fields :
      (entries : Fields) → is_clean_fields entries ≡ true → redact_fields entries ≡ entries
  untouched_fields Fields.end h = refl
  untouched_fields (Fields.field key v entries) h = elim (Bool-cases (is_sensitive key)) [
    | inl e ↦ rw e (cc (is_redacted→eq v (ground arith), untouched_fields entries (ground arith)))
    | inr e ↦ rw e (cc (untouched v (ground arith), untouched_fields entries (ground arith)))
  ]

-- After `_redact_payload`, every entry under a sensitive key, at any depth of the value, holds the
-- replacement; and to redact again changes nothing.
pub redact-is_clean : (v : Json) → (is_clean (redact v) ≡ true) × (redact (redact v) ≡ redact v)
redact-is_clean v = (clean v, untouched (redact v) (clean v))
