-- ===== src/Session/Rules.antt =====
-- Blocks taken apart. A run that returned tells what each of its actions did: each rule turns the
-- equation of a block into that of the rest of it.
use tenantforge.Prelude.{
  if◌then◌else◌, Bool-cases, inr, inl, ◌⊎◌, ◌≡◌, refl, ap, subst, Bool, true, false, Option, none,
  some, arith,
}
use tenantforge.Model.Errors.{Exception, AppError, app_error, integrity_error, Result, ok, err}
use tenantforge.Model.Tables.{World}
use tenantforge.Session.{
  Action, Done, continue, ◌>>=◌, or_error, checked, modify, ensure_that, when, rolled_back, commit,
  transaction,
}

module _ {A B : Type 0} {C : Type 0} where
  continued :
      (r : Result A) (f : A → Action B) (w : World) {b : B} {w' : World}
      → continue r f w ≡ (ok b, w')
      → ((a : A) → r ≡ ok a → f a w ≡ (ok b, w') → C)
      → C
  continued (ok a) f w h k = k a refl h
  continued (err e) f w h k = absurd (cc)

  -- The first action returned, and then the rest did.
  pub on-bind :
      (m : Action A) (f : A → Action B) (w : World) {b : B} {w' : World}
      → (m >>= f) w ≡ (ok b, w')
      → ((a : A) (w1 : World) → m w ≡ (ok a, w1) → f a w1 ≡ (ok b, w') → C)
      → C
  unfolding ◌>>=◌
  on-bind m f w h k =
      let (r, w1) = m w in continued r f w1 h (λ a e rest. k a w1 (ap (λ x. (x, w1)) e) rest)

  -- The first action only reads.
  pub on-read :
      (m : Action A) (f : A → Action B) (w : World) {r : Result A} {b : B} {w' : World}
      → (m >>= f) w ≡ (ok b, w')
      → m w ≡ (r, w)
      → ((a : A) → r ≡ ok a → f a w ≡ (ok b, w') → C)
      → C
  unfolding ◌>>=◌
  on-read m f w {r} {b} {w'} h reads k =
      continued r f w (subst (λ x. continue x.0 f x.1 ≡ (ok b, w')) reads h) k

  -- The first action always returns.
  pub on-step :
      (m : Action A) (f : A → Action B) (w : World) {a : A} {w1 : World} {b : B} {w' : World}
      → (m >>= f) w ≡ (ok b, w')
      → m w ≡ (ok a, w1)
      → (f a w1 ≡ (ok b, w') → C)
      → C
  unfolding ◌>>=◌
  on-step m f w {b = b} {w' = w'} h runs k = k (subst (λ x. continue x.0 f x.1 ≡ (ok b, w')) runs h)

module _ {A : Type 0} {C : Type 0} where
  -- The first action adds a row, unless a constraint is violated.
  pub on-insert :
      {B : Type 0} (m : Action A) (f : A → Action B) (w : World) (c : Bool) (e : Exception)
      (row : A) (w1 : World) {b : B} {w' : World}
      → (m >>= f) w ≡ (ok b, w')
      → m w ≡ (if c then (err e, w) else (ok row, w1))
      → (c ≡ false → f row w1 ≡ (ok b, w') → C)
      → C
  unfolding ◌>>=◌
  on-insert m f w c e row w1 h adds k = elim (Bool-cases c) [
    | inl bad ↦ absurd (ground arith)
    | inr good ↦ k good (ground arith)
  ]

  -- The last action of a block adds a row.
  pub on-insert_last :
      (run : Result A × World) (c : Bool) (e : Exception) (row : A) (w w1 : World) {b : A}
      {w' : World}
      → run ≡ (ok b, w')
      → run ≡ (if c then (err e, w) else (ok row, w1))
      → (c ≡ false → row ≡ b → w1 ≡ w' → C)
      → C
  on-insert_last run c e row w w1 h adds k = elim (Bool-cases c) [
    | inl bad ↦ absurd (ground arith)
    | inr good ↦ k good (ground arith) (ground arith)
  ]

  -- The same, where the test is that the constraints hold.
  pub on-append_last :
      (run : Result A × World) (c : Bool) (e : Exception) (row : A) (w w1 : World) {b : A}
      {w' : World}
      → run ≡ (ok b, w')
      → run ≡ (if c then (ok row, w1) else (err e, w))
      → (c ≡ true → row ≡ b → w1 ≡ w' → C)
      → C
  on-append_last run c e row w w1 h adds k = elim (Bool-cases c) [
    | inl good ↦ k good (ground arith) (ground arith)
    | inr bad ↦ absurd (ground arith)
  ]

-- The first action changes the database and cannot fail.
pub on-modify :
    {B : Type 0} (g : World → World) (f : Done → Action B) (w : World) {b : B} {w' : World}
    → (modify g >>= f) w ≡ (ok b, w')
    → f tt (g w) ≡ (ok b, w')
unfolding ◌>>=◌
on-modify g f w h = h

module _ {B : Type 0} {C : Type 0} where
  -- The first action is skipped, or it is run.
  pub on-when :
      (c : Bool) (m : Action Done) (f : Done → Action B) (w : World) {b : B} {w' : World}
      → (when c m >>= f) w ≡ (ok b, w')
      → (c ≡ false → f tt w ≡ (ok b, w') → C)
      → (c ≡ true → (m >>= f) w ≡ (ok b, w') → C)
      → C
  unfolding ◌>>=◌
  on-when true m f w h skip run = run refl h
  on-when false m f w h skip run = skip refl h

-- The last action of a block is skipped, or it is run.
pub on-when_last :
    {C : Type 0} (c : Bool) (m : Action Done) (w : World) {d : Done} {w' : World}
    → when c m w ≡ (ok d, w')
    → (c ≡ false → w ≡ w' → C)
    → (c ≡ true → m w ≡ (ok d, w') → C)
    → C
on-when_last true m w h skip run = run refl h
on-when_last false m w h skip run = skip refl (ap (λ x. x.1) h)

module _ {A : Type 0} where
  pub or_error-ok : (o : Option A) (e : AppError) {a : A} → or_error o e ≡ ok a → o ≡ some a
  or_error-ok none e h = cc
  or_error-ok (some a) e h = cc

  pub rolled_back-ok :
      (e : AppError) (w0 : World) (r : Result A) (w : World) {a : A} {w' : World}
      → rolled_back e w0 r w ≡ (ok a, w')
      → ◌≡◌ {A = Result A × World} (r, w) (ok a, w')
  rolled_back-ok e w0 (ok a) w h = h
  rolled_back-ok e w0 (err integrity_error) w h = absurd (cc)
  rolled_back-ok e w0 (err (app_error x)) w h = absurd (cc)
  rolled_back-ok e w0 (err Exception.redis_error) w h = absurd (cc)
  rolled_back-ok e w0 (err Exception.validation_error) w h = absurd (cc)
  rolled_back-ok e w0 (err Exception.value_error) w h = absurd (cc)
  rolled_back-ok e w0 (err Exception.overflow_error) w h = absurd (cc)

pub checked-ok : (c : Bool) (e : AppError) {d : Done} → checked c e ≡ ok d → c ≡ true
checked-ok true e h = refl
checked-ok false e h = cc

-- A check that is made only under a test.
pub on-guard :
    {B C : Type 0} (c : Bool) (test : World → Bool) (e : AppError) (f : Done → Action B) (w : World)
    {b : B} {w' : World}
    → (when c (ensure_that test e) >>= f) w ≡ (ok b, w')
    → ((c ≡ false) ⊎ (test w ≡ true) → f tt w ≡ (ok b, w') → C)
    → C
on-guard c test e f w h k =
    on-when c _ f w h (λ skipped h. k (inl skipped) h)
      λ _ h. on-read _ f w h refl λ _ held h. k (inr (checked-ok (test w) e held)) h

committed :
    {A : Type 0} (P : World → Type 0) (r : Result A) (w w' : World)
    → P w
    → ((a : A) → r ≡ ok a → P w')
    → P (commit w r w').1
committed P (ok a) w w' h k = k a refl
committed P (err e) w w' h k = h

-- A transaction keeps what its action keeps when it returns.
pub transaction-keeps :
    {A : Type 0} (P : World → Type 0) (m : Action A) (w : World)
    → P w
    → ((a : A) (w' : World) → m w ≡ (ok a, w') → P w')
    → P (transaction m w).1
unfolding transaction
transaction-keeps P m w h k =
    let (r, w') = m w in committed P r w w' h (λ a e. k a w' (ap (λ x. (x, w')) e))

-- A failed transaction leaves the database as it was.
pub transaction-err :
    {A : Type 0} (m : Action A) (w : World) {e : Exception}
    → (transaction m w).0 ≡ err e
    → (transaction m w).1 ≡ w
unfolding transaction
transaction-err m w h = ground arith

committed_ok :
    {A : Type 0} (r : Result A) (w w' : World) {a : A} {w1 : World}
    → commit w r w' ≡ (ok a, w1)
    → ◌≡◌ {A = Result A × World} (r, w') (ok a, w1)
committed_ok (ok a) w w' h = h
committed_ok (err e) w w' h = absurd (cc)

-- A committed transaction is a run that returned.
pub transaction-ok :
    {A : Type 0} (m : Action A) (w : World) {a : A} {w1 : World}
    → transaction m w ≡ (ok a, w1)
    → m w ≡ (ok a, w1)
unfolding transaction
transaction-ok m w h = let (r, w') = m w in committed_ok r w w' h
