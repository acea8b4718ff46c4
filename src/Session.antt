-- ===== src/Session.antt =====
-- The SQLAlchemy session as a monad: an action reads and writes the database of its transaction
-- and may raise. What was flushed before a raise stays in the session's world; `transaction`,
-- which is `get_session` of app/database.py, commits it or rolls it back.
pub mod Rules
pub mod Keeps
use tenantforge.Prelude.{Bool, true, false, Option, none, some, if◌then◌else◌}
use tenantforge.Model.Errors.{Exception, app_error, AppError, Result, ok, err}
use tenantforge.Model.Tables.{World}

abbrev pub Action : Type 0 → Type 0
Action A = World → Result A × World

abbrev pub Done : Type 0
Done = Unit {0}

module _ {A : Type 0} where
  abbrev pub pure : A → Action A
  pure a w = (ok a, w)

  abbrev pub throw : Exception → Action A
  throw e w = (err e, w)

  abbrev pub gets : (World → A) → Action A
  gets f w = (ok (f w), w)

  -- `if row is None: raise e`
  abbrev pub or_error : Option A → AppError → Result A
  or_error none e = err (app_error e)
  or_error (some a) e = ok a

  -- `row = await session.scalar(...)`, then `if row is None: raise e`.
  abbrev pub find : (World → Option A) → AppError → Action A
  find query e w = (or_error (query w) e, w)

  -- A computation without a session, such as `add_month`, which may raise.
  abbrev pub lift : Result A → Action A
  lift r w = (r, w)

module _ {A B : Type 0} where
  -- The rest of a block, after the result of its first action.
  abbrev pub continue : Result A → (A → Action B) → Action B
  continue (ok a) f w = f a w
  continue (err e) f w = (err e, w)

  infixl 5 ◌>>=◌ ◌>>◌
  unfoldable pub ◌>>=◌ : Action A → (A → Action B) → Action B
  ◌>>=◌ m f w = let (r, w') = m w in continue r f w'

  abbrev pub ◌>>◌ : Action A → Action B → Action B
  m >> k = m >>= λ _. k

-- `if not test: raise e`
abbrev pub checked : Bool → AppError → Result Done
checked true e = ok tt
checked false e = err (app_error e)

abbrev pub ensure : Bool → AppError → Action Done
ensure c e w = (checked c e, w)

abbrev pub ensure_that : (World → Bool) → AppError → Action Done
ensure_that test e w = (checked (test w) e, w)

-- `if test: m`
abbrev pub when : Bool → Action Done → Action Done
when true m = m
when false m = pure tt

abbrev pub modify : (World → World) → Action Done
modify f w = (ok tt, f w)

-- `try: m; except IntegrityError: await session.rollback(); raise e`. The rollback returns to
-- the start of the transaction, which is the start of `m` in each use of it.
abbrev pub rolled_back : {A : Type 0} → AppError → World → Result A → Action A
rolled_back e w0 (ok a) w = (ok a, w)
rolled_back e w0 (err Exception.integrity_error) w = (err (app_error e), w0)
rolled_back e w0 (err other) w = (err other, w)

abbrev pub or_rollback : {A : Type 0} → Action A → AppError → Action A
or_rollback m e w = let (r, w') = m w in rolled_back e w r w'

-- `get_session`: commit on return, roll back on any exception.
abbrev pub commit : {A : Type 0} → World → Result A → Action A
commit w0 (ok a) w = (ok a, w)
commit w0 (err e) w = (err e, w0)

unfoldable pub transaction : {A : Type 0} → Action A → Action A
transaction m w = let (r, w') = m w in commit w r w'
