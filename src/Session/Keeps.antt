-- ===== src/Session/Keeps.antt =====
-- Invariants of actions, however they end: one rule for each way to build an action.
use tenantforge.Prelude.{Bool, true, false, Option}
use tenantforge.Model.Errors.{Exception, AppError, app_error, integrity_error, Result, ok, err}
use tenantforge.Model.Tables.{World}
use tenantforge.Session.{
  Action, Done, continue, ◌>>=◌, pure, throw, gets, find, ensure, ensure_that, lift, when, modify,
  rolled_back, or_rollback, commit, transaction,
}

-- `m` keeps `P`, whether it returns or raises.
pub record Keeps {A : Type 0} (P : World → Type 0) (m : Action A) : Type 0 where
  pub at : (w : World) → P w → P (m w).1

-- `P` survives the change `g`.
pub record Survives (P : World → Type 0) (g : World → World) : Type 0 where
  pub at : (w : World) → P w → P (g w)

module _ {A : Type 0} (P : World → Type 0) where
  back : (e : AppError) (w w' : World) (r : Result A) → P w → P w' → P (rolled_back e w r w').1
  back e w w' (ok a) h h' = h'
  back e w w' (err integrity_error) h h' = h
  back e w w' (err (app_error x)) h h' = h'
  back e w w' (err Exception.redis_error) h h' = h'
  back e w w' (err Exception.validation_error) h h' = h'
  back e w w' (err Exception.value_error) h h' = h'
  back e w w' (err Exception.overflow_error) h h' = h'

  settled : (w w' : World) (r : Result A) → P w → P w' → P (commit w r w').1
  settled w w' (ok a) h h' = h'
  settled w w' (err e) h h' = h

module _ {A : Type 0} {P : World → Type 0} where
  pub Keeps-pure : (a : A) → Keeps P (pure a)
  Keeps-pure a = record { at = λ w h. h }

  pub Keeps-throw : (e : Exception) → Keeps P (throw {A = A} e)
  Keeps-throw e = record { at = λ w h. h }

  pub Keeps-gets : (f : World → A) → Keeps P (gets f)
  Keeps-gets f = record { at = λ w h. h }

  pub Keeps-find : (f : World → Option A) (e : AppError) → Keeps P (find f e)
  Keeps-find f e = record { at = λ w h. h }

  pub Keeps-lift : (r : Result A) → Keeps P (lift r)
  Keeps-lift r = record { at = λ w h. h }

  pub Keeps-or_rollback : (m : Action A) (e : AppError) → Keeps P m → Keeps P (or_rollback m e)
  Keeps-or_rollback m e k = record { at = λ w h. let (r, w') = m w in back P e w w' r h (k.at w h) }

  pub Keeps-transaction : (m : Action A) → Keeps P m → Keeps P (transaction m)
  unfolding transaction
  Keeps-transaction m k = record { at = λ w h. let (r, w') = m w in settled P w w' r h (k.at w h) }

module _ {P : World → Type 0} where
  pub Keeps-ensure : (c : Bool) (e : AppError) → Keeps P (ensure c e)
  Keeps-ensure c e = record { at = λ w h. h }

  pub Keeps-ensure_that : (test : World → Bool) (e : AppError) → Keeps P (ensure_that test e)
  Keeps-ensure_that test e = record { at = λ w h. h }

  pub Keeps-when : (c : Bool) (m : Action Done) → Keeps P m → Keeps P (when c m)
  Keeps-when true m k = k
  Keeps-when false m k = record { at = λ w h. h }

  pub Keeps-modify : (g : World → World) → Survives P g → Keeps P (modify g)
  Keeps-modify g k = record { at = k.at }

module _ {A B : Type 0} {P : World → Type 0} where
  rest_keeps :
      (r : Result A) (f : A → Action B) (w : World)
      → P w
      → ((a : A) → Keeps P (f a))
      → P (continue r f w).1
  rest_keeps (ok a) f w h k = (k a).at w h
  rest_keeps (err e) f w h k = h

  pub Keeps-bind :
      (m : Action A) (f : A → Action B) → Keeps P m → ((a : A) → Keeps P (f a)) → Keeps P (m >>= f)
  unfolding ◌>>=◌
  Keeps-bind m f k kf = record { at = λ w h. let (r, w') = m w in rest_keeps r f w' (k.at w h) kf }

pub ruleset keeps_rules = (
  Keeps-pure, Keeps-throw, Keeps-gets, Keeps-find, Keeps-lift, Keeps-ensure, Keeps-ensure_that,
  Keeps-when, Keeps-modify, Keeps-bind, Keeps-or_rollback,
)
