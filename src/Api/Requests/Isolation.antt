-- ===== src/Api/Requests/Isolation.antt =====
-- Tenant isolation: a request under one organization, and the rows of another.
pub mod Meters
pub mod Tenants
use tenantforge.Session.Keeps.{Keeps}
use tenantforge.Session.{Action}
use tenantforge.Services.Organizations.Deletion.{TenantRows}
use tenantforge.Services.Isolation.{TenantKeys, Apart}
use tenantforge.Model.Tables.{Uuid, World}
use tenantforge.Model.Errors.{Result, err, ok}
use tenantforge.Api.Requests.Serves.{Serves, Settled}
use tenantforge.Api.Email.{new_uuid}
use tenantforge.Api.{App, Endpoint, on_db, proceed, ◌>>=◌}
use tenantforge.Prelude.{◌≡◌, refl, ap}

module _ (g : Uuid) (rows : TenantRows) where
  -- What holds when a request comes: the rows of `g`, and keys that tell rows apart.
  pub record Guarded (w : World) : Type 0 where
    pub unseen : Apart g rows w
    pub keys : TenantKeys w

  -- An endpoint that starts from such databases and leaves the rows of `g`.
  pub record Leaves {A : Type 0} (m : Endpoint A) : Type 0 where
    pub at : (app : App) → Guarded app.db → Guarded app.saved → Settled (Apart g rows) (m app)

  settled_after :
      {A B : Type 0} (r : Result A) (rest : A → Endpoint B) (app : App)
      → Settled Guarded (r, app)
      → ((a : A) → r ≡ ok a → Leaves (rest a))
      → Settled (Apart g rows) (proceed r rest app)
  settled_after (ok a) rest app v k = (k a refl).at app v.0 v.1
  settled_after (err e) rest app v k = v.unseen

  -- A dependency comes first, and the rest knows what it returned.
  pub Leaves-first :
      {A B : Type 0} (m : Endpoint A) (rest : A → Endpoint B)
      → Serves Guarded m
      → ((a : A) (app app1 : App) → m app ≡ (ok a, app1) → Leaves (rest a))
      → Leaves (m >>= rest)
  unfolding ◌>>=◌
  Leaves-first m rest k kr = record {
    at = λ app v vs.
        let (r, app1) = m app in
        settled_after r rest app1 (k.at app v vs) (λ a e. kr a app app1 (ap (λ x. (x, app1)) e));
  }

  pub Leaves-after :
      {A B : Type 0} (m : Endpoint A) (rest : A → Endpoint B)
      → Serves Guarded m
      → ((a : A) → Leaves (rest a))
      → Leaves (m >>= rest)
  Leaves-after m rest k kr = Leaves-first m rest k (λ a app app1 e. kr a)

  settled_service :
      {A B : Type 0} (r : Result A) (w : World) (rest : A → Endpoint B) (app : App)
      → Apart g rows w
      → Apart g rows app.saved
      → ((a : A) → Serves (Apart g rows) (rest a))
      → Settled (Apart g rows) (proceed r rest (record app { db = w }))
  settled_service (ok a) w rest app h hs k = (k a).at (record app { db = w }) h hs
  settled_service (err e) w rest app h hs k = hs

  -- Then the service is called.
  pub Leaves-service :
      {A B : Type 0} (m : Action A) (rest : A → Endpoint B)
      → ((w : World) → Guarded w → Apart g rows (m w).1)
      → ((a : A) → Serves (Apart g rows) (rest a))
      → Leaves (on_db m >>= rest)
  unfolding ◌>>=◌ on_db
  Leaves-service m rest k kr = record {
    at =
        λ app v vs. let (r, w) = m app.db in settled_service r w rest app (k app.db v) vs.unseen kr;
  }

  -- A service that needs no keys.
  pub Leaves-kept :
      {A B : Type 0} (m : Action A) (rest : A → Endpoint B)
      → Keeps (Apart g rows) m
      → ((a : A) → Serves (Apart g rows) (rest a))
      → Leaves (on_db m >>= rest)
  Leaves-kept m rest k kr = Leaves-service m rest (λ w v. k.at w v.unseen) kr

  pub new_uuid-Apart : Keeps (Apart g rows) new_uuid
  unfolding new_uuid
  new_uuid-Apart = record { at = λ w h. h }
