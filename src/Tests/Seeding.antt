-- ===== src/Tests/Seeding.antt =====
-- The seed script, run twice.
use tenantforge.Model.Tables.{World}
use tenantforge.Tests.Fixtures.{primitives, day_of_january, database}
use tenantforge.Services.Rows.{
  has_user, has_organization, add_organization, add_membership, add_subscription, add_project,
}
use tenantforge.Security.Crypto.{draw}
use tenantforge.Scripts.Twice.{IsSeeded, seed_twice}
use tenantforge.Scripts.{
  add_verified_user, get_or_create_user, ensure_organization, ensure_membership, ensure_project,
  ensure_subscription, seed_rows, seed,
}
use tenantforge.Model.Time.{is_leap, days_in_month, next_day, add_days}
use tenantforge.Model.Errors.{ok}
use tenantforge.Session.{◌>>=◌, transaction}
use tenantforge.Prelude.{◌≡◌, refl, scalar, exists, text_eq}

abbrev seeded : World
seeded = (seed primitives database).1

seed_twice_example :
    IsSeeded seeded
    × (seed primitives (record seeded { clock = day_of_january 20 })
        ≡ (ok tt, record seeded { clock = day_of_january 20 }))
unfolding seed_rows get_or_create_user add_verified_user draw ensure_organization add_organization
    ensure_membership add_membership ensure_project add_project ensure_subscription add_subscription
    add_days next_day days_in_month is_leap has_user has_organization transaction scalar exists
    text_eq ◌>>=◌
seed_twice_example = seed_twice primitives database (day_of_january 20) {w1 = seeded} refl
