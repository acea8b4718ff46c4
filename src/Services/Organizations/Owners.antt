-- ===== src/Services/Organizations/Owners.antt =====
-- The owners among the rows of the membership table, under the writes that the services make.
use tenantforge.Prelude.{
  FallingKeys, ℕ, ◌≤◌, ◌≡◌, refl, Bool, true, false, ◌&&◌, ◌==◌, List, [], ◌∷◌, some, none, scalar,
  exists, update_where, delete_where, arith,
}
use tenantforge.Model.Enums.{Role, owner, role_eq}
use tenantforge.Model.Tables.{Uuid, Organization, Membership}
use tenantforge.Services.Organizations.{another_owner, membership_is}

abbrev pub owned_by : Uuid → Membership → Bool
owned_by o m = (m.organization_id == o) && role_eq m.role owner

abbrev pub HasOwner : List Membership → Organization → Type 0
HasOwner ms o = exists (owned_by o.id) ms ≡ true

-- The keys of the membership table.
abbrev pub Below : ℕ → List Membership → Type 0
Below = FallingKeys (λ m. m.id)

-- Past the bound no row has the identifier.
above_another :
    (g i : Uuid) (n : ℕ) (ms : List Membership)
    → Below n ms
    → n ≤ i
    → exists (owned_by g) ms ≡ true
    → exists (another_owner g i) ms ≡ true
unfolding exists
above_another g i n [] b h e = cc
above_another g i n (m ∷ ms) b h e = ground (arith, above_another g i m.id ms b.1)

above_none :
    (o i : Uuid) (n : ℕ) (ms : List Membership)
    → Below n ms
    → n ≤ i
    → scalar (membership_is o i) ms ≡ none
unfolding scalar
above_none o i n [] b h = refl
above_none o i n (m ∷ ms) b h = ground (arith, above_none o i m.id ms b.1)

-- Where the row found by its identifier is no owner of `g`, every owner of `g` is another row.
pub not_owned_another :
    (g o i : Uuid) (n : ℕ) (ms : List Membership) (t : Membership)
    → Below n ms
    → scalar (membership_is o i) ms ≡ some t
    → owned_by g t ≡ false
    → exists (owned_by g) ms ≡ true
    → exists (another_owner g i) ms ≡ true
unfolding exists scalar
not_owned_another g o i n [] t b f h e = cc
not_owned_another g o i n (m ∷ ms) t b f h e = ground (
  arith,
  not_owned_another g o i m.id ms t b.1,
  above_another g i m.id ms b.1,
  above_none o i m.id ms b.1,
)

-- Another owner stays an owner when the row with the identifier changes its role or goes.
pub another-set_role :
    (g i : Uuid) (r : Role) (ms : List Membership)
    → exists (another_owner g i) ms ≡ true
    → exists (owned_by g) (update_where (λ m. m.id == i) (λ m. record m { role = r }) ms) ≡ true
unfolding exists update_where
another-set_role g i r [] e = e
another-set_role g i r (m ∷ ms) e = ground (arith, another-set_role g i r ms)

pub another-delete :
    (g i : Uuid) (ms : List Membership)
    → exists (another_owner g i) ms ≡ true
    → exists (owned_by g) (delete_where (λ m. m.id == i) ms) ≡ true
unfolding exists delete_where
another-delete g i [] e = e
another-delete g i (m ∷ ms) e = ground (arith, another-delete g i ms)

-- Granting ownership takes none away.
pub owned-grant_owner :
    (g i : Uuid) (ms : List Membership)
    → exists (owned_by g) ms ≡ true
    → exists (owned_by g) (update_where (λ m. m.id == i) (λ m. record m { role = owner }) ms) ≡ true
unfolding exists update_where
owned-grant_owner g i [] e = e
owned-grant_owner g i (m ∷ ms) e = ground (arith, owned-grant_owner g i ms)

-- The members of one organization leave those of another alone.
pub owned-delete_organization :
    (g o : Uuid) (ms : List Membership)
    → (g == o) ≡ false
    → exists (owned_by g) ms ≡ true
    → exists (owned_by g) (delete_where (λ m. m.organization_id == o) ms) ≡ true
unfolding exists delete_where
owned-delete_organization g o [] h e = e
owned-delete_organization g o (m ∷ ms) h e = ground (arith, owned-delete_organization g o ms)
