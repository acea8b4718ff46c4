-- ===== src/Prelude/Query.antt =====
-- A table is the list of its rows, newest first. These are the statements that the services
-- build: `select(...).where(...)`, its first row, `exists`, and writes to the rows that match.
use Prim.Native.Nat.{ℕ, zero, suc}
use mathlib.Core.Path.{◌≡◌, refl, subst}
use mathlib.Core.Logic.{inl, inr}
use mathlib.Core.Bool.{Bool, true, false, ◌||◌}
use mathlib.Core.List.{List, [], ◌∷◌, ◌++◌}
use mathlib.Core.Option.{Option, none, some}
use native.Mathlib.Omega.{arith}
use tenantforge.Prelude.Tests.{if◌then◌else◌, Bool-cases}

module _ {ℓ} {A : Type ℓ} where
  abbrev pub length : List A → ℕ
  length [] = 0
  length (x ∷ xs) = suc (length xs)

  abbrev pub get_elem? : List A → ℕ → Option A
  get_elem? [] i = none
  get_elem? (x ∷ xs) zero = some x
  get_elem? (x ∷ xs) (suc i) = get_elem? xs i

  -- `session.scalar(select(T).where(p))`: the first row, or `None`.
  unfoldable pub scalar : (A → Bool) → List A → Option A
  scalar p [] = none
  scalar p (x ∷ xs) = if p x then some x else scalar p xs

  -- `session.scalars(select(T).where(p)).all()`.
  unfoldable pub select : (A → Bool) → List A → List A
  select p [] = []
  select p (x ∷ xs) = if p x then x ∷ select p xs else select p xs

  -- `exists(select(T.id).where(p))`, and Python's `any`.
  unfoldable pub exists : (A → Bool) → List A → Bool
  exists p [] = false
  exists p (x ∷ xs) = p x || exists p xs

  -- The flush of a changed row, found by its primary key.
  unfoldable pub update_where : (A → Bool) → (A → A) → List A → List A
  update_where p f [] = []
  update_where p f (x ∷ xs) = (if p x then f x else x) ∷ update_where p f xs

  -- The flush of a deleted row, and a cascade.
  unfoldable pub delete_where : (A → Bool) → List A → List A
  delete_where p [] = []
  delete_where p (x ∷ xs) = if p x then delete_where p xs else x ∷ delete_where p xs

  -- `ORDER BY`: `before x y` says that `x` may stand before `y`.
  unfoldable pub insert_ordered : (A → A → Bool) → A → List A → List A
  insert_ordered before x [] = x ∷ []
  insert_ordered before x (y ∷ ys) =
      if before x y then x ∷ y ∷ ys else y ∷ insert_ordered before x ys

  unfoldable pub order_by : (A → A → Bool) → List A → List A
  order_by before [] = []
  order_by before (x ∷ xs) = insert_ordered before x (order_by before xs)

  -- `.limit(n)` and `.offset(n)`.
  unfoldable pub take : ℕ → List A → List A
  take zero xs = []
  take (suc n) [] = []
  take (suc n) (x ∷ xs) = x ∷ take n xs

  unfoldable pub drop : ℕ → List A → List A
  drop zero xs = xs
  drop (suc n) [] = []
  drop (suc n) (x ∷ xs) = drop n xs

  -- A predicate on every row, as tuples that the tactics read.
  abbrev pub All {κ} : (A → Type κ) → List A → Type κ
  All P [] = Unit
  All P (x ∷ xs) = P x × All P xs

module _ {ℓ} {A : Type ℓ} where
  pub scalar-holds : (p : A → Bool) (xs : List A) (x : A) → scalar p xs ≡ some x → p x ≡ true
  unfolding scalar
  scalar-holds p [] x h = cc
  scalar-holds p (y ∷ ys) x h = ground (arith, scalar-holds p ys x)

  -- What holds of every row holds of the one that a query returns.
  pub scalar-All {κ} :
      (P : A → Type κ) (p : A → Bool) (xs : List A) (x : A) → All P xs → scalar p xs ≡ some x → P x
  unfolding scalar
  scalar-All P p [] x a h = absurd (cc)
  scalar-All P p (y ∷ ys) x a h = elim (Bool-cases (p y)) [
    | inl e ↦ subst P (ground arith) a.0
    | inr e ↦ scalar-All P p ys x a.1 (ground arith)
  ]

  pub exists-scalar : (p : A → Bool) (xs : List A) → scalar p xs ≡ none → exists p xs ≡ false
  unfolding exists scalar
  exists-scalar p [] h = refl
  exists-scalar p (x ∷ xs) h = ground (arith, exists-scalar p xs)

  pub scalar-exists :
      (p : A → Bool) (xs : List A) (x : A) → scalar p xs ≡ some x → exists p xs ≡ true
  unfolding exists scalar
  scalar-exists p [] x h = cc
  scalar-exists p (y ∷ xs) x h = ground (arith, scalar-exists p xs x)

  -- After a deletion no row matches, and what never matched is where it was.
  pub select-delete_self : (p : A → Bool) (xs : List A) → select p (delete_where p xs) ≡ []
  unfolding select delete_where
  select-delete_self p [] = refl
  select-delete_self p (x ∷ xs) = ground (arith, select-delete_self p xs)

  pub select-delete :
      (q p : A → Bool) (xs : List A)
      → ((x : A) → q x ≡ true → p x ≡ false)
      → select q (delete_where p xs) ≡ select q xs
  unfolding select delete_where
  select-delete q p [] apart = refl
  select-delete q p (x ∷ xs) apart = ground (arith, apart x, select-delete q p xs apart)

  pub All-append {κ} : (P : A → Type κ) (xs ys : List A) → All P xs → All P ys → All P (xs ++ ys)
  All-append P [] ys hx hy = hy
  All-append P (x ∷ xs) ys hx hy = (hx.0, All-append P xs ys hx.1 hy)

  pub All-mono {κ μ} :
      (P : A → Type κ) (Q : A → Type μ) (xs : List A) → ((x : A) → P x → Q x) → All P xs → All Q xs
  All-mono P Q [] f h = tt
  All-mono P Q (x ∷ xs) f h = (f x h.0, All-mono P Q xs f h.1)

  pub All-delete {κ} :
      (P : A → Type κ) (p : A → Bool) (xs : List A) → All P xs → All P (delete_where p xs)
  unfolding delete_where
  All-delete P p [] h = tt
  All-delete P p (x ∷ xs) h = ground (arith, All-delete P p xs h.1)

  -- What is left after a deletion does not match.
  pub All-delete_rest {κ μ} :
      (P : A → Type κ) (Q : A → Type μ) (p : A → Bool) (xs : List A)
      → ((x : A) → p x ≡ false → P x → Q x)
      → All P xs
      → All Q (delete_where p xs)
  unfolding delete_where
  All-delete_rest P Q p [] k h = tt
  All-delete_rest P Q p (x ∷ xs) k h = elim (Bool-cases (p x)) [
    | inl e ↦ rw e (All-delete_rest P Q p xs k h.1)
    | inr e ↦ rw e (k x e h.0, All-delete_rest P Q p xs k h.1)
  ]

  pub All-update {κ} :
      (P : A → Type κ) (p : A → Bool) (f : A → A) (xs : List A)
      → ((x : A) → P x → P (f x))
      → All P xs
      → All P (update_where p f xs)
  unfolding update_where
  All-update P p f [] k h = tt
  All-update P p f (x ∷ xs) k h = elim (Bool-cases (p x)) [
    | inl e ↦ rw e (k x h.0, All-update P p f xs k h.1)
    | inr e ↦ rw e (h.0, All-update P p f xs k h.1)
  ]
