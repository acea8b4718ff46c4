-- ===== src/Prelude/Ids.antt =====
-- Primary keys. New rows stand first and take the next number, so the keys fall along a table and
-- stay under the next one: no two rows share a key, and a write by key touches one row.
use Prim.Native.Nat.{ℕ, ◌≤◌, ◌<◌}
use mathlib.Core.Path.{◌≡◌, refl}
use mathlib.Core.Bool.{Bool, false}
use mathlib.Core.List.{List, [], ◌∷◌}
use mathlib.Core.Option.{some}
use native.Mathlib.Omega.{arith}
use tenantforge.Prelude.Tests.{◌==◌}
use tenantforge.Prelude.Query.{scalar, select, update_where, delete_where}

module _ {A : Type 0} (key : A → ℕ) where
  abbrev pub FallingKeys : ℕ → List A → Type 0
  FallingKeys n [] = Unit {0}
  FallingKeys n (x ∷ xs) = (key x < n) × FallingKeys (key x) xs

  pub FallingKeys-mono : (m n : ℕ) (xs : List A) → m ≤ n → FallingKeys m xs → FallingKeys n xs
  FallingKeys-mono m n [] h b = tt
  FallingKeys-mono m n (x ∷ xs) h b = (omega arith, b.1)

  pub FallingKeys-update :
      (p : A → Bool) (f : A → A) (n : ℕ) (xs : List A)
      → ((x : A) → key (f x) ≡ key x)
      → FallingKeys n xs
      → FallingKeys n (update_where p f xs)
  unfolding update_where
  FallingKeys-update p f n [] same b = tt
  FallingKeys-update p f n (x ∷ xs) same b =
      ground (arith, same x, FallingKeys-update p f (key x) xs same b.1)

  pub FallingKeys-delete :
      (p : A → Bool) (n : ℕ) (xs : List A) → FallingKeys n xs → FallingKeys n (delete_where p xs)
  unfolding delete_where
  FallingKeys-delete p n [] b = tt
  FallingKeys-delete p n (x ∷ xs) b =
      ground
        (arith, FallingKeys-delete p (key x) xs b.1, FallingKeys-mono (key x) n (delete_where p xs))

  pub scalar-key-lt :
      (p : A → Bool) (n : ℕ) (xs : List A) (t : A)
      → FallingKeys n xs
      → scalar p xs ≡ some t
      → key t < n
  unfolding scalar
  scalar-key-lt p n [] t b e = absurd (cc)
  scalar-key-lt p n (x ∷ xs) t b e = ground (arith, scalar-key-lt p (key x) xs t b.1)

  update-above :
      (f : A → A) (n i : ℕ) (xs : List A)
      → FallingKeys n xs
      → n ≤ i
      → update_where (λ x. key x == i) f xs ≡ xs
  unfolding update_where
  update-above f n i [] b h = refl
  update-above f n i (x ∷ xs) b h = ground (arith, update-above f (key x) i xs b.1)

  delete-above :
      (n i : ℕ) (xs : List A) → FallingKeys n xs → n ≤ i → delete_where (λ x. key x == i) xs ≡ xs
  unfolding delete_where
  delete-above n i [] b h = refl
  delete-above n i (x ∷ xs) b h = ground (arith, delete-above (key x) i xs b.1)

  -- A change of the row `t` by its key is not seen by a query that `t` does not match, before or
  -- after.
  pub select-update_other :
      (q p : A → Bool) (f : A → A) (n : ℕ) (xs : List A) (t : A)
      → FallingKeys n xs
      → scalar p xs ≡ some t
      → q t ≡ false
      → q (f t) ≡ false
      → select q (update_where (λ x. key x == key t) f xs) ≡ select q xs
  unfolding scalar select update_where
  select-update_other q p f n [] t b e h h' = refl
  select-update_other q p f n (x ∷ xs) t b e h h' = ground (
    arith,
    select-update_other q p f (key x) xs t b.1,
    update-above f (key x) (key t) xs b.1,
    scalar-key-lt p (key x) xs t b.1,
  )

  -- Nor is its deletion.
  pub select-delete_other :
      (q p : A → Bool) (n : ℕ) (xs : List A) (t : A)
      → FallingKeys n xs
      → scalar p xs ≡ some t
      → q t ≡ false
      → select q (delete_where (λ x. key x == key t) xs) ≡ select q xs
  unfolding scalar select delete_where
  select-delete_other q p n [] t b e h = refl
  select-delete_other q p n (x ∷ xs) t b e h = ground (
    arith,
    select-delete_other q p (key x) xs t b.1,
    delete-above (key x) (key t) xs b.1,
    scalar-key-lt p (key x) xs t b.1,
  )

  -- The row that a query found is found again after a change by its key that the query does not
  -- see.
  pub scalar-update_found :
      (q : A → Bool) (f : A → A) (xs : List A) (t : A)
      → ((x : A) → q (f x) ≡ q x)
      → scalar q xs ≡ some t
      → scalar q (update_where (λ x. key x == key t) f xs) ≡ some (f t)
  unfolding scalar update_where
  scalar-update_found q f [] t same e = absurd (cc)
  scalar-update_found q f (x ∷ xs) t same e =
      ground (arith, same x, scalar-update_found q f xs t same)

  -- A row that takes the place of the one with its key.
  pub FallingKeys-save :
      (r : A) (n : ℕ) (xs : List A)
      → FallingKeys n xs
      → FallingKeys n (update_where (λ x. key x == key r) (λ _. r) xs)
  unfolding update_where
  FallingKeys-save r n [] b = tt
  FallingKeys-save r n (x ∷ xs) b = ground (arith, FallingKeys-save r (key x) xs b.1)
