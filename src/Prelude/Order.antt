-- ===== src/Prelude/Order.antt =====
-- `ORDER BY`, `LIMIT` and `OFFSET`: the page of a listing.
use mathlib.Core.Path.{◌≡◌, refl, sym}
use mathlib.Core.Logic.{inl, inr}
use mathlib.Core.Bool.{Bool, true, false}
use mathlib.Core.List.{List, [], ◌∷◌, ◌++◌, Perm}
use mathlib.Core.List.Perm
use native.Mathlib.Omega.{arith}
use Prim.Native.Nat.{ℕ, zero, suc, ◌-◌, min}
use tenantforge.Prelude.Tests.{Bool-cases}
use tenantforge.Prelude.Query.{insert_ordered, order_by, take, drop, length}

module _ {A : Type 0} (before : A → A → Bool) where
  -- No row stands directly after one that it precedes.
  abbrev pub IsOrdered : List A → Type 0
  IsOrdered [] = Unit {0}
  IsOrdered (x ∷ []) = Unit {0}
  IsOrdered (x ∷ y ∷ ys) = (before y x ≡ false) × IsOrdered (y ∷ ys)

  insert-IsOrdered :
      ((a b : A) → before a b ≡ true → before b a ≡ false)
      → (x : A) (ys : List A) → IsOrdered ys
      → IsOrdered (insert_ordered before x ys)
  unfolding insert_ordered
  insert-IsOrdered asym x [] h = tt
  insert-IsOrdered asym x (y ∷ []) h = elim (Bool-cases (before x y)) [
    | inl e ↦ rw e (asym x y e, tt)
    | inr e ↦ rw e (e, tt)
  ]
  insert-IsOrdered asym x (y ∷ z ∷ zs) h =
      let rest = insert-IsOrdered asym x (z ∷ zs) h.1 in
      elim (Bool-cases (before x y)) [
        | inl e ↦ rw e (asym x y e, h)
        | inr e ↦ elim (Bool-cases (before x z)) [
          | inl e' ↦ rw (e, e') (e, (rw e' at rest))
          | inr e' ↦ rw (e, e') (h.0, (rw e' at rest))
        ]
      ]

  pub order_by-IsOrdered :
      ((a b : A) → before a b ≡ true → before b a ≡ false)
      → (xs : List A) → IsOrdered (order_by before xs)
  unfolding order_by
  order_by-IsOrdered asym [] = tt
  order_by-IsOrdered asym (x ∷ xs) =
      insert-IsOrdered asym x (order_by before xs) (order_by-IsOrdered asym xs)

  -- The rows in order are the same rows.
  insert-Perm : (x : A) (ys : List A) → Perm (x ∷ ys) (insert_ordered before x ys)
  unfolding insert_ordered
  insert-Perm x [] = Perm.rfl
  insert-Perm x (y ∷ ys) = elim (Bool-cases (before x y)) [
    | inl e ↦ rw e Perm.rfl
    | inr e ↦ rw e (Perm.trans (Perm.swap y x ys) (Perm.cons y (insert-Perm x ys)))
  ]

  order_by-Perm : (xs : List A) → Perm xs (order_by before xs)
  unfolding order_by
  order_by-Perm [] = Perm.rfl
  order_by-Perm (x ∷ xs) =
      Perm.trans (Perm.cons x (order_by-Perm xs)) (insert-Perm x (order_by before xs))

  insert-length : (x : A) (ys : List A) → length (insert_ordered before x ys) ≡ suc (length ys)
  unfolding insert_ordered
  insert-length x [] = refl
  insert-length x (y ∷ ys) = ground (arith, insert-length x ys)

  order_by-length : (xs : List A) → length (order_by before xs) ≡ length xs
  unfolding order_by
  order_by-length [] = refl
  order_by-length (x ∷ xs) =
      let rest = order_by-length xs in
      let added = insert-length x (order_by before xs) in omega arith

module _ {A : Type 0} where
  -- A page is what stands between the rows that are passed over and the rows that are left.
  take-drop : (n : ℕ) (xs : List A) → take n xs ++ drop n xs ≡ xs
  unfolding take drop
  take-drop zero xs = refl
  take-drop (suc n) [] = refl
  take-drop (suc n) (x ∷ xs) = rw (take-drop n xs) refl

  take-length : (n : ℕ) (xs : List A) → length (take n xs) ≡ min n (length xs)
  unfolding take
  take-length zero xs = omega arith
  take-length (suc n) [] = omega arith
  take-length (suc n) (x ∷ xs) = let rest = take-length n xs in omega arith

  drop-length : (n : ℕ) (xs : List A) → length (drop n xs) ≡ length xs - n
  unfolding drop
  drop-length zero xs = omega arith
  drop-length (suc n) [] = omega arith
  drop-length (suc n) (x ∷ xs) = let rest = drop-length n xs in omega arith

  -- A page of the rows of a table: `listing` is all of them in order, `limit` rows of it follow
  -- the `offset` rows that stand first, or as many as there are.
  pub record Page (before : A → A → Bool) (rows_of : List A) (limit offset : ℕ) (rows : List A)
      : Type 0 where
    pub first : List A
    pub last : List A
    pub ordered : IsOrdered before (first ++ (rows ++ last))
    pub complete : Perm rows_of (first ++ (rows ++ last))
    pub passed : length first ≡ min offset (length rows_of)
    pub full : length rows ≡ min limit (length rows_of - offset)

  pub Page-ok :
      (before : A → A → Bool) (limit offset : ℕ) (xs : List A)
      → ((a b : A) → before a b ≡ true → before b a ≡ false)
      → Page before xs limit offset (take limit (drop offset (order_by before xs)))
  Page-ok before limit offset xs asym =
      let all = order_by before xs in
      let whole : take offset all ++ (take limit (drop offset all) ++ drop limit (drop offset all))
          ≡ all =
        rw (take-drop limit (drop offset all)) (take-drop offset all) in
      let same = order_by-length before xs in
      record {
        first = take offset all;
        last = drop limit (drop offset all);
        ordered = rw whole (order_by-IsOrdered before asym xs);
        complete = rw whole (order_by-Perm before xs);
        passed = rw (sym same) (take-length offset all);
        full = rw (sym same, sym (drop-length offset all)) (take-length limit (drop offset all));
      }
