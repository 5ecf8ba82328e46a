-- ===== src/Table/Orders.antt =====
-- What ORDER BY and a further selection leave of a table: the same rows, and the same row of a key
-- that one row at most has.
use tabc.Prelude.{
  Bool, List, [], arith, if◌then◌else◌, map, none, refl, some, ◌&&◌, ◌+◌, ◌||◌, ◌∷◌, ◌≡◌, ◌≤◌,
}
use tabc.Table.{any, count, find, insert_by, order_by, select}

module _ {ℓ} {A : Type ℓ} (p : A → Bool) (le : A → A → Bool) where
  any-insert_by : (x : A) (xs : List A) → any p (insert_by le x xs) ≡ (p x || any p xs)
  unfolding any insert_by
  any-insert_by x [] = refl
  any-insert_by x (y ∷ ys) = ground (arith, any-insert_by x ys)

  pub any-order_by : (xs : List A) → any p (order_by le xs) ≡ any p xs
  unfolding any order_by
  any-order_by [] = refl
  any-order_by (x ∷ xs) = ground (arith, any-insert_by x (order_by le xs), any-order_by xs)

  count-insert_by :
      (x : A) (xs : List A) → count p (insert_by le x xs) ≡ (if p x then 1 else 0) + count p xs
  unfolding count insert_by
  count-insert_by x [] = refl
  count-insert_by x (y ∷ ys) = ground (arith, count-insert_by x ys)

  pub count-order_by : (xs : List A) → count p (order_by le xs) ≡ count p xs
  unfolding count order_by
  count-order_by [] = refl
  count-order_by (x ∷ xs) = ground (arith, count-insert_by x (order_by le xs), count-order_by xs)

  find-insert_by :
      (x : A) (xs : List A)
      → count p (x ∷ xs) ≤ 1
      → find p (insert_by le x xs) ≡ (if p x then some x else find p xs)
  unfolding count find insert_by
  find-insert_by x [] h = refl
  find-insert_by x (y ∷ ys) h = ground (arith, find-insert_by x ys)

  pub find-order_by : (xs : List A) → count p xs ≤ 1 → find p (order_by le xs) ≡ find p xs
  unfolding count find order_by
  find-order_by [] h = refl
  find-order_by (x ∷ xs) h =
      ground (arith, find-insert_by x (order_by le xs), find-order_by xs, count-order_by xs)

module _ {ℓ} {A : Type ℓ} (p q : A → Bool) where
  pub count-select-le : (xs : List A) → count p (select q xs) ≤ count p xs
  unfolding count select
  count-select-le [] = omega arith
  count-select-le (x ∷ xs) = ground (arith, count-select-le xs)

  -- selecting and then counting is counting by both tests
  pub count-select : (xs : List A) → count p (select q xs) ≡ count (λ x. p x && q x) xs
  unfolding count select
  count-select [] = refl
  count-select (x ∷ xs) = ground (arith, count-select xs)

  find-none : (xs : List A) → count p xs ≡ 0 → find p xs ≡ none
  unfolding count find
  find-none [] h = refl
  find-none (x ∷ xs) h = ground (arith, find-none xs)

  -- the row of the key, if it passes
  pub find-select :
      (xs : List A)
      → count p xs ≤ 1
      → find p (select q xs)
        ≡ elim (find p xs) [ none ↦ none | some x ↦ if q x then some x else none ]
  unfolding count find select
  find-select [] h = refl
  find-select (x ∷ xs) h = ground (arith, find-select xs, find-none xs)

pub count-map {ℓ κ} :
    {A : Type ℓ} {B : Type κ} (f : A → B) (p : B → Bool) (xs : List A)
    → count p (map f xs) ≡ count (λ x. p (f x)) xs
unfolding count
count-map f p [] = refl
count-map f p (x ∷ xs) = ground (arith, count-map f p xs)
