-- ===== src/Table/Counts.antt =====
-- How many rows pass a test before and after a statement.
use tabc.Prelude.{
  All, Bool, Bool-cases, List, [], arith, false, inl, inr, none, refl, some, true, ◌∷◌, ◌≡◌, ◌≤◌,
}
use tabc.Table.{any, count, find, update_where}

module _ {ℓ} {A : Type ℓ} (q p : A → Bool) (f : A → A) where
  -- an update that makes no row pass a test leaves no more rows that pass it
  pub count-update_where-le :
      ((x : A) → p x ≡ true → q (f x) ≡ true → q x ≡ true)
      → (xs : List A) → count q (update_where p f xs) ≤ count q xs
  unfolding count update_where
  count-update_where-le k [] = omega arith
  count-update_where-le k (x ∷ xs) = ground (arith, k x, count-update_where-le k xs)

  pub count-update_where-eq :
      ((x : A) → q (f x) ≡ q x) → (xs : List A) → count q (update_where p f xs) ≡ count q xs
  unfolding count update_where
  count-update_where-eq k [] = refl
  count-update_where-eq k (x ∷ xs) = ground (arith, k x, count-update_where-eq k xs)

  -- where only rows that the update picks pass a test, no more pass it afterwards than were picked
  pub count-update_where-picked :
      (xs : List A)
      → All (λ x. q x ≡ true → p x ≡ true) xs
      → count q (update_where p f xs) ≤ count p xs
  unfolding count update_where
  count-update_where-picked [] h = omega arith
  count-update_where-picked (x ∷ xs) h = ground (arith, h.0, count-update_where-picked xs h.1)

pub count-eq_zero_All {ℓ} :
    {A : Type ℓ} (q p : A → Bool) (xs : List A)
    → All (λ x. q x ≡ true → p x ≡ true) xs
    → any p xs ≡ false
    → count q xs ≡ 0
unfolding count any
count-eq_zero_All q p [] h n = refl
count-eq_zero_All q p (x ∷ xs) h n = ground (arith, h.0, count-eq_zero_All q p xs h.1)

module _ {ℓ} {A : Type ℓ} (p : A → Bool) (x : A) where
  pub count-single_le : count p (x ∷ []) ≤ 1
  unfolding count
  count-single_le = ground arith

  pub count-single_false : p x ≡ false → count p (x ∷ []) ≡ 0
  unfolding count
  count-single_false h = ground arith

-- a key that no row has, and that one row at most has
pub count-of_none {ℓ} :
    {A : Type ℓ} (p : A → Bool) (xs : List A) → find p xs ≡ none → count p xs ≡ 0
unfolding count find
count-of_none p [] h = refl
count-of_none p (x ∷ xs) h = ground (arith, count-of_none p xs)

pub All-of_count {ℓ} :
    {A : Type ℓ} (q p : A → Bool) (xs : List A)
    → count q xs ≡ 0
    → All (λ x. q x ≡ true → p x ≡ true) xs
unfolding count
All-of_count q p [] h = tt
All-of_count q p (x ∷ xs) h = (λ k. absurd (ground arith), All-of_count q p xs (ground arith))

-- if the one row that passes the first test passes the second, every row that does so does
pub All-of_find {ℓ} :
    {A : Type ℓ} (q p : A → Bool) (xs : List A) {x : A}
    → count q xs ≤ 1
    → find q xs ≡ some x
    → p x ≡ true
    → All (λ y. q y ≡ true → p y ≡ true) xs
unfolding count find
All-of_find q p [] h f k = absurd (ground arith)
All-of_find q p (y ∷ ys) {x} h f k = elim (Bool-cases (q y)) [
  | inl e ↦ (λ _. ground arith, All-of_count q p ys (ground arith))
  | inr e ↦ (λ t. absurd (ground arith), All-of_find q p ys {x = x} (ground arith) (ground arith) k)
]
