-- ===== src/Table/Any.antt =====
-- What a test on the rows of a table says before and after an update, a selection, or a join.
use tabc.Prelude.{
  All, All-map, Bool, Bool-cases, List, [], arith, false, inl, inr, refl, true, ◌&&◌, ◌||◌, ◌∷◌,
  ◌≡◌,
}
use tabc.Table.{any, select, update_where}

module _ {ℓ} {A : Type ℓ} where
  -- A row that is there after an update was there before, in the shape that the update allows.
  pub any-before_update :
      (q r p : A → Bool) (f : A → A)
      → ((x : A) → p x ≡ true → q (f x) ≡ true → r x ≡ true)
      → ((x : A) → q x ≡ true → r x ≡ true)
      → (xs : List A) → any q (update_where p f xs) ≡ true
      → any r xs ≡ true
  unfolding any update_where
  any-before_update q r p f moved kept [] h = h
  any-before_update q r p f moved kept (x ∷ xs) h =
      ground (arith, moved x, kept x, any-before_update q r p f moved kept xs)

  -- A row that the update leaves in shape, or does not touch, is still there.
  pub any-after_update :
      (q p : A → Bool) (f : A → A)
      → ((x : A) → p x ≡ true → q x ≡ true → q (f x) ≡ true)
      → (xs : List A) → any q xs ≡ true
      → any q (update_where p f xs) ≡ true
  unfolding any update_where
  any-after_update q p f keep [] h = h
  any-after_update q p f keep (x ∷ xs) h = ground (arith, keep x, any-after_update q p f keep xs)

  -- An update that picked a row leaves it in its new shape.
  pub any-updated :
      (q p : A → Bool) (f : A → A)
      → ((x : A) → p x ≡ true → q (f x) ≡ true)
      → (xs : List A) → any p xs ≡ true
      → any q (update_where p f xs) ≡ true
  unfolding any update_where
  any-updated q p f made [] h = cc
  any-updated q p f made (x ∷ xs) h = ground (arith, made x, any-updated q p f made xs)

  -- After an update that ends its own test, no row fits the test.
  pub any-exhausted :
      (p : A → Bool) (f : A → A)
      → ((x : A) → p x ≡ true → p (f x) ≡ false)
      → (xs : List A) → any p (update_where p f xs) ≡ false
  unfolding any update_where
  any-exhausted p f ends [] = refl
  any-exhausted p f ends (x ∷ xs) = ground (arith, ends x, any-exhausted p f ends xs)

  pub any-weaken :
      (p q : A → Bool)
      → ((x : A) → p x ≡ true → q x ≡ true)
      → (xs : List A) → any p xs ≡ true
      → any q xs ≡ true
  unfolding any
  any-weaken p q w [] h = h
  any-weaken p q w (x ∷ xs) h = ground (arith, w x, any-weaken p q w xs)

  -- A selected row stands in the table, and fits the test there.
  pub select-any :
      (same : A → A → Bool)
      → ((x : A) → same x x ≡ true)
      → (p : A → Bool) (xs : List A) → All (λ x. any (λ y. same y x && p y) xs ≡ true) (select p xs)
  unfolding any select
  select-any same self p [] = tt
  select-any same self p (x ∷ xs) =
      let rest =
        All-map (λ z. any (λ y. same y z && p y) xs ≡ true)
          (λ z. (same x z && p x || any (λ y. same y z && p y) xs) ≡ true) (λ z h. ground arith)
          (select p xs) (select-any same self p xs) in
      elim (Bool-cases (p x)) [
        | inl e ↦ rw e (ground (arith, self x), rw e at rest)
        | inr e ↦ rw e (rw e at rest)
      ]

  -- An update that makes no row fit a test leaves an unfit table unfit.
  pub any-still_false :
      (q p : A → Bool) (f : A → A)
      → ((x : A) → p x ≡ true → q (f x) ≡ false)
      → (xs : List A) → any q xs ≡ false
      → any q (update_where p f xs) ≡ false
  unfolding any update_where
  any-still_false q p f never [] h = refl
  any-still_false q p f never (x ∷ xs) h = ground (arith, never x, any-still_false q p f never xs)
