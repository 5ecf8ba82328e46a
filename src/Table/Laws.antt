-- ===== src/Table/Laws.antt =====
-- The laws of the statements in Table.antt: predicates on every row, projections that an update
-- keeps, and how counting and testing see an update.
use tabc.Prelude.{
  All, All-map, Bool, Bool-cases, List, [], ap, ap₂, arith, false, inl, inr, is_some, map, none,
  refl, some, true, ◌++◌, ◌+◌, ◌||◌, ◌∷◌, ◌≡◌,
}
use tabc.Table.{any, count, delete_where, find, insert_by, order_by, select, update_where}

module _ {ℓ κ} {A : Type ℓ} (P : A → Type κ) where
  pub All-select : (p : A → Bool) (xs : List A) → All P xs → All P (select p xs)
  unfolding select
  All-select p [] h = tt
  All-select p (x ∷ xs) h = elim (Bool-cases (p x)) [
    | inl e ↦ rw e (h.0, All-select p xs h.1)
    | inr e ↦ rw e (All-select p xs h.1)
  ]

  pub All-delete_where : (p : A → Bool) (xs : List A) → All P xs → All P (delete_where p xs)
  unfolding delete_where
  All-delete_where p [] h = tt
  All-delete_where p (x ∷ xs) h = elim (Bool-cases (p x)) [
    | inl e ↦ rw e (All-delete_where p xs h.1)
    | inr e ↦ rw e (h.0, All-delete_where p xs h.1)
  ]

  pub All-update_where :
      (p : A → Bool) (f : A → A)
      → ((x : A) → P x → p x ≡ true → P (f x))
      → (xs : List A) → All P xs
      → All P (update_where p f xs)
  unfolding update_where
  All-update_where p f keep [] h = tt
  All-update_where p f keep (x ∷ xs) h = elim (Bool-cases (p x)) [
    | inl e ↦ rw e (keep x h.0 e, All-update_where p f keep xs h.1)
    | inr e ↦ rw e (h.0, All-update_where p f keep xs h.1)
  ]

  pub All-insert_by :
      (le : A → A → Bool) (x : A) (xs : List A) → P x → All P xs → All P (insert_by le x xs)
  unfolding insert_by
  All-insert_by le x [] px h = (px, tt)
  All-insert_by le x (y ∷ ys) px h = elim (Bool-cases (le x y)) [
    | inl e ↦ rw e (px, h)
    | inr e ↦ rw e (h.0, All-insert_by le x ys px h.1)
  ]

  pub All-order_by : (le : A → A → Bool) (xs : List A) → All P xs → All P (order_by le xs)
  unfolding order_by
  All-order_by le [] h = tt
  All-order_by le (x ∷ xs) h = All-insert_by le x (order_by le xs) h.0 (All-order_by le xs h.1)

module _ {ℓ} {A : Type ℓ} where
  -- every selected row passed the test
  pub select-All : (p : A → Bool) (xs : List A) → All (λ x. p x ≡ true) (select p xs)
  unfolding select
  select-All p [] = tt
  select-All p (x ∷ xs) = elim (Bool-cases (p x)) [
    | inl e ↦ rw e (e, select-All p xs)
    | inr e ↦ rw e (select-All p xs)
  ]

  -- every row is in the table that it stands in
  pub All-any :
      (q : A → A → Bool)
      → ((x : A) → q x x ≡ true)
      → (xs : List A) → All (λ x. any (q x) xs ≡ true) xs
  unfolding any
  All-any q self [] = tt
  All-any q self (x ∷ xs) = (
    ground (arith, self x),
    All-map (λ y. any (q y) xs ≡ true) (λ y. (q y x || any (q y) xs) ≡ true) (λ y h. ground arith)
        xs (All-any q self xs),
  )

  pub any-append : (p : A → Bool) (xs ys : List A) → any p (xs ++ ys) ≡ (any p xs || any p ys)
  unfolding any
  any-append p [] ys = refl
  any-append p (x ∷ xs) ys = ground (arith, any-append p xs ys)

  pub count-append : (p : A → Bool) (xs ys : List A) → count p (xs ++ ys) ≡ count p xs + count p ys
  unfolding count
  count-append p [] ys = omega arith
  count-append p (x ∷ xs) ys = omega (arith, count-append p xs ys)

  -- An update whose test fails on every row changes nothing.
  pub update_where-none :
      (p : A → Bool) (f : A → A) (xs : List A) → count p xs ≡ 0 → update_where p f xs ≡ xs
  unfolding count update_where
  update_where-none p f [] h = refl
  update_where-none p f (x ∷ xs) h = elim (Bool-cases (p x)) [
    | inl e ↦ absurd (ground arith)
    | inr e ↦ rw e (ap (λ t. x ∷ t) (update_where-none p f xs (ground arith)))
  ]

  pub count-eq_zero : (p : A → Bool) (xs : List A) → any p xs ≡ false → count p xs ≡ 0
  unfolding count any
  count-eq_zero p [] h = refl
  count-eq_zero p (x ∷ xs) h = ground (arith, count-eq_zero p xs)

  pub any-eq_false : (p : A → Bool) (xs : List A) → count p xs ≡ 0 → any p xs ≡ false
  unfolding count any
  any-eq_false p [] h = refl
  any-eq_false p (x ∷ xs) h = ground (arith, any-eq_false p xs)

  -- A test that the update does not move sees the same rows before and after.
  pub any-update_where :
      (q p : A → Bool) (f : A → A)
      → ((x : A) → q (f x) ≡ q x)
      → (xs : List A) → any q (update_where p f xs) ≡ any q xs
  unfolding any update_where
  any-update_where q p f keep [] = refl
  any-update_where q p f keep (x ∷ xs) = ground (arith, keep x, any-update_where q p f keep xs)

  pub find-some : (p : A → Bool) (xs : List A) {x : A} → find p xs ≡ some x → p x ≡ true
  unfolding find
  find-some p [] h = cc
  find-some p (y ∷ ys) {x} h = elim (Bool-cases (p y)) [
    | inl e ↦ ground arith
    | inr e ↦ find-some p ys (ground arith)
  ]

pub map-update_where {ℓ κ} :
    {A : Type ℓ} {B : Type κ} (g : A → B) (p : A → Bool) (f : A → A)
    → ((x : A) → g (f x) ≡ g x)
    → (xs : List A) → map g (update_where p f xs) ≡ map g xs
unfolding update_where
map-update_where g p f keep [] = refl
map-update_where g p f keep (x ∷ xs) = elim (Bool-cases (p x)) [
  | inl e ↦ rw e (ap₂ ◌∷◌ (keep x) (map-update_where g p f keep xs))
  | inr e ↦ rw e (ap₂ ◌∷◌ refl (map-update_where g p f keep xs))
]

-- An update that keeps its own test is seen in the row that the test finds.
pub find-update_where {ℓ} :
    {A : Type ℓ} (p : A → Bool) (f : A → A) (xs : List A) {x : A}
    → ((y : A) → p (f y) ≡ p y)
    → find p xs ≡ some x
    → find p (update_where p f xs) ≡ some (f x)
unfolding find update_where
find-update_where p f [] keep h = cc
find-update_where p f (y ∷ ys) {x} keep h = elim (Bool-cases (p y)) [
  | inl e ↦ ground (arith, keep y)
  | inr e ↦ ground (arith, keep y, find-update_where p f ys {x = x} keep)
]

-- An update under a predicate that changes: what it makes of the rows that it picks and of the rest.
pub All-update_cases {ℓ κ μ} :
    {A : Type ℓ} (P : A → Type κ) (Q : A → Type μ) (p : A → Bool) (f : A → A)
    → ((x : A) → P x → p x ≡ true → Q (f x))
    → ((x : A) → P x → p x ≡ false → Q x)
    → (xs : List A) → All P xs
    → All Q (update_where p f xs)
unfolding update_where
All-update_cases P Q p f picked rest [] h = tt
All-update_cases P Q p f picked rest (x ∷ xs) h = elim (Bool-cases (p x)) [
  | inl e ↦ rw e (picked x h.0 e, All-update_cases P Q p f picked rest xs h.1)
  | inr e ↦ rw e (rest x h.0 e, All-update_cases P Q p f picked rest xs h.1)
]

pub find-append_none {ℓ} :
    {A : Type ℓ} (p : A → Bool) (xs ys : List A) → find p xs ≡ none → find p (xs ++ ys) ≡ find p ys
unfolding find
find-append_none p [] ys h = refl
find-append_none p (x ∷ xs) ys h = ground (arith, find-append_none p xs ys)

pub find-append_some {ℓ} :
    {A : Type ℓ} (p : A → Bool) (xs ys : List A)
    → is_some (find p xs) ≡ true
    → find p (xs ++ ys) ≡ find p xs
unfolding find
find-append_some p [] ys h = absurd (ground arith)
find-append_some p (x ∷ xs) ys h = ground (arith, find-append_some p xs ys)

pub select-append {ℓ} :
    {A : Type ℓ} (p : A → Bool) (xs ys : List A) → select p (xs ++ ys) ≡ select p xs ++ select p ys
unfolding select
select-append p [] ys = refl
select-append p (x ∷ xs) ys = elim (Bool-cases (p x)) [
  | inl e ↦ rw e (ap (λ t. x ∷ t) (select-append p xs ys))
  | inr e ↦ rw e (select-append p xs ys)
]
