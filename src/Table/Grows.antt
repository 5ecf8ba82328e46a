-- ===== src/Table/Grows.antt =====
-- `Grows R xs ys`: every row of `xs` stands at its place in `ys`, moved by `R`, and rows may have
-- been added behind. No row is lost.
use tabc.Prelude.{Bool, Bool-cases, List, [], arith, inl, inr, length, true, ◌++◌, ◌∷◌, ◌≡◌, ◌≤◌}
use tabc.Table.{update_where}

abbrev pub Grows {ℓ} : {A : Type ℓ} → (A → A → Type 0) → List A → List A → Type 0
Grows R [] ys = Unit
Grows R (x ∷ xs) [] = ⊥
Grows R (x ∷ xs) (y ∷ ys) = R x y × Grows R xs ys

module _ {ℓ} {A : Type ℓ} (R : A → A → Type 0) (R-refl : (x : A) → R x x) where
  pub Grows-refl : (xs : List A) → Grows R xs xs
  Grows-refl [] = tt
  Grows-refl (x ∷ xs) = (R-refl x, Grows-refl xs)

  pub Grows-append : (xs ys : List A) → Grows R xs (xs ++ ys)
  Grows-append [] ys = tt
  Grows-append (x ∷ xs) ys = (R-refl x, Grows-append xs ys)

  pub Grows-update_where :
      (p : A → Bool) (f : A → A)
      → ((x : A) → p x ≡ true → R x (f x))
      → (xs : List A) → Grows R xs (update_where p f xs)
  unfolding update_where
  Grows-update_where p f moves [] = tt
  Grows-update_where p f moves (x ∷ xs) = elim (Bool-cases (p x)) [
    | inl e ↦ rw e (moves x e, Grows-update_where p f moves xs)
    | inr e ↦ rw e (R-refl x, Grows-update_where p f moves xs)
  ]

module _ {ℓ} {A : Type ℓ} (R : A → A → Type 0) where
  pub Grows-trans :
      ((x y z : A) → R x y → R y z → R x z)
      → (xs ys zs : List A) → Grows R xs ys
      → Grows R ys zs
      → Grows R xs zs
  Grows-trans tr [] ys zs h k = tt
  Grows-trans tr (x ∷ xs) [] zs h k = absurd h
  Grows-trans tr (x ∷ xs) (y ∷ ys) [] h k = absurd k
  Grows-trans tr (x ∷ xs) (y ∷ ys) (z ∷ zs) h k =
      (tr x y z h.0 k.0, Grows-trans tr xs ys zs h.1 k.1)

  -- The added rows, and the rows that were there, satisfy what the move carries over.
  pub Grows-length : (xs ys : List A) → Grows R xs ys → length xs ≤ length ys
  Grows-length [] ys h = omega arith
  Grows-length (x ∷ xs) [] h = absurd h
  Grows-length (x ∷ xs) (y ∷ ys) h = omega (arith, Grows-length xs ys h.1)
