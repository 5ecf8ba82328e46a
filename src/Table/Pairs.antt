-- ===== src/Table/Pairs.antt =====
-- `Pairs R xs ys`: the rows of `ys` are those of `xs` at the same places, each moved by `R`. No row
-- is lost and none is added.
use tabc.Prelude.{All, Bool, Bool-cases, List, [], arith, inl, inr, refl, some, true, ◌∷◌, ◌≡◌, ◌≤◌}
use tabc.Table.Grows.{Grows}
use tabc.Table.{count, find, update_where}

abbrev pub Pairs {ℓ} : {A : Type ℓ} → (A → A → Type 0) → List A → List A → Type 0
Pairs R [] [] = Unit
Pairs R [] (y ∷ ys) = ⊥
Pairs R (x ∷ xs) [] = ⊥
Pairs R (x ∷ xs) (y ∷ ys) = R x y × Pairs R xs ys

module _ {ℓ} {A : Type ℓ} (R : A → A → Type 0) (R-refl : (x : A) → R x x) where
  pub Pairs-refl : (xs : List A) → Pairs R xs xs
  Pairs-refl [] = tt
  Pairs-refl (x ∷ xs) = (R-refl x, Pairs-refl xs)

  pub Pairs-update_where :
      (p : A → Bool) (f : A → A)
      → ((x : A) → p x ≡ true → R x (f x))
      → (xs : List A) → Pairs R xs (update_where p f xs)
  unfolding update_where
  Pairs-update_where p f moves [] = tt
  Pairs-update_where p f moves (x ∷ xs) = elim (Bool-cases (p x)) [
    | inl e ↦ rw e (moves x e, Pairs-update_where p f moves xs)
    | inr e ↦ rw e (R-refl x, Pairs-update_where p f moves xs)
  ]

module _ {ℓ} {A : Type ℓ} (R : A → A → Type 0) where
  pub Pairs-trans :
      ((x y z : A) → R x y → R y z → R x z)
      → (xs ys zs : List A) → Pairs R xs ys
      → Pairs R ys zs
      → Pairs R xs zs
  Pairs-trans tr [] [] [] h k = tt
  Pairs-trans tr [] [] (z ∷ zs) h k = k
  Pairs-trans tr [] (y ∷ ys) zs h k = absurd h
  Pairs-trans tr (x ∷ xs) [] zs h k = absurd h
  Pairs-trans tr (x ∷ xs) (y ∷ ys) [] h k = absurd k
  Pairs-trans tr (x ∷ xs) (y ∷ ys) (z ∷ zs) h k =
      (tr x y z h.0 k.0, Pairs-trans tr xs ys zs h.1 k.1)

  -- An update moves the rows that its test picks, if those of this table may move so.
  pub Pairs-update_on :
      ((x : A) → R x x)
      → (p : A → Bool) (f : A → A) (xs : List A) → All (λ x. p x ≡ true → R x (f x)) xs
      → Pairs R xs (update_where p f xs)
  unfolding update_where
  Pairs-update_on same p f [] h = tt
  Pairs-update_on same p f (x ∷ xs) h = elim (Bool-cases (p x)) [
    | inl e ↦ rw e (h.0 e, Pairs-update_on same p f xs h.1)
    | inr e ↦ rw e (same x, Pairs-update_on same p f xs h.1)
  ]

  -- Counting by what the move keeps.
  pub count-Pairs :
      (q : A → Bool)
      → ((x y : A) → R x y → q y ≡ q x)
      → (xs ys : List A) → Pairs R xs ys
      → count q ys ≡ count q xs
  unfolding count
  count-Pairs q keep [] [] h = refl
  count-Pairs q keep [] (y ∷ ys) h = absurd h
  count-Pairs q keep (x ∷ xs) [] h = absurd h
  count-Pairs q keep (x ∷ xs) (y ∷ ys) h = rw (keep x y h.0, count-Pairs q keep xs ys h.1) refl

  pub All-Pairs {κ} :
      (P Q : A → Type κ)
      → ((x y : A) → R x y → P x → Q y)
      → (xs ys : List A) → Pairs R xs ys
      → All P xs
      → All Q ys
  All-Pairs P Q carry [] [] h k = tt
  All-Pairs P Q carry [] (y ∷ ys) h k = absurd h
  All-Pairs P Q carry (x ∷ xs) [] h k = tt
  All-Pairs P Q carry (x ∷ xs) (y ∷ ys) h k = (carry x y h.0 k.0, All-Pairs P Q carry xs ys h.1 k.1)

  pub Grows-of_Pairs : (xs ys : List A) → Pairs R xs ys → Grows R xs ys
  Grows-of_Pairs [] ys h = tt
  Grows-of_Pairs (x ∷ xs) [] h = absurd h
  Grows-of_Pairs (x ∷ xs) (y ∷ ys) h = (h.0, Grows-of_Pairs xs ys h.1)

none_picked {ℓ κ} :
    {A : Type ℓ} (p : A → Bool) (Q : A → Type κ) (zs : List A)
    → count p zs ≡ 0
    → All (λ z. p z ≡ true → Q z) zs
unfolding count
none_picked p Q [] c = tt
none_picked p Q (z ∷ zs) c = elim (Bool-cases (p z)) [
  | inl t ↦ absurd (ground arith)
  | inr f ↦ (λ t. cc, none_picked p Q zs (ground arith))
]

-- Where the test picks at most one row, every row that it picks is the one found.
pub find_unique {ℓ} :
    {A : Type ℓ} (p : A → Bool) (xs : List A) {x : A}
    → count p xs ≤ 1
    → find p xs ≡ some x
    → All (λ y. p y ≡ true → y ≡ x) xs
unfolding count find
find_unique p [] h e = tt
find_unique p (y ∷ ys) {x} h e = elim (Bool-cases (p y)) [
  | inl t ↦ (λ _. ground arith, none_picked p (λ z. z ≡ x) ys (ground arith))
  | inr f ↦ (λ t. cc, find_unique p ys (ground arith) (ground arith))
]
