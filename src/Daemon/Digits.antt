-- ===== src/Daemon/Digits.antt =====
-- The digits of a number in a base, and the number of its digits: the loops of base58 in
-- tabus/nodekey.py.
use mathlib.Core.List.{append-nil}
use tabc.Prelude.{
  ==_iff, All, Bool-cases, List, [], ap, arith, false, inl, inr, ltb, ltb→lt, refl, replicate, suc,
  sym, zero, ℕ, ◌%◌, ◌*◌, ◌++◌, ◌+◌, ◌/◌, ◌<◌, ◌==◌, ◌∙◌, ◌∷◌, ◌≡◌, ◌≤◌,
}
use tabc.Daemon.Base58.{base_digits, digits_onto, leading, value_from}

-- Division with remainder at the base, once for the bases 58 and 256.
pub record IsBase (base : ℕ) : Type 0 where
  pub one_less : 1 < base
  pub split : (n : ℕ) → n / base * base + n % base ≡ n
  pub rest : (n : ℕ) → n % base < base
  pub less : (n : ℕ) → 0 < n → n / base < n
  pub grows : (n : ℕ) → 0 < n → 0 < n * base
  pub joined : (n d : ℕ) → d < base → ((n * base + d) / base ≡ n) × ((n * base + d) % base ≡ d)

pub base58-IsBase : IsBase 58
base58-IsBase = record {
  one_less = omega arith;
  split = λ n. omega arith;
  rest = λ n. omega arith;
  less = λ n h. omega arith;
  grows = λ n h. omega arith;
  joined = λ n d h. omega arith;
}

pub base256-IsBase : IsBase 256
base256-IsBase = record {
  one_less = omega arith;
  split = λ n. omega arith;
  rest = λ n. omega arith;
  less = λ n h. omega arith;
  grows = λ n h. omega arith;
  joined = λ n d h. omega arith;
}

module _ (base : ℕ) (h : IsBase base) where
  -- any fuel that is enough gives the same digits
  digits_onto-fuel :
      (f g n : ℕ) (out : List ℕ)
      → n ≤ f
      → n ≤ g
      → digits_onto base f n out ≡ digits_onto base g n out
  unfolding digits_onto
  digits_onto-fuel zero zero n out a b = refl
  digits_onto-fuel zero (suc g) n out a b = ground arith
  digits_onto-fuel (suc f) zero n out a b = ground arith
  digits_onto-fuel (suc f) (suc g) n out a b = elim (Bool-cases (n == 0)) [
    | inl e ↦ rw e refl
    | inr e ↦
        let l = h.less n (ground arith) in
        rw e
          (digits_onto-fuel f g (n / base) ((n % base) ∷ out) (omega (arith, l)) (omega (arith, l)))
  ]

  pub digits_onto-value :
      (f n : ℕ) (out : List ℕ)
      → n ≤ f
      → value_from base 0 (digits_onto base f n out) ≡ value_from base n out
  unfolding digits_onto value_from
  digits_onto-value zero n out a = let k : n ≡ 0 = omega arith in rw k refl
  digits_onto-value (suc f) n out a = elim (Bool-cases (n == 0)) [
    | inl e ↦ let k : n ≡ 0 = (==_iff n 0).0 e in rw k refl
    | inr e ↦
        let l = h.less n (ground arith) in
        rw e (
          digits_onto-value f (n / base) ((n % base) ∷ out) (omega (arith, l))
          ∙ ap (λ k. value_from base k out) (h.split n))
  ]

  pub digits_onto-All :
      (f n : ℕ) (out : List ℕ)
      → All (λ d. d < base) out
      → All (λ d. d < base) (digits_onto base f n out)
  unfolding digits_onto
  digits_onto-All zero n out a = a
  digits_onto-All (suc f) n out a = elim (Bool-cases (n == 0)) [
    | inl e ↦ rw e a
    | inr e ↦ rw e (digits_onto-All f (n / base) ((n % base) ∷ out) (h.rest n, a))
  ]

  -- one digit more
  digits_onto-step :
      (f g n d : ℕ) (out : List ℕ)
      → d < base
      → 0 < n * base + d
      → n * base + d ≤ f
      → n ≤ g
      → digits_onto base f (n * base + d) out ≡ digits_onto base g n (d ∷ out)
  unfolding digits_onto
  digits_onto-step zero g n d out s p a b = absurd (omega arith)
  digits_onto-step (suc f) g n d out s p a b =
      let j = h.joined n d s in
      let l = h.less (n * base + d) p in
      let z : ((n * base + d) == 0) ≡ false = ground arith in
      rw (z, digits_onto) (rw (j.0, j.1) (digits_onto-fuel f g n (d ∷ out) (omega (arith, l, j)) b))

  digits-of_value :
      (f g n : ℕ) (ds out : List ℕ)
      → All (λ d. d < base) ds
      → 0 < n
      → value_from base n ds ≤ f
      → n ≤ g
      → digits_onto base f (value_from base n ds) out ≡ digits_onto base g n (ds ++ out)
  unfolding value_from
  digits-of_value f g n [] out a p u v = digits_onto-fuel f g n out u v
  digits-of_value f g n (d ∷ ds) out a p u v =
      let q : 0 < n * base + d = (let k = h.grows n p in omega (arith, k)) in
      digits-of_value f (n * base + d) (n * base + d) ds out a.1 q u (omega arith)
      ∙ digits_onto-step (n * base + d) g n d (ds ++ out) a.0 q (omega arith) v

  digits_onto-zero : (f : ℕ) (out : List ℕ) → digits_onto base f 0 out ≡ out
  unfolding digits_onto
  digits_onto-zero zero out = refl
  digits_onto-zero (suc f) out = refl

  -- the first digit is not 0
  pub leading-digits :
      (f n : ℕ) (out : List ℕ) → n ≤ f → 0 < n → leading 0 (digits_onto base f n out) ≡ 0
  unfolding digits_onto leading
  leading-digits zero n out a p = absurd (omega arith)
  leading-digits (suc f) n out a p =
      let z : (n == 0) ≡ false = ground arith in
      let l = h.less n p in
      elim (Bool-cases (ltb 0 (n / base))) [
        | inl e ↦
            rw (z, digits_onto)
              (leading-digits f (n / base) ((n % base) ∷ out) (omega (arith, l))
                (ltb→lt 0 (n / base) e))
        | inr e ↦
            rw (z, digits_onto)
              (let k : n / base ≡ 0 = ground arith in
                let r : 0 * base + n % base ≡ n = rw k at (h.split n) in
                let y : ((n % base) == 0) ≡ false = ground arith in
                rw (k, digits_onto-zero f ((n % base) ∷ out)) (rw (y, leading) refl))
      ]

  -- the digits of a value are the digits it was made of, without the zeros in front
  pub value-digits :
      (ds : List ℕ)
      → All (λ d. d < base) ds
      → replicate (leading 0 ds) 0 ++ base_digits base (value_from base 0 ds) ≡ ds
  unfolding leading value_from base_digits digits_onto
  value-digits [] a = refl
  value-digits (d ∷ ds) a =
      let plain : 0 * base + d ≡ d = omega arith in
      rw (plain, value_from)
        (elim (Bool-cases (d == 0)) [
          | inl e ↦ let k : d ≡ 0 = (==_iff d 0).0 e in rw k (ap (λ t. 0 ∷ t) (value-digits ds a.1))
          | inr e ↦
              let p : 0 < d = ground arith in
              let v = value_from base d ds in
              rw (e, leading)
                (digits-of_value v d d ds [] a.1 p (omega arith) (omega arith)
                  ∙ (ap (λ t. digits_onto base d t (ds ++ [])) (sym plain)
                      ∙ (digits_onto-step d 0 0 d (ds ++ []) a.0 (omega (arith, p)) (omega arith)
                            (omega arith)
                          ∙ ap (λ t. d ∷ t) (append-nil ds))))
        ])
