-- ===== src/Payload/Measured.antt =====
-- The declared length against the number that the header spells.
use tabc.Prelude.{
  Bool-cases, [], ap, arith, false, inl, inr, leb, length, ltb, none, refl, some, sym, true, ℕ, ◌*◌,
  ◌+◌, ◌-◌, ◌<◌, ◌∙◌, ◌∷◌, ◌≡◌, ◌≤◌, ◌⊎◌,
}
use tabc.Text.{Text, text_or}
use tabc.Text.Unicode.{all_chars, is_digit, strip_front}
use tabc.Payload.Length.{
  decimal, digits_of, is_zero_digit, length_of_digits, max_reported_digits, max_reported_length,
  max_request_bytes, valid_length,
}

-- leading zeros do not count
decimal-strip_front : (s : Text) → decimal 0 (strip_front is_zero_digit s) ≡ decimal 0 s
unfolding decimal strip_front
decimal-strip_front [] = refl
decimal-strip_front (c ∷ s) = elim (Bool-cases (is_zero_digit c)) [
  | inl e ↦ rw e (decimal-strip_front s ∙ ap (λ n. decimal n s) (ground arith))
  | inr e ↦ rw e refl
]

-- a number times ten for each digit
scaled : ℕ → Text → ℕ
scaled b [] = b
scaled b (c ∷ s) = scaled (10 * b) s

scaled-le : (b : ℕ) (s : Text) → b ≤ scaled b s
unfolding scaled
scaled-le b [] = omega arith
scaled-le b (c ∷ s) = omega (arith, scaled-le (10 * b) s)

decimal-scaled : (b acc : ℕ) (s : Text) → b ≤ acc → scaled b s ≤ decimal acc s
unfolding decimal scaled
decimal-scaled b acc [] h = h
decimal-scaled b acc (c ∷ s) h = decimal-scaled (10 * b) (acc * 10 + (c - 48)) s (omega arith)

scaled-large : (s : Text) → 6 ≤ length s → 1000000 ≤ scaled 1 s
unfolding scaled
scaled-large [] h = absurd (omega arith)
scaled-large (a ∷ []) h = absurd (omega arith)
scaled-large (a ∷ (b ∷ [])) h = absurd (omega arith)
scaled-large (a ∷ (b ∷ (c ∷ []))) h = absurd (omega arith)
scaled-large (a ∷ (b ∷ (c ∷ (d ∷ [])))) h = absurd (omega arith)
scaled-large (a ∷ (b ∷ (c ∷ (d ∷ (e ∷ []))))) h = absurd (omega arith)
scaled-large (a ∷ (b ∷ (c ∷ (d ∷ (e ∷ (f ∷ s)))))) h = scaled-le 1000000 s

-- seven digits and more that begin with no zero are over the limit
decimal-large :
    (c : ℕ) (s : Text)
    → is_digit c ≡ true
    → is_zero_digit c ≡ false
    → 7 ≤ length (c ∷ s)
    → 1000000 ≤ decimal 0 (c ∷ s)
unfolding decimal
decimal-large c s d z n =
    let first : 1 ≤ 0 * 10 + (c - 48) = ground arith in
    omega (arith, scaled-large s (omega arith), decimal-scaled 1 (0 * 10 + (c - 48)) s first)

-- the first character that is left is no zero, and it is a digit
strip_front-first :
    (s : Text) {c : ℕ} {r : Text}
    → all_chars is_digit s ≡ true
    → strip_front is_zero_digit s ≡ c ∷ r
    → (is_digit c ≡ true) × (is_zero_digit c ≡ false)
unfolding strip_front all_chars
strip_front-first [] a h = absurd (ground arith)
strip_front-first (x ∷ s) {c} {r} a h = elim (Bool-cases (is_zero_digit x)) [
  | inl e ↦ strip_front-first s {c = c} {r = r} (ground arith) (ground arith)
  | inr e ↦ ground arith
]

first_of :
    (x : Text)
    → ((x ≡ []) × (text_or (some x) (48 ∷ []) ≡ 48 ∷ []))
      ⊎ ((c : ℕ) × (r : Text) × (x ≡ c ∷ r) × (text_or (some x) (48 ∷ []) ≡ c ∷ r))
first_of [] = inl (refl, refl)
first_of (c ∷ r) = inr (c, r, refl, refl)

-- the digits without leading zeros, which are "0" if none is left
digits_of-cases :
    (raw : Text)
    → ((strip_front is_zero_digit raw ≡ []) × (digits_of raw ≡ 48 ∷ []))
      ⊎ ((c : ℕ) × (r : Text) × (strip_front is_zero_digit raw ≡ c ∷ r) × (digits_of raw ≡ c ∷ r))
unfolding digits_of
digits_of-cases raw = first_of (strip_front is_zero_digit raw)

pub digits_of-decimal : (raw : Text) → decimal 0 (digits_of raw) ≡ decimal 0 raw
digits_of-decimal raw = elim (digits_of-cases raw) [
  | inl (e, d) ↦ rw d (unfold decimal in sym (rw e at (sym (decimal-strip_front raw))))
  | inr (c, r, e, d) ↦ rw d (rw e at (decimal-strip_front raw))
]

digits_of-large :
    (raw : Text)
    → all_chars is_digit raw ≡ true
    → 7 ≤ length (digits_of raw)
    → max_request_bytes < decimal 0 (digits_of raw)
digits_of-large raw a n = elim (digits_of-cases raw) [
  | inl (e, d) ↦ absurd (ground (arith, d, n))
  | inr (c, r, e, d) ↦
      let (digit, nonzero) = strip_front-first raw {c = c} {r = r} a e in
      rw d (omega (arith, decimal-large c r digit nonzero (rw d at n)))
]

-- what the digits say, against the number that the text spells
pub length_of_digits-says :
    (raw : Text)
    → all_chars is_digit raw ≡ true
    → (length_of_digits (digits_of raw) ≡ valid_length (some (decimal 0 raw)) (digits_of raw))
      ⊎ ((length_of_digits (digits_of raw) ≡ valid_length none (digits_of raw))
          × (max_request_bytes < decimal 0 raw))
unfolding length_of_digits
length_of_digits-says raw a = elim (Bool-cases (ltb max_reported_digits (length (digits_of raw)))) [
  | inl long ↦
      inr (rw (long) refl, rw (digits_of-decimal raw) at (digits_of-large raw a (ground arith)))
  | inr short ↦ elim (Bool-cases (leb (decimal 0 raw) max_reported_length)) [
    | inl small ↦ inl (rw (short, digits_of-decimal raw, small) refl)
    | inr big ↦ inr (rw (short, digits_of-decimal raw, big) refl, ground arith)
  ]
]
