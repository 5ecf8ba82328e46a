-- ===== src/Daemon/Recoded.antt =====
-- Base58 of tabus/nodekey.py, encoding and then decoding.
use tabc.Text.{Text}
use tabc.Prelude.{
  ==_iff, All, Bool, Bool-cases, List, Option, [], ap, ap₂, arith, false, inl, inr, map, none, not,
  refl, replicate, some, suc, true, zero, ℕ, ◌&&◌, ◌*◌, ◌++◌, ◌+◌, ◌<◌, ◌==◌, ◌||◌, ◌∙◌, ◌∷◌, ◌≡◌,
}
use tabc.Daemon.Base58.{
  alphabet, b58decode, b58encode, base_digits, char_at, cons_index, digits_onto, index_in, indices,
  leading, value_from,
}
use tabc.Daemon.Digits.{
  base256-IsBase, base58-IsBase, digits_onto-All, digits_onto-value, leading-digits, value-digits,
}

-- a test that holds of every number below a bound, run through
all_below : ℕ → (ℕ → Bool) → Bool
all_below zero p = true
all_below (suc n) p = p n && all_below n p

all_below_lem : (n : ℕ) (p : ℕ → Bool) (d : ℕ) → all_below n p ≡ true → d < n → p d ≡ true
unfolding all_below
all_below_lem zero p d h l = absurd (omega arith)
all_below_lem (suc n) p d h l = elim (Bool-cases (d == n)) [
  | inl e ↦ let k : d ≡ n = (==_iff d n).0 e in rw k (ground arith)
  | inr e ↦ all_below_lem n p d (ground arith) (ground arith)
]

is_index : Option ℕ → ℕ → Bool
is_index none d = false
is_index (some n) d = n == d

abbrev char_test : ℕ → Bool
char_test d =
    is_index (index_in alphabet (char_at alphabet d)) d
    && (d == 0 || not (char_at alphabet d == b'1'))

alphabet_facts : (all_below 58 char_test ≡ true) × (index_in alphabet b'1' ≡ some 0)
unfolding all_below is_index index_in char_at
alphabet_facts = (refl, refl)

is_index_lem : (o : Option ℕ) (d : ℕ) → is_index o d ≡ true → o ≡ some d
unfolding is_index
is_index_lem none d h = absurd (ground arith)
is_index_lem (some n) d h = ap some ((==_iff n d).0 h)

indices-map : (ds : List ℕ) → All (λ d. d < 58) ds → indices (map (char_at alphabet) ds) ≡ some ds
unfolding indices
indices-map [] a = refl
indices-map (d ∷ ds) a =
    let t = all_below_lem 58 char_test d alphabet_facts.0 a.0 in
    ap₂ cons_index (is_index_lem (index_in alphabet (char_at alphabet d)) d (ground arith))
      (indices-map ds a.1)

indices-ones :
    (k : ℕ) (s : Text) (ds : List ℕ)
    → indices s ≡ some ds
    → indices (replicate k b'1' ++ s) ≡ some (replicate k 0 ++ ds)
unfolding indices
indices-ones zero s ds h = h
indices-ones (suc k) s ds h = ap₂ cons_index alphabet_facts.1 (indices-ones k s ds h)

leading-ones : (k : ℕ) (s : Text) → leading b'1' s ≡ 0 → leading b'1' (replicate k b'1' ++ s) ≡ k
unfolding leading
leading-ones zero s h = h
leading-ones (suc k) s h = ap suc (leading-ones k s h)

leading-map :
    (ds : List ℕ)
    → All (λ d. d < 58) ds
    → leading 0 ds ≡ 0
    → leading b'1' (map (char_at alphabet) ds) ≡ 0
unfolding leading
leading-map [] a h = refl
leading-map (d ∷ ds) a h = let t = all_below_lem 58 char_test d alphabet_facts.0 a.0 in ground arith

value-zeros :
    (base k : ℕ) (ds : List ℕ) → value_from base 0 (replicate k 0 ++ ds) ≡ value_from base 0 ds
unfolding value_from
value-zeros base zero ds = refl
value-zeros base (suc k) ds =
    let plain : 0 * base + 0 ≡ 0 = omega arith in rw (plain, value_from) (value-zeros base k ds)

leading-base58 : (n : ℕ) → leading 0 (base_digits 58 n) ≡ 0
unfolding base_digits digits_onto leading
leading-base58 zero = refl
leading-base58 (suc n) =
    leading-digits 58 base58-IsBase (suc n) (suc n) [] (omega arith) (omega arith)

-- Encoding and decoding are inverse: the text of any bytes is base58, and it decodes to these bytes,
-- zeros in front included. The loops over the number have the number itself as their fuel.
pub b58decode-b58encode : (b : List ℕ) → All (λ d. d < 256) b → b58decode (b58encode b) ≡ some b
unfolding b58decode b58encode base_digits value_from
b58decode-b58encode b h =
    let k = leading 0 b in
    let n = value_from 256 0 b in
    let ds = base_digits 58 n in
    let small = digits_onto-All 58 base58-IsBase n n [] tt in
    let read = indices-ones k (map (char_at alphabet) ds) ds (indices-map ds small) in
    let pad =
      leading-ones k (map (char_at alphabet) ds) (leading-map ds small (leading-base58 n)) in
    let value = value-zeros 58 k ds ∙ digits_onto-value 58 base58-IsBase n n [] (omega arith) in
    rw (read, b58decode) (rw (pad, value) (ap some (value-digits 256 base256-IsBase b h)))
