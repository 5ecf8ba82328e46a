-- ===== src/Daemon/Base58.antt =====
-- Base58 in tabus/nodekey.py, on lists of bytes.
use tabc.Prelude.{
  List, Option, [], if◌then◌else◌, map, none, replicate, some, suc, zero, ℕ, ◌%◌, ◌*◌, ◌++◌, ◌+◌,
  ◌/◌, ◌==◌, ◌∷◌,
}
use tabc.Text.{Text, txt}

-- _B58
abbrev pub alphabet : Text
alphabet = txt "123456789ABCDEFGHJKLMNPQRSTUVWXYZabcdefghijkmnopqrstuvwxyz"

-- `_B58[r]`
unfoldable pub char_at : Text → ℕ → ℕ
char_at [] n = 0
char_at (c ∷ s) zero = c
char_at (c ∷ s) (suc n) = char_at s n

-- `_B58_INDEX[c]`, none for a KeyError
unfoldable pub index_in : Text → ℕ → Option ℕ
index_in [] c = none
index_in (a ∷ s) c =
    let rest = index_in s c in
    if a == c then some 0 else elim rest [ none ↦ none | some n ↦ some (suc n) ]

-- `int.from_bytes(b, "big")`, and the loop of `b58decode`, in any base
unfoldable pub value_from : ℕ → ℕ → List ℕ → ℕ
value_from base n [] = n
value_from base n (d ∷ ds) = value_from base (n * base + d) ds

-- `while n > 0: n, r = divmod(n, base); out = r + out`, with fuel
unfoldable pub digits_onto : ℕ → ℕ → ℕ → List ℕ → List ℕ
digits_onto base zero n out = out
digits_onto base (suc fuel) n out =
    let more = digits_onto base fuel (n / base) ((n % base) ∷ out) in if n == 0 then out else more

-- the digits of a number, the first one not 0; a number is fuel enough for itself
unfoldable pub base_digits : ℕ → ℕ → List ℕ
base_digits base n = digits_onto base n n []

-- `len(b) - len(b.lstrip(d))`
unfoldable pub leading : ℕ → List ℕ → ℕ
leading d [] = 0
leading d (a ∷ s) = let rest = leading d s in if a == d then suc rest else 0

unfoldable pub b58encode : List ℕ → Text
b58encode b =
    replicate (leading 0 b) b'1' ++ map (char_at alphabet) (base_digits 58 (value_from 256 0 b))

abbrev pub cons_index : Option ℕ → Option (List ℕ) → Option (List ℕ)
cons_index none rest = none
cons_index (some d) none = none
cons_index (some d) (some ds) = some (d ∷ ds)

-- the index of each character, none for the ValueError
unfoldable pub indices : Text → Option (List ℕ)
indices [] = some []
indices (c ∷ s) = cons_index (index_in alphabet c) (indices s)

unfoldable pub b58decode : Text → Option (List ℕ)
b58decode s = elim (indices s) [
  | none ↦ none
  | some ds ↦ some (replicate (leading b'1' s) 0 ++ base_digits 256 (value_from 58 0 ds))
]
