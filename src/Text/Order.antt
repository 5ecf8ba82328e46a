-- ===== src/Text/Order.antt =====
-- The order of texts by code points: Python's `sorted` and SQLite's binary collation.
use tabc.Prelude.{Bool, List, [], arith, false, ltb, refl, true, ◌&&◌, ◌==◌, ◌||◌, ◌∷◌, ◌≡◌}
use tabc.Text.{Text, mem_text, text_eq, text_eq_refl}

unfoldable pub text_le : Text → Text → Bool
text_le [] t = true
text_le (a ∷ s) [] = false
text_le (a ∷ s) (b ∷ t) = ltb a b || (a == b && text_le s t)

-- Equality of lists of texts
unfoldable pub texts_eq : List Text → List Text → Bool
texts_eq [] [] = true
texts_eq [] (t ∷ ts) = false
texts_eq (s ∷ ss) [] = false
texts_eq (s ∷ ss) (t ∷ ts) = text_eq s t && texts_eq ss ts

pub texts_eq_refl : (ts : List Text) → texts_eq ts ts ≡ true
unfolding texts_eq
texts_eq_refl [] = refl
texts_eq_refl (t ∷ ts) = ground (arith, text_eq_refl t, texts_eq_refl ts)

-- The list names a text twice.
unfoldable pub has_duplicate : List Text → Bool
has_duplicate [] = false
has_duplicate (t ∷ ts) = mem_text t ts || has_duplicate ts
