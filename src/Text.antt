-- ===== src/Text.antt =====
-- Python's `str`: a sequence of code points, surrogates included, which is why it is not the
-- native `String`. A literal is written `txt "..."`.
pub mod Unicode
pub mod Order
pub mod Search
use Prim.Native.Char.{code}
use Prim.Native.String.{String}
use tabc.Prelude.{
  Bool, List, Option, [], arith, false, if◌then◌else◌, none, refl, some, true, ℕ, ◌&&◌, ◌==◌, ◌||◌,
  ◌↔◌, ◌∷◌, ◌≡◌,
}

abbrev pub Text : Type 0
Text = List ℕ

abbrev pub txt : String → Text
txt String.[] = []
txt (String.◌∷◌ c s) = code c ∷ txt s

unfoldable pub text_eq : Text → Text → Bool
text_eq [] [] = true
text_eq [] (b ∷ t) = false
text_eq (a ∷ s) [] = false
text_eq (a ∷ s) (b ∷ t) = a == b && text_eq s t

pub text_eq_iff : (s t : Text) → (text_eq s t ≡ true) ↔ (s ≡ t)
unfolding text_eq
text_eq_iff [] [] = ground arith
text_eq_iff [] (b ∷ t) = ground arith
text_eq_iff (a ∷ s) [] = ground arith
text_eq_iff (a ∷ s) (b ∷ t) = ground (arith, text_eq_iff s t)

pub text_eq_refl : (s : Text) → text_eq s s ≡ true
text_eq_refl s = (text_eq_iff s s).1 refl

-- Python's truth of a string
abbrev pub is_nonempty : Text → Bool
is_nonempty [] = false
is_nonempty (c ∷ s) = true

-- `x or d` on a nullable text
abbrev pub text_or : Option Text → Text → Text
text_or none d = d
text_or (some t) d = if is_nonempty t then t else d

-- Equality of nullable columns, `IS` in SQL and `==` in Python
abbrev pub opt_eq : Option Text → Option Text → Bool
opt_eq none none = true
opt_eq none (some b) = false
opt_eq (some a) none = false
opt_eq (some a) (some b) = text_eq a b

pub opt_eq_iff : (a b : Option Text) → (opt_eq a b ≡ true) ↔ (a ≡ b)
opt_eq_iff none none = ground arith
opt_eq_iff none (some b) = ground arith
opt_eq_iff (some a) none = ground arith
opt_eq_iff (some a) (some b) = ground (arith, text_eq_iff a b)

-- `t in ts` for a collection of texts
unfoldable pub mem_text : Text → List Text → Bool
mem_text t [] = false
mem_text t (s ∷ ts) = text_eq s t || mem_text t ts
