-- ===== src/Daemon/Bound.antt =====
-- What `canonical_request` of tabus/nodekey.py binds.
use mathlib.Core.List.{head-eq_of_cons-eq, tail-eq_of_cons-eq}
use tabc.Prelude.{
  Bool, Bool-cases, [], ap₂, arith, inl, inr, not, refl, true, ◌++◌, ◌==◌, ◌∷◌, ◌≡◌, ◌≢◌, ◌⊎◌,
}
use tabc.Text.{Text, text_eq, text_eq_iff}
use tabc.Text.Unicode.{all_chars}
use tabc.Text.Search.{join}
use tabc.Host.{Host}
use tabc.Daemon.Auth.{canonical_request}

-- the text has no line feed
abbrev pub is_line : Text → Bool
is_line s = all_chars (λ c. not (c == 10)) s

-- lines that end the same way are the same up to their first line feed
line-split :
    (a b s t : Text)
    → is_line a ≡ true
    → is_line b ≡ true
    → a ++ 10 ∷ s ≡ b ++ 10 ∷ t
    → (a ≡ b) × (s ≡ t)
unfolding all_chars
line-split [] [] s t ha hb h = (refl, tail-eq_of_cons-eq h)
line-split [] (d ∷ b) s t ha hb h = (let k : 10 ≡ d = head-eq_of_cons-eq h in absurd (ground arith))
line-split (c ∷ a) [] s t ha hb h = (let k : c ≡ 10 = head-eq_of_cons-eq h in absurd (ground arith))
line-split (c ∷ a) (d ∷ b) s t ha hb h =
    let k : c ≡ d = head-eq_of_cons-eq h in
    let r = line-split a b s t (ground arith) (ground arith) (tail-eq_of_cons-eq h) in
    (ap₂ ◌∷◌ k r.0, r.1)

-- two different texts with the same hash
pub Collision : Host → Type 0
Collision h = (a : Text) × (b : Text) × (a ≢ b) × (h.sha256 a ≡ h.sha256 b)

same_or_Collision : (h : Host) (a b : Text) → h.sha256 a ≡ h.sha256 b → (a ≡ b) ⊎ Collision h
unfolding Collision
same_or_Collision h a b e = elim (Bool-cases (text_eq a b)) [
  | inl s ↦ inl ((text_eq_iff a b).0 s)
  | inr s ↦ inr (a, b, λ k. absurd (ground (arith, (text_eq_iff a b).1 k)), e)
]

both_or : {A B C : Type 0} → A ⊎ C → B ⊎ C → (A × B) ⊎ C
both_or (inl a) (inl b) = inl (a, b)
both_or (inl a) (inr c) = inr c
both_or (inr c) y = inr c

-- Where a hash is one line, as hexadecimal digits are, the canonical text binds what goes into it:
-- from two lists of a node, a method, a path, a decoded body and a timestamp, whatever separators
-- these hold, with the same canonical text, either all five agree, or two different texts with the
-- same hash have been found.
pub canonical_request-eq :
    (h : Host)
    → ((s : Text) → is_line (h.sha256 s) ≡ true)
    → (n m p b ts n' m' p' b' ts' : Text)
    → canonical_request h n m p b ts ≡ canonical_request h n' m' p' b' ts'
    → ((n ≡ n') × (m ≡ m') × (p ≡ p') × (b ≡ b') × (ts ≡ ts')) ⊎ Collision h
unfolding canonical_request join
canonical_request-eq h line n m p b ts n' m' p' b' ts' e =
    let d1 = line-split (h.sha256 n) (h.sha256 n') _ _ (line n) (line n') e in
    let d2 = line-split (h.sha256 m) (h.sha256 m') _ _ (line m) (line m') d1.1 in
    let d3 = line-split (h.sha256 p) (h.sha256 p') _ _ (line p) (line p') d2.1 in
    let d4 = line-split (h.sha256 b) (h.sha256 b') _ _ (line b) (line b') d3.1 in
    let all = both_or (same_or_Collision h n n' d1.0) (
      both_or (same_or_Collision h m m' d2.0) (
        both_or (same_or_Collision h p p' d3.0)
          (both_or (same_or_Collision h b b' d4.0) (same_or_Collision h ts ts' d4.1)))) in
    elim all [ inl (a, (f, (g, (k, t)))) ↦ inl (a, f, g, k, t) | inr c ↦ inr c ]
