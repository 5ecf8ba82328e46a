-- ===== src/Payload/Declares.antt =====
-- Which declared lengths are let through.
use tabc.Payload.Measured.{digits_of-decimal, length_of_digits-says}
use tabc.Prelude.{
  &&-true, All, Bool, Bool-cases, List, Option, [], ap, arith, false, if◌then◌else◌, inl, inr, ltb,
  none, refl, some, sym, true, ℕ, ◌<◌, ◌↔◌, ◌∙◌, ◌∷◌, ◌≡◌, ◌≤◌, ◌⊎◌,
}
use tabc.Text.{Text, is_nonempty, text_eq, text_eq_iff}
use tabc.Text.Unicode.{all_chars, is_digit}
use tabc.Payload.Length.{
  agree, decimal, declared_length, digits_of, invalid_length, length_invalid, max_request_bytes,
  more_than_reported, one_length, raw_length, request_length_refusal, request_too_large,
  valid_length,
}

-- what a header value spells, and that it spells a number
abbrev pub spelled : Option Text → ℕ
spelled v = decimal 0 (raw_length v)

abbrev pub is_number : Option Text → Bool
is_number v = all_chars is_digit (raw_length v)

-- a valid value: its digits spell the same number, which is known unless it is over the limit
record Says (v : Option Text) (n : Option ℕ) (d : Text) : Type 0 where
  found : one_length v ≡ valid_length n d
  number : is_number v ≡ true
  same : decimal 0 d ≡ spelled v
  known : (n ≡ some (spelled v)) ⊎ ((n ≡ none) × (max_request_bytes < spelled v))

empty_of : (s : Text) → is_nonempty s ≡ false → s ≡ []
empty_of [] h = refl
empty_of (c ∷ s) h = absurd (ground arith)

-- a value that is missing or blank is the number 0
blank-Says : (v : Option Text) → is_nonempty (raw_length v) ≡ false → Says v (some 0) (48 ∷ [])
unfolding one_length
blank-Says v e =
    let none_left = empty_of (raw_length v) e in
    record {
      found = rw e refl;
      number = rw none_left (unfold all_chars in refl);
      same = rw none_left (unfold decimal in refl);
      known = inl (rw none_left (unfold decimal in refl));
    }

one_length-Says :
    (v : Option Text)
    → ((one_length v ≡ invalid_length) × (is_number v ≡ false))
      ⊎ ((n : Option ℕ) × (d : Text) × Says v n d)
unfolding one_length
one_length-Says v = elim (Bool-cases (is_nonempty (raw_length v))) [
  | inr e ↦ inr (some 0, 48 ∷ [], blank-Says v e)
  | inl e ↦ elim (Bool-cases (is_number v)) [
    | inr a ↦ inl (rw (e, a) refl, a)
    | inl a ↦
        let d = digits_of (raw_length v) in
        elim (length_of_digits-says (raw_length v) a) [
          | inl known ↦ inr (
            some (spelled v),
            d,
            record {
              found = rw (e, a) known;
              number = a;
              same = digits_of-decimal (raw_length v);
              known = inl refl;
            },
          )
          | inr (over, big) ↦ inr (
            none,
            d,
            record {
              found = rw (e, a) over;
              number = a;
              same = digits_of-decimal (raw_length v);
              known = inr (refl, big);
            },
          )
        ]
  ]
]

-- values that agree with the digits of the first are numbers, and the same one
agree-All :
    (digits : Text) (vs : List (Option Text))
    → agree digits vs ≡ true
    → All (λ w. (is_number w ≡ true) × (spelled w ≡ decimal 0 digits)) vs
unfolding agree
agree-All digits [] h = tt
agree-All digits (v ∷ vs) h = elim (one_length-Says v) [
  | inl (e, _) ↦ absurd (ground (arith, e))
  | inr (n, d, s) ↦
      let both = &&-true (text_eq d digits) (agree digits vs) (rw (s.found, agree) at h) in
      (
        (s.number, sym (s.same) ∙ ap (decimal 0) ((text_eq_iff d digits).0 both.0)),
        agree-All digits vs both.1,
      )
]

-- a first value that is no number is refused, and so is a number over the limit, or one that a
-- further value does not repeat
refused_invalid :
    (v : Option Text) (vs : List (Option Text))
    → one_length v ≡ invalid_length
    → request_length_refusal (v ∷ vs) ≡ some length_invalid
unfolding request_length_refusal declared_length
refused_invalid v vs e = rw (e, request_length_refusal, declared_length) refl

refused_disagreeing :
    (v : Option Text) (vs : List (Option Text)) (n : Option ℕ) (d : Text)
    → one_length v ≡ valid_length n d
    → agree d vs ≡ false
    → request_length_refusal (v ∷ vs) ≡ some length_invalid
unfolding request_length_refusal declared_length
refused_disagreeing v vs n d e a = rw (e, request_length_refusal, declared_length, a) refl

refused_unreported :
    (v : Option Text) (vs : List (Option Text)) (d : Text)
    → one_length v ≡ valid_length none d
    → agree d vs ≡ true
    → request_length_refusal (v ∷ vs) ≡ some more_than_reported
unfolding request_length_refusal declared_length
refused_unreported v vs d e a = rw (e, request_length_refusal, declared_length, a) refl

measured :
    (v : Option Text) (vs : List (Option Text)) (k : ℕ) (d : Text)
    → one_length v ≡ valid_length (some k) d
    → agree d vs ≡ true
    → request_length_refusal (v ∷ vs)
      ≡ (if ltb max_request_bytes k then some (request_too_large k) else none)
unfolding request_length_refusal declared_length
measured v vs k d e a = rw (e, request_length_refusal, declared_length, a) refl

-- A request is let through only if every declared length spells a number in ASCII digits between
-- blanks, all of them the same number, which is at most the limit of the request body.
pub request_length_refusal-none :
    (v : Option Text) (vs : List (Option Text))
    → request_length_refusal (v ∷ vs) ≡ none
    → (is_number v ≡ true)
      × (spelled v ≤ max_request_bytes)
      × All (λ w. (is_number w ≡ true) × (spelled w ≡ spelled v)) vs
request_length_refusal-none v vs h = elim (one_length-Says v) [
  | inl (e, _) ↦ absurd (ground (arith, refused_invalid v vs e, h))
  | inr (n, d, s) ↦ elim (Bool-cases (agree d vs)) [
    | inr f ↦ absurd (ground (arith, refused_disagreeing v vs n d s.found f, h))
    | inl t ↦ elim s.known [
      | inl k ↦ (
        s.number,
        ground (arith, measured v vs (spelled v) d (rw k at (s.found)) t, h),
        rw (s.same) at (agree-All d vs t),
      )
      | inr (k, big) ↦ absurd (ground (arith, refused_unreported v vs d (rw k at (s.found)) t, h))
    ]
  ]
]

-- A request with one declared length is let through exactly if the value spells a number in ASCII
-- digits between blanks, leading zeros allowed, that is at most the limit of the request body.
pub request_length_refusal_iff :
    (v : Option Text)
    → (request_length_refusal (v ∷ []) ≡ none)
      ↔ ((is_number v ≡ true) × (spelled v ≤ max_request_bytes))
unfolding agree
request_length_refusal_iff v = (
  λ h. let r = request_length_refusal-none v [] h in (r.0, r.1),
  λ g. elim (one_length-Says v) [
    | inl (e, a) ↦ absurd (ground (arith, a, g.0))
    | inr (n, d, s) ↦ elim s.known [
      | inl k ↦ ground (arith, measured v [] (spelled v) d (rw k at (s.found)) refl, g.1)
      | inr (k, big) ↦ absurd (omega (arith, big, g.1))
    ]
  ],
)
