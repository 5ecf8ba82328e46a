-- ===== src/Payload/Accepts.antt =====
-- What passes the checks of tabus/send_refusal.py, and what a size refusal says.
use tabc.Prelude.{
  List, [], arith, false, none, refl, some, sym, true, ℕ, ◌<◌, ◌↔◌, ◌∷◌, ◌≡◌, ◌≢◌, ◌≤◌, ◌⊎◌,
}
use tabc.Text.{Text}
use tabc.Text.Unicode.{encodes, is_blank, utf8_len}
use tabc.Payload.{
  Field, Json, body_field, body_missing, body_refusal, check_send_payload, encoding_refusal,
  is_broken, is_null, is_text, max_body_bytes, max_subject_bytes, null, other_refusal, str,
  subject_field, subject_refusal, too_large, type_refusal,
}

-- A subject and a body that may be stored.
pub record IsPayload (subject body : Text) (other : List (Text × Json)) : Type 0 where
  pub body_encodes : encodes body ≡ true
  pub subject_encodes : encodes subject ≡ true
  pub other_encodes : other_refusal other ≡ none
  pub body_visible : is_blank body ≡ false
  pub subject_visible : is_blank subject ≡ false
  pub body_fits : utf8_len body ≤ max_body_bytes
  pub subject_fits : utf8_len subject ≤ max_subject_bytes

texts_pass :
    (s b : Text) (other : List (Text × Json))
    → (check_send_payload (str s) (str b) other ≡ none) ↔ IsPayload s b other
unfolding check_send_payload type_refusal encoding_refusal body_refusal subject_refusal is_broken
texts_pass s b other = ground arith

text_of : (j : Json) → is_text j ≡ true → (s : Text) × (j ≡ str s)
text_of (str s) h = (s, refl)
text_of _ h = absurd (ground arith)

body_refusal-null : (j : Json) → is_null j ≡ true → body_refusal j ≡ some body_missing
unfolding body_refusal
body_refusal-null null h = refl
body_refusal-null (str s) h = absurd (ground arith)
body_refusal-null _ h = absurd (ground arith)

-- Only two texts get past the first and the third check.
not_texts_fail :
    (subject body : Json) (other : List (Text × Json))
    → check_send_payload subject body other ≡ none
    → (is_text subject ≡ true) × (is_text body ≡ true)
unfolding check_send_payload type_refusal
not_texts_fail subject body other h = (ground arith, ground (arith, body_refusal-null body))

pub check_send_payload_iff :
    (subject body : Json) (other : List (Text × Json))
    → (check_send_payload subject body other ≡ none)
      ↔ ((s : Text) × (b : Text) × (subject ≡ str s) × (body ≡ str b) × IsPayload s b other)
check_send_payload_iff subject body other = (
  λ h.
      let (ts, tb) = not_texts_fail subject body other h in
      let (s, es) = text_of subject ts in
      let (b, eb) = text_of body tb in
      (s, b, es, eb, (texts_pass s b other).0 (rw (sym es, sym eb) h)),
  λ p. rw (p.2, p.3) ((texts_pass p.0 p.1 other).1 p.4),
)

other_refusal-ne :
    (other : List (Text × Json)) (f : Field) (n limit : ℕ)
    → other_refusal other ≢ some (too_large f n limit)
unfolding other_refusal
other_refusal-ne [] f n limit h = absurd (ground arith)
other_refusal-ne ((name, v) ∷ rest) f n limit h = ground (arith, other_refusal-ne rest f n limit)

-- A size refusal is true: it names the field's real UTF-8 size, which is over the field's limit,
-- and it comes only for text that encodes and is not blank.
too_large_is_true :
    (s b : Text) (other : List (Text × Json)) (f : Field) (n limit : ℕ)
    → check_send_payload (str s) (str b) other ≡ some (too_large f n limit)
    → ((f ≡ body_field)
        × (n ≡ utf8_len b)
        × (limit ≡ max_body_bytes)
        × (limit < n)
        × (is_blank b ≡ false))
      ⊎ ((f ≡ subject_field)
          × (n ≡ utf8_len s)
          × (limit ≡ max_subject_bytes)
          × (limit < n)
          × (is_blank s ≡ false)
          × (utf8_len b ≤ max_body_bytes))
unfolding check_send_payload type_refusal encoding_refusal body_refusal subject_refusal is_broken
too_large_is_true s b other f n limit h = ground (arith, other_refusal-ne other f n limit)
