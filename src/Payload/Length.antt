-- ===== src/Payload/Length.antt =====
-- The declared length of an HTTP request: `_one_length`, `declared_length` and
-- `request_length_refusal` of tabus/send_refusal.py.
use tabc.Prelude.{
  Bool, List, Option, [], false, if◌then◌else◌, leb, length, ltb, none, not, some, true, ℕ, ◌&&◌,
  ◌*◌, ◌+◌, ◌-◌, ◌==◌, ◌||◌, ◌∷◌,
}
use tabc.Text.{Text, is_nonempty, text_eq, text_or}
use tabc.Text.Unicode.{all_chars, is_digit, strip, strip_front}

abbrev pub max_request_bytes : ℕ
max_request_bytes = 524288

-- 2**63 - 1, and the length of its decimal spelling
abbrev pub max_reported_length : ℕ
max_reported_length = 9223372036854775807

abbrev pub max_reported_digits : ℕ
max_reported_digits = 19

-- SP and HTAB
abbrev pub is_blank_char : ℕ → Bool
is_blank_char c = c == 32 || c == 9

abbrev pub is_zero_digit : ℕ → Bool
is_zero_digit c = c == 48

-- `int(digits)`, from the left
unfoldable pub decimal : ℕ → Text → ℕ
decimal acc [] = acc
decimal acc (c ∷ s) = decimal (acc * 10 + (c - 48)) s

-- one Content-Length value: invalid, or the number if it is within the limit and its digits
pub data OneLength : Type 0 where
  invalid_length : OneLength
  valid_length : Option ℕ → Text → OneLength

abbrev pub reported : ℕ → Option ℕ
reported n = if leb n max_reported_length then some n else none

-- `raw.lstrip("0") or "0"`
unfoldable pub digits_of : Text → Text
digits_of raw = text_or (some (strip_front is_zero_digit raw)) (48 ∷ [])

unfoldable pub length_of_digits : Text → OneLength
length_of_digits digits =
    if ltb max_reported_digits (length digits)
    then valid_length none digits
    else valid_length (reported (decimal 0 digits)) digits

-- the value between its blanks
unfoldable pub raw_length : Option Text → Text
raw_length value = strip is_blank_char (text_or value [])

unfoldable pub one_length : Option Text → OneLength
one_length value =
    if not (is_nonempty (raw_length value))
    then valid_length (some 0) (48 ∷ [])
    else if not (all_chars is_digit (raw_length value))
    then invalid_length
    else length_of_digits (digits_of (raw_length value))

-- every further value is valid and has the digits of the first
unfoldable pub agree : Text → List (Option Text) → Bool
agree digits [] = true
agree digits (v ∷ vs) =
    let rest = agree digits vs in
    elim (one_length v) [ invalid_length ↦ false | valid_length n d ↦ text_eq d digits && rest ]

pub data Declared : Type 0 where
  not_valid : Declared
  declares : Option ℕ → Declared

-- a missing header is one value that is missing
unfoldable pub declared_length : List (Option Text) → Declared
declared_length [] = declares (some 0)
declared_length (v ∷ vs) = elim (one_length v) [
  | invalid_length ↦ not_valid
  | valid_length n d ↦ if agree d vs then declares n else not_valid
]

pub data LengthRefusal : Type 0 where
  length_invalid : LengthRefusal
  more_than_reported : LengthRefusal
  request_too_large : ℕ → LengthRefusal

unfoldable pub request_length_refusal : List (Option Text) → Option LengthRefusal
request_length_refusal values = elim (declared_length values) [
  | not_valid ↦ some length_invalid
  | declares none ↦ some more_than_reported
  | declares (some n) ↦ if ltb max_request_bytes n then some (request_too_large n) else none
]
