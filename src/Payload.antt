-- ===== src/Payload.antt =====
-- tabus/send_refusal.py: the checks of a message's text, in the order in which they refuse.
pub mod Accepts
pub mod Length
pub mod Measured
pub mod Declares
use tabc.Prelude.{
  Bool, List, Option, [], coalesce, false, if◌then◌else◌, ltb, none, not, some, true, ℕ, ◌&&◌, ◌||◌,
  ◌∷◌,
}
use tabc.Text.{Text, txt}
use tabc.Text.Unicode.{encodes, is_blank, utf8_len}

-- A JSON value, as far as the checks look at it: what a number or an object holds is not read.
mutual
  pub data Json : Type 0 where
    null number dict : Json
    boolean : Bool → Json
    str : Text → Json
    arr : Items → Json

  pub data Items : Type 0 where
    nil : Items
    cons : Json → Items → Items

pub data Field : Type 0 where
  body_field subject_field : Field

-- The refusals of this module, with the values that their messages and details carry.
pub data Refusal : Type 0 where
  type_invalid : Field → Json → Refusal
  encoding_invalid : Text → Refusal
  body_missing body_empty subject_empty : Refusal
  too_large : Field → ℕ → ℕ → Refusal

abbrev pub max_body_bytes : ℕ
max_body_bytes = 65536

abbrev pub max_subject_bytes : ℕ
max_subject_bytes = 1024

-- `SendRefusal.code`
unfoldable pub refusal_code : Refusal → Text
refusal_code (type_invalid f v) = txt "FIELD_TYPE_INVALID"
refusal_code (encoding_invalid f) = txt "FIELD_ENCODING_INVALID"
refusal_code body_missing = txt "BODY_MISSING"
refusal_code body_empty = txt "BODY_EMPTY"
refusal_code subject_empty = txt "SUBJECT_EMPTY"
refusal_code (too_large body_field n limit) = txt "BODY_TOO_LARGE"
refusal_code (too_large subject_field n limit) = txt "SUBJECT_TOO_LARGE"

-- `isinstance(value, str)`
abbrev pub is_text : Json → Bool
is_text (str s) = true
is_text _ = false

abbrev pub is_null : Json → Bool
is_null null = true
is_null _ = false

-- the type checks: body, then subject; a body of null passes here
unfoldable pub type_refusal : Json → Json → Option Refusal
type_refusal subject body =
    if not (is_null body) && not (is_text body)
    then some (type_invalid body_field body)
    else if not (is_text subject)
    then some (type_invalid subject_field subject)
    else none

-- `isinstance(v, str) and not _encodes(v)`
unfoldable pub is_broken : Json → Bool
is_broken (str s) = not (encodes s)
is_broken _ = false

unfoldable pub any_broken : Items → Bool
any_broken nil = false
any_broken (cons v vs) = is_broken v || any_broken vs

-- a value, or the values of a list
unfoldable pub is_broken_field : Json → Bool
unfolding any_broken
is_broken_field (arr vs) = any_broken vs
is_broken_field v = is_broken v

unfoldable pub other_refusal : List (Text × Json) → Option Refusal
other_refusal [] = none
other_refusal ((name, v) ∷ rest) =
    let later = other_refusal rest in
    if is_broken_field v then some (encoding_invalid name) else later

unfoldable pub encoding_refusal : Json → Json → List (Text × Json) → Option Refusal
encoding_refusal subject body other =
    if is_broken body
    then some (encoding_invalid (txt "body"))
    else if is_broken subject
    then some (encoding_invalid (txt "subject"))
    else other_refusal other

unfoldable pub body_refusal : Json → Option Refusal
body_refusal (str b) =
    if is_blank b
    then some body_empty
    else if ltb max_body_bytes (utf8_len b)
    then some (too_large body_field (utf8_len b) max_body_bytes)
    else none
body_refusal _ = some body_missing

unfoldable pub subject_refusal : Json → Option Refusal
subject_refusal (str s) =
    if is_blank s
    then some subject_empty
    else if ltb max_subject_bytes (utf8_len s)
    then some (too_large subject_field (utf8_len s) max_subject_bytes)
    else none
subject_refusal _ = none

-- `coalesce` hands on the first refusal.
unfoldable pub check_send_payload : Json → Json → List (Text × Json) → Option Refusal
check_send_payload subject body other = coalesce (type_refusal subject body) (
    coalesce (encoding_refusal subject body other)
      (coalesce (body_refusal body) (subject_refusal subject)))
