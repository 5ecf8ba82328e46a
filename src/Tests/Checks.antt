-- ===== src/Tests/Checks.antt =====
-- The theorems on the checks of a message's text and of a tac's designation.
use tabc.Prelude.{Option, [], false, none, refl, replicate, some, ◌∷◌, ◌≡◌}
use tabc.Text.{Text, text_eq, txt}
use tabc.Text.Unicode.{
  all_chars, encodes, is_blank, is_space, strip, strip_back, strip_front, utf8_len,
}
use tabc.Ledger.{injected, tac_exists}
use tabc.Payload.{
  body_refusal, check_send_payload, encoding_refusal, is_broken, other_refusal, str, subject_field,
  subject_refusal, too_large, type_refusal,
}
use tabc.Payload.Length.{
  agree, decimal, declared_length, digits_of, length_invalid, length_of_digits, one_length,
  raw_length, request_length_refusal, request_too_large,
}
use tabc.Tac.Identity.{has_shape, is_uuid_id}
use tabc.Tac.Resolve.{designates, resolve}
use tabc.Tests.Data.{office, work}

-- 257 code points of four bytes, one over the limit of 1024 bytes
abbrev faces : Text
faces = replicate 257 0x1f600

faces_refused :
    check_send_payload (str faces) (str (txt "hi")) [] ≡ some (too_large subject_field 1028 1024)
unfolding check_send_payload type_refusal encoding_refusal is_broken encodes all_chars other_refusal
    body_refusal subject_refusal is_blank is_space utf8_len
faces_refused = refl

name_facts :
    (resolve (office injected 1) work ≡ designates work)
    × (is_uuid_id (txt "our work") ≡ false)
    × (tac_exists (office injected 1) (txt "our work") ≡ false)
unfolding resolve strip strip_front strip_back is_space is_uuid_id has_shape tac_exists
    tabc.Table.any tabc.Text.text_eq
name_facts = (refl, refl, refl)

-- the header that is sent twice, with a leading zero and a blank
abbrev forty_two : Option Text
forty_two = some (txt " 0042")

lengths :
    (request_length_refusal (forty_two ∷ some (txt "42") ∷ []) ≡ none)
    × (request_length_refusal (forty_two ∷ some (txt "43") ∷ []) ≡ some length_invalid)
    × (request_length_refusal (some (txt "+42") ∷ []) ≡ some length_invalid)
    × (request_length_refusal (some (txt "524289") ∷ []) ≡ some (request_too_large 524289))
unfolding request_length_refusal declared_length one_length raw_length strip strip_front strip_back
    all_chars length_of_digits digits_of decimal agree text_eq
lengths = (refl, refl, refl, refl)
