-- ===== src/Tac/Identity.antt =====
-- tabus/tac_identity.py: identifiers and display names.
use tabc.Prelude.{
  Bool, List, Option, [], false, if◌then◌else◌, none, not, refl, replicate, some, true, ℕ, ◌&&◌,
  ◌++◌, ◌==◌, ◌||◌, ◌∷◌, ◌≡◌,
}
use tabc.Text.{Text, is_nonempty, txt}
use tabc.Text.Unicode.{all_chars, between, is_digit, is_space, strip}
use tabc.Host.{Host}

abbrev is_lower_hex : ℕ → Bool
is_lower_hex c = is_digit c || between b'a' b'f' c

-- The places of the canonical spelling: `true` for a hexadecimal digit, `false` for a hyphen.
abbrev canonical_shape : List Bool
canonical_shape =
    replicate 8 true
    ++ (false
        ∷ (replicate 4 true
            ++ (false
                ∷ (replicate 4 true
                    ++ (false ∷ (replicate 4 true ++ (false ∷ replicate 12 true)))))))

unfoldable pub has_shape : List Bool → Text → Bool
has_shape [] [] = true
has_shape [] (c ∷ s) = false
has_shape (b ∷ bs) [] = false
has_shape (true ∷ bs) (c ∷ s) = is_lower_hex c && has_shape bs s
has_shape (false ∷ bs) (c ∷ s) = c == b'-' && has_shape bs s

-- `str(UUID(value)) == value`: lowercase, hyphenated, and nothing else
unfoldable pub is_uuid_id : Text → Bool
is_uuid_id = has_shape canonical_shape

pub data NameProblem : Type 0 where
  not_visible invisible_character odd_space : NameProblem

-- `check_name` of a string
unfoldable pub check_name : Host → Text → Option NameProblem
check_name h value =
    let name = strip is_space value in
    if not (is_nonempty name)
    then some not_visible
    else if not (all_chars (λ c. not (h.is_invisible c)) name)
    then some invisible_character
    else if not (all_chars (λ c. not (is_space c) || c == b' ') name)
    then some odd_space
    else none

uuid_example : is_uuid_id (txt "0b9d3f5e-7a31-4c1e-9d52-1f00aa21c0de") ≡ true
unfolding is_uuid_id has_shape
uuid_example = refl

name_is_no_uuid : is_uuid_id (txt "release-team") ≡ false
unfolding is_uuid_id has_shape
name_is_no_uuid = refl
