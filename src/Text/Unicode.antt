-- ===== src/Text/Unicode.antt =====
-- What Python's `str` methods say of code points: `isspace`, `isalnum` on ASCII, `encode("utf-8")`,
-- `strip`, `lstrip` and `isdigit` on ASCII.
use tabc.Prelude.{Bool, [], if◌then◌else◌, leb, ltb, not, true, ℕ, ◌&&◌, ◌+◌, ◌==◌, ◌||◌, ◌∷◌}
use tabc.Text.{Text, is_nonempty}

abbrev pub between : ℕ → ℕ → ℕ → Bool
between lo hi c = leb lo c && leb c hi

-- `str.isspace` of one character
unfoldable pub is_space : ℕ → Bool
is_space c =
    between 9 13 c
    || between 28 32 c
    || c == 0x85
    || c == 0xa0
    || c == 0x1680
    || between 0x2000 0x200a c
    || between 0x2028 0x2029 c
    || c == 0x202f
    || c == 0x205f
    || c == 0x3000

unfoldable pub all_chars : (ℕ → Bool) → Text → Bool
all_chars p [] = true
all_chars p (c ∷ s) = p c && all_chars p s

-- `s == "" or s.isspace()`
unfoldable pub is_blank : Text → Bool
is_blank s = all_chars is_space s

abbrev pub is_surrogate : ℕ → Bool
is_surrogate c = between 0xd800 0xdfff c

-- `_encodes`: no UnicodeEncodeError
unfoldable pub encodes : Text → Bool
encodes s = all_chars (λ c. not (is_surrogate c)) s

-- the number of UTF-8 bytes of a code point that encodes
abbrev pub utf8_width : ℕ → ℕ
utf8_width c = if ltb c 0x80 then 1 else if ltb c 0x800 then 2 else if ltb c 0x10000 then 3 else 4

-- `len(s.encode("utf-8"))`
unfoldable pub utf8_len : Text → ℕ
utf8_len [] = 0
utf8_len (c ∷ s) = utf8_width c + utf8_len s

abbrev pub is_digit : ℕ → Bool
is_digit c = between b'0' b'9' c

abbrev pub is_ascii_alnum : ℕ → Bool
is_ascii_alnum c = is_digit c || (between b'A' b'Z' c || between b'a' b'z' c)

-- `s.lstrip(chars)` for a set of characters
unfoldable pub strip_front : (ℕ → Bool) → Text → Text
strip_front p [] = []
strip_front p (c ∷ s) = let rest = strip_front p s in if p c then rest else c ∷ s

-- `s.rstrip(chars)`
unfoldable pub strip_back : (ℕ → Bool) → Text → Text
strip_back p [] = []
strip_back p (c ∷ s) =
    let rest = strip_back p s in if p c && not (is_nonempty rest) then [] else c ∷ rest

unfoldable pub strip : (ℕ → Bool) → Text → Text
unfolding strip_front strip_back
strip p s = strip_back p (strip_front p s)
