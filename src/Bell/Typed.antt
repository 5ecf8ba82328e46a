-- ===== src/Bell/Typed.antt =====
-- The literal that the iTerm adapter of tabus/doorbell.py builds, read back by AppleScript's rule: a
-- backslash quotes a backslash or a quotation mark, and an unquoted mark ends the literal.
use tabc.Prelude.{Bool, Option, [], false, if◌then◌else◌, none, some, true, ℕ, ◌==◌, ◌||◌, ◌∷◌}
use tabc.Text.{Text}

abbrev cons_read : ℕ → Option (Text × Text) → Option (Text × Text)
cons_read c none = none
cons_read c (some (s, rest)) = some (c ∷ s, rest)

-- what stands before the end of the literal, and what follows it; after a backslash, or not
pub read_from : Bool → Text → Option (Text × Text)
read_from quoting [] = none
read_from true (c ∷ s) =
    let rest = read_from false s in if c == 34 || c == 92 then cons_read c rest else none
read_from false (c ∷ s) =
    let plain = read_from false s in
    let quote = read_from true s in
    if c == 34 then some ([], s) else if c == 92 then quote else cons_read c plain

pub read_literal : Text → Option (Text × Text)
read_literal [] = none
read_literal (c ∷ s) = if c == 34 then read_from false s else none

escape_char : ℕ → Text → Text
escape_char c s = if c == 92 then 92 ∷ 92 ∷ s else if c == 34 then 92 ∷ 34 ∷ s else c ∷ s
