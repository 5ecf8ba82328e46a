-- ===== src/Host.antt =====
-- What the bus takes from Python's standard library and does not implement: the hash, the
-- timestamp format, and the Unicode tables of the running interpreter.
use tabc.Prelude.{Bool, Option, ℕ}
use tabc.Text.{Text}

pub record Host : Type 0 where
  -- `hashlib.sha256(s.encode()).hexdigest()`
  pub sha256 : Text → Text
  -- `parse_instant(s)` in microseconds, `none` for a ValueError
  pub parse_instant : Text → Option ℕ
  -- `isoformat(timespec="seconds")` of an instant in UTC
  pub isoformat : ℕ → Text
  -- NFC, case folding, NFC: `tac_identity.name_key`
  pub name_key : Text → Text
  -- `unicodedata.category(char) in INVISIBLE_CATEGORIES`
  pub is_invisible : ℕ → Bool
