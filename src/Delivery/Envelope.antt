-- ===== src/Delivery/Envelope.antt =====
-- `_validate_envelope` of tabus/bus.py.
use tabc.Prelude.{Option, arith, if◌then◌else◌, ltb, none, not, some, ℕ, ◌↔◌, ◌≡◌}
use tabc.Text.{Text, is_nonempty, text_eq, text_eq_iff, txt}
use tabc.Host.{Host}
use tabc.Ledger.{Message, Problem, expired, hash_mismatch, malformed_expiry, unknown_schema}

-- PROTOCOL_VERSION
abbrev pub protocol_version : Text
protocol_version = txt "tabus.v1"

-- `if r["expires_at"]`, the parse and the comparison with the clock
unfoldable pub expiry_problem : Host → ℕ → Option Text → Option Problem
expiry_problem h now none = none
expiry_problem h now (some e) =
    if is_nonempty e
    then elim (h.parse_instant e) [
      | none ↦ some malformed_expiry
      | some t ↦ if ltb t now then some (expired e) else none
    ]
    else none

unfoldable pub validate_envelope : Host → ℕ → Message → Option Problem
unfolding expiry_problem
validate_envelope h now m =
    if not (text_eq m.schema_version protocol_version)
    then some (unknown_schema m.schema_version)
    else elim (expiry_problem h now m.expires_at) [
      | some p ↦ some p
      | none ↦ if not (text_eq (h.sha256 m.body) m.body_hash) then some hash_mismatch else none
    ]

-- The message is of this protocol, has not expired, and its body is the one that was stored.
pub record IsSound (h : Host) (now : ℕ) (m : Message) : Type 0 where
  pub schema : m.schema_version ≡ protocol_version
  pub in_time : expiry_problem h now m.expires_at ≡ none
  pub intact : h.sha256 m.body ≡ m.body_hash

-- The check passes exactly the sound messages.
pub validate_envelope_iff :
    (h : Host) (now : ℕ) (m : Message) → (validate_envelope h now m ≡ none) ↔ IsSound h now m
unfolding validate_envelope
validate_envelope_iff h now m = ground (
  arith,
  text_eq_iff m.schema_version protocol_version,
  text_eq_iff (h.sha256 m.body) m.body_hash,
)
