-- ===== src/Delivery.antt =====
-- tabus/bus.py, the mailbox: delivery states, the envelope check, and the ways to reach unread
-- mail. Claiming, reopening and acknowledging are in the modules below, and so are the proofs.
pub mod Envelope
pub mod Claim
pub mod Reopen
pub mod Ack
pub mod Follows
pub mod Ladder
pub mod AckLadder
pub mod History
pub mod Winners
pub mod Handed
pub mod Attempts
pub mod Acknowledged
use tabc.Prelude.{
  Bool, List, Option, [], false, if◌then◌else◌, leb, ltb, none, some, suc, true, zero, ℕ, ◌&&◌,
  ◌==◌, ◌||◌, ◌∷◌,
}
use tabc.Text.{Text, is_nonempty, text_eq, txt}
use tabc.Ledger.{Delivery, Message, State, accepted, claimed, find_message, injected}

-- LEASE_SEC and MAX_ATTEMPTS
abbrev pub lease_default : ℕ
lease_default = 120

abbrev pub max_attempts : ℕ
max_attempts = 5

abbrev pub is_accepted : State → Bool
is_accepted accepted = true
is_accepted _ = false

abbrev pub is_claimed : State → Bool
is_claimed claimed = true
is_claimed _ = false

abbrev pub is_injected : State → Bool
is_injected injected = true
is_injected _ = false

-- UNREAD_STATES
abbrev pub is_unread : State → Bool
is_unread accepted = true
is_unread claimed = true
is_unread injected = true
is_unread _ = false

-- A row of `deliveries d JOIN messages m`, as claiming and reopening select it.
pub record Row : Type 0 where
  pub did : ℕ
  pub state : State
  pub attempts : ℕ
  pub message : Message

unfoldable pub join_rows : List Message → List Delivery → List Row
join_rows ms [] = []
join_rows ms (d ∷ ds) =
    let rest = join_rows ms ds in
    elim (find_message ms d.message_id) [
      | none ↦ rest
      | some m ↦ record { did = d.id; state = d.state; attempts = d.attempts; message = m } ∷ rest
    ]

-- CASE m.priority WHEN 'now' THEN 0 WHEN 'next' THEN 1 ELSE 2 END
unfoldable pub priority_rank : Text → ℕ
priority_rank p = if text_eq p (txt "now") then 0 else if text_eq p (txt "next") then 1 else 2

-- ORDER BY the rank, then m.accepted_at
unfoldable pub row_le : Row → Row → Bool
row_le a b =
    let ra = priority_rank a.message.priority in
    let rb = priority_rank b.message.priority in
    ltb ra rb || (ra == rb && leb a.message.accepted_at b.message.accepted_at)

-- `AND m.priority=?`, present if a priority is asked for
unfoldable pub has_priority : Option Text → Row → Bool
has_priority none r = true
has_priority (some p) r = if is_nonempty p then text_eq r.message.priority p else true

-- `lease_sec or LEASE_SEC`
abbrev pub lease_or_default : Option ℕ → ℕ
lease_or_default none = lease_default
lease_or_default (some zero) = lease_default
lease_or_default (some (suc n)) = suc n
