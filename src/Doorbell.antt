-- ===== src/Doorbell.antt =====
-- The doorbell of tabus/doorbell_poll.py and tabus/doorbell.py: the ledger of rings, observations
-- and rounds, which is not the message store, and the outcomes of a ring.
pub mod Scan
pub mod Rounds
pub mod Grouped
pub mod Due
pub mod Watermark
pub mod Once
pub mod Settled
use tabc.Prelude.{Bool, List, Option, [], ℕ, ◌∷◌}
use tabc.Text.{Text, mem_text, txt}

pub record Observation : Type 0 where
  pub recipient : Text
  pub message_id : Text
  pub first_seen_at : ℕ

pub record Ring : Type 0 where
  pub recipient : Text
  pub high_id : ℕ
  pub unread : ℕ
  pub mode : Text
  pub outcome : Text
  pub at : ℕ

-- One row every round, `err` only in one that raised.
pub record Round : Type 0 where
  pub at : ℕ
  pub mode : Text
  pub status : Text
  pub recipients : Option ℕ
  pub unread : Option ℕ
  pub would_ring : Option ℕ
  pub err : Option Text

-- LEDGER_DDL; the ids that AUTOINCREMENT gives are the places in the lists
pub record RingLedger : Type 0 where
  pub observations : List Observation
  pub rings : List Ring
  pub rounds : List Round

-- an entry of `_unknown_attempts`: (recipient, mode) and the reading of the monotonic clock, in
-- microseconds
pub record Attempt : Type 0 where
  pub recipient : Text
  pub mode : Text
  pub since : ℕ

-- What the poller keeps: its ledger, and the dict in memory.
pub record Poller : Type 0 where
  pub led : RingLedger
  pub unknown_attempts : List Attempt

-- SUPPRESSING
abbrev pub suppressing : List Text
suppressing =
    txt "SUCCESS" ∷ txt "SUCCESS_LEGACY" ∷ txt "SHADOW_ONLY" ∷ txt "TEXT_ONLY" ∷ txt "QUEUED" ∷ []

abbrev pub is_suppressing : Text → Bool
is_suppressing outcome = mem_text outcome suppressing

-- UNKNOWN_RETRY_SECONDS, in microseconds
abbrev pub unknown_retry : ℕ
unknown_retry = 30000000
