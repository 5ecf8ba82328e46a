-- ===== src/Bell.antt =====
-- The delivery of a ring: tabus/doorbell.py, and the queue of tabus/codex_queue.py.
pub mod Queue
pub mod Receipts
pub mod Submitted
pub mod Senders
pub mod Adapters
pub mod Frontend
pub mod Lang
pub mod Deliver
pub mod Loop
pub mod Typed
pub mod Blind
pub mod Injected
pub mod Acted
pub mod Reached
use tabc.Prelude.{ℕ}

-- Python's int
pub data ℤ : Type 0 where
  pos : ℕ → ℤ
  negsuc : ℕ → ℤ
