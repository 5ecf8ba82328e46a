-- ===== src/Tests.antt =====
-- Concrete ledgers, envelopes and hosts, and the theorems applied to them.
mod Data
mod Counting
mod Sending
mod Mailbox
mod Checks
mod Registry
mod Groups
mod Ringing
mod Bells
mod Requests
