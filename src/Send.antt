-- ===== src/Send.antt =====
-- `bus_send` of tabus/bus.py: the gates in their order, the fan-out, and the one transaction that
-- writes a message with a delivery for each recipient.
pub mod Envelope
pub mod Gates
pub mod Write
pub mod Outcome
pub mod Cleared
pub mod Recipients
pub mod Heard
pub mod Stored
pub mod Delivered
pub mod Retry
