-- ===== src/Tac.antt =====
-- Tacs, the named groups: tabus/tac_identity.py, tabus/tac_store.py and the tac half of
-- tabus/bus.py.
pub mod Identity
pub mod Resolve
pub mod Store
pub mod Group
pub mod Named
pub mod Grouped
pub mod Roll
pub mod Unique
pub mod Linked
pub mod Listing
pub mod Newest
