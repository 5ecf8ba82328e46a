-- ===== src/Nodes.antt =====
-- The node registry of tabus/bus.py: registration with its routes, heartbeats, quiet time, the team
-- flag, removal and restoration.
pub mod Name
pub mod Register
pub mod Upsert
pub mod Registered
pub mod Owners
pub mod Exclusive
pub mod Admin
pub mod Removal
pub mod Inactive
