-- ===== src/Daemon.antt =====
-- tabus/daemon.py: the authentication of a request, the reading of its body, and the endpoints that
-- act for a node; with the keys of tabus/nodekey.py.
pub mod Base58
pub mod Auth
pub mod Bound
pub mod Signed
pub mod Body
pub mod Prefix
pub mod Endpoints
pub mod Guarded
pub mod Digits
pub mod Recoded
pub mod Rotate
