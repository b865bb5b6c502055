-- ===== src/Netd.antt =====
-- labtris_netd/: the host daemon's wire protocol (protocol.py) and its verbs (verbs.py).
pub mod Protocol
pub mod Json
pub mod Line
pub mod Check
pub mod Address
pub mod Call
pub mod Verb
pub mod Params
pub mod Make
pub mod Dispatch
pub mod Safety
pub mod Session
mod Tests
