-- ===== src/UeStack.antt =====
-- ue_stack/: the UET packet format (packet.py), the delivery contexts (pdc.py) and the daemon
-- (daemon.py).
pub mod Struct
pub mod Packet
pub mod Pdc
pub mod Daemon
mod Tests
