-- ===== src/Naming.antt =====
-- labtris_api/naming.py: the names of host devices.
pub mod Digits
pub mod Device
pub mod Iface
mod Tests
