-- ===== src/Topology.antt =====
-- labtris_api/topology_gen.py: the generated labs.
pub mod Frr
pub mod Rows
pub mod Builder
pub mod Request
pub mod Clos
pub mod FatTree
pub mod Roles
pub mod Scale
pub mod Generate
mod Tests
