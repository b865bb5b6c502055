-- ===== src/Migrate.antt =====
-- labtris_api/migrate.py: what is planned for a topology file of another program.
pub mod Yaml
pub mod Plan
pub mod Clab
pub mod Unl
pub mod Realize
mod Tests
