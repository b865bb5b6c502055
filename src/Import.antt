-- ===== src/Import.antt =====
-- labtris_api/clab_watch.py and labtris_api/migrate.py: labs that come from elsewhere.
pub mod Pair
mod Tests
