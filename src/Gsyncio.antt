-- ===== src/Gsyncio.antt =====
-- The native extension: pipebomb/gsyncio, its use in pipebomb/utils.py, and hatch_build.py.
pub mod Paths
pub mod Search
pub mod Loading
pub mod Build
pub mod Wheel
pub mod Installed
pub mod Go
pub mod Bridge
pub mod Events
pub mod Once
pub mod Alive
pub mod Doomed
pub mod Pending
