-- ===== src/Examples.antt =====
-- A small table on the sample protocol, and the theorems at work on it.
pub mod Table
pub mod Switching
pub mod Output
pub mod Setup
pub mod Update
pub mod Document
pub mod Loading
pub mod Starting
