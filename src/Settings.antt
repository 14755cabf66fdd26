-- ===== src/Settings.antt =====
-- The configuration file: its validation, and what LoadConfiguration of src/PPUC.cpp takes from it.
pub mod Fields
pub mod Shapes
pub mod Kinds
pub mod Grammar
pub mod Readable
pub mod Color
pub mod Led
pub mod Rules
pub mod Validate
pub mod Groups
pub mod Thermal
pub mod Holds
pub mod Parts
pub mod Valid
pub mod Hex
pub mod Grouped
pub mod Buttons
pub mod Judged
pub mod Warned
