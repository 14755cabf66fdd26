-- ===== src/Startup.antt =====
-- The startup of the boards: PPUC::Connect of src/PPUC.cpp.
pub mod Codes
pub mod Modes
pub mod Numbers
pub mod Send
pub mod Devices
pub mod Stripes
pub mod Attempt
pub mod Kept
pub mod Unskipped
pub mod Invariant
pub mod Calls
pub mod Restart
pub mod Skipped
pub mod Ordered
pub mod Connect
pub mod Success
pub mod Mapping
