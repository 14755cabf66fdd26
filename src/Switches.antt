-- ===== src/Switches.antt =====
-- Switch replies (src/RS485Comm.cpp): the bitmap of all switches, the reply of one board and the
-- chain of replies, each with what is proved of it.
pub mod Bitmap
pub mod Receive
pub mod Chain
pub mod Diff
pub mod Reply
pub mod Recovery
