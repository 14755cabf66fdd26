-- ===== src/Protocol.antt =====
-- The wire protocol, io-boards/PPUCProtocolV2.h and io-boards/Event.h, as a parameter of the model.
pub mod Interface
pub mod Sample
pub use Interface.{RuntimeConfig, Protocol, BitmapLaws, ConfigFrameLaws, EventLaws}
