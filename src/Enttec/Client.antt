-- ===== src/Enttec/Client.antt =====
-- libs/enttec/usb_client.cc: the DMX frame that goes to the PRO, overlaid and flushed.
pub mod Defs
pub mod Start
pub mod Started
pub mod Order
pub mod Channels
pub mod Bounds
pub mod Flush
