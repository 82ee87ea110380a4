-- ===== src/Enttec.antt =====
-- libs/enttec: the Enttec DMX USB Pro, as the framing of its serial protocol (UsbPro) and the client
-- that keeps the DMX frame and flushes it (Client).
pub mod UsbPro
pub mod Client
