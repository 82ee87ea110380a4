-- ===== src/Overlay.antt =====
-- libs/overlay_server/overlay_server.cc: overlay messages out of datagrams.
pub mod Server
pub mod Accept
pub mod Replay
pub mod Ignored
