-- ===== src/Node.antt =====
-- app_dmx_usb_node/app_dmx_usb_node.cc: the node, which passes DMX frames and overlay messages of
-- its universe on to the PRO.
pub mod Handlers
pub mod Spec
pub mod Refine
pub mod Datagram
pub mod Start
pub mod Loop
