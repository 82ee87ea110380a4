-- ===== src/Audio.antt =====
-- libs/soundio: the packets, the formats and the choice of a device.
pub mod Formats
pub mod Names
pub mod Packet
pub mod Devices
pub mod Delivery
pub mod Transmission
pub mod Choice
pub mod Supported
pub mod Playback
pub mod Printed
pub mod Recording
pub mod Streams
