-- ===== src/Tests.antt =====
-- The theorems applied to concrete data.
mod Data
mod Wire
mod Overlays
mod Clients
mod Nodes
mod Loops
mod Runtime
mod Clocks
mod Configs
mod Audios
mod Opening
mod Sockets
mod Artnets
mod Datagrams
mod Streams
mod Players
mod Starts
