-- ===== src/Node/Loop/Sound.antt =====
-- What the sockets give the node: messages that its client can take.
use dmx_enttec_node.Prelude.{ℕ, ◌≤◌, ◌≡◌, List, [], ◌∷◌, length, u32_at, ◌==◌, false, true, ◌⊎◌}
use dmx_enttec_node.Proto.{OverlayMessage, overlay_protocol_id, dmx_frame_size}
use dmx_enttec_node.Proto.Layout.{encode, HasTypes}
use dmx_enttec_node.Network.UdpServer.{Recv, socket_error, received}
use dmx_enttec_node.Enttec.Client.Bounds.{fits}
use dmx_enttec_node.Node.Loop.{System}

-- A datagram that is a message in the wire format, whose overlays fit
pub record IsMessage (bytes : List ℕ) : Type 0 where
  pub message : OverlayMessage
  pub encoded : bytes ≡ encode message
  pub types : HasTypes message
  pub protocol : message.protocol_id ≡ overlay_protocol_id
  pub fit : fits message ≡ true

-- Nothing, such a message, or a datagram that starts with another identifier
abbrev pub IsSoundRecv : Recv → Type 0
IsSoundRecv (socket_error bytes) = Unit {0}
IsSoundRecv (received bytes) =
    IsMessage bytes ⊎ ((4 ≤ length bytes) × ((u32_at bytes 0 == overlay_protocol_id) ≡ false))

-- What is written to the buffer
abbrev pub written : Recv → List ℕ
written (socket_error bytes) = bytes
written (received bytes) = bytes

abbrev pub AreFrames : List (List ℕ × ℕ) → Type 0
AreFrames [] = Unit {0}
AreFrames ((data', universe) ∷ messages) = (length data' ≡ dmx_frame_size) × AreFrames messages

-- The socket writes no more than it is asked for. Both sockets give sound messages only.
pub record IsSoundSystem (sys : System) : Type 0 where
  pub within : (n : ℕ) (w : System.World sys) → length (written (sys.recv n w).0) ≤ n
  pub datagrams : (n : ℕ) (w : System.World sys) → IsSoundRecv (sys.recv n w).0
  pub frames : (w : System.World sys) → AreFrames (sys.artnet_read w).0
