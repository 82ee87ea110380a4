-- ===== src/Tests/Audios.antt =====
-- The audio packets, the formats and the choice of a device.
use dmx_enttec_node.Prelude.{
  ℕ, ◌+◌, ◌≡◌, ◌↔◌, refl, List, [], ◌∷◌, ◌++◌, replicate, length-replicate, true, false, false, ok,
  pos, arith,
}
use dmx_enttec_node.Network.UdpClient.{UdpClient}
use dmx_enttec_node.Network.UdpServer.{UdpServer}
use dmx_enttec_node.Audio.Formats.{format_s16_le, format_to_string, format_from_string}
use dmx_enttec_node.Audio.Names.{format_from_string_lem}
use dmx_enttec_node.Audio.Packet.{AudioReceiver, create_sender}
use dmx_enttec_node.Audio.Delivery.{IsReady}
use dmx_enttec_node.Audio.Transmission.{Transmission}
use dmx_enttec_node.Audio.Transmission.Arrives.{Ends, transmit-Ends}
use dmx_enttec_node.Audio.Devices.{SoundIo, SoundIoDevice, Refs, get_audio_device}
use dmx_enttec_node.Audio.Choice.{held_by, get_audio_device-refs}

format_from_string_lem_example :
    (format_from_string "SoundIoFormatS16LE" ≡ ok format_s16_le)
    ↔ (format_to_string format_s16_le ≡ ok "SoundIoFormatS16LE")
format_from_string_lem_example = format_from_string_lem "SoundIoFormatS16LE" format_s16_le

abbrev pub udp_client : UdpClient
udp_client = record { sent_packets_counter = 0; sent_bytes_counter = 0 }

pub ready : IsReady (create_sender udp_client)
unfolding create_sender
ready = record { protocol_id = refl; data_size = length-replicate {A = ℕ} 20480 0 }

-- A ring buffer as the bytes written to it
abbrev pub capacity : List ℕ → ℕ
capacity ring = 1000

abbrev pub write : List ℕ → List ℕ → List ℕ
write bytes ring = ring ++ bytes

abbrev pub receiver : List ℕ → AudioReceiver capacity write
receiver ring = record { ring_buffer = ring; audio_player_is_running = true }

abbrev server : UdpServer
server = record {
  recv_buffer = replicate 40960 0;
  received_packets_counter = 0;
  received_bytes_counter = 0;
}

-- The second of three datagrams is lost.
abbrev blocks : Transmission
blocks = (true, 4 ∷ 5 ∷ []) ∷ (false, 6 ∷ []) ∷ (true, 7 ∷ []) ∷ []

transmit-Ends_example :
    Ends capacity write blocks (create_sender udp_client) server (receiver (1 ∷ []))
transmit-Ends_example =
    transmit-Ends capacity write blocks (create_sender udp_client) server (receiver (1 ∷ []))
      (λ block ring. refl) ready refl (omega arith)
      (omega (arith, length-replicate {A = ℕ} 40960 0))

abbrev speaker : SoundIoDevice
speaker = record { id = "speaker"; is_raw = false }

abbrev raw_speaker : SoundIoDevice
raw_speaker = record { id = "speaker"; is_raw = true }

abbrev pub soundio : SoundIo
soundio = record {
  default_index = pos 2;
  devices = raw_speaker ∷ speaker ∷ record { id = "headset"; is_raw = false } ∷ [];
}

abbrev pub no_refs : Refs
no_refs i = 0

get_audio_device-refs_example :
    (get_audio_device soundio "speaker" false no_refs).1 0
    ≡ 0 + held_by (get_audio_device soundio "speaker" false no_refs).0 0
get_audio_device-refs_example = get_audio_device-refs soundio "speaker" false no_refs 0
