-- ===== src/Tests/Datagrams.antt =====
-- Datagrams that come to the node.
use dmx_enttec_node.Prelude.{
  ℕ, ◌≡◌, refl, get_or, none, some, true, false, if◌then◌else◌, ok, fault,
}
use dmx_enttec_node.Proto.Layout.{encode}
use dmx_enttec_node.Network.UdpServer.{received, poll_socket, count}
use dmx_enttec_node.Overlay.Server.{on_data}
use dmx_enttec_node.Enttec.Client.Defs.{UsbClient}
use dmx_enttec_node.Enttec.Client.Channels.{IsValid, channel, covers}
use dmx_enttec_node.Node.Handlers.{on_overlay_message}
use dmx_enttec_node.Node.Datagram.{poll_socket-misfit, poll_socket-channel}
use dmx_enttec_node.Tests.Data.{message, wild_message, client}
use dmx_enttec_node.Tests.Overlays.{message-HasTypes, wild_message-HasTypes, fresh}
use dmx_enttec_node.Tests.Clients.{client-IsValid}

poll_socket-misfit_example :
    poll_socket
      (on_data (on_overlay_message 1))
      (λ capacity. received (encode wild_message))
      fresh
      (client none false)
    ≡ fault
poll_socket-misfit_example =
    poll_socket-misfit 1 fresh (client none false) (λ capacity. received (encode wild_message))
      wild_message (client-IsValid false) wild_message-HasTypes refl refl refl refl

poll_socket-channel_example :
    (c' : UsbClient) × (poll_socket
        (on_data (on_overlay_message 1))
        (λ capacity. received (encode message))
        fresh
        (client none false)
      ≡ ok (count fresh (encode message), c'))
    × IsValid c'
    × ((k : ℕ)
        → channel c' k ≡ (
            if covers message k
            then get_or message.dmx_data k 0
            else channel (client none false) k))
    × (c'.last_overlay_msg ≡ some message)
    × (c'.is_new_frame ≡ true)
poll_socket-channel_example =
    poll_socket-channel 1 fresh (client none false) (λ capacity. received (encode message)) message
      (client-IsValid false) message-HasTypes refl refl refl refl
