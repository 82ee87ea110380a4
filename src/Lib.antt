-- ===== src/Lib.antt =====
-- A verification library for the DMX node: a program that takes DMX frames from ArtNet and overlay
-- messages from UDP, merges them into one frame of 512 channels and sends it to an ENTTEC USB PRO.
--
-- How the parts interact. The event loop (libs/core) polls the sockets and the timers. A datagram
-- on the overlay port goes through the UDP server (libs/network) to the overlay server
-- (libs/overlay_server), which reads it as an OverlayMessage (libs/proto) and calls the
-- application (app_dmx_usb_node). A DMX frame comes from libartnet to the same application. Both
-- handlers test the universe and change the frame of the USB client (libs/enttec), which a timer
-- flushes every 15 ms through the PRO driver (libs/enttec/libenttec/usb_pro.cc).
--
-- Files and code:
--   Prelude            helpers: tests on numbers, lists, C memory, the result of a C++ call
--   Proto              libs/proto/overlay_proto.h: DmxOverlay, OverlayMessage, the wire layout
--                      (Layout), and with libs/core/types.h the texts of both (Show)
--   Network/UdpServer  libs/network/udp_server.cc: the constructor, PollSocket, ReportMetrics
--   Overlay            libs/overlay_server/overlay_server.cc: OnData
--   Enttec/UsbPro      libs/enttec/libenttec/usb_pro.cc: FTDI_SendData (Send), FTDI_ReceiveData and
--                      FTDI_RxDMX (Receive), FTDI_OpenDevice, FTDI_ListDevices, FTDI_PurgeBuffer and
--                      FTDI_ClosePort (Open), over the calls of the D2XX driver (Driver)
--   Enttec/Client      libs/enttec/usb_client.cc: UpdateFrame, ApplyOverlay, FlushFrame,
--                      ReportMetrics (Defs), Start, ReloadDriver, the destructor (Start)
--   Node               app_dmx_usb_node/app_dmx_usb_node.cc: OnDmxMessage, OnOverlayMessage, and
--                      with the timers of the client one step function; Spec is the abstract
--                      view, Datagram follows a datagram from the socket to the frame, Start is
--                      the start of the application with that of OverlayServer, and Loop the node
--                      in the event loop, with the callbacks that libs/artnet, libs/network and
--                      libs/enttec hand to it; Loop/Panel is the abstract view of that
--   Core/Timer         libs/core/timer.h
--   Core/EventLoop     libs/core/event_loop.cc
--   Core/ScopedHandler libs/core/scoped_handler.h
--   Core/Logger        libs/core/logger.h and logger.cc: the levels
--   Core/Clock         libs/core/clock.h and clock.cc, on each platform and in both builds
--   Config             libs/config/config.cc
--   Network/UdpClient  libs/network/udp_client.cc: SendData, ReportMetrics
--   Network/Sockets    both: Start, StartServer, Connect, InitSocket and the destructors
--   Artnet             libs/artnet/artnet_server.cc: StartListening, FindIpAddress, PollSocket,
--                      DmxHandler, SendArtPollReply, FirmwareHandler, ReportMetrics, the
--                      destructor
--   App                libs/core/app.cc: LoadConfig, SetAffinity, SetupApp, RunApp, and the
--                      mains
--   Audio              libs/soundio: SendAudioBytes, OnData and PlayAudioBytes (Packet), the choice
--                      of a device (Devices), the names of the formats (Formats), what is logged of
--                      the devices (Supported), PrintDevice and PrintChannelLayout (Printed),
--                      WriteCallback (Playback), ReadCallback (Recording), a stream of packets from
--                      the sender to the ring buffer (Transmission),
--                      CreateSoundIo, and of the receiver and the sender the constructors, Start,
--                      ResetAudioStream, ErrorCallback and the destructors (Streams)
--   Tests              the theorems at concrete data
--
-- State and operations. A class is a record of its members, with the source's names in snake case
-- and without the leading m; an operation takes the record and gives the one after it. A call that
-- may throw gives a Result: ok, throw for std::runtime_error, and fault for an access outside an
-- array, which C++ leaves undefined. Counters of a fixed width wrap, by a written-out remainder.
--
-- Parameters. The D2XX driver is the record Driver; what its manual promises of reading and writing
-- is stated in IsWire, IsStream and TakesAll. The socket is a function that gives what recvfrom
-- does; for the running node (System) it works on a state of the system, and so do `select` and
-- `artnet_read`; IsSoundSystem and Waits state what they give. The JSON library is the record Json.
-- Of libsoundio the ring buffer is a type with its capacity, its unread bytes and the moves of its
-- pointers, the devices are a list, a stream is a record of calls (SoundIoOutStream,
-- SoundIoInStream) with what the documentation says of it in IsOutStream and IsInStream, and all
-- that makes and releases objects is the record LibSoundio. Double is what is used of floating
-- point, in Audio/Streams and in Core/Clock. WinSock is a record of calls over a state of the
-- system, of which IsCounted states what they do to its counts. libartnet is the record LibArtnet.
-- Clock readings are arguments.
--
-- Bounds and fuel. The loops of FTDI_ReceiveData and FTDI_RxDMX run on fuel, one unit for each byte
-- that they may skip: every round takes a byte or returns, so one more than the bytes that are
-- pending is enough, for FTDI_OpenDevice one more than can be pending at any time. The loops of
-- WriteCallback run on as much fuel as there are frames, that of ReadCallback on one more, as every
-- round but the last takes a frame. All other loops are structural.
--
-- Not modelled: libs/artnet/libartnet, a copy of another project; the D2XX driver; output; what the
-- system does with the affinity that it is asked for.
pub mod Prelude
pub mod Proto
pub mod Network
pub mod Overlay
pub mod Enttec
pub mod Node
pub mod Core
pub mod Config
pub mod Audio
pub mod Artnet
pub mod App
pub mod Tests
