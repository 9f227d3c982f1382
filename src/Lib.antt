-- ===== src/Lib.antt =====
-- A verification library for the TCP/IP stack of libsponge.
--
-- The parts and how they interact. A `TCPConnection` (libsponge/tcp_connection.cc) owns a
-- `TCPSender` and a `TCPReceiver`. The sender (libsponge/tcp_sender.cc) cuts the bytes of its
-- `ByteStream` (libsponge/byte_stream.cc) into segments, keeps them until they are acknowledged and
-- repeats them on a timeout. The receiver (libsponge/tcp_receiver.cc) turns the 32-bit numbers of
-- the segments into 64-bit indices (libsponge/wrapping_integers.cc) and hands the bytes to a
-- `StreamReassembler` (libsponge/stream_reassembler.cc), which writes them in order to another
-- `ByteStream`. Below them a segment becomes bytes with a checksum (libsponge/tcp_helpers), and
-- the `TCPOverIPv4Adapter` puts it into an IPv4 datagram. A `NetworkInterface`
-- (libsponge/network_interface.cc) puts datagrams into Ethernet frames and learns addresses by ARP;
-- a `Router` (libsponge/router.cc) passes datagrams from one interface to another. The bytes are
-- held in the buffers of libsponge/util/buffer.cc and read by the parser of
-- libsponge/util/parser.cc. A `TCPSpongeSocket` (libsponge/tcp_helpers/tcp_sponge_socket.cc) runs a
-- connection in a thread: four rules of an `EventLoop` (libsponge/util/eventloop.cc) carry segments
-- between the connection and an adapter, and bytes between it and a socket to the application.
-- Sockets and adapters are file descriptors (libsponge/util/file_descriptor.cc, socket.cc). The
-- copy between such a socket and the standard streams (apps/bidirectional_stream_copy.cc) is four
-- rules more.
--
-- Files and code. A class is a record with its fields, a method a function of the same name that
-- takes the object and returns the new one, behind its result where it has one.
--   Common          the shared names; Common/Words has the unsigned arithmetic with wrap-around
--   WrappingInt     libsponge/wrapping_integers.hh and .cc
--   ByteStream      libsponge/byte_stream.hh and .cc
--   Reassembler     libsponge/stream_reassembler.hh and .cc; the children follow the steps of
--                   `push_substring`: Nodes, Merge, Insert, Window, Commit, then Push, Stored,
--                   Delivery and Ending on the whole
--   Segment         the data of libsponge/tcp_helpers/tcp_header.hh and tcp_segment.hh; Segment/Wire is
--                   tcp_header.cc and tcp_segment.cc
--   Receiver        libsponge/tcp_receiver.hh and .cc
--   Sender          libsponge/tcp_sender.hh and .cc; Sender/RetxTimer is its `Timer`
--   Connection      libsponge/tcp_connection.hh and .cc
--   State           libsponge/tcp_helpers/tcp_state.hh and .cc
--   Parser          libsponge/util/parser.hh and .cc
--   Checksum        `InternetChecksum` of libsponge/util/util.hh and util.cc
--   Ethernet        libsponge/tcp_helpers/ethernet_header.hh, ethernet_frame.hh and their .cc
--   Arp             libsponge/tcp_helpers/arp_message.hh and .cc
--   Buffer          libsponge/util/buffer.hh and buffer.cc, one child for each class of lists
--   Ipv4            libsponge/tcp_helpers/ipv4_header.hh, ipv4_datagram.hh and their .cc
--   TcpOverIp       libsponge/tcp_helpers/tcp_over_ip.cc, with the state and configuration of
--                   fd_adapter.hh and tcp_config.hh
--   Adapters        libsponge/tcp_helpers/fd_adapter.cc, lossy_fd_adapter.hh, tuntap_adapter.hh and
--                   tuntap_adapter.cc
--   NetworkInterface  libsponge/network_interface.hh and .cc; Sending, Expiring, Calls, Resolving and
--                   Delivery are about what is sent, old mappings, all calls, the exchange by ARP,
--                   and two interfaces
--   Router          libsponge/router.hh and .cc; Routes is about the set of routes, Tables about
--                   the route found among those added, Routing about the datagrams
--   EventLoop       libsponge/util/eventloop.hh and eventloop.cc; Openings and Rounds have the contract of a
--                   call, Keeping what its rules keep, Serving the test for a busy wait
--   FileDescriptor  libsponge/util/file_descriptor.hh and .cc, with `SystemCall` of util.cc
--   Socket          libsponge/util/socket.hh and socket.cc
--   SpongeSocket    libsponge/tcp_helpers/tcp_sponge_socket.hh and .cc: the rules; Running has the
--                   loop and the owner's methods, Descriptors the adapter and the stream as file
--                   descriptors; Piping, Receiving and Delivering follow the bytes
--   StreamCopy      apps/bidirectional_stream_copy.cc
--   Tests           runs of the definitions, and the theorems at concrete inputs
--
-- Numbers. A number is a native natural number, an unsigned one of w bits with its wrap-around
-- written out: `add64`, `sub64`, `add32`, `sub32`. A byte is a number below 256, a string, a
-- buffer or a deque the list of its elements, the queue's front first. `std::set` is an ordered
-- list, its iterator a position in it, a map a list of keys and values (Common/Maps). The payload
-- of a frame or a datagram, a `BufferList`, is the list of its strings.
--
-- Errors. A method that throws an exception returns an `Option`, `none` for the exception. So does
-- one that does what the language leaves undefined: an index of an interface out of range. `tick` of
-- a network interface erases the entry of the map at which its loop stands and goes on from it; its
-- first argument says whether an entry that has just been freed still reads as it was, and if not, a
-- tick that erases a mapping returns `none`.
--
-- Loops. They are structural recursion on the list that they walk. `send_full`, the loop of full
-- payloads in `fill_window`, runs on fuel, the length of the data: its index grows by a payload in
-- each round and stays below that length, so the fuel does not run out. `fold`, the loop of the
-- checksum's value, runs on two rounds, which are enough for a sum of 32 bits. `write_loop`, which
-- writes all of a buffer, runs on one round more than there are bytes: every round but the last
-- one writes something. `tcp_loop` and `copy_loop` wait for events and need not end; they run for a
-- number of rounds that is an argument, and say whether they have ended.
--
-- Bounds. Some theorems keep away from the end of the 64-bit numbers: `HasRoom` says that a
-- sender's next number is 2 ^ 17 short of 2 ^ 64, `Fits` that the indices of a substring and of
-- the window are below 2 ^ 64.
--
-- The kernel. The calls of the operating system are fields of `Kernel` and `SocketCalls`, over a
-- state of any type; a theorem about them has what the calls document as a hypothesis (`Takes`,
-- `IsWilling`, `Logs`). The thread of a connection works on the interfaces `Adapter` and `Stream`.
--
-- Not modelled: starting and joining threads, text output, addresses and their resolver, opening a TUN
-- device, and the other programs in apps, which parse their arguments or simulate a network. The
-- event loop has its file descriptors, callbacks and poll(2) for parameters. What an adapter reads
-- from its device is an argument, what it writes there a result. The random initial sequence
-- number is an argument of the constructors. The router makes an address from the decimal form of a
-- number, which the resolver of the operating system reads back as that number.
pub mod Socket
pub mod StreamCopy
pub mod SpongeSocket
pub mod EventLoop
pub mod FileDescriptor
pub mod Adapters
pub mod Common
pub mod WrappingInt
pub mod ByteStream
pub mod Reassembler
pub mod Segment
pub mod Receiver
pub mod Sender
pub mod Connection
pub mod Buffer
pub mod Parser
pub mod Checksum
pub mod Ethernet
pub mod Arp
pub mod Ipv4
pub mod NetworkInterface
pub mod Router
pub mod TcpOverIp
pub mod State
pub mod Tests
