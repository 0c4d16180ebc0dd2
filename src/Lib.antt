-- ===== src/Lib.antt =====
-- elevpn is a layer-3 VPN over UDP. A client sends ALOHA under a key that comes of a pre-shared key and a
-- random; the server registers it as a peer, gives it a tunnel IP and answers WELCOME. From then on both
-- sides carry IP packets between a TUN device and UDP datagrams, sealed under a key of that peer, and each
-- side refuses replayed sequences by a sliding window.
--
-- What models what:
--   Protocol/ReplayWindow   internal/protocol/replay_window.go: `ReplayWindow.Accept` is `accept`.
--   Protocol/Message        internal/protocol/message.go: types, sizes, `Header`, `Message`.
--   Protocol/Codec          internal/protocol/codec.go: `Encode`, `Decode`, `PeekHeader`.
--   Protocol/Packet         internal/protocol/codec.go: `EncodePacket`, `DecodePacket`.
--   Protocol/Payload        internal/protocol/payload.go: the payload of WELCOME.
--   Protocol/Aead           internal/protocol/aead.go: keys, nonces, `SealPayload`, `OpenPayload`.
--   Protocol/Handshake      internal/protocol/handshake_codec.go: ALOHA and WELCOME packets.
--   Server/Peer             internal/server/peer.go: one peer and its methods.
--   Server/PeerStore        internal/server/peer_store.go: the peers, found by three maps.
--   Server/Config           internal/server/server.go: `normalize`, `New`.
--   Server/Allocation       internal/server/handler.go: `allocateTunnelIP`, `validIPRange`.
--   Server/Ipv4             internal/server/server.go: `extractIPv4Dst`.
--   Server/Handlers         internal/server/handler.go: `handleAloha`, `handleKeepalive`, `handleData`;
--                           internal/server/server.go: `handlePacketError`.
--   Server/Loops, Runs      internal/server/server.go: the rounds of `udpToTun`, `tunToUdp` and
--                           `expirePeersLoop`, and runs of them.
--   Server/Setup            internal/server/server.go: the components that `Run` applies, and `ApplyAll` on them.
--   Client/Config           internal/client/client.go: `normalize`, `New`.
--   Client/Bypass           internal/client/route.go: `buildBypassCIDRs`.
--   Client/Setup            internal/client/client.go: the components that `Run` applies, and `ApplyAll` on them;
--                           Client/Setup/Bypassed has the route to the server.
--   Client/Handshake        internal/client/handshake.go: `handshake`; Client/Handshake/Agreed has it with the server's handler.
--   Client/Session          internal/client/session.go: the rounds of the client's three loops;
--                           Client/Session/Delivered has a packet of the client at the server.
--   Vpn/Manager             internal/vpn/vpn.go: `ApplyAll`, `Teardown`.
--   Vpn/Route               internal/vpn/route.go: `Apply`, `Cleanup` and what they call;
--                           internal/vpn/route_ops.go: its interface, `RouteOps`.
--   Vpn/Forward, Masquerade internal/vpn/forward.go and internal/vpn/netfilter.go.
--   Tun/Host, Device        internal/tun/tun.go: `New`, `Apply`, `Cleanup`, over the system calls they make.
--   Tun/Component           the device as a component of the set-up.
--   Tun/Poll                internal/tun/tun.go: `ReadContext`, `WriteContext`.
--   Netlink/Wire            internal/netlink/socket.go: messages and attributes; Wire/Read and Wire/Attrs read
--                           them back, independently of the code.
--   Netlink/Acks            internal/netlink/socket.go: `openNetlink`, `recvAcks`.
--   Netlink/RouteRequest    internal/netlink/route.go: the requests on routes.
--   Netlink/Nftable         internal/netlink/nftable.go: the batches of the masquerade table.
--   Netlink/InetDiag        internal/netlink/inet_diag.go: the dump of TCP sockets.
--   Netlink/DefaultRoute    internal/netlink/link.go: the dump of the routing table.
--   Net, Bytes              what the code uses of Go's net, net/netip and encoding/binary.
--   Prelude                 shared helpers: tests, lists, bits, maps, Go's errors and results.
--   Tests                   runs at concrete inputs, with stand-ins for the crypto packages and the answers of the kernel.
--
-- How the code is written down. A uint64 or uint32 is a number with its wrap-around written out; a byte
-- slice is a list of numbers. A function that returns a value and an error gives a `Result`; an error
-- says which place made it and what `errors.Is` finds in it, not its text. A pointer to a peer is an index
-- into a heap of peers, so that the maps share peers and a deleted peer lives on for whoever holds it.
-- A handler is a function from the state (the peer store and the calls made so far, `World`) to the new
-- state and a result, so that what is done before an error stays done. Its calls outside are recorded, and
-- their answers are arguments. A method that holds a lock for its whole body is one step.
--
-- Parameters. SHA-256, HMAC and AES-GCM are the record `Crypto`; `IsCrypto` and `IsAead` are what their
-- packages document: lengths, that what was sealed is opened, and that what is opened was sealed. Nothing
-- is assumed of secrecy. `time.Now`, the random source, the connection, the TUN device and the context are
-- arguments too. The byte order of the machine is `ByteOrder`. What the kernel gives to the calls of the code is
-- `Kernel` for a netlink socket, `Os` for the TUN device, and a list of answers for `poll`. The set-up of a
-- component works on a host of any type, through `RouteOps`, `ForwardFile` and `MasqueradeOps`. Nothing is assumed
-- of these: an operation that is refused may have changed the host all the same, and one that undoes another may
-- fail.
--
-- The set-up. `Run` of the server applies the TUN device, IP forwarding and the masquerade table; `Run` of the
-- client the TUN device and the routes. Both go through `VpnManager`, of which `Component` is the interface: a
-- component has a state of its own and acts on the host. The host is a parameter; the descriptors of the TUN device
-- are the device's own state. In what is proved of the set-up the host is the list of the calls made so far, and an
-- answer may depend on all calls before it: Vpn/Route/Calls and Server/Setup/Outcome. So it is shown which calls are
-- made and which are taken back, and not in which state they leave the kernel.
--
-- Bounds. Loops are structural where the code counts or ranges: `deleteExpired` over the entries that its map has
-- at the start, a run over the list of its rounds, a wait over the list of what the kernel gives. A wait that the
-- list does not end gives `none`. The loops over the messages of a datagram run on fuel: a message takes a byte at
-- least, so `ack_messages` and `diag_messages` have as much fuel as the datagram has bytes. The two loops of
-- link.go may stay where they are, so they have as much fuel as the buffer has bytes (64 KiB), which is enough for
-- every run that moves on. The peer store gives out uint64 ids; where a theorem needs that they have not run out,
-- it says so.
--
-- Not modelled: sockets, goroutines and their start and end, the eventfd, the interruption of one round by another
-- goroutine, the Teardown that `Run` defers, log lines; what the ioctls of the TUN device do to the host, and that
-- closing it undoes that; the commands and the build script.
pub mod Prelude
pub mod Bytes
pub mod Protocol
pub mod Net
pub mod Server
pub mod Netlink
pub mod Tun
pub mod Vpn
pub mod Client
pub mod Tests
