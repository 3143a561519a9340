-- ===== src/Lib.antt =====
-- SkadiCore: the protocol codecs, the destination policy and the limits of a proxy server.
--
-- A client sends a SOCKS5 or a VLESS request; the handlers of crates/skadi-protocol read it from the
-- connection, message by message, with the pure parsers beside them, and authenticate the user among
-- those of the server's store. The server checks the destination with crates/skadi-core, and admits the
-- session under the limits of crates/skadi-server. VLESS sessions may carry many streams in
-- multiplexing frames, and datagrams over the sockets of the XUDP table; an XHTTP uplink is put
-- together from packets.
--
--   Prelude         numbers, lists, bytes, UTF-8, and the outcome of a Rust call: a result, an error
--                   or a panic (an index or a range past the end of a slice panics)
--   Incremental     what a parser of a growing buffer promises to its caller
--   Endpoint        crates/skadi-core/src/endpoint.rs: endpoints; Policy: the refused destinations
--                   (is_forbidden_ip, validate_outbound_literal, validate_resolved_addrs)
--   Protocol        crates/skadi-core/src/protocol.rs: detection by the first byte
--   Socks5          crates/skadi-protocol/src/socks5/parse.rs, every function under its name
--   Socks5/Negotiate  crates/skadi-protocol/src/socks5.rs: the handler of a negotiation, which reads
--                   message by message: negotiate (negotiate_inner), perform_auth, read_request
--   Stream          a connection as the handlers see it; Stream/Uses: what a handler has read
--   Vless/Request   crates/skadi-protocol/src/vless/parse.rs, and the builders of client.rs beside it
--   Vless/Addons    crates/skadi-protocol/src/vless/addons.rs
--   Vless/Users     crates/skadi-protocol/src/vless/config.rs: Uuid and authenticate
--   Vless/Handler   crates/skadi-protocol/src/vless/handler.rs: the handshake (handshake_inner)
--   Vless/Mux       crates/skadi-protocol/src/vless/mux/frame.rs
--   Config          crates/skadi-config/src/lib.rs: the configuration of the server; Checks and Validate: the
--                   checks; Spec: what they ask for; Runtime, Backends and Outbound: what the server builds
--                   from it;
--                   Awg, Hysteria2, Tuic, Texts: the render.rs of the daemons in crates/skadi-transport
--   Inbound         crates/skadi-protocol/src/inbound.rs: the handshake of either protocol, over the two
--                   handlers and the users of Server/Store
--   Reality         crates/skadi-transport/src/reality/hello_parser.rs: the ClientHello parser
--   Server/Gate     crates/skadi-server/src/connection_gate.rs: a step is one atomic operation of one
--                   session, and the interleavings are the sequences of steps
--   Server/RateLimit      crates/skadi-server/src/api/rate_limit.rs
--   Server/AuthRateLimit  crates/skadi-server/src/auth_rate_limit.rs
--   Server/Store          crates/skadi-server/src/store.rs: the users that the API changes
--   Server/Prefixed       crates/skadi-server/src/prefixed.rs: the stream that gives a byte back
--   Server/Dispatch       crates/skadi-server/src/lib.rs: handle_connection, from the first byte to the end of the
--                         relay, over the handshakes, the policy, the users and the limiter
--   Transport/Packets     crates/skadi-transport/src/xhttp/session.rs: PacketState, the packets of an uplink
--                         in whatever order they arrive
--   Transport/Sessions    the same file: XhttpSession and XhttpSessionManager
--   Transport/Xudp        crates/skadi-transport/src/xudp.rs: the table of UDP sockets that outlive a session
--   Transport/Mux         crates/skadi-transport/src/mux.rs: the relay of the frames of Vless/Mux; Reader: how it reads
--                         them; Steps: a frame of the client and the moves of the readers; Cone: its socket for
--                         XUDP, over Transport/Xudp
--   Client/Pmtud          crates/skadi-client/src/pmtud.rs: the MTU and the ICMP messages about it
--
-- A byte slice and a String are lists of numbers, a String those of its UTF-8 bytes. The widths of
-- integers are written where the code truncates (`as u8`, `as u16`, the atomic counter); elsewhere
-- they are hypotheses (IsByte, IsU16, IsEndpoint). A function that the source writes as one match is
-- split where it is long: parse_target into parse_ipv4, parse_ipv6 and parse_domain, and the requests
-- of VLESS at the addons, the command and the address. Errors that hold a text of an address or of
-- another error hold that value here. Instants and durations are unbounded numbers of nanoseconds,
-- and the clock is an argument. The connection of a handler is the bytes that the peer will have sent
-- in all, whether writes succeed, and what was written, since the handlers read by `read_exact`. The
-- loops of addons.rs and hello_parser.rs run on as many passes as the data has bytes, which is enough
-- since each pass moves the offset on; where none is left the model panics, so that a proof of no panic
-- is one of termination. The loop of internet_checksum is given three passes, enough for a sum of 32
-- bits; that of PacketState::push has as many passes as the map has entries, since each takes one out.
-- The other loops run over a list or count down.
--
-- Not modelled: sockets and timers (the limits of ten seconds on a handshake among them), TLS and
-- cryptography, the relays other than that of mux.rs (all are a parameter of the dispatch), name
-- resolution, the routes and the TUN device of the client, the managed daemons, and
-- third_party/rustls-reality, a copy of another project. The overflow of `Instant + Duration` and a
-- poisoned lock are left out. A reader of the relay of mux.rs moves only between two frames, and a write
-- that fails part of the way counts as nothing sent.
pub mod Prelude
pub mod Incremental
pub mod Stream
pub mod Endpoint
pub mod Socks5
pub mod Vless
pub mod Server
pub mod Protocol
pub mod Reality
pub mod Client
pub mod Config
pub mod Transport
pub mod Inbound
