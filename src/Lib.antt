-- ===== src/Lib.antt =====
-- Tailcat: tunnels over DERP relays. A client holds an address `tc…`, which names the server's keys and a relay
-- region; both sides connect to the relay, the client announces itself by a MEOW ping, and WireGuard
-- packets then travel as payloads of DERP frames.
--
-- Common holds the tests, lists, bits and byte strings that all parts share, and the outcome of code
-- that throws: `Result` with the exception as a value, and `Ensures P r`: the run `r` ended, by an
-- exception or by a value with `P`.
--
-- Protocol is src/protocol.cpp. Protocol/Base64 has base64url_encode and base64url_decode. Protocol/Cbor
-- has CborReader, whose operations take from the front of the rest of the input (`data_` from `pos_`
-- on), and CborWriter, whose operations are the bytes they append. Protocol/Types has the structures of
-- include/tailcat/protocol.hpp; an std::array of 32 bytes is a byte string whose length a
-- hypothesis or a theorem states. Protocol/Address has parse_tailcat_addr and encode_tailcat_addr with
-- their helpers. Protocol/Meow has the MEOW packets and tailcat_ip_for_node of src/ip.cpp.
--
-- Derp/Frame is the frame layer of src/derp.cpp and DerpHttpClient::Impl::take_buffered_frame of
-- src/derp_http.cpp, as a function from the receive buffer to a frame and the buffer left.
-- Derp/Client has the payloads of src/derp.cpp; libsodium's boxes are parameters. Derp/Transport is the
-- interface of include/tailcat/derp_transport.hpp: a transport is any function from the calls made so
-- far to the answer of the latest.
--
-- DataPlane/Server is TailcatServerDataPlane of src/data_plane.cpp. Its state holds the two maps, the state
-- of lwIP and the calls of the transport; `Run` (Common/Stateful) is code that changes that state and may
-- throw, an exception leaving the state as it was changed so far. DataPlane/Parts has what it
-- stands on as interfaces: WireGuardPeerEngine, and lwIP as an `Activity` that hands packets to the
-- output callback and learns whether that worked; the callback of src/lwip_stack.cpp, which catches
-- every exception of send_ip, is `run_stack`. DataPlane/InnerPacket is inner_ip_length of
-- src/wireguard_engine.cpp.
--
-- Rendezvous is src/rendezvous.cpp over a transport and a clock, whose n-th reading is any function of n.
-- A loop with a deadline reads the clock in each round, and has `rounds deadline` rounds: a
-- parameter, with the hypothesis `Passes` that the clock has passed the deadline after so many
-- readings. Rendezvous/Receive, Rendezvous/Server and Rendezvous/Client are about the
-- three loops.
--
-- Lwip is LwipTcpStream of src/lwip_stack.cpp with the callbacks that lwIP calls. lwIP is a parameter, TcpApi,
-- whose answers may depend on all calls of it so far; a stream keeps the log of these calls, so that what was
-- sent and what was delivered can be read off it; a question for room in the send buffer is in the log too, so
-- that the room may grow between two of them. Lwip/Sending is about writing and closing.
--
-- Relay is a connection of src/port_forward.cpp and of src/local_forward.cpp, which have the same code but for a
-- test of connected(): the data type `Side` says which. The stream of the host is the log of its calls, and the
-- thread that reads it is a step of its own (`reader_round`), which may come between any two polls and, in
-- `service`, between its two locks. Relay/Accounts, Relay/Passing and Relay/Body are about the parts of
-- service, Relay/Delivery about runs, in which the reader, lwIP and the polls take turns as they like.
-- Relay/Served is ServedTcpPorts and Relay/Forwarded LocalTcpForwarder: constructor and poll, with
-- Relay/Pool about the connections of either, and Relay/Adoption about what waits to become one; the two
-- modules Taking say what a poll makes of both.
--
-- Resolver is src/address_resolver.cpp over Protocol/Address: Resolver/Privacy is about what is asked of DNS and taken
-- from it, Resolver/Response about the parser of responses, in which a loop over names or texts runs on
-- fuel, the size of the response and one more, since each round takes a byte at least.
--
-- SshKeys is src/ssh_authorized_keys.cpp. libssh, and what is read of files, GitHub and the environment, are
-- parameters. SshKeys/Names is about the names and items of the option, SshKeys/Keys about the keys.
--
-- SavedKey has hex_key and parse_key of src/saved_key.cpp. SavedKey/File is the key files: a map from paths to
-- texts, in which what creating and writing a file ends in is a parameter.
--
-- Json has the values of the JSON library, and DerpMap is src/derp_map.cpp over them. Relay/Pipe has the
-- abstract pipe of bytes that the relay implements.
--
-- Socks is the handshake thread of src/socks_command.cpp. Socks/Host is the connection: the pieces in which recv
-- hands over what the peer sends, with the failure that may stand at their end, what was written, and whether it
-- is closed; a write fails by a parameter. Socks/Handshake/Request says what a peer sends whose request is granted. read_exact runs on fuel, the number of bytes wanted, since each round reads one at least.
-- Socks/Handshake is begin_handshake up to the queue; std::to_string and std::tolower are written out for
-- bytes. Socks/Proxy is SocksProxy behind the handshake, built from the parts of Relay.
--
-- WireGuardDerp is WireGuardDerpPeer of src/wireguard_derp.cpp, over the same transport, clock and rounds, and
-- the engine of DataPlane/Parts.
--
-- Cli is src/cli.cpp: the command line, and Cli/Serve the options of `serve`, each argument taken with the one
-- behind it, which may be its value. std::stoul is written out, with its spaces, signs and wrap-around.
--
-- Numbers are unbounded with the wrap-around of the machine type written out; a `std::int64_t` is `ℤ`
-- with its range in a predicate. CborReader::skip runs on fuel, the length of the input and
-- one more, since each nested call reads a byte at least. Memory is not modelled: `reserve` is left out, and so is an exception for lack of memory or stack.
--
-- Not modelled: the TLS connection, sockets, files and clocks of the platform, lwIP, the
-- cryptographic libraries and the WireGuard library, the embedded SSH server, and of the command line what runs the commands.
pub mod Common
pub mod Cli
pub mod DataPlane
pub mod Derp
pub mod DerpMap
pub mod Json
pub mod Lwip
pub mod Protocol
pub mod Relay
pub mod Rendezvous
pub mod Resolver
pub mod SavedKey
pub mod Socks
pub mod SshKeys
pub mod WireGuardDerp
pub mod Tests
