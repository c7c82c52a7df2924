-- ===== src/Lib.antt =====
-- A verification of the core of backhaul-recovered: a reverse tunnel in Go. A server behind which
-- public ports are opened and a client that dials it exchange control connections; what comes in on
-- a public port is carried to the client, which dials the target.
--
-- The parts, from the bytes up, with the files that model them:
--
-- Net           `net.Conn`, `io.ReadFull` and `encoding/binary` as the code uses them. A connection
--               is the bytes to come, the error behind them, the bytes sent, and how the next calls
--               of Write go, so that a theorem can speak of every network.
-- Original      internal/tunnel/original_protocol.go, the wire format of the TCP transport:
--               writeOriginalFull, write/readOriginalTypedString, write/readOriginalSignal.
-- Control       originalServerState (original_protocol.go): the handshake that makes a connection the
--               control connection, the queue of workers, and acquireWorker. What handleAccepted
--               does under its lock is a step of its own, since others may run before it.
-- Address       normalizeOriginalTarget, originalWireTarget, withDefaultPort, and in Address/Url the
--               addresses that the dialers make of a URL, with Go's net/url as a parameter.
-- Client        runOriginalTCPClient: the dials, the handshake, the loop over the signals of the
--               control connection; runOriginalWorker up to the dial of its target.
-- Monitor       monitorControl (original_protocol.go): the server's watch over its control
--               connection, as steps for its timer, its ticker and the signals it gets.
-- Requests      runWorkerServer and runMuxServer (runner.go), from an accepted connection to the
--               request for a target, and runWorkerLoop and serveMuxClientSession up to the dial.
-- Stream        The loops that slipstreamConn, wsFrameConn and simpleMuxStream of
--               internal/tunnel/runner.go share: Read over messages, Write in chunks, and io.Copy.
--               `Source` is the interface of a message reader; Slip, Websocket and Grpc fill it.
-- Slip          slipstreamConn (runner.go): messages under a key stream; and in Slip/Hello the hello
--               of wrapSlipstreamServer and wrapSlipstreamClient, with the digest as a parameter.
-- Websocket     wsFrameConn and wsReadLen (runner.go): frames, masks, control frames.
-- Grpc          grpcNetConn (runner.go) over a gRPC stream, which is a parameter with its laws; its
--               Read is the one of Stream.
-- Mux           simpleMuxSession and simpleMuxStream (runner.go): many streams on one connection.
--               The streams are shared by the table, the accept queue and their users, so they stand
--               in a store under handles. Each method is a step without another in its middle, but
--               for the interleaving that Mux/Run takes apart.
-- Holder        simpleMuxHolder (runner.go): the sessions that a server opens streams on, in turn.
--               It points at sessions of Mux, which stand in a store under numbers.
-- UdpControl    udpControlListener and udpControlConn (runner.go): connections over UDP, by address,
--               with the lock of the listener as a part of the state. UdpControl/Table is its map.
-- UdpRelay      startPublicUDPListener and handleUDPClientRelay (runner.go): a connection for each
--               address of a public UDP port, and the client behind it. It shares the table of
--               UdpControl.
-- Handshake     authenticateControlConn and the lines that dialControlConn sends (runner.go).
-- Datagram      writeDatagramFrame and readDatagramFrame (runner.go).
-- Transport     parseTransport, headerContainsToken (runner.go), usesOriginalTCPProtocol.
-- Mapping       internal/tunnel/mapping.go: ParseMappings and its helpers.
-- Config        internal/cfg/config.go: the sections, setValue (Config/Set), Load and Mode
--               (Config/Load).
-- App           internal/app/app.go: the transport, the addresses and the mappings of a run.
-- Strings       The functions of Go's `strings` and `strconv` that the parts above use.
-- Prelude       Shared helpers: lists, Boolean tests, bits, text, results, integers.
--
-- Code that can fail is in the monad `M` of Net, which keeps the state on an error, or in `Result`.
-- Machine integers are natural numbers with their wrap-around written out: lengths in frame headers,
-- the positions in the key stream (64 bits) and stream numbers (32 bits).
--
-- Fuel. The loop of writeOriginalFull has as many rounds as there are bytes, since each takes a byte
-- at least. The loop of a Write has a round for each chunk. The loop of a Read and the rounds of
-- io.Copy are bounded by the bytes that are still to come, as a message takes two bytes at least,
-- and so is the loop over the signals of a client; the loop of handleUDPClientRelay has one round more
-- than there are datagrams. Running out is the error `stuck`, which is no Go value.
--
-- Not modelled: sockets and the dialers and listeners over them, the libraries of TLS, HTTP, gRPC and
-- KCP, goroutines other than as sequences of steps, locks other than the one of UdpControl, deadlines
-- other than as the error that a read meets, and logging. RunServer, RunClient and Run only choose
-- among the parts and start them. Strings are bytes below 128 where Go's functions look at letters and
-- blanks. A Write that fails returns the count of the chunks before it in Go, which the callers drop
-- and the model does too.
pub mod Address
pub mod App
pub mod Client
pub mod Config
pub mod Control
pub mod Datagram
pub mod Grpc
pub mod Handshake
pub mod Holder
pub mod Mapping
pub mod Monitor
pub mod Mux
pub mod Net
pub mod Original
pub mod Prelude
pub mod Requests
pub mod Slip
pub mod Stream
pub mod Strings
pub mod Transport
pub mod UdpControl
pub mod UdpRelay
pub mod Websocket
