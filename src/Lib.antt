-- ===== src/Lib.antt =====
-- A verification library for the proxy in src/: a client speaks obfuscated MTProto to it, plain or in
-- records that look like TLS, and it carries the bytes to Telegram over WebSockets, from pools of idle
-- connections, over Cloudflare domains or over plain TCP.
--
-- A session runs through the parts as follows. serve accepts the client, within its bound (Server). The
-- first record is a ClientHello that is signed with
-- the proxy's secret, and the proxy answers it (FakeTls); the client's first packet names its transport and data centre
-- (Crypto); the proxy makes its own first packet and four key streams (Crypto); it takes a connection
-- out of the pool (WsPool), or from a Worker (WorkerPool), or dials a domain of the Cloudflare pool
-- (CfProxy) or the address itself (TcpBackoff), in the order of Routing; then the bytes go both ways (Bridge), those upstream cut into packets (Splitter).
--
-- Base: shared names, bytes, lists, maps. A byte is a number, a map a function to Option; a time is a
--   number of nanoseconds, and the zero time 0.
-- Splitter (src/splitter.go): msgSplitter is MsgSplitter, its methods split, flush, next_packet_len;
--   relay_up is a session of bridgeWS. Its loop is recursion on fuel, the length of the buffer, since
--   every round takes a packet of at least one byte out of it. Frames says what a packet is, Stream,
--   Packets and Sound hold the theorems, Steps their lemmas.
-- FakeTls (src/fake_tls.go): Records is wrapFakeTLSRecords, Conn is fakeTLSConn with Read,
--   readTLSPayload and Write, ClientHello is parseFakeTLSClientHello over the monad of Parser, in
--   which an index or slice out of range is a fault, and Verify is verifyFakeTLSClientHello, with
--   HMAC-SHA-256 a parameter. Loops over a buffer have one more than its length as fuel. ServerHello
--   is buildFakeTLSServerHello, Accept is acceptFakeTLSClient; Answer, Flight, Accepts and Guard hold their
--   theorems. io.ReadFull has the bytes it wants as fuel, since each read gives one at least.
--   Payload, Reads and Streams hold the theorems of Conn. Profile is the loop of probeFakeTLSConn (src/fake_tls_profile.go), on more rounds than there are bytes.
-- Crypto (src/crypto.go, src/types.go): Dc, Handshake (tryHandshake), RelayInit (generateRelayInit,
--   over a list of random draws), Ciphers (buildCiphers). SHA-256 and the key stream of AES are
--   parameters, of which a theorem asks that a hash has 32 bytes and that a key stream is of bytes.
-- Bridge (src/transport.go): the loops of bridgeWS and tcpFallback, where all writes succeed; Loops are
--   those of bridgeWS with writes that may fail, and Written and Delivered hold their theorems.
-- TcpBackoff (src/tcp_backoff.go): begin, finish, connectTCPFallback; Flights has the interleavings.
-- CfProxy (src/cfproxy_domains.go): State is the part of Config under cfproxyMu with its operations,
--   Dials their interleavings, Cooldown what dials leave of a cooldown, Choice is cfproxyDomainsForTry, Names and Fetch the texts: the CSV
--   list, the fetched body, decodeCFProxyDomain, Fallback is cfproxyFallback of src/transport.go over a
--   row of network trials. rand is a parameter; texts are ASCII.
-- WsPool (src/pool.go, src/state.go): the critical sections of wsPool, Get its loop of get, on more
--   fuel than the bucket is long, Refill the dials of refill with domain fronting, Bounds all
--   interleavings, with the goroutines of refill counted by where they stand.
-- WorkerPool (src/worker_pool.go): the critical sections of workerPool, Single all interleavings,
--   Connect the dials of connectWorker over the state of CfProxy.
--   Targets (of WsPool) is getForDC.
-- Server (src/server.go): serve as steps on a state, the accept loop and the ends of its goroutines
--   interleaved in any order; Accept and Stop hold what every run keeps and how it ends.
-- Routing (src/server.go, src/transport.go): handleMTProtoClient. The order of doFallback stands over
--   the record Fallbacks; Proxy has the state that clients share and the three fallbacks, Slots fills
--   the record, Client is the handler.
-- Session (src/server.go): the handshake, the proxy's first packet, the ciphers and the bridge composed.
-- Config (src/config.go): parseFlags as a chain of results; Targets are its pools of addresses.
-- Limits (src/limits.go): fitsFDBudget.
-- Logging (src/logging.go): the rotatingWriter. Rotation says where each file goes, Size bounds the log.
-- Each part has its tests and concrete inputs in a module Tests.
--
-- Not modelled: the network itself, DNS, TLS and WebSocket libraries, and the dialers made of them;
-- diagnostics and the text of the log (src/diagnostics.go, src/logging.go), which are output; the dial of the
-- masking site (src/fake_tls_profile.go) and the proxying to it, which are network input and output;
-- main, and the parsing of the arguments by the package flag.
pub mod Base
pub mod Splitter
pub mod FakeTls
pub mod Crypto
pub mod Bridge
pub mod TcpBackoff
pub mod CfProxy
pub mod WsPool
pub mod WorkerPool
pub mod Limits
pub mod Server
pub mod Routing
pub mod Session
pub mod Config
pub mod Logging
