-- ===== src/FakeTls.antt =====
-- src/fake_tls.go: the fake TLS transport, split into the record layer of a connection, the check of
-- the ClientHello and the answer to it.
pub mod Records
pub mod Conn
pub mod Payload
pub mod Reads
pub mod Streams
pub mod Parser
pub mod ClientHello
pub mod ParseTotal
pub mod Verify
pub mod Signed
pub mod ServerHello
pub mod Answer
pub mod Flight
pub mod Accept
pub mod ReadFull
pub mod Accepts
pub mod Guard
pub mod Profile
mod Tests
