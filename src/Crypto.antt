-- ===== src/Crypto.antt =====
-- src/crypto.go: the obfuscation layer of MTProto. Stream holds the ciphers as the code uses them,
-- Handshake the client's first packet, RelayInit the proxy's own, Ciphers the four streams.
pub mod Stream
pub mod Dc
pub mod Handshake
pub mod Sealed
pub mod RelayInit
pub mod Ciphers
mod Tests
