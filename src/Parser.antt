-- ===== src/Parser.antt =====
-- components/protocol_parser: the parser of packets, the binary form of messages, and the builder of
-- commands.
pub mod Checksum
pub mod Packet
pub mod Codec
pub mod Builder
mod Tests
mod CodecTests
