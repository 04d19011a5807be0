-- ===== src/Parser/Tests.antt =====
-- The parser's theorems at concrete packets.
use udp_to_rabbitmq_gateway.Base.{[], ◌∷◌, Bytes}

-- An event: version 1.0, device 123456789012345, sequence 7, one byte of data, no time.
abbrev event : Bytes
event =
    0xAA ∷ 0xBB ∷ 1 ∷ 0 ∷ 3 ∷ 0x21 ∷ 0x43 ∷ 0x65 ∷ 0x87 ∷ 0x09 ∷ 0x21 ∷ 0x43 ∷ 0x05 ∷ 7 ∷ 0 ∷ 0 ∷ 0
    ∷ 0 ∷ 0 ∷ 5 ∷ 1 ∷ 9 ∷ 0 ∷ 0 ∷ 0x00 ∷ []
