-- ===== src/Parser/Checksum.antt =====
-- components/protocol_parser/src/parser.cpp, `verifyChecksum`, with the loop that it shares with
-- `Message::toBinary`.
pub mod Xor
pub mod Detect
use Prim.Native.Nat.{bit_xor}
use udp_to_rabbitmq_gateway.Base.{
  ℕ, ◌-◌, Bool, false, [], ◌∷◌, Bytes, length, take, get_or, ltb, nat_beq, if◌then◌else◌,
}

-- `checksum ^= byte` over the bytes
unfoldable pub xor_from : ℕ → Bytes → ℕ
xor_from sum [] = sum
xor_from sum (byte ∷ rest) = xor_from (bit_xor sum byte) rest

unfoldable pub verify_checksum : Bytes → Bool
unfolding xor_from
verify_checksum data_ =
    if ltb (length data_) 1
    then false
    else nat_beq (xor_from 0 (take (length data_ - 1) data_)) (get_or data_ (length data_ - 1) 0)
