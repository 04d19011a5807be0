-- ===== src/Parser/Codec/Total.antt =====
-- Where in the packet `fromBinary` reads.
use udp_to_rabbitmq_gateway.Base.{ℕ, zero, suc, ◌+◌, ◌≤◌, ◌&&◌, Bytes, length, ltb, nat_beq, arith}
use udp_to_rabbitmq_gateway.Parser.Packet.{read32}
use udp_to_rabbitmq_gateway.Parser.Packet.Reads.{
  IsDefined, if-IsDefined, read-IsDefined, bind-IsDefined, read32-IsDefined, not_less,
}
use udp_to_rabbitmq_gateway.Parser.Codec.Decode.{read_imei, read_message, from_binary}

read_imei-IsDefined :
    (data_ : Bytes) (i n : ℕ) → i + n ≤ length data_ → IsDefined (read_imei data_ i n)
unfolding read_imei
read_imei-IsDefined data_ i zero h = tt
read_imei-IsDefined data_ i (suc n) h = read-IsDefined data_ i _ (omega arith) (λ b.
    bind-IsDefined (read_imei data_ (suc i) n) _ (read_imei-IsDefined data_ (suc i) n (omega arith))
      (λ r. tt))

read_message-IsDefined :
    (now : ℕ) (data_ : Bytes) → 25 ≤ length data_ → IsDefined (read_message now data_)
unfolding read_message
read_message-IsDefined now data_ h = read-IsDefined data_ 2 _ (omega arith) (λ a.
    read-IsDefined data_ 3 _ (omega arith) (λ b. read-IsDefined data_ 4 _ (omega arith) (λ c.
      bind-IsDefined (read_imei data_ 5 15) _ (read_imei-IsDefined data_ 5 15 (omega arith)) (λ d.
        bind-IsDefined (read32 data_ 20) _ (read32-IsDefined data_ 20 (omega arith))
          (λ e. read-IsDefined data_ 24 _ (omega arith) (λ f. tt))))))

-- Whatever bytes arrive and however many, the header of `fromBinary` is read within them: it returns
-- a message or throws a `ParseError`.
from_binary-IsDefined : (now : ℕ) (data_ : Bytes) → IsDefined (from_binary now data_)
unfolding from_binary
from_binary-IsDefined now data_ =
    if-IsDefined (ltb (length data_) 25) _ _ (λ t. tt)
      (λ f.
        let h = not_less (length data_) 25 f in
        read-IsDefined data_ 0 _ (omega arith) (λ a. read-IsDefined data_ 1 _ (omega arith) (λ b.
          if-IsDefined (nat_beq a 0xAA && nat_beq b 0xBB) _ _
            (λ t.
              bind-IsDefined (read_message now data_) _ (read_message-IsDefined now data_ h)
                (λ r. tt))
            (λ f. tt))))
