-- ===== src/Parser/CodecTests.antt =====
-- The codec's and the checksum's theorems at concrete messages.
use udp_to_rabbitmq_gateway.Base.{◌≡◌, refl, true, false, some, [], ◌∷◌, codes, arith, bytes_beq}
use udp_to_rabbitmq_gateway.Parser.Checksum.{verify_checksum, xor_from}
use udp_to_rabbitmq_gateway.Parser.Checksum.Detect.{verify_checksum-detects}
use udp_to_rabbitmq_gateway.Parser.Packet.{only_digits}
use udp_to_rabbitmq_gateway.Parser.Codec.{Message, to_binary}
use udp_to_rabbitmq_gateway.Parser.Codec.Value.{boolean, float, string}
use udp_to_rabbitmq_gateway.Parser.Codec.Decode.{from_binary, has_field}
use udp_to_rabbitmq_gateway.Parser.Codec.RoundTrip.{
  FitsBinary, from_binary-to_binary, to_binary-verify_checksum,
}
use udp_to_rabbitmq_gateway.Parser.Codec.RoundTrip.Fields.{
  AreReadable, none_left, next, flag, real, text,
}
use udp_to_rabbitmq_gateway.Parser.Builder.{reboot, factory_reset, command_number}
use udp_to_rabbitmq_gateway.Parser.Builder.Received.{transmitted, transmitted-received}

abbrev status : Message
status = record {
  imei = codes "123456789012345";
  sequence = 70000;
  message_type = 2;
  major = 1;
  minor = 1;
  timestamp = 40;
  fields =
      (codes "on", boolean true)
      ∷ (codes "name", string (codes "van"))
      ∷ (codes "v", float 1078530011)
      ∷ [];
  errors = [];
}

status-AreReadable : AreReadable [] (status.fields)
unfolding has_field bytes_beq
status-AreReadable = next (omega arith) refl (flag true) (
    next (omega arith) refl (text (codes "van") (omega arith))
      (next (omega arith) refl (real 1078530011 (omega arith)) none_left))

status-FitsBinary : FitsBinary status
unfolding only_digits
status-FitsBinary = record {
  header = record {
    fifteen = refl;
    numeric = refl;
    sequence_small = omega arith;
    type_small = omega arith;
    count_small = omega arith;
  };
  readable = status-AreReadable;
  valid = refl;
}

from_binary-to_binary_example :
    from_binary 50 (to_binary status) ≡ some (some (record status { timestamp = 50 }))
from_binary-to_binary_example = from_binary-to_binary 50 status status-FitsBinary

to_binary-verify_checksum_example : verify_checksum (to_binary status) ≡ true
to_binary-verify_checksum_example = to_binary-verify_checksum status

sealed : verify_checksum (5 ∷ 7 ∷ 2 ∷ []) ≡ true
unfolding verify_checksum xor_from
sealed = refl

verify_checksum-detects_example : verify_checksum (5 ∷ 6 ∷ 2 ∷ []) ≡ false
verify_checksum-detects_example =
    verify_checksum-detects (5 ∷ []) (2 ∷ []) 7 6 sealed (λ e. omega (arith, e))

fifteen_digits : only_digits (codes "123456789012345") ≡ true
unfolding only_digits
fifteen_digits = refl

transmitted-received_example :
    transmitted 40 50 factory_reset (codes "123456789012345") 9 ≡ some (command_number reboot)
transmitted-received_example =
    transmitted-received 40 50 factory_reset (codes "123456789012345") 9 refl fifteen_digits
      (omega arith)
