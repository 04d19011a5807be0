-- ===== src/Rabbit/Message.antt =====
-- components/rabbitmq_integration: `Message` (src/message.cpp) and its properties
-- (include/rabbitmq_integration/types.hpp). The time of the clock, in milliseconds, and the number
-- that is drawn for an identifier are arguments. What goes through nlohmann json is left out.
pub mod Split
pub mod Headers
use udp_to_rabbitmq_gateway.Base.{
  ℕ, ◌+◌, ◌*◌, ◌%◌, ◌^◌, Bool, true, false, not, ◌&&◌, ◌||◌, Option, none, some, List, [], ◌∷◌,
  ◌++◌, Bytes, codes, length, leb, ltb, nat_beq, ◌==◌, bytes_eq, if◌then◌else◌, ◌>>=◌,
}
use udp_to_rabbitmq_gateway.Base.Int.{ℤ, pos}
use udp_to_rabbitmq_gateway.Base.Maps.{Map, lookup, insert, erase}
use udp_to_rabbitmq_gateway.Dedup.MessageId.{to_string}
use udp_to_rabbitmq_gateway.Rabbit.Numbers.{stoi}

pub data DeliveryMode : Type 0 where
  non_persistent persistent : DeliveryMode

pub data Priority : Type 0 where
  low normal high urgent : Priority

pub record MessageProperties : Type 0 where
  pub content_type : Bytes
  pub content_encoding : Bytes
  pub message_id : Bytes
  pub correlation_id : Bytes
  pub reply_to : Bytes
  pub expiration : Bytes
  pub user_id : Bytes
  pub app_id : Bytes
  pub type : Bytes
  pub delivery_mode : DeliveryMode
  pub priority : Priority
  pub priority_value : ℕ
  pub timestamp : ℕ
  pub headers : Map Bytes Bytes

pub record Message : Type 0 where
  pub data_ : Bytes
  pub properties : MessageProperties

unfoldable pub no_properties : MessageProperties
no_properties = record {
  content_type = codes "application/json";
  content_encoding = [];
  message_id = [];
  correlation_id = [];
  reply_to = [];
  expiration = [];
  user_id = [];
  app_id = [];
  type = [];
  delivery_mode = non_persistent;
  priority = normal;
  priority_value = 1;
  timestamp = 0;
  headers = [];
}

unfoldable pub generate_message_id : ℕ → ℕ → Bytes
unfolding to_string
generate_message_id now drawn = codes "msg_" ++ (to_string now ++ (codes "_" ++ to_string drawn))

-- The end of every constructor: the type of the content, the time and the identifier.
unfoldable pub created : ℕ → ℕ → Bytes → Bytes → Message
unfolding no_properties generate_message_id
created now drawn content_type data_ = record {
  data_ = data_;
  properties = record no_properties {
    content_type = content_type;
    timestamp = now;
    message_id = generate_message_id now drawn;
  };
}

-- The constructors without data, from bytes, and from a text.
unfoldable pub empty_message : ℕ → ℕ → Message
unfolding created
empty_message now drawn =
    let m = created now drawn (codes "application/octet-stream") [] in
    record m { properties = record m.properties { priority_value = 5 } }

unfoldable pub from_bytes : ℕ → ℕ → Bytes → Message
unfolding created
from_bytes now drawn data_ = created now drawn (codes "application/octet-stream") data_

unfoldable pub from_text : ℕ → ℕ → Bytes → Message
unfolding created
from_text now drawn text = created now drawn (codes "text/plain") text

unfoldable pub set_data : ℕ → Bytes → Message → Message
set_data now data_ m = record {
  data_ = data_;
  properties = record m.properties { timestamp = now };
}

-- From a pointer and a length: nothing is set where there is no byte.
unfoldable pub set_raw : ℕ → Bytes → Message → Message
unfolding set_data
set_raw now data_ m = if ltb 0 (length data_) then set_data now data_ m else m

unfoldable pub set_content_type : Bytes → Message → Message
set_content_type content_type m = record m {
  properties = record m.properties { content_type = content_type };
}

-- `setContent` of a text, and of bytes.
unfoldable pub set_text : ℕ → Bytes → Message → Message
unfolding set_data set_content_type
set_text now text m = set_content_type (codes "text/plain") (set_data now text m)

unfoldable pub set_binary : ℕ → Bytes → Message → Message
unfolding set_data set_content_type
set_binary now data_ m = set_content_type (codes "application/octet-stream") (set_data now data_ m)

unfoldable pub set_correlation_id : Bytes → Message → Message
set_correlation_id id m = record m { properties = record m.properties { correlation_id = id } }

unfoldable pub set_persistent : Bool → Message → Message
set_persistent on m = record m {
  properties = record m.properties { delivery_mode = if on then persistent else non_persistent };
}

-- For a time that is not negative.
unfoldable pub set_expiration : ℕ → Message → Message
unfolding to_string
set_expiration ttl m = record m { properties = record m.properties { expiration = to_string ttl } }

-- The expiration as `getExpiration` and `getTTL` tell it: 0 where there is none, or no number.
unfoldable pub get_expiration : Message → ℤ
unfolding stoi
get_expiration m = elim (stoi (2 ^ 63) m.properties.expiration) [ none ↦ pos 0 | some ms ↦ ms ]

unfoldable pub priority_number : Priority → ℕ
priority_number low = 1
priority_number normal = 5
priority_number high = 9
priority_number urgent = 10

unfoldable pub set_priority : Priority → Message → Message
unfolding priority_number
set_priority p m = record m {
  properties = record m.properties { priority = p; priority_value = priority_number p };
}

unfoldable pub priority_of : ℕ → Priority
priority_of n = if leb n 2 then low else if leb n 4 then normal else high

unfoldable pub set_priority_value : ℕ → Message → Message
unfolding priority_of
set_priority_value n m = record m {
  properties = record m.properties { priority_value = n; priority = priority_of n };
}

unfoldable pub set_header : Bytes → Bytes → Message → Message
unfolding insert
set_header name value m = record m {
  properties = record m.properties { headers = insert name value m.properties.headers };
}

unfoldable pub or_empty : Option Bytes → Bytes
or_empty none = []
or_empty (some value) = value

-- The text of a header, and whether there is one.
unfoldable pub get_header : Bytes → Message → Bytes
unfolding lookup or_empty
get_header name m = or_empty (lookup name m.properties.headers)

unfoldable pub has_header : Bytes → Message → Bool
unfolding lookup
has_header name m = elim (lookup name m.properties.headers) [ none ↦ false | some value ↦ true ]

unfoldable pub remove_header : Bytes → Message → Message
unfolding erase
remove_header name m = record m {
  properties = record m.properties { headers = erase name m.properties.headers };
}

-- The headers are added to those that there are.
unfoldable pub merge_headers : Map Bytes Bytes → Map Bytes Bytes → Map Bytes Bytes
unfolding insert
merge_headers [] old = old
merge_headers ((name, value) ∷ more) old = merge_headers more (insert name value old)

unfoldable pub set_headers : Map Bytes Bytes → Message → Message
unfolding merge_headers
set_headers headers m = record m {
  properties = record m.properties { headers = merge_headers headers m.properties.headers };
}

unfoldable pub clear_headers : Message → Message
clear_headers m = record m { properties = record m.properties { headers = [] } }

unfoldable pub clear : Message → Message
unfolding no_properties
clear m = record { data_ = []; properties = no_properties }

unfoldable pub is_empty : Message → Bool
is_empty m = nat_beq (length m.data_) 0

unfoldable pub is_valid : Message → Bool
unfolding is_empty
is_valid m = not (is_empty m) && not (nat_beq (length m.properties.message_id) 0)

-- The text of the first problem, which is empty where there is none.
unfoldable pub validate : Message → Bytes
unfolding is_empty
validate m =
    if is_empty m
    then codes "Message is empty"
    else if nat_beq (length m.properties.message_id) 0
    then codes "Message ID is required"
    else []

unfoldable pub sum_bytes : ℕ → Bytes → ℕ
sum_bytes sum [] = sum
sum_bytes sum (b ∷ bs) = sum_bytes ((sum + b) % 2 ^ 32) bs

unfoldable pub calculate_checksum : Message → Bytes
unfolding sum_bytes to_string
calculate_checksum m = to_string (sum_bytes 0 m.data_)

unfoldable pub verify_checksum : Message → Bytes → Bool
unfolding calculate_checksum
verify_checksum m expected = calculate_checksum m == expected

unfoldable pub header_size : Map Bytes Bytes → ℕ
header_size [] = 0
header_size ((name, value) ∷ more) = length name + length value + header_size more

unfoldable pub estimate_size : Message → ℕ
unfolding header_size
estimate_size m =
    length m.data_
    + length m.properties.message_id
    + length m.properties.content_type
    + length m.properties.correlation_id
    + header_size m.properties.headers

unfoldable pub ensure_message_id_set : ℕ → ℕ → Message → Message
unfolding generate_message_id
ensure_message_id_set now drawn m =
    if nat_beq (length m.properties.message_id) 0
    then record m {
      properties = record m.properties { message_id = generate_message_id now drawn };
    }
    else m

unfoldable pub ensure_timestamp_set : ℕ → Message → Message
ensure_timestamp_set now m =
    if nat_beq m.properties.timestamp 0
    then record m { properties = record m.properties { timestamp = now } }
    else m

-- `operator==`
unfoldable pub same_message : Message → Message → Bool
same_message m n =
    m.data_ == n.data_
    && m.properties.message_id == n.properties.message_id
    && m.properties.content_type == n.properties.content_type

unfoldable pub is_compressed : Message → Bool
unfolding has_header get_header
is_compressed m =
    has_header (codes "compressed") m && get_header (codes "compressed") m == codes "true"
