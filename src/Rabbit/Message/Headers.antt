-- ===== src/Rabbit/Message/Headers.antt =====
-- components/rabbitmq_integration/src/message.cpp: headers that are integers and truth values, the
-- setters of the properties, and the expiration as an option. Headers of type double are left out.
use udp_to_rabbitmq_gateway.Base.{
  ℕ, suc, ◌^◌, ◌≤◌, ◌<◌, ◌≡◌, refl, ap, ◌∙◌, Bool, true, false, ◌||◌, Option, none, some, [], ◌∷◌,
  Bytes, codes, ◌==◌, bytes_eq, bytes_beq_iff, if◌then◌else◌, if-true, if-false, ◌>>=◌,
}
use udp_to_rabbitmq_gateway.Base.Int.{ℤ, pos, negsuc, pos_part, neg_part}
use udp_to_rabbitmq_gateway.Base.Maps.{lookup, lookup-insert}
use udp_to_rabbitmq_gateway.Dedup.MessageId.{to_string}
use udp_to_rabbitmq_gateway.Rabbit.Numbers.{stoi, stoi-to_string, stoi-minus}
use udp_to_rabbitmq_gateway.Rabbit.Message.{
  Message, MessageProperties, DeliveryMode, persistent, non_persistent, set_header,
}

-- `std::to_string` of a signed integer.
unfoldable pub signed_text : ℤ → Bytes
unfolding to_string
signed_text (pos n) = to_string n
signed_text (negsuc n) = b'-' ∷ to_string (suc n)

unfoldable pub set_header_int : Bytes → ℤ → Message → Message
unfolding set_header signed_text
set_header_int name value m = set_header name (signed_text value) m

unfoldable pub set_header_bool : Bytes → Bool → Message → Message
unfolding set_header
set_header_bool name value m = set_header name (if value then codes "true" else codes "false") m

unfoldable pub get_header_string : Bytes → Message → Option Bytes
unfolding lookup
get_header_string name m = lookup name m.properties.headers

unfoldable pub get_header_int : Bytes → Message → Option ℤ
unfolding get_header_string stoi
get_header_int name m = get_header_string name m >>= stoi (2 ^ 63)

unfoldable pub get_header_bool : Bytes → Message → Option Bool
unfolding get_header_string
get_header_bool name m = do
  value ← get_header_string name m
  some (value == codes "true" || value == codes "1")

-- `getExpirationDuration`; `stoll` throws for the empty text, which the source asks for first.
unfoldable pub get_expiration_duration : Message → Option ℤ
unfolding stoi
get_expiration_duration m =
    if m.properties.expiration == [] then none else stoi (2 ^ 63) m.properties.expiration

unfoldable pub set_properties : MessageProperties → Message → Message
set_properties properties m = record m { properties = properties }

unfoldable pub set_content_encoding : Bytes → Message → Message
set_content_encoding encoding m = record m {
  properties = record m.properties { content_encoding = encoding };
}

unfoldable pub set_message_id : Bytes → Message → Message
set_message_id id m = record m { properties = record m.properties { message_id = id } }

unfoldable pub set_reply_to : Bytes → Message → Message
set_reply_to reply_to m = record m { properties = record m.properties { reply_to = reply_to } }

unfoldable pub set_user_id : Bytes → Message → Message
set_user_id id m = record m { properties = record m.properties { user_id = id } }

unfoldable pub set_app_id : Bytes → Message → Message
set_app_id id m = record m { properties = record m.properties { app_id = id } }

unfoldable pub set_type : Bytes → Message → Message
set_type type m = record m { properties = record m.properties { type = type } }

unfoldable pub set_delivery_mode : DeliveryMode → Message → Message
set_delivery_mode mode m = record m { properties = record m.properties { delivery_mode = mode } }

unfoldable pub is_persistent : Message → Bool
is_persistent m = elim m.properties.delivery_mode [ persistent ↦ true | non_persistent ↦ false ]

unfoldable pub set_timestamp : ℕ → Message → Message
set_timestamp now m = record m { properties = record m.properties { timestamp = now } }

-- What `int64_t` holds.
pub record IsInt64 (n : ℤ) : Type 0 where
  pub above : pos_part n < 2 ^ 63
  pub below : neg_part n ≤ 2 ^ 63

stoi-signed_text : (n : ℤ) → IsInt64 n → stoi (2 ^ 63) (signed_text n) ≡ some n
unfolding signed_text
stoi-signed_text (pos n) h = stoi-to_string (2 ^ 63) n h.above
stoi-signed_text (negsuc n) h = stoi-minus (2 ^ 63) n h.below

get_header_string-set_header :
    (name value : Bytes) (m : Message)
    → get_header_string name (set_header name value m) ≡ some value
unfolding get_header_string set_header
get_header_string-set_header name value m =
    lookup-insert name name value m.properties.headers
    ∙ if-true (name == name) _ _ ((bytes_beq_iff name name).1 refl)

get_header_string-set_header_other :
    (name other value : Bytes) (m : Message)
    → (name == other) ≡ false
    → get_header_string other (set_header name value m) ≡ get_header_string other m
unfolding get_header_string set_header
get_header_string-set_header_other name other value m h =
    lookup-insert name other value m.properties.headers ∙ if-false (name == other) _ _ h

-- An integer that is set as a header is read back, for every value of `int64_t`, and the headers
-- of other names stay as they are.
pub get_header_int-set_header_int :
    (name other : Bytes) (n : ℤ) (m : Message)
    → IsInt64 n
    → (name == other) ≡ false
    → (get_header_int name (set_header_int name n m) ≡ some n)
      × (get_header_string other (set_header_int name n m) ≡ get_header_string other m)
unfolding get_header_int set_header_int
get_header_int-set_header_int name other n m h apart = (
  ap (λ o. o >>= stoi (2 ^ 63)) (get_header_string-set_header name (signed_text n) m)
      ∙ stoi-signed_text n h,
  get_header_string-set_header_other name other (signed_text n) m apart,
)
