-- ===== src/Rabbit/Message/Split.antt =====
-- components/rabbitmq_integration/src/message.cpp: `MessageUtils::splitMessage` and
-- `MessageUtils::combineMessages`.
pub mod Parts
pub mod Join
use udp_to_rabbitmq_gateway.Base.{
  ℕ, zero, suc, ◌+◌, ◌-◌, ◌/◌, ◌^◌, Bool, true, false, Option, none, some, List, [], ◌∷◌, ◌++◌,
  Bytes, codes, length, take, drop, leb, ltb, nat_beq, if◌then◌else◌, ◌>>=◌,
}
use udp_to_rabbitmq_gateway.Base.Int.{ℤ, ltb_ℤ}
use udp_to_rabbitmq_gateway.Dedup.MessageId.{to_string}
use udp_to_rabbitmq_gateway.Rabbit.Numbers.{stoi}
use udp_to_rabbitmq_gateway.Rabbit.Message.{
  Message, empty_message, from_bytes, set_header, get_header, remove_header, set_correlation_id,
}

-- One part. What its constructor sets is replaced by the properties of the message.
unfoldable pub make_part : ℕ → Message → Bytes → ℕ → Message
unfolding set_header set_correlation_id to_string
make_part max m chunk number =
    let part : Message = record { data_ = chunk; properties = m.properties } in
    let split = set_header (codes "splitMessage") (codes "true") part in
    let numbered = set_header (codes "partNumber") (to_string number) split in
    let total = (length m.data_ + max - 1) / max in
    set_correlation_id m.properties.message_id
      (set_header (codes "totalParts") (to_string total) numbered)

-- The loop, on fuel, over the bytes from the offset on. `none` stands for a division by zero and
-- for a loop that has not ended.
unfoldable pub split_from : ℕ → ℕ → Message → Bytes → ℕ → Option (List Message)
unfolding make_part
split_from fuel max m [] number = some []
split_from zero max m (b ∷ bs) number = none
split_from (suc fuel) max m (b ∷ bs) number = do
  let size = length (b ∷ bs)
  let chunk_size = if ltb size max then size else max
  parts ← split_from fuel max m (drop chunk_size (b ∷ bs)) (suc number)
  (if nat_beq max 0 then none else some (make_part max m (take chunk_size (b ∷ bs)) number ∷ parts))

unfoldable pub split_message : ℕ → Message → Option (List Message)
unfolding split_from
split_message max m =
    if leb (length m.data_) max then some (m ∷ []) else split_from (length m.data_) max m m.data_ 0

-- `std::stoi` of the part's number, which throws where there is none.
unfoldable pub part_number : Message → Option ℤ
unfolding stoi get_header
part_number m = stoi (2 ^ 31) (get_header (codes "partNumber") m)

unfoldable pub number_parts : List Message → Option (List (ℤ × Message))
unfolding part_number
number_parts [] = some []
number_parts (m ∷ ms) = do number ← part_number m; rest ← number_parts ms; some ((number, m) ∷ rest)

-- `std::sort` by the numbers.
unfoldable pub insert_part : ℤ × Message → List (ℤ × Message) → List (ℤ × Message)
insert_part part [] = part ∷ []
insert_part part (next ∷ rest) =
    let later = insert_part part rest in
    if ltb_ℤ next.0 part.0 then next ∷ later else part ∷ next ∷ rest

unfoldable pub sort_numbered : List (ℤ × Message) → List (ℤ × Message)
unfolding insert_part
sort_numbered [] = []
sort_numbered (part ∷ parts) = insert_part part (sort_numbered parts)

unfoldable pub without_numbers : List (ℤ × Message) → List Message
without_numbers [] = []
without_numbers (part ∷ parts) = part.1 ∷ without_numbers parts

-- A single message is not compared with another.
unfoldable pub sort_parts : List Message → Option (List Message)
unfolding number_parts sort_numbered without_numbers
sort_parts [] = some []
sort_parts (m ∷ []) = some (m ∷ [])
sort_parts (m ∷ n ∷ ms) = do
  numbered ← number_parts (m ∷ n ∷ ms)
  some (without_numbers (sort_numbered numbered))

unfoldable pub join_data : List Message → Bytes
join_data [] = []
join_data (m ∷ ms) = m.data_ ++ join_data ms

unfoldable pub combine_sorted : ℕ → ℕ → List Message → Message
unfolding empty_message from_bytes join_data remove_header
combine_sorted now drawn [] = empty_message now drawn
combine_sorted now drawn (m ∷ ms) =
    let combined = from_bytes now drawn (join_data (m ∷ ms)) in
    remove_header (codes "totalParts") (
      remove_header (codes "partNumber")
        (remove_header (codes "splitMessage") (record combined { properties = m.properties })))

-- `none` stands for an exception.
unfoldable pub combine_messages : ℕ → ℕ → List Message → Option Message
unfolding sort_parts combine_sorted
combine_messages now drawn ms = do sorted ← sort_parts ms; some (combine_sorted now drawn sorted)
