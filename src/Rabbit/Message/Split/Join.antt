-- ===== src/Rabbit/Message/Split/Join.antt =====
-- `combineMessages` after `splitMessage`.
use udp_to_rabbitmq_gateway.Base.{
  ℕ, suc, ◌^◌, ◌<◌, ◌≡◌, refl, ap, ◌∙◌, Option, some, List, [], ◌∷◌, Bytes, length, leb, if-false,
  ◌>>=◌, arith, append_nil, Bool-cases, inl, inr,
}
use udp_to_rabbitmq_gateway.Base.Int.{ℤ, pos, ltb_ℤ}
use udp_to_rabbitmq_gateway.Rabbit.Message.{Message, from_bytes, created, remove_header}
use udp_to_rabbitmq_gateway.Rabbit.Message.Split.{
  split_message, number_parts, insert_part, sort_numbered, without_numbers, sort_parts, join_data,
  combine_sorted, combine_messages,
}
use udp_to_rabbitmq_gateway.Rabbit.Message.Split.Parts.{ArePartsOf, no_part, part, split_from_lem}

-- The parts with the numbers from n on.
numbered : ℕ → List Message → List (ℤ × Message)
numbered n [] = []
numbered n (p ∷ ps) = (pos n, p) ∷ numbered (suc n) ps

number_parts_lem :
    (m : Message) (max n : ℕ) (ps : List Message)
    → ArePartsOf m max n ps
    → number_parts ps ≡ some (numbered n ps)
unfolding number_parts numbered
number_parts_lem m max n [] no_part = refl
number_parts_lem m max n (p ∷ ps) (part number id small others) =
    rw (number, number_parts_lem m max (suc n) ps others) refl

insert_part-numbered :
    (n : ℕ) (p : Message) (ps : List Message)
    → insert_part (pos n, p) (numbered (suc n) ps) ≡ (pos n, p) ∷ numbered (suc n) ps
unfolding insert_part numbered
insert_part-numbered n p [] = refl
insert_part-numbered n p (q ∷ qs) = if-false (ltb_ℤ (pos (suc n)) (pos n)) _ _ (ground arith)

sort_numbered-numbered : (n : ℕ) (ps : List Message) → sort_numbered (numbered n ps) ≡ numbered n ps
unfolding sort_numbered numbered
sort_numbered-numbered n [] = refl
sort_numbered-numbered n (p ∷ ps) =
    ap (insert_part (pos n, p)) (sort_numbered-numbered (suc n) ps) ∙ insert_part-numbered n p ps

without_numbers-numbered : (n : ℕ) (ps : List Message) → without_numbers (numbered n ps) ≡ ps
unfolding without_numbers numbered
without_numbers-numbered n [] = refl
without_numbers-numbered n (p ∷ ps) = ap (◌∷◌ p) (without_numbers-numbered (suc n) ps)

sort_parts_lem :
    (m : Message) (max n : ℕ) (ps : List Message) → ArePartsOf m max n ps → sort_parts ps ≡ some ps
unfolding sort_parts
sort_parts_lem m max n [] parts = refl
sort_parts_lem m max n (p ∷ []) parts = refl
sort_parts_lem m max n (p ∷ q ∷ qs) parts = rw (number_parts_lem m max n (p ∷ q ∷ qs) parts) (
    ap (λ r. some (without_numbers r)) (sort_numbered-numbered n (p ∷ q ∷ qs))
    ∙ ap some (without_numbers-numbered n (p ∷ q ∷ qs)))

-- A message that has the data and the identifier of m.
pub record IsRestored (m c : Message) : Type 0 where
  pub same_data : c.data_ ≡ m.data_
  pub same_message_id : c.properties.message_id ≡ m.properties.message_id

combine_sorted-restores :
    (now drawn max n : ℕ) (m : Message) (ps : List Message)
    → ArePartsOf m max n ps
    → 0 < length ps
    → join_data ps ≡ m.data_
    → IsRestored m (combine_sorted now drawn ps)
unfolding combine_sorted from_bytes created remove_header
combine_sorted-restores now drawn max n m [] parts more joined = absurd (omega arith)
combine_sorted-restores now drawn max n m (p ∷ ps) (part number id small others) more joined =
    record { same_data = joined; same_message_id = id }

not_empty :
    (ps : List Message) (bytes : Bytes) → join_data ps ≡ bytes → 0 < length bytes → 0 < length ps
unfolding join_data
not_empty [] bytes e h = absurd (omega (arith, ap length e))
not_empty (p ∷ ps) bytes e h = omega arith

alone : (now drawn : ℕ) (m : Message) → IsRestored m (combine_sorted now drawn (m ∷ []))
unfolding combine_sorted from_bytes created remove_header join_data
alone now drawn m = record { same_data = append_nil m.data_; same_message_id = refl }

-- What comes of combining the parts that a message was split into.
abbrev pub rejoined : ℕ → ℕ → ℕ → Message → Option Message
rejoined now drawn max m = do parts ← split_message max m; combine_messages now drawn parts

-- With a positive size for the parts and fewer than 2^31 bytes, a message is split in finitely many
-- turns of the loop, and its parts, combined, give one message with all of its data and its identifier.
pub combine_messages-split_message :
    (now drawn max : ℕ) (m : Message)
    → 0 < max
    → length m.data_ < 2 ^ 31
    → (c : Message) × (rejoined now drawn max m ≡ some c) × IsRestored m c
unfolding split_message combine_messages
combine_messages-split_message now drawn max m positive small =
    elim (Bool-cases (leb (length m.data_) max)) [
      | inl fits ↦
          (combine_sorted now drawn (m ∷ []), rw (fits, sort_parts) refl, alone now drawn m)
      | inr large ↦
          let (ps, made, parts, joined) =
            split_from_lem (length m.data_) max m m.data_ 0 positive (omega arith)
              (omega (arith, small)) in
          let some_part = not_empty ps m.data_ joined (ground (arith, large)) in
          (
            combine_sorted now drawn ps,
            rw (large, made, sort_parts_lem m max 0 ps parts) refl,
            combine_sorted-restores now drawn max 0 m ps parts some_part joined,
          )
    ]
