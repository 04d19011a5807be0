-- ===== src/Rabbit/Message/Split/Parts.antt =====
-- What the loop of `splitMessage` makes.
use udp_to_rabbitmq_gateway.Base.{
  ℕ, zero, suc, ◌+◌, ◌-◌, ◌/◌, ◌^◌, ◌≤◌, ◌<◌, ◌≡◌, refl, ap, ◌∙◌, false, Option, some, List, [],
  ◌∷◌, ◌++◌, Bytes, codes, length, take, drop, ltb, nat_beq, ◌==◌, bytes_eq, bytes_beq,
  if◌then◌else◌, arith, take-drop, length-drop,
}
use udp_to_rabbitmq_gateway.Base.Int.{pos}
use udp_to_rabbitmq_gateway.Base.Maps.{lookup, insert, lookup-insert}
use udp_to_rabbitmq_gateway.Dedup.MessageId.{to_string}
use udp_to_rabbitmq_gateway.Rabbit.Numbers.{stoi, stoi-to_string}
use udp_to_rabbitmq_gateway.Rabbit.Message.{
  Message, set_header, get_header, or_empty, set_correlation_id,
}
use udp_to_rabbitmq_gateway.Rabbit.Message.Split.{make_part, split_from, part_number, join_data}

-- Parts of a message, of at most so many bytes, with the numbers from n on.
pub data ArePartsOf (m : Message) (max : ℕ) : ℕ → List Message → Type 0 where
  no_part : {n : ℕ} → ArePartsOf m max n []
  part :
      {n : ℕ} {p : Message} {ps : List Message}
      → part_number p ≡ some (pos n)
      → p.properties.message_id ≡ m.properties.message_id
      → length p.data_ ≤ max
      → ArePartsOf m max (suc n) ps
      → ArePartsOf m max n (p ∷ ps)

other : (x y : Option Bytes) → (if codes "totalParts" == codes "partNumber" then x else y) ≡ y
unfolding bytes_beq
other x y = refl

same : (x y : Option Bytes) → (if codes "partNumber" == codes "partNumber" then x else y) ≡ x
unfolding bytes_beq
same x y = refl

make_part-number :
    (max : ℕ) (m : Message) (chunk : Bytes) (n : ℕ)
    → n < 2 ^ 31
    → part_number (make_part max m chunk n) ≡ some (pos n)
unfolding part_number get_header make_part set_header set_correlation_id or_empty
make_part-number max m chunk n h =
    let base = insert (codes "splitMessage") (codes "true") m.properties.headers in
    let total = to_string ((length m.data_ + max - 1) / max) in
    let numbered = insert (codes "partNumber") (to_string n) base in
    let found : lookup (codes "partNumber") (insert (codes "totalParts") total numbered)
        ≡ some (to_string n) =
      lookup-insert (codes "totalParts") (codes "partNumber") total numbered
      ∙ other (some total) (lookup (codes "partNumber") numbered)
      ∙ lookup-insert (codes "partNumber") (codes "partNumber") (to_string n) base
      ∙ same (some (to_string n)) (lookup (codes "partNumber") base) in
    ap (λ o. stoi (2 ^ 31) (or_empty o)) found ∙ stoi-to_string (2 ^ 31) n h

length-take : (n : ℕ) (xs : Bytes) → length (take n xs) ≤ n
length-take zero xs = omega arith
length-take (suc n) [] = omega arith
length-take (suc n) (x ∷ xs) = omega (arith, length-take n xs)

-- What the loop makes of the bytes from an offset on.
abbrev Splits : ℕ → ℕ → Message → Bytes → ℕ → Type 0
Splits fuel max m rest n =
    (ps : List Message) × (split_from fuel max m rest n ≡ some ps)
    × ArePartsOf m max n ps
    × (join_data ps ≡ rest)

split_from-more :
    (fuel max : ℕ) (m : Message) (b : ℕ) (bs : Bytes) (n size : ℕ)
    → 0 < max
    → n < 2 ^ 31
    → size ≡ (if ltb (length (b ∷ bs)) max then length (b ∷ bs) else max)
    → Splits fuel max m (drop size (b ∷ bs)) (suc n)
    → Splits (suc fuel) max m (b ∷ bs) n
unfolding split_from join_data make_part set_header set_correlation_id
split_from-more fuel max m b bs n size positive small e (ps, made, parts, joined) =
    let bytes = b ∷ bs in
    let some_size : nat_beq max 0 ≡ false = ground arith in
    let fits : size ≤ max = ground arith in
    let p = make_part max m (take size bytes) n in
    (
      p ∷ ps,
      rw (← e, made, some_size) refl,
      part (make_part-number max m (take size bytes) n small) refl
          (omega (arith, fits, length-take size bytes)) parts,
      ap (λ t. take size bytes ++ t) joined ∙ take-drop size bytes,
    )

-- The fuel is enough where it is the number of the bytes.
pub split_from_lem :
    (fuel max : ℕ) (m : Message) (rest : Bytes) (n : ℕ)
    → 0 < max
    → length rest ≤ fuel
    → n + length rest < 2 ^ 31
    → Splits fuel max m rest n
unfolding split_from join_data
split_from_lem fuel max m [] n positive enough small = ([], refl, no_part, refl)
split_from_lem zero max m (b ∷ bs) n positive enough small = absurd (omega arith)
split_from_lem (suc fuel) max m (b ∷ bs) n positive enough small =
    let size = if ltb (length (b ∷ bs)) max then length (b ∷ bs) else max in
    let one : 0 < size = ground arith in
    let left = length-drop size (b ∷ bs) in
    split_from-more fuel max m b bs n size positive (omega arith) refl (
      split_from_lem fuel max m (drop size (b ∷ bs)) (suc n) positive
        (omega (arith, one, left, enough)) (omega (arith, one, left, small)))
