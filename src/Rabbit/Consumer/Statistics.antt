-- ===== src/Rabbit/Consumer/Statistics.antt =====
-- components/rabbitmq_integration/src/consumer.cpp: acknowledgments, and the statistics of a consumer.
use udp_to_rabbitmq_gateway.Base.{
  ℕ, ◌+◌, ◌/◌, ◌≡◌, refl, sym, ◌∙◌, Bool, true, false, Option, none, some, [], ◌∷◌, Bytes, ltb,
  nat_beq, if◌then◌else◌, if-split, if-true, if-false, subst, Bool-cases, inl, inr, ◌==◌, bytes_eq,
  add64, arith,
}
use udp_to_rabbitmq_gateway.Base.Maps.{Map, lookup, insert}
use udp_to_rabbitmq_gateway.Rabbit.Consumer.{
  ConsumerStats, ConsumerInfo, Consumer, no_stats, has_connection,
}

unfoldable pub acknowledge : Consumer → Consumer × Bool
unfolding has_connection
acknowledge c =
    if has_connection c
    then (
      record c {
        aggregated_stats = record c.aggregated_stats {
          messages_acknowledged = add64 c.aggregated_stats.messages_acknowledged 1;
        };
      },
      true,
    )
    else (c, false)

unfoldable pub reject : Bool → Consumer → Consumer × Bool
unfolding has_connection
reject requeue c =
    let s = c.aggregated_stats in
    if has_connection c
    then (
      record c {
        aggregated_stats =
            if requeue
            then record s { messages_requeued = add64 s.messages_requeued 1 }
            else record s { messages_rejected = add64 s.messages_rejected 1 };
      },
      true,
    )
    else (c, false)

-- `acknowledgeMultiple`, `rejectMultiple` and `nack` only answer.
unfoldable pub answer_multiple : Consumer → Bool
unfolding has_connection
answer_multiple c = has_connection c

-- The loop of `updateAggregatedStats`.
unfoldable pub add_stats : ConsumerStats → ConsumerStats → ConsumerStats
add_stats sum s = record sum {
  messages_received = add64 sum.messages_received s.messages_received;
  messages_acknowledged = add64 sum.messages_acknowledged s.messages_acknowledged;
  messages_rejected = add64 sum.messages_rejected s.messages_rejected;
  messages_requeued = add64 sum.messages_requeued s.messages_requeued;
  messages_unacked = add64 sum.messages_unacked s.messages_unacked;
  bytes_received = add64 sum.bytes_received s.bytes_received;
}

unfoldable pub sum_stats : ConsumerStats → Map Bytes ConsumerInfo → ConsumerStats
unfolding add_stats
sum_stats sum [] = sum
sum_stats sum ((name, info) ∷ more) = sum_stats (add_stats sum info.stats) more

unfoldable pub update_aggregated_stats : Consumer → Consumer
unfolding sum_stats no_stats
update_aggregated_stats c = record c { aggregated_stats = sum_stats no_stats c.consumers }

unfoldable pub count_message : Bool → ℕ → ℕ → ConsumerStats → ConsumerStats
count_message processed duration now s = record s {
  messages_received = add64 s.messages_received 1;
  last_message = now;
  messages_acknowledged =
      if processed then add64 s.messages_acknowledged 1 else s.messages_acknowledged;
  messages_rejected = if processed then s.messages_rejected else add64 s.messages_rejected 1;
  max_processing_time =
      if ltb s.max_processing_time duration then duration else s.max_processing_time;
  avg_processing_time =
      if nat_beq s.avg_processing_time 0 then duration else (s.avg_processing_time + duration) / 2;
}

-- `processMessage` of the consumer of a queue, for the answer of its callback: `none` where the callback throws.
unfoldable pub process_found : Bytes → ℕ → ℕ → Bool → Option ConsumerInfo → Consumer → Consumer
unfolding insert count_message update_aggregated_stats
process_found name duration now result none c = c
process_found name duration now result (some info) c = update_aggregated_stats (record c {
  consumers =
      insert name (record info { stats = count_message result duration now info.stats })
        c.consumers;
})

unfoldable pub process_message : Bytes → ℕ → ℕ → Option Bool → Consumer → Consumer
unfolding lookup process_found
process_message name duration now none c = c
process_message name duration now (some result) c =
    process_found name duration now result (lookup name c.consumers) c

unfoldable pub clear_stats : Map Bytes ConsumerInfo → Map Bytes ConsumerInfo
unfolding no_stats
clear_stats [] = []
clear_stats ((name, info) ∷ more) = (name, record info { stats = no_stats }) ∷ clear_stats more

unfoldable pub reset_stats : Consumer → Consumer
unfolding clear_stats no_stats
reset_stats c = record c { aggregated_stats = no_stats; consumers = clear_stats c.consumers }

-- Every message that was received was acknowledged or rejected.
pub record IsBalanced (s : ConsumerStats) : Type 0 where
  pub balanced : s.messages_received ≡ add64 s.messages_acknowledged s.messages_rejected

pub data AreBalanced : Map Bytes ConsumerInfo → Type 0 where
  no_more : AreBalanced []
  one_more :
      {name : Bytes} {info : ConsumerInfo} {more : Map Bytes ConsumerInfo}
      → IsBalanced info.stats
      → AreBalanced more
      → AreBalanced ((name, info) ∷ more)

no_stats-IsBalanced : IsBalanced no_stats
unfolding no_stats add64
no_stats-IsBalanced = record { balanced = refl }

count_message-IsBalanced :
    (processed : Bool) (duration now : ℕ) (s : ConsumerStats)
    → IsBalanced s
    → IsBalanced (count_message processed duration now s)
unfolding count_message add64
count_message-IsBalanced true duration now s h = record { balanced = omega (arith, h.balanced) }
count_message-IsBalanced false duration now s h = record { balanced = omega (arith, h.balanced) }

add_stats-IsBalanced :
    (sum s : ConsumerStats) → IsBalanced sum → IsBalanced s → IsBalanced (add_stats sum s)
unfolding add_stats add64
add_stats-IsBalanced sum s h k = record { balanced = omega (arith, h.balanced, k.balanced) }

sum_stats-IsBalanced :
    (sum : ConsumerStats) (infos : Map Bytes ConsumerInfo)
    → IsBalanced sum
    → AreBalanced infos
    → IsBalanced (sum_stats sum infos)
unfolding sum_stats
sum_stats-IsBalanced sum [] h no_more = h
sum_stats-IsBalanced sum ((name, info) ∷ more) h (one_more k others) =
    sum_stats-IsBalanced (add_stats sum info.stats) more (add_stats-IsBalanced sum info.stats h k)
      others

abbrev Balances : Option ConsumerInfo → Type 0
Balances none = ⊥
Balances (some info) = IsBalanced info.stats

lookup-IsBalanced :
    (name : Bytes) (infos : Map Bytes ConsumerInfo) (info : ConsumerInfo)
    → AreBalanced infos
    → lookup name infos ≡ some info
    → IsBalanced info.stats
unfolding lookup
lookup-IsBalanced name [] info no_more e = absurd (cc)
lookup-IsBalanced name ((other, found) ∷ more) info (one_more h others) e =
    elim (Bool-cases (other == name)) [
      | inl same ↦
          let here : some found ≡ some info = sym (if-true (other == name) _ _ same) ∙ e in
          subst (λ (o : Option ConsumerInfo). Balances o) here h
      | inr different ↦
          lookup-IsBalanced name more info others (sym (if-false (other == name) _ _ different) ∙ e)
    ]

insert-AreBalanced :
    (name : Bytes) (info : ConsumerInfo) (infos : Map Bytes ConsumerInfo)
    → IsBalanced info.stats
    → AreBalanced infos
    → AreBalanced (insert name info infos)
unfolding insert
insert-AreBalanced name info [] h no_more = one_more h no_more
insert-AreBalanced name info ((other, found) ∷ more) h (one_more k others) =
    if-split AreBalanced (other == name) _ _ (λ same. one_more h others)
      (λ different. one_more k (insert-AreBalanced name info more h others))

-- The statistics of every consumer and those that are aggregated.
pub record IsSound (c : Consumer) : Type 0 where
  pub each : AreBalanced c.consumers
  pub all : IsBalanced c.aggregated_stats

process_found-IsSound :
    (name : Bytes) (duration now : ℕ) (result : Bool) (found : Option ConsumerInfo) (c : Consumer)
    → lookup name c.consumers ≡ found
    → IsSound c
    → IsSound (process_found name duration now result found c)
unfolding process_found update_aggregated_stats
process_found-IsSound name duration now result none c e h = h
process_found-IsSound name duration now result (some info) c e h =
    let counted =
      count_message-IsBalanced result duration now info.stats
        (lookup-IsBalanced name c.consumers info h.each e) in
    let each = insert-AreBalanced name _ c.consumers counted h.each in
    record { each = each; all = sum_stats-IsBalanced no_stats _ no_stats-IsBalanced each }

-- If the statistics of every consumer and the aggregated ones are such that what was received is
-- what was acknowledged or rejected, they still are after a message, whatever the callback
-- answers and also where it throws. (A client's own `acknowledge` or `reject` breaks the
-- condition for the aggregated ones.)
pub process_message-IsSound :
    (name : Bytes) (duration now : ℕ) (result : Option Bool) (c : Consumer)
    → IsSound c
    → IsSound (process_message name duration now result c)
unfolding process_message
process_message-IsSound name duration now none c h = h
process_message-IsSound name duration now (some result) c h =
    process_found-IsSound name duration now result (lookup name c.consumers) c refl h

-- An acknowledgment of a client is forgotten by the next message of a known queue whose callback
-- answers and does not throw: the aggregated statistics are then the same as without the
-- acknowledgment.
pub process_message-acknowledge :
    (name : Bytes) (duration now : ℕ) (result : Bool) (info : ConsumerInfo) (c : Consumer)
    → lookup name c.consumers ≡ some info
    → (process_message name duration now (some result) (acknowledge c).0).aggregated_stats
      ≡ (process_message name duration now (some result) c).aggregated_stats
unfolding process_message acknowledge update_aggregated_stats
process_message-acknowledge name duration now result info c e =
    if-split
      (λ (r : Consumer × Bool).
        (process_message name duration now (some result) r.0).aggregated_stats
        ≡ (process_message name duration now (some result) c).aggregated_stats)
      (has_connection c) _ _ (λ on. rw e refl) (λ off. refl)
