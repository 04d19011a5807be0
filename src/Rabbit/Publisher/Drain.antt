-- ===== src/Rabbit/Publisher/Drain.antt =====
-- The local queue of the publisher: how `processLocalQueue` empties it.
use udp_to_rabbitmq_gateway.Base.{
  ℕ, zero, suc, ◌+◌, ◌-◌, ◌%◌, ◌^◌, ◌≤◌, ◌<◌, ◌≡◌, refl, sym, ap, ◌∙◌, true, false, ◌&&◌, some,
  List, [], ◌∷◌, ◌++◌, length, if-true, if-false, add64, arith, append_nil, append_assoc,
}
use udp_to_rabbitmq_gateway.Rabbit.Publisher.{
  Item, Publisher, publish_internal, drain, process_local_queue,
}

-- The local queue emptied, and sending simulated for all of it, in its order.
abbrev pub flushed : List Item → Publisher → Publisher
flushed items p = record p {
  local_queue = [];
  local_queue_size = 0;
  simulated = p.simulated ++ items;
}

pub publish_internal-connected :
    (item : Item) (p : Publisher)
    → p.connected ≡ true
    → publish_internal item p ≡ (record p { simulated = p.simulated ++ item ∷ [] }, true)
unfolding publish_internal
publish_internal-connected item p h = if-true p.connected _ _ h

drain-step :
    (fuel : ℕ) (item : Item) (rest : List Item) (p : Publisher)
    → p.connected ≡ true
    → p.local_queue_size ≡ suc (length rest)
    → suc (length rest) < 2 ^ 64
    → drain (suc fuel) (item ∷ rest) p
      ≡ drain fuel rest (record p {
        local_queue = rest;
        local_queue_size = length rest;
        simulated = p.simulated ++ item ∷ [];
      })
unfolding drain add64
drain-step fuel item rest p h sized small =
    let size : (p.local_queue_size + (2 ^ 64 - 1)) % 2 ^ 64 ≡ length rest = omega (arith, sized) in
    rw
      (
        size,
        publish_internal-connected item
            (record p { local_queue = rest; local_queue_size = length rest }) h,
      )
      refl

drain-flushed :
    (fuel : ℕ) (items : List Item) (p : Publisher)
    → length items ≤ fuel
    → p.connected ≡ true
    → p.local_queue ≡ items
    → p.local_queue_size ≡ length items
    → length items < 2 ^ 64
    → drain fuel items p ≡ some (flushed items p)
unfolding drain
drain-flushed fuel [] p enough h queue sized small = λ i. some (record p {
  local_queue = queue i;
  local_queue_size = sized i;
  simulated = sym (append_nil p.simulated) i;
})
drain-flushed zero (item ∷ rest) p enough h queue sized small = absurd (omega arith)
drain-flushed (suc fuel) (item ∷ rest) p enough h queue sized small =
    let popped : Publisher = record p {
      local_queue = rest;
      local_queue_size = length rest;
      simulated = p.simulated ++ item ∷ [];
    } in
    drain-step fuel item rest p h sized small
    ∙ drain-flushed fuel rest popped (omega arith) h refl refl (omega arith)
    ∙ ap (λ s. some (record (flushed [] p) { simulated = s }))
        (append_assoc p.simulated (item ∷ []) rest)

-- While a publisher is connected, with its queue enabled, its counter equal to the queue's length
-- and that below 2 ^ 64, `processLocalQueue` ends and discards the whole queue: queue and counter
-- are empty, sending was simulated for each message in the queue's order, and nothing else
-- changes.
pub process_local_queue-flushed :
    (p : Publisher)
    → p.connected ≡ true
    → p.local_queue_enabled ≡ true
    → p.local_queue_size ≡ length p.local_queue
    → length p.local_queue < 2 ^ 64
    → process_local_queue p ≡ some (flushed p.local_queue p)
unfolding process_local_queue
process_local_queue-flushed p h enabled sized small =
    if-true (p.connected && p.local_queue_enabled) _ _ (rw (h, enabled) refl)
    ∙ drain-flushed (length p.local_queue) p.local_queue p (omega arith) h refl sized small

pub process_local_queue-idle :
    (p : Publisher)
    → (p.connected && p.local_queue_enabled) ≡ false
    → process_local_queue p ≡ some p
unfolding process_local_queue
process_local_queue-idle p h = if-false (p.connected && p.local_queue_enabled) _ _ h
