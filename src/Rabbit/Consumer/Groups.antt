-- ===== src/Rabbit/Consumer/Groups.antt =====
-- components/rabbitmq_integration/src/consumer.cpp: `MultiQueueConsumer` and `ConsumerPool`. A callback is left out of
-- the map of callbacks. Whether `createChannel` gives a channel is an argument.
use udp_to_rabbitmq_gateway.Base.{
  ℕ, zero, suc, ◌≡◌, refl, ap, ◌∙◌, Bool, true, false, not, ◌||◌, List, [], ◌∷◌, ◌++◌, Bytes, codes,
  length, if◌then◌else◌, if-split, arith, bytes_eq,
}
use udp_to_rabbitmq_gateway.Base.Maps.{Map, insert, erase}
use udp_to_rabbitmq_gateway.Rabbit.Consumer.{
  ConsumerConfig, Consumer, init, validate_queue, is_known, start_consuming, stop_consuming,
}

pub record MultiQueueConsumer : Type 0 where
  pub config : ConsumerConfig
  pub running : Bool
  pub queues : Map Bytes Bool
  pub consumers : List Consumer

unfoldable pub inbound_queue : Bytes → Bytes → Bytes
inbound_queue region imei = region ++ b'.' ∷ (imei ++ codes "_inbound")

unfoldable pub outbound_queue : Bytes → Bytes → Bytes
outbound_queue region imei = region ++ b'.' ∷ (imei ++ codes "_outbound")

unfoldable pub add_queue : Bytes → MultiQueueConsumer → MultiQueueConsumer
unfolding insert
add_queue name g = record g { queues = insert name true g.queues }

unfoldable pub remove_queue : Bytes → MultiQueueConsumer → MultiQueueConsumer
unfolding erase
remove_queue name g = record g { queues = erase name g.queues }

unfoldable pub add_device : Bytes → Bytes → MultiQueueConsumer → MultiQueueConsumer
unfolding add_queue inbound_queue outbound_queue
add_device region imei g =
    add_queue (outbound_queue region imei) (add_queue (inbound_queue region imei) g)

unfoldable pub remove_device : Bytes → Bytes → MultiQueueConsumer → MultiQueueConsumer
unfolding remove_queue inbound_queue outbound_queue
remove_device region imei g =
    remove_queue (outbound_queue region imei) (remove_queue (inbound_queue region imei) g)

unfoldable pub kept_consumer : Consumer × Bool → List Consumer → List Consumer
kept_consumer (c, success) rest = if success then c ∷ rest else rest

-- A consumer for each queue that it can be started on.
unfoldable pub start_all : Bool → ℕ → ConsumerConfig → Map Bytes Bool → List Consumer
unfolding init start_consuming kept_consumer
start_all created now config [] = []
start_all created now config ((name, callback) ∷ more) =
    kept_consumer (start_consuming created now name [] (init config))
      (start_all created now config more)

unfoldable pub start_group : Bool → ℕ → MultiQueueConsumer → MultiQueueConsumer
unfolding start_all
start_group created now g = if g.running then g else record g {
  consumers = g.consumers ++ start_all created now g.config g.queues;
  running = true;
}

unfoldable pub stop_group : MultiQueueConsumer → MultiQueueConsumer
stop_group g = record g { running = false; consumers = [] }

pub record ConsumerPool : Type 0 where
  pub config : ConsumerConfig
  pub pool_size : ℕ
  pub running : Bool
  pub consumers : List Consumer

unfoldable pub make_consumers : ConsumerConfig → ℕ → List Consumer
unfolding init
make_consumers config zero = []
make_consumers config (suc n) = init config ∷ make_consumers config n

unfoldable pub start_pool : ConsumerPool → ConsumerPool
unfolding make_consumers
start_pool p =
    if p.running
    then p
    else record p { consumers = make_consumers p.config p.pool_size; running = true }

unfoldable pub stop_pool : ConsumerPool → ConsumerPool
stop_pool p = record p { running = false; consumers = [] }

-- The first consumer takes every queue.
unfoldable pub start_first : Bool → ℕ → Bytes → List Consumer → List Consumer × Bool
unfolding start_consuming
start_first created now name [] = ([], false)
start_first created now name (c ∷ cs) =
    let (started, success) = start_consuming created now name [] c in (started ∷ cs, success)

unfoldable pub add_consumer : Bool → ℕ → Bytes → ConsumerPool → ConsumerPool × Bool
unfolding start_first
add_consumer created now name p =
    let (consumers, success) = start_first created now name p.consumers in
    if p.running then (record p { consumers = consumers }, success) else (p, false)

-- The first consumer that knows the queue stops it.
unfoldable pub stop_first : Bytes → List Consumer → List Consumer × Bool
unfolding stop_consuming
stop_first name [] = ([], false)
stop_first name (c ∷ cs) =
    let (stopped, success) = stop_consuming name c in
    let (rest, found) = stop_first name cs in
    if success then (stopped ∷ cs, true) else (c ∷ rest, found)

unfoldable pub remove_consumer : Bytes → ConsumerPool → ConsumerPool × Bool
unfolding stop_first
remove_consumer name p =
    let (consumers, success) = stop_first name p.consumers in
    (record p { consumers = consumers }, success)

refused : (b : Bool) → (not b || false) ≡ true → false ≡ b
refused true h = absurd (ground (arith, h))
refused false h = refl

taken : (b : Bool) → (not b || false) ≡ false → true ≡ b
taken true h = refl
taken false h = absurd (ground (arith, h))

start_consuming-new :
    (now : ℕ) (name tag : Bytes) (config : ConsumerConfig)
    → (start_consuming true now name tag (init config)).1 ≡ validate_queue name
unfolding start_consuming is_known init validate_queue
start_consuming-new now name tag config =
    if-split (λ (r : Consumer × Bool). r.1 ≡ validate_queue name)
      (not (validate_queue name) || false) _ _ (refused (validate_queue name))
      (taken (validate_queue name))

kept_consumer-length :
    (r : Consumer × Bool) (rest : List Consumer)
    → length (kept_consumer r rest) ≡ (if r.1 then suc (length rest) else length rest)
unfolding kept_consumer
kept_consumer-length (c, true) rest = refl
kept_consumer-length (c, false) rest = refl

-- The queues with a valid name.
abbrev pub count_valid : Map Bytes Bool → ℕ
count_valid [] = 0
count_valid (queue ∷ more) =
    if validate_queue queue.0 then suc (count_valid more) else count_valid more

-- Where channels can be made, a group that is started has as many consumers as it has queues with a valid
-- name.
pub start_all-length :
    (now : ℕ) (config : ConsumerConfig) (queues : Map Bytes Bool)
    → length (start_all true now config queues) ≡ count_valid queues
unfolding start_all
start_all-length now config [] = refl
start_all-length now config ((name, callback) ∷ more) =
    let rest = start_all true now config more in
    kept_consumer-length (start_consuming true now name [] (init config)) rest
    ∙ ap (λ b. if b then suc (length rest) else length rest)
        (start_consuming-new now name [] config)
    ∙ ap (λ n. if validate_queue name then suc n else n) (start_all-length now config more)
