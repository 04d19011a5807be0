-- ===== src/Rabbit/Tests.antt =====
-- The local queue's theorems at concrete inputs.
use udp_to_rabbitmq_gateway.Base.{ℕ, ◌≡◌, [], ◌∷◌, codes}
use udp_to_rabbitmq_gateway.Rabbit.LocalQueue.{LocalQueue}
use udp_to_rabbitmq_gateway.Rabbit.LocalQueue.Fifo.{limit, step, serve, fifo, step-serve}

-- Two messages, which are numbers here.
abbrev two_items : LocalQueue ℕ
two_items = record {
  queue = (codes "e", codes "k", 1) ∷ (codes "e", codes "k", 2) ∷ [];
  max_size = 2;
  stats = record {
    total_enqueued = 2;
    total_dequeued = 0;
    total_dropped = 0;
    current_size = 2;
    max_size = 2;
    peak_size = 2;
  };
}

step-serve_example :
    let (r, a) = step (limit 1) two_items in (fifo r, a) ≡ serve (limit 1) (fifo two_items)
step-serve_example = step-serve (limit 1) two_items
