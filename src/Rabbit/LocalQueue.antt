-- ===== src/Rabbit/LocalQueue.antt =====
-- components/rabbitmq_integration/src/local_queue.cpp: the queue that holds messages while the broker
-- cannot be reached. A message is a value that the queue does not look at.
pub mod Fifo
use udp_to_rabbitmq_gateway.Base.{
  ℕ, zero, suc, ◌+◌, ◌-◌, ◌≤◌, Bool, true, false, Option, none, some, List, [], ◌∷◌, ◌++◌, Bytes,
  length, leb, ltb, if◌then◌else◌, add64,
}

pub record Stats : Type 0 where
  pub total_enqueued : ℕ
  pub total_dequeued : ℕ
  pub total_dropped : ℕ
  pub current_size : ℕ
  pub max_size : ℕ
  pub peak_size : ℕ

-- An item is a tuple of the exchange, the routing key and the message.
pub record LocalQueue (Message : Type 0) : Type 0 where
  pub queue : List (Bytes × Bytes × Message)
  pub max_size : ℕ
  pub stats : Stats

unfoldable pub no_stats : Stats
no_stats = record {
  total_enqueued = 0;
  total_dequeued = 0;
  total_dropped = 0;
  current_size = 0;
  max_size = 0;
  peak_size = 0;
}

module _ {Message : Type 0} where
  unfoldable pub init : ℕ → LocalQueue Message
  unfolding no_stats
  init n = record { queue = []; max_size = n; stats = record no_stats { max_size = n } }

  unfoldable pub update_stats : LocalQueue Message → LocalQueue Message
  update_stats q =
      let n = length q.queue in
      record q {
        stats = record q.stats {
          current_size = n;
          peak_size = if ltb q.stats.peak_size n then n else q.stats.peak_size;
        };
      }

  unfoldable pub enqueue : Bytes → Bytes → Message → LocalQueue Message → LocalQueue Message × Bool
  unfolding update_stats
  enqueue exchange key m q =
      if leb q.max_size (length q.queue)
      then (
        record q { stats = record q.stats { total_dropped = add64 q.stats.total_dropped 1 } },
        false,
      )
      else (
        update_stats (record q {
          queue = q.queue ++ (exchange, key, m) ∷ [];
          stats = record q.stats { total_enqueued = add64 q.stats.total_enqueued 1 };
        }),
        true,
      )

  unfoldable pub dequeue_from :
      List (Bytes × Bytes × Message)
      → LocalQueue Message
      → LocalQueue Message × Option (Bytes × Bytes × Message)
  unfolding update_stats
  dequeue_from [] q = (q, none)
  dequeue_from (x ∷ xs) q = (
    update_stats (record q {
      queue = xs;
      stats = record q.stats { total_dequeued = add64 q.stats.total_dequeued 1 };
    }),
    some x,
  )

  unfoldable pub dequeue :
      LocalQueue Message → LocalQueue Message × Option (Bytes × Bytes × Message)
  unfolding dequeue_from
  dequeue q = dequeue_from q.queue q

  unfoldable pub is_empty : LocalQueue Message → Bool
  is_empty q = leb (length q.queue) 0

  unfoldable pub is_full : LocalQueue Message → Bool
  is_full q = leb q.max_size (length q.queue)

  unfoldable pub clear : LocalQueue Message → LocalQueue Message
  unfolding update_stats
  clear q = update_stats (record q { queue = [] })

  -- The loop of `setMaxSize`: what is left of the queue, and the counter.
  unfoldable pub drop_excess :
      ℕ → List (Bytes × Bytes × Message) → ℕ → List (Bytes × Bytes × Message) × ℕ
  drop_excess n [] dropped = ([], dropped)
  drop_excess n (x ∷ xs) dropped =
      let rest = drop_excess n xs (add64 dropped 1) in
      if ltb n (suc (length xs)) then rest else (x ∷ xs, dropped)

  unfoldable pub set_max_size : ℕ → LocalQueue Message → LocalQueue Message
  unfolding drop_excess update_stats
  set_max_size n q =
      let (rest, dropped) = drop_excess n q.queue q.stats.total_dropped in
      update_stats (record q {
        queue = rest;
        max_size = n;
        stats = record q.stats { max_size = n; total_dropped = dropped };
      })

  unfoldable pub reset_stats : LocalQueue Message → LocalQueue Message
  unfolding no_stats
  reset_stats q = record q {
    stats = record no_stats { max_size = q.max_size; current_size = length q.queue };
  }
