-- ===== src/Dedup/Pool/Leases.antt =====
-- The counter of active connections against the connections that are lent out, over every
-- interleaving of the pool's critical sections.
use udp_to_rabbitmq_gateway.Base.{
  ℕ, suc, ◌≡◌, Bool, false, Option, none, some, [], ◌∷◌, ◌++◌, if◌then◌else◌,
}
use udp_to_rabbitmq_gateway.Base.Int.{pos}
use udp_to_rabbitmq_gateway.Dedup.Pool.{
  Client, ConnectionPool, init, initialize, shutdown, take_connection, replace_unhealthy,
  return_connection, test_connections, replace_failed_connections, failover_to_standby,
  failback_to_master, reset_stats,
}

-- The pool, and how many clients its callers hold.
pub record World : Type 0 where
  pub pool : ConnectionPool
  pub lent : ℕ

-- One critical section of some thread. A caller gives back only a client that it holds.
pub data Step (w : World) : World → Type 0 where
  initializes :
      (connects spare : ℕ → Bool)
      → Step w (record w { pool = (initialize connects spare (w.pool)).0 })
  shuts_down : Step w (record w { pool = shutdown (w.pool) })
  takes :
      (c : Client)
      → (take_connection (w.pool)).1 ≡ some c
      → Step w (record { pool = (take_connection (w.pool)).0; lent = suc (w.lent) })
  misses :
      (take_connection (w.pool)).1 ≡ none
      → Step w (record w { pool = (take_connection (w.pool)).0 })
  replaces :
      (connects : Bool) (c : Client)
      → (replace_unhealthy connects (w.pool)).1 ≡ some c
      → Step w (record w { pool = (replace_unhealthy connects (w.pool)).0 })
  gives_up :
      (connects : Bool) (k : ℕ)
      → w.lent ≡ suc k
      → (replace_unhealthy connects (w.pool)).1 ≡ none
      → Step w (record { pool = (replace_unhealthy connects (w.pool)).0; lent = k })
  returns :
      (healthy : Client → Bool) (c : Client) (k : ℕ)
      → w.lent ≡ suc k
      → Step w (record { pool = return_connection healthy c (w.pool); lent = k })
  tests :
      (healthy : Client → Bool) → Step w (record w { pool = (test_connections healthy (w.pool)).0 })
  refills :
      (connects : ℕ → Bool)
      → Step w (record w { pool = (replace_failed_connections connects (w.pool)).0 })
  fails_over : Step w (record w { pool = (failover_to_standby (w.pool)).0 })
  fails_back :
      (reached : Bool) (healthy : Client → Bool) (connects : ℕ → Bool)
      → Step w (record w { pool = (failback_to_master reached healthy connects (w.pool)).0 })
  resets : Step w (record w { pool = reset_stats (w.pool) })

pub data Reach (w : World) : World → Type 0 where
  here : Reach w w
  next : {u v : World} → Reach w u → Step u v → Reach w v

-- Until the pool shuts down its counter is the number of clients that are out.
abbrev pub IsCounted : World → Type 0
IsCounted w = w.pool.shutting_down ≡ false → w.pool.active_connections ≡ pos w.lent

-- An operation that leaves the counter and the flag alone.
abbrev Quiet : ConnectionPool → ConnectionPool → Type 0
Quiet p q = (q.shutting_down ≡ p.shutting_down) × (q.active_connections ≡ p.active_connections)

abbrev pub start : ℕ → Bool → World
start size has_standby = record { pool = init size has_standby; lent = 0 }

-- The counter of a pool whose callers hold so many connections, where a connection that is lent
-- comes from, and where one that is given back goes.
pub record IsLending (w : World) : Type 0 where
  pub counted : w.pool.active_connections ≡ pos w.lent
  pub lends :
      (c : Client)
      → (take_connection w.pool).1 ≡ some c
      → w.pool.available ≡ c ∷ (take_connection w.pool).0.available
  pub takes_back :
      (healthy : Client → Bool) (c : Client)
      → (return_connection healthy c w.pool).available
        ≡ (if healthy c then w.pool.available ++ c ∷ [] else w.pool.available)
