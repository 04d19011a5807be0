-- ===== src/Dedup/PoolTests.antt =====
-- The theorems of the Redis client and of its pool at concrete inputs.
use udp_to_rabbitmq_gateway.Base.{
  ℕ, ◌+◌, map, List, suc, ◌≡◌, refl, true, false, Option, some, [], ◌∷◌, codes,
}
use udp_to_rabbitmq_gateway.Base.Int.{pos}
use udp_to_rabbitmq_gateway.Dedup.Redis
use udp_to_rabbitmq_gateway.Dedup.Redis.{
  Reply, status, Context, RedisClient, connected, connect, is_connected, set_nx, unusable,
  connect_fails,
}
use udp_to_rabbitmq_gateway.Dedup.Redis.Commands.{
  Fetched, fetched, not_ok, reply_of, batch_failures, CountsTo, batch_set_nx, batch_set_nx-set_nx,
}
use udp_to_rabbitmq_gateway.Dedup.Pool.{
  Client, ConnectionPool, init, initialize, take_connection, failover_to_standby,
  failback_to_master,
}
use udp_to_rabbitmq_gateway.Dedup.Pool.Leases.{World, start}
use udp_to_rabbitmq_gateway.Dedup.Pool.Failover.{initialize-connect, failover-failback-failover}

abbrev reply : Option Reply
reply = some (status (codes "OK"))

abbrev context : Option Context
context = some (record { err = false })

abbrev client : RedisClient
client = record (Redis.init (codes "secret")) { context = context; connection_status = connected }

connect_fails_example :
    ((connect 5 context reply reply client).1 ≡ false)
    × (is_connected (connect 5 context reply reply client).0.connection_status ≡ false)
connect_fails_example = connect_fails 5 context reply reply client

-- The reply for the second of three keys cannot be fetched.
abbrev replies : List Fetched
replies = fetched reply ∷ not_ok ∷ fetched reply ∷ []

batch_set_nx-set_nx_example :
    ((batch_set_nx 5 replies client).1 ≡ map (λ f. (set_nx 5 (reply_of f) client).1) replies)
    × CountsTo
        (client.error_count + batch_failures (unusable client) replies)
        (batch_set_nx 5 replies client).0
batch_set_nx-set_nx_example = batch_set_nx-set_nx 5 replies client

abbrev fresh : ConnectionPool
fresh = init 2 true

abbrev master : Client
master = record { serial = 0; on_standby = false }

abbrev spare : Client
spare = record { serial = 1; on_standby = true }

-- One connection to the master, and one to the standby that waits.
abbrev pool : ConnectionPool
pool = record {
  pool_size = 1;
  has_standby = true;
  available = master ∷ [];
  standby = spare ∷ [];
  initialized = true;
  shutting_down = false;
  using_standby = false;
  total_connections = pos 2;
  active_connections = pos 0;
  failed_connections = 0;
  reconnect_attempts = 0;
  next_serial = 2;
}

abbrev started : World
started = record (start 2 true) {
  pool = (initialize (λ i. true) (λ i. true) (start 2 true).pool).0;
}

abbrev taken : World
taken = record { pool = (take_connection started.pool).0; lent = suc started.lent }

initialize-connect_example :
    let attempt = λ (i : ℕ). (connect 5 context reply reply (Redis.init (codes "secret"))).1 in
    ((initialize attempt attempt fresh).1 ≡ false)
    × ((initialize attempt attempt fresh).0.available ≡ [])
unfolding init
initialize-connect_example =
    initialize-connect 5 (codes "secret") (λ i. context) (λ i. reply) (λ i. reply) fresh refl refl

failover-failback-failover_example :
    let back = (failback_to_master true (λ c. true) (λ i. true) (failover_to_standby pool).0).0 in
    ((failover_to_standby back).0.using_standby ≡ true)
    × ((failover_to_standby back).0.available ≡ pool.available)
unfolding failover_to_standby failback_to_master
failover-failback-failover_example =
    failover-failback-failover true (λ c. true) (λ i. true) pool refl refl refl

abbrev moved : ConnectionPool
moved = record pool { using_standby = true; available = spare ∷ []; standby = master ∷ [] }
