-- ===== src/Dedup/Pool.antt =====
-- components/redis_deduplication/src/connection_pool.cpp. Whether the i-th attempt of a loop to
-- connect succeeds, and which clients are healthy while the operation runs, are arguments. Each
-- function is one critical section of the mutex. The condition variable, the health monitor's
-- thread and the times of the last connection and failure are left out.
pub mod Leases
pub mod Failover
use udp_to_rabbitmq_gateway.Base.{
  ℕ, zero, suc, ◌+◌, ◌-◌, ◌≡◌, refl, Bool, true, false, not, ◌&&◌, ◌||◌, Option, none, some, List,
  [], ◌∷◌, ◌++◌, arith, add32, ltb, leb, if◌then◌else◌, length,
}
use udp_to_rabbitmq_gateway.Base.Int.{ℤ, pos, negsuc, ◌+ℤ◌, ◌-ℤ◌, ltb_ℤ}

-- A connected `RedisClient`: which one, and which host it is connected to.
pub record Client : Type 0 where
  pub serial : ℕ
  pub on_standby : Bool

pub record ConnectionPool : Type 0 where
  pub pool_size : ℕ
  pub has_standby : Bool
  -- Front first.
  pub available : List Client
  pub standby : List Client
  pub initialized : Bool
  pub shutting_down : Bool
  pub using_standby : Bool
  pub total_connections : ℤ
  pub active_connections : ℤ
  pub failed_connections : ℕ
  pub reconnect_attempts : ℕ
  pub next_serial : ℕ

unfoldable pub init : ℕ → Bool → ConnectionPool
init pool_size has_standby = record {
  pool_size = pool_size;
  has_standby = has_standby;
  available = [];
  standby = [];
  initialized = false;
  shutting_down = false;
  using_standby = false;
  total_connections = pos 0;
  active_connections = pos 0;
  failed_connections = 0;
  reconnect_attempts = 0;
  next_serial = 0;
}

abbrev pub is_empty {ℓ} : {A : Type ℓ} → List A → Bool
is_empty [] = true
is_empty (x ∷ xs) = false

-- `createConnection`, if `client->connect()` answers `connects`.
unfoldable pub create_connection : Bool → Bool → ConnectionPool → Option Client × ConnectionPool
create_connection connects use_standby p =
    if connects
    then (
      some (record { serial = p.next_serial; on_standby = use_standby }),
      record p { next_serial = suc p.next_serial },
    )
    else (none, p)

-- A loop of so many attempts, and the clients that it makes.
unfoldable pub create_connections :
    ℕ → (ℕ → Bool) → Bool → ConnectionPool → List Client × ConnectionPool
unfolding create_connection
create_connections zero connects use_standby p = ([], p)
create_connections (suc n) connects use_standby p =
    let (made, q) = create_connection (connects n) use_standby p in
    let (more, r) = create_connections n connects use_standby q in
    elim made [ none ↦ (more, r) | some client ↦ (client ∷ more, r) ]

-- The two loops of `initialize` have attempts of their own.
unfoldable pub initialize : (ℕ → Bool) → (ℕ → Bool) → ConnectionPool → ConnectionPool × Bool
unfolding create_connections
initialize connects standby_connects p =
    if p.initialized
    then (p, true)
    else let (masters, q) = create_connections p.pool_size connects false p in
      let (spares, r) =
        (if p.has_standby
          then create_connections p.pool_size standby_connects true q
          else ([], q)) in
      let filled = record r {
        available = p.available ++ masters;
        standby = p.standby ++ spares;
        total_connections = p.total_connections +ℤ pos (length masters);
      } in
      if is_empty filled.available
      then (filled, false)
      else (record filled { initialized = true }, true)

unfoldable pub shutdown : ConnectionPool → ConnectionPool
shutdown p =
    if p.initialized
    then (record p {
      available = [];
      standby = [];
      initialized = false;
      shutting_down = true;
      total_connections = pos 0;
      active_connections = pos 0;
    })
    else p

-- The first critical section of `getConnection`, as it runs when the wait has ended: none, if the
-- pool is not ready or still empty.
unfoldable pub take_connection : ConnectionPool → ConnectionPool × Option Client
take_connection p = if not p.initialized || p.shutting_down then (p, none) else elim p.available [
  | [] ↦ (p, none)
  | client ∷ rest ↦ (
    record p { available = rest; active_connections = p.active_connections +ℤ pos 1 },
    some client,
  )
]

-- The second critical section: the client was found unhealthy, and one attempt is made to replace
-- it.
unfoldable pub replace_unhealthy : Bool → ConnectionPool → ConnectionPool × Option Client
unfolding create_connection
replace_unhealthy connects p =
    let failed = record p {
      active_connections = p.active_connections -ℤ pos 1;
      failed_connections = add32 p.failed_connections 1;
    } in
    let (made, q) = create_connection connects p.using_standby failed in
    elim made [
      | none ↦ (q, none)
      | some client ↦ (
        record q {
          total_connections = q.total_connections +ℤ pos 1;
          active_connections = q.active_connections +ℤ pos 1;
        },
        some client,
      )
    ]

-- `returnConnection`
unfoldable pub return_connection : (Client → Bool) → Client → ConnectionPool → ConnectionPool
return_connection healthy client p =
    if p.shutting_down
    then p
    else let back = record p { active_connections = p.active_connections -ℤ pos 1 } in
      if healthy client
      then (record back { available = p.available ++ client ∷ [] })
      else (record back { failed_connections = add32 p.failed_connections 1 })

pub is_healthy : ConnectionPool → Bool
is_healthy p = not (is_empty p.available) || ltb_ℤ (pos 0) p.active_connections

-- `testConnections`, the healthy ones of a queue with the number of the others.
unfoldable pub keep_healthy : (Client → Bool) → List Client → List Client × ℕ
keep_healthy healthy [] = ([], 0)
keep_healthy healthy (client ∷ queue) =
    let (kept, bad) = keep_healthy healthy queue in
    if healthy client then (client ∷ kept, bad) else (kept, suc bad)

unfoldable pub test_connections : (Client → Bool) → ConnectionPool → ConnectionPool × ℕ
unfolding keep_healthy
test_connections healthy p =
    let (kept, bad) = keep_healthy healthy p.available in
    (
      record p { available = kept; failed_connections = add32 p.failed_connections bad },
      length kept,
    )

unfoldable pub replace_failed_connections : (ℕ → Bool) → ConnectionPool → ConnectionPool × ℕ
unfolding create_connections
replace_failed_connections connects p =
    if leb p.pool_size (length p.available)
    then (p, 0)
    else let (made, q) =
        create_connections (p.pool_size - length p.available) connects p.using_standby p in
      (
        record q {
          available = p.available ++ made;
          reconnect_attempts = add32 p.reconnect_attempts (length made);
          total_connections = pos (length (p.available ++ made)) +ℤ p.active_connections;
        },
        length made,
      )

unfoldable pub switch_to_standby : ConnectionPool → ConnectionPool
switch_to_standby p =
    if p.has_standby
    then (record p { available = p.standby; standby = p.available; using_standby = true })
    else p

unfoldable pub failover_to_standby : ConnectionPool → ConnectionPool × Bool
unfolding switch_to_standby
failover_to_standby p =
    if not p.has_standby
    then (p, false)
    else if p.using_standby
    then (p, true)
    else (switch_to_standby p, not (is_empty (switch_to_standby p).available))

unfoldable pub switch_to_master : (ℕ → Bool) → ConnectionPool → ConnectionPool
unfolding create_connections
switch_to_master connects p =
    let (made, q) = create_connections p.pool_size connects false p in
    if is_empty made then q else (record q { available = made; using_standby = false })

-- The test connection of `failbackToMaster` is the attempt before the loop's.
unfoldable pub failback_to_master :
    Bool → (Client → Bool) → (ℕ → Bool) → ConnectionPool → ConnectionPool × Bool
unfolding create_connection switch_to_master
failback_to_master reached healthy connects p =
    if not p.using_standby
    then (p, true)
    else let (made, q) = create_connection reached false p in
      elim made [
        | none ↦ (q, false)
        | some client ↦ if healthy client then (switch_to_master connects q, true) else (q, false)
      ]

unfoldable pub reset_stats : ConnectionPool → ConnectionPool
reset_stats p = record p {
  total_connections = pos (length p.available) +ℤ p.active_connections;
  failed_connections = 0;
  reconnect_attempts = 0;
}
