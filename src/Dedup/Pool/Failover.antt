-- ===== src/Dedup/Pool/Failover.antt =====
-- Changes between the master's connections and the standby's.
use udp_to_rabbitmq_gateway.Base.{
  ℕ, zero, suc, ◌<◌, ◌≡◌, ◌⊎◌, ◌∙◌, ap, refl, Bool, true, false, not, Option, List, [], ◌∷◌, arith,
  length, inl, inr, Bool-cases, Bytes,
}
use udp_to_rabbitmq_gateway.Dedup.Redis
use udp_to_rabbitmq_gateway.Dedup.Redis.{Context, Reply, RedisClient, connect, connect_fails}
use udp_to_rabbitmq_gateway.Dedup.Pool.{
  Client, ConnectionPool, is_empty, create_connection, create_connections, initialize,
  failover_to_standby, switch_to_master, failback_to_master,
}

abbrev pub AllOn : Bool → List Client → Type 0
AllOn b [] = Unit {0}
AllOn b (c ∷ cs) = (c.on_standby ≡ b) × AllOn b cs

create_connections-AllOn :
    (n : ℕ) (connects : ℕ → Bool) (s : Bool) (p : ConnectionPool)
    → AllOn s (create_connections n connects s p).0
unfolding create_connections
create_connections-AllOn zero connects s p = tt
create_connections-AllOn (suc n) connects s p =
    ground (arith, create_connections-AllOn n connects s (create_connection (connects n) s p).1)

create_connections-none :
    (n : ℕ) (connects : ℕ → Bool) (s : Bool) (p : ConnectionPool)
    → ((i : ℕ) → connects i ≡ false)
    → (create_connections n connects s p).0 ≡ []
unfolding create_connections
create_connections-none zero connects s p h = refl
create_connections-none (suc n) connects s p h =
    ground
      (arith, h n, create_connections-none n connects s (create_connection (connects n) s p).1 h)

-- With the client of this repository the pool never starts: `connect` answers false whatever the
-- server does, so `initialize` makes no connection and returns false.
pub initialize-connect :
    (now : ℕ) (password : Bytes) (made : ℕ → Option Context) (auth pong : ℕ → Option Reply)
    (p : ConnectionPool)
    → p.initialized ≡ false
    → p.available ≡ []
    → let attempt = λ (i : ℕ). (connect now (made i) (auth i) (pong i) (Redis.init password)).1 in
      ((initialize attempt attempt p).1 ≡ false) × ((initialize attempt attempt p).0.available ≡ [])
unfolding initialize
initialize-connect now password made auth pong p fresh empty =
    let attempt = λ (i : ℕ). (connect now (made i) (auth i) (pong i) (Redis.init password)).1 in
    let fails = λ (i : ℕ). (connect_fails now (made i) (auth i) (pong i) (Redis.init password)).0 in
    ground (arith, create_connections-none p.pool_size attempt false p fails)

-- A failover uses what stands by and keeps the rest for later; it reports whether there is any.
failover-swap :
    (p : ConnectionPool)
    → p.has_standby ≡ true
    → p.using_standby ≡ false
    → let q = (failover_to_standby p).0 in
      (q.available ≡ p.standby)
      × (q.standby ≡ p.available)
      × (q.using_standby ≡ true)
      × ((failover_to_standby p).1 ≡ not (is_empty p.standby))
unfolding failover_to_standby
failover-swap p h u = ground arith

create_connections-fixed :
    (n : ℕ) (connects : ℕ → Bool) (s : Bool) (p : ConnectionPool)
    → ((create_connections n connects s p).1.standby ≡ p.standby)
      × ((create_connections n connects s p).1.has_standby ≡ p.has_standby)
      × ((create_connections n connects s p).1.using_standby ≡ p.using_standby)
unfolding create_connections
create_connections-fixed zero connects s p = (refl, refl, refl)
create_connections-fixed (suc n) connects s p =
    ground (arith, create_connections-fixed n connects s (create_connection (connects n) s p).1)

-- A failback that ends on the master leaves the standby queue as it was.
failback-standby :
    (reached : Bool) (healthy : Client → Bool) (connects : ℕ → Bool) (p : ConnectionPool)
    → ((failback_to_master reached healthy connects p).0.standby ≡ p.standby)
      × ((failback_to_master reached healthy connects p).0.has_standby ≡ p.has_standby)
unfolding failback_to_master switch_to_master create_connection
failback-standby reached healthy connects p = ground (
  arith,
  create_connections-fixed p.pool_size connects false (create_connection reached false p).1,
)

failover-has :
    (p : ConnectionPool) → p.has_standby ≡ true → (failover_to_standby p).0.has_standby ≡ true
unfolding failover_to_standby
failover-has p h = ground arith

-- The bug: after a failover and a failback to the master, the next failover does not lead to the
-- standby. The pool says that it uses the standby, and every connection that it offers is one of
-- the master's connections from before the first failover.
pub failover-failback-failover :
    (reached : Bool) (healthy : Client → Bool) (connects : ℕ → Bool) (p : ConnectionPool)
    → p.has_standby ≡ true
    → p.using_standby ≡ false
    → (failback_to_master reached healthy connects (failover_to_standby p).0).0.using_standby
      ≡ false
    → let back = (failback_to_master reached healthy connects (failover_to_standby p).0).0 in
      ((failover_to_standby back).0.using_standby ≡ true)
      × ((failover_to_standby back).0.available ≡ p.available)
failover-failback-failover reached healthy connects p h u ended =
    let q = (failover_to_standby p).0 in
    let back = (failback_to_master reached healthy connects q).0 in
    let swapped = failover-swap p h u in
    let kept = failback-standby reached healthy connects q in
    let has : q.has_standby ≡ true = failover-has p h in
    let again = failover-swap back (kept.1 ∙ has) ended in (again.2, again.0 ∙ kept.0 ∙ swapped.1)

-- A failback whose test connection is good reports success even when no master connection could be
-- made after it; the pool then stays on the standby.
failback-stays :
    (healthy : Client → Bool) (connects : ℕ → Bool) (p : ConnectionPool)
    → p.using_standby ≡ true
    → ((c : Client) → healthy c ≡ true)
    → ((i : ℕ) → connects i ≡ false)
    → ((failback_to_master true healthy connects p).1 ≡ true)
      × ((failback_to_master true healthy connects p).0.using_standby ≡ true)
unfolding failback_to_master switch_to_master create_connection
failback-stays healthy connects p u good fails = ground (
  arith,
  good (record { serial = p.next_serial; on_standby = false }),
  create_connections-none p.pool_size connects false (create_connection true false p).1 fails,
  create_connections-fixed p.pool_size connects false (create_connection true false p).1,
)

List-cases {ℓ} : {A : Type ℓ} (l : List A) → (l ≡ []) ⊎ ((x : A) × (xs : List A) × (l ≡ x ∷ xs))
List-cases [] = inl refl
List-cases (x ∷ xs) = inr (x, xs, refl)

switch_to_master-AllOn :
    (connects : ℕ → Bool) (p : ConnectionPool)
    → p.using_standby ≡ true
    → (switch_to_master connects p).using_standby ≡ false
    → AllOn false (switch_to_master connects p).available
      × (0 < length (switch_to_master connects p).available)
unfolding switch_to_master
switch_to_master-AllOn connects p u ended =
    let new = create_connections-AllOn p.pool_size connects false p in
    elim (List-cases (create_connections p.pool_size connects false p).0) [
      | inl e ↦
          absurd (ground (arith, e, create_connections-fixed p.pool_size connects false p, ended))
      | inr (x, xs, e) ↦ rw e (rw e at new, omega arith)
    ]

-- Where a failback ends on the master, all connections it offers are new ones to the master.
failback-AllOn :
    (reached : Bool) (healthy : Client → Bool) (connects : ℕ → Bool) (p : ConnectionPool)
    → p.using_standby ≡ true
    → (failback_to_master reached healthy connects p).0.using_standby ≡ false
    → AllOn false (failback_to_master reached healthy connects p).0.available
      × (0 < length (failback_to_master reached healthy connects p).0.available)
unfolding failback_to_master create_connection
failback-AllOn false healthy connects p u ended = absurd (ground arith)
failback-AllOn true healthy connects p u ended =
    let client : Client = record { serial = p.next_serial; on_standby = false } in
    let q : ConnectionPool = record p { next_serial = suc p.next_serial } in
    elim (Bool-cases (healthy client)) [
      | inl good ↦ rw (ap not u, good) (switch_to_master-AllOn connects q u (ground arith))
      | inr bad ↦ absurd (ground arith)
    ]
