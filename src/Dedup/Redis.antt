-- ===== src/Dedup/Redis.antt =====
-- components/redis_deduplication/src/redis_client.cpp. What the hiredis library returns is an
-- argument of the function that calls it: the context of `redisConnectWithTimeout`, and the reply
-- of each `redisCommand`, where none stands for a null pointer. The texts of the error messages
-- are left out.
pub mod Commands
use udp_to_rabbitmq_gateway.Base.{
  ◌↔◌, ℕ, ◌+◌, ◌≡◌, refl, Bool, true, false, not, Option, none, some, [], arith, if◌then◌else◌,
  Bytes, codes, ◌==◌, bytes_eq, bytes_beq_iff, add32,
}

pub data ConnectionStatus : Type 0 where
  connected disconnected connecting failed standby_active : ConnectionStatus

-- `redisReply` by its type: a status text, an error, an integer, null, or another kind.
pub data Reply : Type 0 where
  status : Bytes → Reply
  error : Reply
  integer : ℕ → Reply
  nil : Reply
  other : Reply

-- The context that hiredis returns has its error flag set or not.
pub record Context : Type 0 where
  pub err : Bool

pub record RedisClient : Type 0 where
  pub password : Bytes
  pub context : Option Context
  pub connection_status : ConnectionStatus
  pub last_connect_time : Option ℕ
  pub last_error_time : Option ℕ
  -- `std::atomic<int>`, by its bits.
  pub error_count : ℕ

unfoldable pub init : Bytes → RedisClient
init password = record {
  password = password;
  context = none;
  connection_status = disconnected;
  last_connect_time = none;
  last_error_time = none;
  error_count = 0;
}

abbrev pub is_connected : ConnectionStatus → Bool
is_connected connected = true
is_connected _ = false

-- `reply->type == REDIS_REPLY_STATUS && strcmp(reply->str, text) == 0`
unfoldable pub is_status : Reply → Bytes → Bool
is_status (status s) text = s == text
is_status _ text = false

unfoldable pub handle_connection_error : ℕ → RedisClient → RedisClient
unfolding add32
handle_connection_error now c = record c {
  connection_status = failed;
  last_error_time = some now;
  error_count = add32 c.error_count 1;
}

-- `!context_ || connectionStatus_ != CONNECTED`
unfoldable pub unusable : RedisClient → Bool
unusable c = elim c.context [ none ↦ true | some _ ↦ not (is_connected c.connection_status) ]

unfoldable pub ping : Option Reply → RedisClient → Bool
unfolding is_status unusable
ping reply c = elim (unusable c) [
  | true ↦ false
  | false ↦ elim reply [ none ↦ false | some r ↦ is_status r (codes "PONG") ]
]

unfoldable pub authenticate : ℕ → Option Reply → RedisClient → RedisClient × Bool
unfolding handle_connection_error is_status
authenticate now reply c = if c.password == [] then (c, true) else elim reply [
  | none ↦ (handle_connection_error now c, false)
  | some error ↦ (handle_connection_error now c, false)
  | some r ↦ (c, is_status r (codes "OK"))
]

-- The part of `connect` behind the context: the password, the test by `ping`, the new state.
unfoldable pub greet : ℕ → Option Reply → Option Reply → RedisClient → RedisClient × Bool
unfolding authenticate ping
greet now auth pong c =
    let (c', authenticated) = authenticate now auth c in
    if not authenticated
    then (record c' { context = none }, false)
    else if not (ping pong c')
    then (record c' { context = none }, false)
    else (record c' { connection_status = connected; last_connect_time = some now }, true)

unfoldable pub connect :
    ℕ → Option Context → Option Reply → Option Reply → RedisClient → RedisClient × Bool
unfolding greet
connect now made auth pong c =
    let opening = record c { connection_status = connecting; context = made } in
    elim made [
      | none ↦ (handle_connection_error now opening, false)
      | some ctx ↦
          if ctx.err
          then (record (handle_connection_error now opening) { context = none }, false)
          else greet now auth pong opening
    ]

unfoldable pub disconnect : RedisClient → RedisClient
disconnect c = record c { context = none; connection_status = disconnected }

-- `setNX`: whether the key was set. The reply is the one to `SET key 1 NX PX ttl`.
unfoldable pub set_nx : ℕ → Option Reply → RedisClient → RedisClient × Bool
unfolding handle_connection_error is_status unusable
set_nx now reply c = if unusable c then (handle_connection_error now c, false) else elim reply [
  | none ↦ (handle_connection_error now c, false)
  | some r ↦ (c, is_status r (codes "OK"))
]

-- The status that `authenticate` leaves is not `CONNECTED`, if it was not before.
authenticate-not-connected :
    (now : ℕ) (reply : Option Reply) (c : RedisClient)
    → is_connected c.connection_status ≡ false
    → is_connected (authenticate now reply c).0.connection_status ≡ false
unfolding authenticate handle_connection_error
authenticate-not-connected now none c h = ground arith
authenticate-not-connected now (some error) c h = ground arith
authenticate-not-connected now (some (status s)) c h = ground arith
authenticate-not-connected now (some r) c h = ground arith

ping-not-connected :
    (reply : Option Reply) (c : RedisClient)
    → is_connected c.connection_status ≡ false
    → ping reply c ≡ false
unfolding ping unusable
ping-not-connected reply c h = ground arith

greet_fails :
    (now : ℕ) (auth pong : Option Reply) (c : RedisClient)
    → is_connected c.connection_status ≡ false
    → ((greet now auth pong c).1 ≡ false)
      × (is_connected (greet now auth pong c).0.connection_status ≡ false)
unfolding greet
greet_fails now auth pong c h =
    let closed = authenticate-not-connected now auth c h in
    ground (arith, closed, ping-not-connected pong (authenticate now auth c).0 closed)

-- `connect` returns false whatever the library and the server answer, and never leaves the client
-- connected: it calls `ping` while the status is `CONNECTING`, and `ping` wants `CONNECTED`.
pub connect_fails :
    (now : ℕ) (made : Option Context) (auth pong : Option Reply) (c : RedisClient)
    → ((connect now made auth pong c).1 ≡ false)
      × (is_connected (connect now made auth pong c).0.connection_status ≡ false)
unfolding connect handle_connection_error
connect_fails now none auth pong c = (refl, refl)
connect_fails now (some ctx) auth pong c = ground (
  arith,
  greet_fails now auth pong (record c { connection_status = connecting; context = some ctx }) refl,
)

-- `setNX` returns true exactly if the client is usable and the server confirms with `OK`. In
-- particular an unusable client, a null reply and an error reply give the answer for a key that
-- exists already.
set_nx-eq-true_iff :
    (now : ℕ) (reply : Option Reply) (c : RedisClient)
    → ((set_nx now reply c).1 ≡ true)
      ↔ ((unusable c ≡ false) × (reply ≡ some (status (codes "OK"))))
unfolding set_nx is_status
set_nx-eq-true_iff now reply c = (confirmed reply, λ h. rw (h.0, h.1) (ok_status))
  where
    ok_status : (codes "OK" == codes "OK") ≡ true
    ok_status = (bytes_beq_iff (codes "OK") (codes "OK")).1 refl

    confirmed :
        (r : Option Reply)
        → (set_nx now r c).1 ≡ true
        → (unusable c ≡ false) × (r ≡ some (status (codes "OK")))
    confirmed none h = ground arith
    confirmed (some (status s)) h = ground (arith, bytes_beq_iff s (codes "OK"))
    confirmed (some r) h = ground arith
