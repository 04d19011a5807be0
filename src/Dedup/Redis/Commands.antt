-- ===== src/Dedup/Redis/Commands.antt =====
-- components/redis_deduplication/src/redis_client.cpp: `batchSetNX`, deletion, raw commands and the
-- move of a client. hiredis answers for each key of a batch, and answers a command by its text.
use udp_to_rabbitmq_gateway.Base.{
  ℕ, ◌+◌, ◌%◌, ◌^◌, ◌≡◌, refl, sym, ap, ◌∙◌, Bool, true, false, if-split, Option, none, some, List,
  [], ◌∷◌, ◌++◌, map, arith, ltb, if◌then◌else◌, Bytes, codes, add32,
}
use udp_to_rabbitmq_gateway.Base.Int.{ℤ, pos, sub_ℕ}
use udp_to_rabbitmq_gateway.Dedup.Redis.{
  Reply, status, error, integer, nil, other, RedisClient, disconnected, is_status,
  handle_connection_error, unusable, disconnect, set_nx,
}

-- What `redisGetReply` does: it is not `REDIS_OK`, or it is and gives a reply.
pub data Fetched : Type 0 where
  not_ok : Fetched
  fetched : Option Reply → Fetched

unfoldable pub collect_one : ℕ → Fetched → RedisClient → RedisClient × Bool
unfolding handle_connection_error is_status
collect_one now not_ok c = (handle_connection_error now c, false)
collect_one now (fetched none) c = (c, false)
collect_one now (fetched (some error)) c = (c, false)
collect_one now (fetched (some r)) c = (c, is_status r (codes "OK"))

unfoldable pub collect : ℕ → List Fetched → RedisClient → RedisClient × List Bool
unfolding collect_one
collect now [] c = (c, [])
collect now (f ∷ rest) c =
    let (first, was_new) = collect_one now f c in
    let (later, results) = collect now rest first in (later, was_new ∷ results)

unfoldable pub all_false : List Fetched → List Bool
all_false [] = []
all_false (f ∷ rest) = false ∷ all_false rest

unfoldable pub batch_set_nx : ℕ → List Fetched → RedisClient → RedisClient × List Bool
unfolding collect all_false handle_connection_error unusable
batch_set_nx now [] c = (c, [])
batch_set_nx now (f ∷ rest) c =
    if unusable c
    then (handle_connection_error now c, all_false (f ∷ rest))
    else collect now (f ∷ rest) c

-- `executeCommand`, and `executeCommandf` if the text is what its format and arguments give.
unfoldable pub execute_command :
    ℕ → (Bytes → Option Reply) → Bytes → RedisClient → RedisClient × Option Reply
unfolding handle_connection_error unusable
execute_command now server command c =
    if unusable c then (handle_connection_error now c, none) else elim (server command) [
      | none ↦ (handle_connection_error now c, none)
      | some r ↦ (c, some r)
    ]

-- `reply->type == REDIS_REPLY_INTEGER && reply->integer > 0`
unfoldable pub is_positive : Reply → Bool
is_positive (integer n) = ltb 0 n
is_positive _ = false

unfoldable pub delete_key : ℕ → Option Reply → RedisClient → RedisClient × Bool
unfolding handle_connection_error unusable is_positive
delete_key now reply c =
    if unusable c
    then (handle_connection_error now c, false)
    else elim reply [ none ↦ (handle_connection_error now c, false) | some r ↦ (c, is_positive r) ]

-- `static_cast<int>`
unfoldable pub to_int : ℕ → ℤ
to_int n = let low = n % 2 ^ 32 in if ltb low (2 ^ 31) then pos low else sub_ℕ low (2 ^ 32)

unfoldable pub with_keys : Bytes → List Bytes → Bytes
with_keys command [] = command
with_keys command (key ∷ keys) = with_keys (command ++ codes " " ++ key) keys

unfoldable pub deleted : Reply → ℤ
unfolding to_int
deleted (integer n) = to_int n
deleted _ = pos 0

unfoldable pub delete_keys : ℕ → (Bytes → Option Reply) → List Bytes → RedisClient → RedisClient × ℤ
unfolding handle_connection_error unusable with_keys deleted
delete_keys now server [] c = (c, pos 0)
delete_keys now server (key ∷ keys) c =
    if unusable c
    then (handle_connection_error now c, pos 0)
    else elim (server (with_keys (codes "DEL") (key ∷ keys))) [
      | none ↦ (handle_connection_error now c, pos 0)
      | some r ↦ (c, deleted r)
    ]

unfoldable pub reset_error_counters : RedisClient → RedisClient
reset_error_counters c = record c { error_count = 0 }

-- What a client that is moved from is left with, but for its password, which is unspecified.
unfoldable pub emptied : RedisClient → RedisClient
emptied c = record c { context = none; connection_status = disconnected; error_count = 0 }

-- The move constructor: the new client, and the one that is moved from.
unfoldable pub move : RedisClient → RedisClient × RedisClient
unfolding emptied
move source = (source, emptied source)

-- The move assignment to another object: what the target becomes, and the one that is moved from.
unfoldable pub move_to : RedisClient → RedisClient → RedisClient × RedisClient
unfolding emptied disconnect
move_to target source =
    let cleaned = disconnect target in
    (
      record cleaned {
        password = source.password;
        context = source.context;
        connection_status = source.connection_status;
        last_connect_time = source.last_connect_time;
        last_error_time = source.last_error_time;
        error_count = source.error_count;
      },
      emptied source,
    )

-- The reply that `setNX` sees.
abbrev pub reply_of : Fetched → Option Reply
reply_of not_ok = none
reply_of (fetched r) = r

-- The calls of `handleConnectionError` for the replies of a usable client.
abbrev pub failures : List Fetched → ℕ
failures [] = 0
failures (not_ok ∷ rest) = 1 + failures rest
failures (fetched r ∷ rest) = failures rest

-- The error counter is that of n errors, as far as 32 bits tell.
abbrev pub CountsTo : ℕ → RedisClient → Type 0
CountsTo n c = c.error_count % 2 ^ 32 ≡ n % 2 ^ 32

collect_one-set_nx :
    (now : ℕ) (f : Fetched) (c d : RedisClient)
    → unusable c ≡ false
    → (collect_one now f d).1 ≡ (set_nx now (reply_of f) c).1
unfolding collect_one set_nx is_status
collect_one-set_nx now not_ok c d h = ground (arith, h)
collect_one-set_nx now (fetched none) c d h = ground (arith, h)
collect_one-set_nx now (fetched (some error)) c d h = ground (arith, h)
collect_one-set_nx now (fetched (some (status s))) c d h = ground (arith, h)
collect_one-set_nx now (fetched (some (integer n))) c d h = ground (arith, h)
collect_one-set_nx now (fetched (some nil)) c d h = ground (arith, h)
collect_one-set_nx now (fetched (some other)) c d h = ground (arith, h)

collect-set_nx :
    (now : ℕ) (fs : List Fetched) (c d : RedisClient)
    → unusable c ≡ false
    → (collect now fs d).1 ≡ map (λ f. (set_nx now (reply_of f) c).1) fs
unfolding collect
collect-set_nx now [] c d h = refl
collect-set_nx now (f ∷ rest) c d h =
    let next = (collect_one now f d).0 in
    ap (λ b. b ∷ (collect now rest next).1) (collect_one-set_nx now f c d h)
    ∙ ap (◌∷◌ (set_nx now (reply_of f) c).1) (collect-set_nx now rest c next h)

set_nx-unusable :
    (now : ℕ) (r : Option Reply) (c : RedisClient) → unusable c ≡ true → (set_nx now r c).1 ≡ false
unfolding set_nx
set_nx-unusable now r c h = ground (arith, h)

all_false-set_nx :
    (now : ℕ) (fs : List Fetched) (c : RedisClient)
    → unusable c ≡ true
    → all_false fs ≡ map (λ f. (set_nx now (reply_of f) c).1) fs
unfolding all_false
all_false-set_nx now [] c h = refl
all_false-set_nx now (f ∷ rest) c h =
    ap (λ b. b ∷ all_false rest) (sym (set_nx-unusable now (reply_of f) c h))
    ∙ ap (◌∷◌ (set_nx now (reply_of f) c).1) (all_false-set_nx now rest c h)

collect_one-errors :
    (now : ℕ) (f : Fetched) (d : RedisClient)
    → CountsTo (d.error_count + failures (f ∷ [])) (collect_one now f d).0
unfolding collect_one handle_connection_error add32
collect_one-errors now not_ok d = omega arith
collect_one-errors now (fetched none) d = omega arith
collect_one-errors now (fetched (some error)) d = omega arith
collect_one-errors now (fetched (some (status s))) d = omega arith
collect_one-errors now (fetched (some (integer n))) d = omega arith
collect_one-errors now (fetched (some nil)) d = omega arith
collect_one-errors now (fetched (some other)) d = omega arith

failures-step :
    (f : Fetched) (rest : List Fetched) → failures (f ∷ rest) ≡ failures (f ∷ []) + failures rest
failures-step not_ok rest = omega arith
failures-step (fetched r) rest = omega arith

collect-errors :
    (now : ℕ) (fs : List Fetched) (d : RedisClient)
    → CountsTo (d.error_count + failures fs) (collect now fs d).0
unfolding collect
collect-errors now [] d = omega arith
collect-errors now (f ∷ rest) d =
    let first = collect_one-errors now f d in
    let later = collect-errors now rest (collect_one now f d).0 in
    let step = failures-step f rest in omega arith

-- The errors that a batch counts.
abbrev pub batch_failures : Bool → List Fetched → ℕ
batch_failures true [] = 0
batch_failures true (f ∷ rest) = 1
batch_failures false fs = failures fs

batch_failures-none : (b : Bool) → batch_failures b [] ≡ 0
batch_failures-none true = refl
batch_failures-none false = refl

handle_connection_error-count :
    (now : ℕ) (c : RedisClient) → CountsTo (c.error_count + 1) (handle_connection_error now c)
unfolding handle_connection_error add32
handle_connection_error-count now c = omega arith

-- A batch answers for each key as `setNX` answers for that key and its reply on the client as it
-- was before the batch, even if an earlier reply of the batch could not be fetched. The error
-- counter, which has 32 bits and wraps, grows by one for an unusable client if the batch has
-- keys, and by the number of the replies that could not be fetched for a usable one.
pub batch_set_nx-set_nx :
    (now : ℕ) (fs : List Fetched) (c : RedisClient)
    → ((batch_set_nx now fs c).1 ≡ map (λ f. (set_nx now (reply_of f) c).1) fs)
      × CountsTo (c.error_count + batch_failures (unusable c) fs) (batch_set_nx now fs c).0
unfolding batch_set_nx
batch_set_nx-set_nx now [] c =
    (refl, let none_counted = batch_failures-none (unusable c) in omega arith)
batch_set_nx-set_nx now (f ∷ rest) c =
    let fs = f ∷ rest in
    let IsBatch : RedisClient × List Bool → Type 0 = λ r.
      (r.1 ≡ map (λ g. (set_nx now (reply_of g) c).1) fs)
      × CountsTo (c.error_count + batch_failures (unusable c) fs) r.0 in
    if-split IsBatch (unusable c) _ _
      (λ bad. (
        all_false-set_nx now fs c bad,
        handle_connection_error-count now c
            ∙ ap (λ b. (c.error_count + batch_failures b fs) % 2 ^ 32) (sym bad),
      ))
      (λ good. (
        collect-set_nx now fs c c good,
        collect-errors now fs c
            ∙ ap (λ b. (c.error_count + batch_failures b fs) % 2 ^ 32) (sym good),
      ))
