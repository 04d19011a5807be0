-- ===== src/Dedup/Cache.antt =====
-- components/redis_deduplication/src/local_cache.cpp: an LRU cache with a time to live. The list
-- holds the entries, the most recently used first; the map leads from a key to a list iterator.
-- Each operation holds the mutex from start to end, so it is one step; the readings of the clock
-- that it makes are its arguments, in the order of the calls. `none` stands for undefined
-- behaviour: an iterator that denotes no node is dereferenced.
pub mod Nodes
pub mod Sweep
pub mod Invariant
pub mod Safety
pub mod Reads
pub mod Writes
use mathlib.Core.List.{get_last?}
use udp_to_rabbitmq_gateway.Base.{
  ℕ, suc, ◌+◌, ◌^◌, ◌-◌, Bool, true, false, ◌&&◌, Option, none, some, List, [], ◌∷◌, ltb, leb,
  if◌then◌else◌, Bytes, length, ◌==◌, nat_eq, bytes_eq, add64, not, count_if,
}
use udp_to_rabbitmq_gateway.Base.Maps.{Map, lookup, insert, erase}
use udp_to_rabbitmq_gateway.Dedup.MessageId.{MessageId, generate_key}
use Nodes.{CacheEntry, Node, is_expired, key, deref, erase_iter}
use Sweep.{sweep}

pub record LocalCache : Type 0 where
  pub max_size : ℕ
  pub ttl : ℕ
  pub cache_list : List Node
  pub cache_map : Map Bytes ℕ
  -- The iterator that the next insertion makes.
  pub fresh : ℕ
  pub hits : ℕ
  pub misses : ℕ
  pub insertions : ℕ
  pub evictions : ℕ
  pub expired_removals : ℕ
  pub cleanup_interval : ℕ
  pub last_cleanup : ℕ
  pub next_cleanup : ℕ

-- `std::chrono::system_clock::time_point::max()`
unfoldable pub time_max : ℕ
time_max = 2 ^ 63 - 1

-- The constructor; none is the exception for a size of 0. The interval is five minutes, in ms.
unfoldable pub init : ℕ → ℕ → ℕ → Option LocalCache
init max_size ttl now =
    if max_size == 0
    then none
    else some (record {
      max_size = max_size;
      ttl = ttl;
      cache_list = [];
      cache_map = [];
      fresh = 0;
      hits = 0;
      misses = 0;
      insertions = 0;
      evictions = 0;
      expired_removals = 0;
      cleanup_interval = 300000;
      last_cleanup = now;
      next_cleanup = now + 300000;
    })

-- `removeExpiredEntries` at one reading of the clock, with the number of entries removed.
unfoldable pub remove_expired_entries : ℕ → LocalCache → LocalCache × ℕ
remove_expired_entries now c =
    let (kept, m, removed) = sweep now c.cache_list c.cache_map in
    (
      record c {
        cache_list = kept;
        cache_map = m;
        expired_removals = add64 c.expired_removals removed;
      },
      removed,
    )

unfoldable pub check_and_run_cleanup : ℕ → ℕ → LocalCache → LocalCache
unfolding remove_expired_entries
check_and_run_cleanup now sweep_now c =
    if ltb 0 c.cleanup_interval && leb c.next_cleanup now
    then (record (remove_expired_entries sweep_now c).0 {
      last_cleanup = now;
      next_cleanup = now + c.cleanup_interval;
    })
    else c

-- `contains`, after the map has led to an iterator.
unfoldable pub visit : ℕ → Bytes → ℕ → LocalCache → Option (LocalCache × Bool)
visit now k it c = elim (deref it c.cache_list) [
  | none ↦ none
  | some n ↦
      if is_expired n.entry now
      then some (
        record c {
          cache_list = erase_iter it c.cache_list;
          cache_map = erase k c.cache_map;
          expired_removals = add64 c.expired_removals 1;
          misses = add64 c.misses 1;
        },
        false,
      )
      else some
          (record c { cache_list = n ∷ erase_iter it c.cache_list; hits = add64 c.hits 1 }, true)
]

unfoldable pub find : ℕ → Bytes → LocalCache → Option (LocalCache × Bool)
unfolding visit
find now k c = elim (lookup k c.cache_map) [
  | none ↦ some (record c { misses = add64 c.misses 1 }, false)
  | some it ↦ visit now k it c
]

unfoldable pub contains : ℕ → ℕ → ℕ → MessageId → LocalCache → Option (LocalCache × Bool)
unfolding check_and_run_cleanup find
contains now sweep_now later id c =
    find later (generate_key id) (check_and_run_cleanup now sweep_now c)

-- `evictLRU`
unfoldable pub evict_lru : LocalCache → LocalCache × Bool
evict_lru c = elim (get_last? c.cache_list) [
  | none ↦ (c, false)
  | some lru ↦ (
    record c {
      cache_list = erase_iter lru.iter c.cache_list;
      cache_map = erase (key lru) c.cache_map;
      evictions = add64 c.evictions 1;
    },
    true,
  )
]

-- `emplace_front`, `cacheMap_[key] = begin()` and the counter.
unfoldable pub push_front : MessageId → ℕ → ℕ → LocalCache → LocalCache
push_front id expiry created c =
    let e : CacheEntry = record { message_id = id; expiry_time = expiry; created_time = created } in
    record c {
      cache_list = record { iter = c.fresh; entry = e } ∷ c.cache_list;
      cache_map = insert (generate_key id) c.fresh c.cache_map;
      fresh = suc c.fresh;
      insertions = add64 c.insertions 1;
    }

unfoldable pub insert_new : MessageId → ℕ → ℕ → LocalCache → LocalCache × Bool
unfolding evict_lru push_front
insert_new id expiry created c =
    let (room, made) = (if leb c.max_size (length c.cache_list) then evict_lru c else (c, true)) in
    if made then (push_front id expiry created room, true) else (room, false)

-- The update of an entry that is there already.
unfoldable pub refresh : ℕ → ℕ → LocalCache → Option (LocalCache × Bool)
refresh it expiry c = elim (deref it c.cache_list) [
  | none ↦ none
  | some n ↦ some (
    record c {
      cache_list =
          record n { entry = record (n.entry) { expiry_time = expiry } }
          ∷ erase_iter it c.cache_list;
    },
    true,
  )
]

unfoldable pub store : MessageId → ℕ → ℕ → LocalCache → Option (LocalCache × Bool)
unfolding refresh insert_new
store id expiry created c = elim (lookup (generate_key id) c.cache_map) [
  | some it ↦ refresh it expiry c
  | none ↦ some (insert_new id expiry created c)
]

-- `insert(messageId, expiryTime)`; the last reading of the clock is the new entry's.
unfoldable pub insert_until : ℕ → ℕ → ℕ → MessageId → ℕ → LocalCache → Option (LocalCache × Bool)
unfolding check_and_run_cleanup store
insert_until now sweep_now created id expiry c =
    store id expiry created (check_and_run_cleanup now sweep_now c)

-- `insert(messageId)`
unfoldable pub insert_id : ℕ → ℕ → ℕ → ℕ → MessageId → LocalCache → Option (LocalCache × Bool)
unfolding insert_until
insert_id start now sweep_now created id c = insert_until now sweep_now created id (start + c.ttl) c

unfoldable pub remove : MessageId → LocalCache → LocalCache × Bool
remove id c = elim (lookup (generate_key id) c.cache_map) [
  | none ↦ (c, false)
  | some it ↦ (
    record c {
      cache_list = erase_iter it c.cache_list;
      cache_map = erase (generate_key id) c.cache_map;
    },
    true,
  )
]

unfoldable pub clear : LocalCache → LocalCache
clear c = record c { cache_list = []; cache_map = [] }

unfoldable pub cleanup_expired : ℕ → LocalCache → LocalCache × ℕ
unfolding remove_expired_entries
cleanup_expired now c = remove_expired_entries now c

pub size : LocalCache → ℕ
size c = length c.cache_list

unfoldable pub effective_size : ℕ → LocalCache → ℕ
effective_size now c = count_if (λ n. not (is_expired n.entry now)) c.cache_list

pub is_full : LocalCache → Bool
is_full c = leb c.max_size (length c.cache_list)

unfoldable pub reset_stats : ℕ → LocalCache → LocalCache
reset_stats now c = record c {
  hits = 0;
  misses = 0;
  insertions = 0;
  evictions = 0;
  expired_removals = 0;
  last_cleanup = now;
}

unfoldable pub set_cleanup_interval : ℕ → ℕ → LocalCache → LocalCache
set_cleanup_interval interval now c = record c {
  cleanup_interval = interval;
  next_cleanup = if ltb 0 interval then now + interval else time_max;
}
