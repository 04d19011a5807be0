-- ===== src/Dedup/Cache/Sweep.antt =====
-- The loop of `LocalCache::removeExpiredEntries` over the list and the map.
use udp_to_rabbitmq_gateway.Base.{
  ℕ, suc, ◌+◌, ◌≡◌, refl, Bool, false, ◌&&◌, ◌||◌, none, List, [], ◌∷◌, arith, if◌then◌else◌, Bytes,
  ◌==◌, bytes_eq, nat_eq, bytes_beq_iff, length,
}
use udp_to_rabbitmq_gateway.Base.Maps.{Map, lookup, erase, lookup-erase}
use udp_to_rabbitmq_gateway.Dedup.Cache.Nodes.{
  Node, is_expired, key, deref, iter_of, Distinct, Below,
}

-- The entries kept, the map without the expired keys, and `removedCount`.
unfoldable pub sweep : ℕ → List Node → Map Bytes ℕ → List Node × Map Bytes ℕ × ℕ
sweep now [] m = ([], m, 0)
sweep now (n ∷ l) m =
    let (kept, m', removed) = sweep now l (if is_expired n.entry now then erase (key n) m else m) in
    if is_expired n.entry now then (kept, m', suc removed) else (n ∷ kept, m', removed)

-- Whether the sweep removes a node with the key.
dropped : ℕ → Bytes → List Node → Bool
dropped now k [] = false
dropped now k (n ∷ l) = (is_expired n.entry now && (key n == k)) || dropped now k l

-- The sweep removes a key only if the list holds it.
dropped_needs : (now : ℕ) (k : Bytes) (l : List Node) → iter_of k l ≡ none → dropped now k l ≡ false
unfolding dropped iter_of
dropped_needs now k [] h = refl
dropped_needs now k (n ∷ l) h = ground (arith, dropped_needs now k l)

-- The nodes that are kept do not depend on the map.
abbrev pub kept : ℕ → List Node → List Node
kept now l = (sweep now l []).0

pub sweep-kept : (now : ℕ) (l : List Node) (m : Map Bytes ℕ) → (sweep now l m).0 ≡ kept now l
unfolding sweep
sweep-kept now [] m = refl
sweep-kept now (n ∷ l) m = ground (
  arith,
  sweep-kept now l m,
  sweep-kept now l (erase (key n) m),
  sweep-kept now l (erase (key n) []),
)

lookup-sweep :
    (now : ℕ) (k : Bytes) (l : List Node) (m : Map Bytes ℕ)
    → lookup k (sweep now l m).1 ≡ (if dropped now k l then none else lookup k m)
unfolding sweep dropped
lookup-sweep now k [] m = refl
lookup-sweep now k (n ∷ l) m = ground (
  arith,
  lookup-sweep now k l m,
  lookup-sweep now k l (erase (key n) m),
  lookup-erase (key n) k m,
)

deref-sweep-none :
    (now i : ℕ) (l : List Node) (m : Map Bytes ℕ)
    → deref i l ≡ none
    → deref i (sweep now l m).0 ≡ none
unfolding sweep deref
deref-sweep-none now i [] m h = refl
deref-sweep-none now i (n ∷ l) m h =
    ground (arith, deref-sweep-none now i l m, deref-sweep-none now i l (erase (key n) m))

-- A key of a kept node is the key of no dropped one.
iter_of-sweep :
    (now : ℕ) (k : Bytes) (l : List Node) (m : Map Bytes ℕ)
    → Distinct l
    → iter_of k (sweep now l m).0 ≡ (if dropped now k l then none else iter_of k l)
unfolding sweep dropped iter_of
iter_of-sweep now k [] m d = refl
iter_of-sweep now k (n ∷ l) m d = ground (
  arith,
  bytes_beq_iff (key n) k,
  dropped_needs now (key n) l,
  iter_of-sweep now k l m d.2,
  iter_of-sweep now k l (erase (key n) m) d.2,
)

pub sweep-Distinct :
    (now : ℕ) (l : List Node) (m : Map Bytes ℕ) → Distinct l → Distinct (sweep now l m).0
unfolding sweep
sweep-Distinct now [] m d = tt
sweep-Distinct now (n ∷ l) m d = ground (
  arith,
  iter_of-sweep now (key n) l m d.2,
  deref-sweep-none now n.iter l m,
  sweep-Distinct now l m d.2,
  sweep-Distinct now l (erase (key n) m) d.2,
)

-- The map and the list stay in step.
pub sweep-synced :
    (now : ℕ) (k : Bytes) (l : List Node) (m : Map Bytes ℕ)
    → Distinct l
    → lookup k m ≡ iter_of k l
    → lookup k (sweep now l m).1 ≡ iter_of k (sweep now l m).0
sweep-synced now k l m d h = ground (arith, lookup-sweep now k l m, iter_of-sweep now k l m d)

pub Below-sweep :
    (f now : ℕ) (l : List Node) (m : Map Bytes ℕ) → Below f l → Below f (sweep now l m).0
unfolding sweep
Below-sweep f now [] m b = tt
Below-sweep f now (n ∷ l) m b =
    ground (arith, Below-sweep f now l m b.1, Below-sweep f now l (erase (key n) m) b.1)

-- The sweep's counter is the number of nodes that it removes.
pub length-sweep :
    (now : ℕ) (l : List Node) (m : Map Bytes ℕ)
    → length (sweep now l m).0 + (sweep now l m).2 ≡ length l
unfolding sweep
length-sweep now [] m = omega arith
length-sweep now (n ∷ l) m =
    ground (arith, length-sweep now l m, length-sweep now l (erase (key n) m))
