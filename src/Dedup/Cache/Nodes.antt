-- ===== src/Dedup/Cache/Nodes.antt =====
-- components/redis_deduplication/include/redis_deduplication/local_cache.hpp, `CacheEntry` and the
-- `std::list` of entries. A node keeps its iterator when it is spliced, as the list does.
use mathlib.Core.List.{get_last?}
use mathlib.Core.Option.{some-injective}
use udp_to_rabbitmq_gateway.Base.{
  length, suc, ◌+◌, ◌≤◌, ap, inl, inr, Bool-cases, ℕ, ◌<◌, ◌≡◌, refl, Bool, Option, none, some,
  List, [], ◌∷◌, arith, ltb, if◌then◌else◌, Bytes, ◌==◌, nat_eq, bytes_eq, bytes_beq_iff,
  nat_beq_iff,
}
use udp_to_rabbitmq_gateway.Dedup.MessageId.{MessageId, generate_key}

pub record CacheEntry : Type 0 where
  pub message_id : MessageId
  pub expiry_time : ℕ
  pub created_time : ℕ

pub record Node : Type 0 where
  pub iter : ℕ
  pub entry : CacheEntry

-- `CacheEntry::isExpired(currentTime)`
unfoldable pub is_expired : CacheEntry → ℕ → Bool
is_expired e now = ltb e.expiry_time now

abbrev pub key : Node → Bytes
key n = generate_key n.entry.message_id

-- `*it`: none, if the iterator denotes no node of the list.
unfoldable pub deref : ℕ → List Node → Option Node
deref i [] = none
deref i (n ∷ l) = if n.iter == i then some n else deref i l

-- `cacheList_.erase(it)`
unfoldable pub erase_iter : ℕ → List Node → List Node
erase_iter i [] = []
erase_iter i (n ∷ l) = if n.iter == i then l else n ∷ erase_iter i l

-- The iterator of the first node with a key.
unfoldable pub iter_of : Bytes → List Node → Option ℕ
iter_of k [] = none
iter_of k (n ∷ l) = if key n == k then some n.iter else iter_of k l

-- No two nodes have one key, and no two have one iterator.
abbrev pub Distinct : List Node → Type 0
Distinct [] = Unit {0}
Distinct (n ∷ l) = (iter_of (key n) l ≡ none) × (deref n.iter l ≡ none) × Distinct l

-- A key's iterator can be read, and leads to a node with that key.
pub deref-iter_of :
    (k : Bytes) (l : List Node) (i : ℕ)
    → Distinct l
    → iter_of k l ≡ some i
    → (n : Node) × (deref i l ≡ some n) × (key n ≡ k) × (n.iter ≡ i)
unfolding deref iter_of
deref-iter_of k [] i d h = cc
deref-iter_of k (n ∷ l) i d h = elim (Bool-cases (key n == k)) [
  | inl e ↦
      let p : n.iter ≡ i = ground arith in
      (n, rw ((nat_beq_iff n.iter i).1 p) refl, (bytes_beq_iff (key n) k).0 e, p)
  | inr e ↦
      let (m, found, named, at) = deref-iter_of k l i d.2 (ground arith) in
      (
        m,
        ground (arith, nat_beq_iff n.iter i, λ (p : n.iter ≡ i). ap (λ x. deref x l) p),
        named,
        at,
      )
]

iter_of-erase_none :
    (j : Bytes) (i : ℕ) (l : List Node) → iter_of j l ≡ none → iter_of j (erase_iter i l) ≡ none
unfolding iter_of erase_iter
iter_of-erase_none j i [] h = refl
iter_of-erase_none j i (n ∷ l) h = ground (arith, iter_of-erase_none j i l)

deref-erase_none : (j i : ℕ) (l : List Node) → deref j l ≡ none → deref j (erase_iter i l) ≡ none
unfolding deref erase_iter
deref-erase_none j i [] h = refl
deref-erase_none j i (n ∷ l) h = ground (arith, deref-erase_none j i l)

pub erase_iter-Distinct : (i : ℕ) (l : List Node) → Distinct l → Distinct (erase_iter i l)
unfolding erase_iter
erase_iter-Distinct i [] d = tt
erase_iter-Distinct i (n ∷ l) d = ground (
  arith,
  iter_of-erase_none (key n) i l,
  deref-erase_none n.iter i l,
  erase_iter-Distinct i l d.2,
)

pub deref-erase_self : (i : ℕ) (l : List Node) → Distinct l → deref i (erase_iter i l) ≡ none
unfolding deref erase_iter
deref-erase_self i [] d = refl
deref-erase_self i (n ∷ l) d = ground (arith, nat_beq_iff n.iter i, deref-erase_self i l d.2)

-- Erasing the node of a key forgets that key and no other.
pub iter_of-erase_iter :
    (k j : Bytes) (i : ℕ) (l : List Node)
    → Distinct l
    → iter_of k l ≡ some i
    → iter_of j (erase_iter i l) ≡ (if k == j then none else iter_of j l)
unfolding iter_of erase_iter
iter_of-erase_iter k j i [] d h = cc
iter_of-erase_iter k j i (n ∷ l) d h = elim (Bool-cases (key n == k)) [
  | inl e ↦ ground (
    arith,
    nat_beq_iff n.iter i,
    bytes_beq_iff (key n) k,
    bytes_beq_iff (key n) j,
    bytes_beq_iff k j,
  )
  | inr e ↦
      let (m, found, _, _) = deref-iter_of k l i d.2 (ground arith) in
      ground (
        arith,
        nat_beq_iff n.iter i,
        found,
        bytes_beq_iff (key n) k,
        bytes_beq_iff (key n) j,
        bytes_beq_iff k j,
        iter_of-erase_iter k j i l d.2,
      )
]

-- Every iterator is older than the next one.
abbrev pub Below : ℕ → List Node → Type 0
Below f [] = Unit {0}
Below f (n ∷ l) = (n.iter < f) × Below f l

pub deref-fresh : (f : ℕ) (l : List Node) → Below f l → deref f l ≡ none
unfolding deref
deref-fresh f [] b = refl
deref-fresh f (n ∷ l) b = ground (arith, deref-fresh f l b.1)

pub Below-suc : (f : ℕ) (l : List Node) → Below f l → Below (suc f) l
Below-suc f [] b = tt
Below-suc f (n ∷ l) b = (omega arith, Below-suc f l b.1)

pub Below-erase_iter : (f i : ℕ) (l : List Node) → Below f l → Below f (erase_iter i l)
unfolding erase_iter
Below-erase_iter f i [] b = tt
Below-erase_iter f i (n ∷ l) b = ground (arith, Below-erase_iter f i l b.1)

pub Below-deref : (f i : ℕ) (l : List Node) (n : Node) → Below f l → deref i l ≡ some n → n.iter < f
unfolding deref
Below-deref f i [] n b h = cc
Below-deref f i (m ∷ l) n b h = ground (arith, Below-deref f i l n b.1)

pub length-erase_iter :
    (i : ℕ) (l : List Node) (n : Node) → deref i l ≡ some n → length (erase_iter i l) + 1 ≡ length l
unfolding deref erase_iter
length-erase_iter i [] n h = cc
length-erase_iter i (m ∷ l) n h = ground (arith, length-erase_iter i l n)

pub length-erase_le : (i : ℕ) (l : List Node) → length (erase_iter i l) ≤ length l
unfolding erase_iter
length-erase_le i [] = omega arith
length-erase_le i (n ∷ l) = ground (arith, length-erase_le i l)

-- The last node is found under its own key and its own iterator.
pub iter_of-last :
    (l : List Node) (n : Node)
    → Distinct l
    → get_last? l ≡ some n
    → (iter_of (key n) l ≡ some n.iter) × (deref n.iter l ≡ some n)
unfolding iter_of deref
iter_of-last [] n d h = cc
iter_of-last (m ∷ []) n d h =
    let e : m ≡ n = some-injective m n h in
    rw e (
      ground (arith, (bytes_beq_iff (key n) (key n)).1 refl),
      ground (arith, (nat_beq_iff n.iter n.iter).1 refl),
    )
iter_of-last (m ∷ p ∷ l) n d h =
    let (named, found) = iter_of-last (p ∷ l) n d.2 h in
    ground (
      arith,
      named,
      found,
      bytes_beq_iff (key m) (key n),
      nat_beq_iff m.iter n.iter,
      λ (e : key m ≡ key n). ap (λ k. iter_of k (p ∷ l)) e,
      λ (e : m.iter ≡ n.iter). ap (λ i. deref i (p ∷ l)) e,
    )

pub nil_of_no-last : (l : List Node) → get_last? l ≡ none → l ≡ []
nil_of_no-last [] h = refl
nil_of_no-last (n ∷ []) h = cc
nil_of_no-last (n ∷ m ∷ l) h = let e = nil_of_no-last (m ∷ l) h in cc
