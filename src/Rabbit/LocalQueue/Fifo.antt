-- ===== src/Rabbit/LocalQueue/Fifo.antt =====
-- The local queue against its contract: a bounded queue, first in, first out.
use udp_to_rabbitmq_gateway.Base.{
  ℕ, suc, ◌-◌, ◌≤◌, ◌≡◌, refl, Bool, true, false, Option, none, some, List, [], ◌∷◌, ◌++◌, Bytes,
  length, drop, ltb, if◌then◌else◌, add64, arith, length-append, Bool-cases, inl, inr, ap, sym, ◌∙◌,
  if-true, if-false,
}
use udp_to_rabbitmq_gateway.Rabbit.LocalQueue.{
  LocalQueue, update_stats, enqueue, dequeue_from, dequeue, clear, drop_excess, set_max_size,
  reset_stats,
}

-- The operations of a client.
pub data Op (M : Type 0) : Type 0 where
  put : Bytes → Bytes → M → Op M
  get wipe forget : Op M
  limit : ℕ → Op M

-- What a client gets back.
pub data Answer (M : Type 0) : Type 0 where
  accepted : Bool → Answer M
  item : Option (Bytes × Bytes × M) → Answer M
  done : Answer M

-- The contract's state: the items, oldest first, and how many there may be.
abbrev pub Fifo : Type 0 → Type 0
Fifo M = List (Bytes × Bytes × M) × ℕ

-- The queue is within its limit, and the statistics tell its size and limit.
pub record IsValid {M : Type 0} (q : LocalQueue M) : Type 0 where
  pub bounded : length q.queue ≤ q.max_size
  pub sized : q.stats.current_size ≡ length q.queue
  pub limited : q.stats.max_size ≡ q.max_size

module _ {M : Type 0} where
  answer : {A : Type 0} → (A → Answer M) → LocalQueue M × A → LocalQueue M × Answer M
  answer f (q, a) = (q, f a)

  pub step : Op M → LocalQueue M → LocalQueue M × Answer M
  unfolding enqueue dequeue clear reset_stats set_max_size answer
  step (put e k m) q = answer accepted (enqueue e k m q)
  step get q = answer item (dequeue q)
  step wipe q = (clear q, done)
  step forget q = (reset_stats q, done)
  step (limit n) q = (set_max_size n q, done)

  pub serve : Op M → Fifo M → Fifo M × Answer M
  serve (put e k m) (xs, n) =
      if ltb (length xs) n
      then ((xs ++ (e, k, m) ∷ [], n), accepted true)
      else ((xs, n), accepted false)
  serve get ([], n) = (([], n), item none)
  serve get (x ∷ xs, n) = ((xs, n), item (some x))
  serve wipe (xs, n) = (([], n), done)
  serve forget (xs, n) = ((xs, n), done)
  serve (limit k) (xs, n) = ((drop (length xs - k) xs, k), done)

  abbrev pub fifo : LocalQueue M → Fifo M
  fifo q = (q.queue, q.max_size)

  drop_excess_lem :
      (n : ℕ) (xs : List (Bytes × Bytes × M)) (d : ℕ)
      → (drop_excess n xs d).0 ≡ drop (length xs - n) xs
  unfolding drop_excess
  drop_excess_lem n [] d = ground arith
  drop_excess_lem n (x ∷ xs) d = elim (Bool-cases (ltb n (suc (length xs)))) [
    | inl more ↦
        let e : suc (length xs) - n ≡ suc (length xs - n) = ground (arith, more) in
        ap (λ r. r.0)
          (if-true (ltb n (suc (length xs))) (drop_excess n xs (add64 d 1)) (x ∷ xs, d) more)
        ∙ drop_excess_lem n xs (add64 d 1)
        ∙ ap (λ k. drop k (x ∷ xs)) (sym e)
    | inr less ↦
        let e : suc (length xs) - n ≡ 0 = ground (arith, less) in
        ap (λ r. r.0)
          (if-false (ltb n (suc (length xs))) (drop_excess n xs (add64 d 1)) (x ∷ xs, d) less)
        ∙ ap (λ k. drop k (x ∷ xs)) (sym e)
  ]

  put-serve :
      (e k : Bytes) (m : M) (q : LocalQueue M)
      → let (r, a) = step (put e k m) q in (fifo r, a) ≡ serve (put e k m) (fifo q)
  unfolding step serve enqueue update_stats answer
  put-serve e k m q = ground arith

  get-serve :
      (xs : List (Bytes × Bytes × M)) (q : LocalQueue M)
      → q.queue ≡ xs
      → let (r, a) = answer item (dequeue_from xs q) in (fifo r, a) ≡ serve get (xs, q.max_size)
  unfolding serve dequeue_from update_stats answer
  get-serve [] q e = ap (λ z. ((z, q.max_size), item none)) e
  get-serve (x ∷ xs) q e = refl

  -- The queue implements the contract: each operation of any queue answers and changes the items
  -- as the bounded first-in-first-out queue does, where a smaller limit keeps the newest items.
  pub step-serve :
      (o : Op M) (q : LocalQueue M) → let (r, a) = step o q in (fifo r, a) ≡ serve o (fifo q)
  unfolding step serve dequeue clear reset_stats set_max_size update_stats
  step-serve (put e k m) q = put-serve e k m q
  step-serve get q = get-serve q.queue q refl
  step-serve wipe q = refl
  step-serve forget q = refl
  step-serve (limit n) q =
      ap (λ z. ((z, n), done)) (drop_excess_lem n q.queue q.stats.total_dropped)

  dequeue_from-IsValid :
      (xs : List (Bytes × Bytes × M)) (q : LocalQueue M)
      → q.queue ≡ xs
      → IsValid q
      → IsValid (dequeue_from xs q).0
  unfolding dequeue_from update_stats
  dequeue_from-IsValid [] q e v = v
  dequeue_from-IsValid (x ∷ xs) q e v = record {
    bounded = omega (arith, v.bounded, ap length e);
    sized = refl;
    limited = v.limited;
  }

  drop_excess-length :
      (n : ℕ) (xs : List (Bytes × Bytes × M)) (d : ℕ) → length (drop_excess n xs d).0 ≤ n
  unfolding drop_excess
  drop_excess-length n [] d = omega arith
  drop_excess-length n (x ∷ xs) d = ground (arith, drop_excess-length n xs (add64 d 1))

  -- Every operation keeps the queue within its limit, and the statistics' size and limit right.
  step-IsValid : (o : Op M) (q : LocalQueue M) → IsValid q → IsValid (step o q).0
  unfolding step answer enqueue dequeue clear reset_stats set_max_size update_stats
  step-IsValid (put e k m) q v = ground (arith, length-append q.queue ((e, k, m) ∷ []))
  step-IsValid get q v = dequeue_from-IsValid q.queue q refl v
  step-IsValid wipe q v = ground arith
  step-IsValid forget q v = ground arith
  step-IsValid (limit n) q v =
      let kept = (drop_excess n q.queue q.stats.total_dropped).0 in
      record {
        bounded = omega (arith, drop_excess-length n q.queue q.stats.total_dropped);
        sized = refl;
        limited = refl;
      }
