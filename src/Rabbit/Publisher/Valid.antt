-- ===== src/Rabbit/Publisher/Valid.antt =====
-- The invariant of the local queue, over the operations of the publisher.
use udp_to_rabbitmq_gateway.Base.{
  ℕ, ◌^◌, ◌≤◌, ◌<◌, ◌≡◌, refl, sym, subst, Bool, true, false, ◌&&◌, Option, some, List, [], ◌∷◌,
  length, leb, if-split, Bool-cases, inl, inr, add64, arith, length-append,
}
use udp_to_rabbitmq_gateway.Rabbit.Publisher.{
  Item, Publisher, PublisherConfig, validate_message, publish_to_local, publish_internal,
  update_stats, handle_publish_error, finish_publish, publish, process_local_queue, init,
}
use udp_to_rabbitmq_gateway.Rabbit.Publisher.Control.{
  begin_transaction, commit_transaction, rollback_transaction, publish_all, begin_batch, end_batch,
  publish_batch,
}
use udp_to_rabbitmq_gateway.Rabbit.Publisher.Drain.{
  process_local_queue-flushed, process_local_queue-idle,
}

-- The queue is within the limit of the configuration, and the counter is its length.
pub record IsValid (p : Publisher) : Type 0 where
  pub sized : p.local_queue_size ≡ length p.local_queue
  pub bounded : length p.local_queue ≤ p.config.local_queue_size
  pub small : p.config.local_queue_size < 2 ^ 64

pub init-IsValid : (c : PublisherConfig) → c.local_queue_size < 2 ^ 64 → IsValid (init c)
unfolding init
init-IsValid c small = record { sized = refl; bounded = omega arith; small = small }

abbrev pub IsValidFirst : Publisher × Bool → Type 0
IsValidFirst r = IsValid r.0

publish_internal-IsValid :
    (item : Item) (p : Publisher) → IsValid p → IsValid (publish_internal item p).0
unfolding publish_internal publish_to_local add64
publish_internal-IsValid item p v =
    if-split IsValidFirst p.connected _ _
      (λ on. record { sized = v.sized; bounded = v.bounded; small = v.small })
      (λ off.
        if-split IsValidFirst p.local_queue_enabled _ _
          (λ enabled.
            if-split IsValidFirst (leb p.config.local_queue_size (length p.local_queue)) _ _
              (λ full. v)
              (λ room.
                let more = length-append p.local_queue (item ∷ []) in
                let fits : length p.local_queue < p.config.local_queue_size =
                  ground (arith, room) in
                record {
                  sized = omega (arith, more, fits, v.sized, v.small);
                  bounded = omega (arith, more, fits);
                  small = v.small;
                }))
          (λ disabled. v))

finish_publish-IsValid :
    (duration now : ℕ) (item : Item) (r : Publisher × Bool)
    → IsValid r.0
    → IsValid (finish_publish duration now item r).0
unfolding finish_publish update_stats handle_publish_error
finish_publish-IsValid duration now item (p, true) v = record {
  sized = v.sized;
  bounded = v.bounded;
  small = v.small;
}
finish_publish-IsValid duration now item (p, false) v = record {
  sized = v.sized;
  bounded = v.bounded;
  small = v.small;
}

pub publish-IsValid :
    (duration now : ℕ) (item : Item) (p : Publisher)
    → IsValid p
    → IsValid (publish duration now item p).0
unfolding publish
publish-IsValid duration now item p v =
    if-split IsValidFirst p.publishing_paused _ _ (λ paused. v)
      (λ active.
        if-split IsValidFirst (validate_message item.2) _ _
          (λ valid.
            finish_publish-IsValid duration now item (publish_internal item p)
              (publish_internal-IsValid item p v))
          (λ invalid. v))

pub publish_all-IsValid :
    (duration now : ℕ) (items : List Item) (p : Publisher)
    → IsValid p
    → IsValid (publish_all duration now items p).0
unfolding publish_all
publish_all-IsValid duration now [] p v = v
publish_all-IsValid duration now (item ∷ items) p v =
    let t = publish duration now item p in
    let w = publish-IsValid duration now item p v in
    if-split IsValidFirst t.1 _ _ (λ success. publish_all-IsValid duration now items t.0 w)
      (λ failure. w)

pub begin_transaction-IsValid : (p : Publisher) → IsValid p → IsValid (begin_transaction p).0
unfolding begin_transaction
begin_transaction-IsValid p v =
    if-split IsValidFirst p.connected _ _
      (λ on. record { sized = v.sized; bounded = v.bounded; small = v.small }) (λ off. v)

pub commit_transaction-IsValid : (p : Publisher) → IsValid p → IsValid (commit_transaction p).0
unfolding commit_transaction
commit_transaction-IsValid p v =
    if-split IsValidFirst p.transaction_active _ _
      (λ on. record { sized = v.sized; bounded = v.bounded; small = v.small }) (λ off. v)

pub rollback_transaction-IsValid : (p : Publisher) → IsValid p → IsValid (rollback_transaction p).0
unfolding rollback_transaction
rollback_transaction-IsValid p v =
    if-split IsValidFirst p.transaction_active _ _
      (λ on. record { sized = v.sized; bounded = v.bounded; small = v.small }) (λ off. v)

end_batch-IsValid :
    (p : Publisher) (success : Bool) → IsValid p → IsValid (end_batch (p, success)).0
unfolding end_batch
end_batch-IsValid p success v =
    if-split IsValid p.config.use_transactions _ _
      (λ on.
        if-split IsValid success _ _ (λ h. commit_transaction-IsValid p v)
          (λ h. rollback_transaction-IsValid p v))
      (λ off. v)

begin_batch-IsValid : (p : Publisher) → IsValid p → IsValid (begin_batch p)
unfolding begin_batch
begin_batch-IsValid p v =
    if-split IsValid p.config.use_transactions _ _ (λ on. begin_transaction-IsValid p v) (λ off. v)

pub publish_batch-IsValid :
    (duration now : ℕ) (items : List Item) (p : Publisher)
    → IsValid p
    → IsValid (publish_batch duration now items p).0
unfolding publish_batch
publish_batch-IsValid duration now items p v =
    let tried = publish_all duration now items (begin_batch p) in
    let w = publish_all-IsValid duration now items (begin_batch p) (begin_batch-IsValid p v) in
    if-split IsValidFirst p.publishing_paused _ _ (λ paused. v)
      (λ active. end_batch-IsValid tried.0 tried.1 w)

-- An operation that gives a publisher with a property.
pub data Leads (P : Publisher → Type 0) : Option Publisher → Type 0 where
  leads : {p : Publisher} → P p → Leads P (some p)

and_both : (a b : Bool) → (a && b) ≡ true → (a ≡ true) × (b ≡ true)
and_both a b h = (ground (arith, h), ground (arith, h))

pub process_local_queue-IsValid :
    (p : Publisher) → IsValid p → Leads IsValid (process_local_queue p)
process_local_queue-IsValid p v = elim (Bool-cases (p.connected && p.local_queue_enabled)) [
  | inl ready ↦
      let (on, enabled) = and_both p.connected p.local_queue_enabled ready in
      let few : length p.local_queue < 2 ^ 64 = omega (arith, v.bounded, v.small) in
      subst (Leads IsValid) (sym (process_local_queue-flushed p on enabled v.sized few))
        (leads (record { sized = refl; bounded = omega arith; small = v.small }))
  | inr idle ↦ subst (Leads IsValid) (sym (process_local_queue-idle p idle)) (leads v)
]
