-- ===== src/Rabbit/Consumer/Threads.antt =====
-- The threads of a consumer: which states it can reach, and what its threads do there.
use udp_to_rabbitmq_gateway.Base.{
  ℕ, ◌≡◌, refl, sym, ◌∙◌, subst, Bool, not, ◌||◌, Option, none, some, List, [], ◌∷◌, ◌++◌, Bytes,
  if-split,
}
use udp_to_rabbitmq_gateway.Rabbit.Consumer.{
  ConsumerConfig, ConsumerInfo, Position, registering, looping, sleeping, Thread, Consumer, init,
  validate_queue, is_known, has_connection, initialize_connection, create_consumer, start_consuming,
  register, test_loop, check_active, stop_begin, stop_end, stop_consuming,
}

-- A thread among the others is replaced.
abbrev replaced : List Thread → Thread → List Thread → Consumer → Consumer
replaced before t after c = record c { consumer_threads = before ++ t ∷ after }

-- One step of the client, or of a thread that stands between the others.
pub data Step : Consumer → Consumer → Type 0 where
  started :
      {c : Consumer} (created : Bool) (now : ℕ) (name tag : Bytes)
      → Step c (start_consuming created now name tag c).0
  stop_began : {c : Consumer} → Step c (stop_begin c)
  stop_ended : {c : Consumer} → Step c (stop_end c)
  stopped : {c : Consumer} (name : Bytes) → Step c (stop_consuming name c).0
  registered :
      {c d : Consumer} {u : Thread} (before after : List Thread) (t : Thread)
      → c.consumer_threads ≡ before ++ t ∷ after
      → t.position ≡ registering
      → register t c ≡ some (u, d)
      → Step c (replaced before u after d)
  tested :
      {c : Consumer} (before after : List Thread) (t : Thread)
      → c.consumer_threads ≡ before ++ t ∷ after
      → t.position ≡ looping
      → Step c (replaced before (test_loop t c) after c)
  checked :
      {c : Consumer} {u : Thread} (before after : List Thread) (t : Thread)
      → c.consumer_threads ≡ before ++ t ∷ after
      → t.position ≡ sleeping
      → check_active t c ≡ some u
      → Step c (replaced before u after c)

-- What can be reached from a new consumer.
pub data Reach (config : ConsumerConfig) : Consumer → Type 0 where
  new : Reach config (init config)
  more : {c d : Consumer} → Reach config c → Step c d → Reach config d

-- A thread before its registration, with its consumer, or a thread that has none any more.
pub data IsMoved : Thread → Type 0 where
  fresh : (info : Option ConsumerInfo) → IsMoved (record { info = info; position = registering })
  gone : (p : Position) → IsMoved (record { info = none; position = p })

pub data AreMoved : List Thread → Type 0 where
  no_thread : AreMoved []
  one_thread : {t : Thread} {ts : List Thread} → IsMoved t → AreMoved ts → AreMoved (t ∷ ts)

at_thread : (before after : List Thread) (t : Thread) → AreMoved (before ++ t ∷ after) → IsMoved t
at_thread [] after t (one_thread h others) = h
at_thread (s ∷ before) after t (one_thread h others) = at_thread before after t others

put_thread :
    (before after : List Thread) (t u : Thread)
    → AreMoved (before ++ t ∷ after)
    → IsMoved u
    → AreMoved (before ++ u ∷ after)
put_thread [] after t u (one_thread h others) k = one_thread k others
put_thread (s ∷ before) after t u (one_thread h others) k =
    one_thread h (put_thread before after t u others k)

add_thread : (ts : List Thread) (t : Thread) → AreMoved ts → IsMoved t → AreMoved (ts ++ t ∷ [])
add_thread [] t no_thread k = one_thread k no_thread
add_thread (s ∷ ts) t (one_thread h others) k = one_thread h (add_thread ts t others k)

abbrev Moves : Option (Thread × Consumer) → Type 0
Moves none = ⊥
Moves (some r) = IsMoved r.0

register-IsMoved :
    (info : Option ConsumerInfo) (p : Position) (c d : Consumer) (u : Thread)
    → register (record { info = info; position = p }) c ≡ some (u, d)
    → IsMoved u
unfolding register
register-IsMoved none p c d u e = absurd (cc)
register-IsMoved (some info) p c d u e = subst Moves e (gone looping)

test_loop-IsMoved :
    (t : Thread) (c : Consumer) → IsMoved t → t.position ≡ looping → IsMoved (test_loop t c)
unfolding test_loop
test_loop-IsMoved _ c (fresh info) e = absurd (cc)
test_loop-IsMoved _ c (gone p) e = gone _

check_active-none :
    (t : Thread) (c : Consumer) → IsMoved t → t.position ≡ sleeping → check_active t c ≡ none
unfolding check_active
check_active-none _ c (fresh info) e = absurd (cc)
check_active-none _ c (gone p) e = refl

initialize_connection_keeps :
    (c : Consumer)
    → AreMoved c.consumer_threads
    → AreMoved (initialize_connection c).consumer_threads
unfolding initialize_connection
initialize_connection_keeps c h =
    if-split (λ (d : Consumer). AreMoved d.consumer_threads) (has_connection c) _ _ (λ on. h)
      (λ off. h)

start_consuming-AreMoved :
    (created : Bool) (now : ℕ) (name tag : Bytes) (c : Consumer)
    → AreMoved c.consumer_threads
    → AreMoved (start_consuming created now name tag c).0.consumer_threads
unfolding start_consuming create_consumer
start_consuming-AreMoved created now name tag c h =
    let Kept = λ (r : Consumer × Bool). AreMoved r.0.consumer_threads in
    let w = initialize_connection_keeps c h in
    if-split Kept (not (validate_queue name) || is_known name c) _ _ (λ bad. h)
      (λ good. if-split Kept created _ _ (λ made. add_thread _ _ w (fresh _)) (λ failed. w))

stop_consuming-AreMoved :
    (name : Bytes) (c : Consumer)
    → AreMoved c.consumer_threads
    → AreMoved (stop_consuming name c).0.consumer_threads
unfolding stop_consuming
stop_consuming-AreMoved name c h =
    if-split (λ (r : Consumer × Bool). AreMoved r.0.consumer_threads) (is_known name c) _ _
      (λ known. h) (λ unknown. h)

some-none : {A : Type 0} {a : A} → some a ≡ none → ⊥
some-none e = cc

Step-AreMoved :
    {c d : Consumer} → Step c d → AreMoved c.consumer_threads → AreMoved d.consumer_threads
unfolding stop_begin stop_end
Step-AreMoved {c} (started created now name tag) h =
    start_consuming-AreMoved created now name tag c h
Step-AreMoved stop_began h = h
Step-AreMoved stop_ended h = no_thread
Step-AreMoved {c} (stopped name) h = stop_consuming-AreMoved name c h
Step-AreMoved {c} (registered {d = d} {u = u} before after t e p r) h =
    put_thread before after t u (subst AreMoved e h) (register-IsMoved t.info t.position c d u r)
Step-AreMoved {c} (tested before after t e p) h =
    let k = subst AreMoved e h in
    put_thread before after t _ k (test_loop-IsMoved t c (at_thread before after t k) p)
Step-AreMoved {c} (checked {u = u} before after t e p r) h =
    let k = subst AreMoved e h in
    let stuck = check_active-none t c (at_thread before after t k) p in
    absurd (some-none (sym r ∙ stuck))

Reach-AreMoved :
    (config : ConsumerConfig) {c : Consumer} → Reach config c → AreMoved c.consumer_threads
unfolding init
Reach-AreMoved config new = no_thread
Reach-AreMoved config (more r s) = Step-AreMoved s (Reach-AreMoved config r)

-- In every state that a consumer can reach, however its client and its threads take turns, a thread that comes
-- from the sleep of its loop reads the name of its queue through a null pointer.
pub check_active-Reach :
    (config : ConsumerConfig) (c : Consumer) (before after : List Thread) (t : Thread)
    → Reach config c
    → c.consumer_threads ≡ before ++ t ∷ after
    → t.position ≡ sleeping
    → check_active t c ≡ none
check_active-Reach config c before after t r e p =
    check_active-none t c (at_thread before after t (subst AreMoved e (Reach-AreMoved config r))) p
