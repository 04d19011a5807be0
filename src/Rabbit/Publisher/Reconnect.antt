-- ===== src/Rabbit/Publisher/Reconnect.antt =====
-- What becomes of the queue when a connection is made, and what happens while nobody makes one.
use udp_to_rabbitmq_gateway.Base.{
  ℕ, ◌^◌, ◌<◌, ◌≡◌, refl, sym, ap, ◌∙◌, subst, Bool, true, false, ◌&&◌, Option, none, some, List,
  [], ◌∷◌, ◌++◌, length, leb, if-split, if-true, Bool-cases, inl, inr, arith, ◌>>=◌, append_nil,
}
use udp_to_rabbitmq_gateway.Rabbit.Connection.{ConnectionState, is_connected}
use udp_to_rabbitmq_gateway.Rabbit.Publisher.{Item, Publisher, PublisherConfig, publish, init}
use udp_to_rabbitmq_gateway.Rabbit.Publisher.Control.{
  begin_transaction, commit_transaction, rollback_transaction, publish_batch, reset_stats,
  enable_local_queue, clear_local_queue, pause_publishing, resume_publishing,
  on_connection_state_changed, publish_async, stop_async_publishing, run_next, run_task,
}
use udp_to_rabbitmq_gateway.Rabbit.Publisher.Drain.{
  process_local_queue-flushed, process_local_queue-idle,
}
use udp_to_rabbitmq_gateway.Rabbit.Publisher.Fate.{
  Holdings, holdings, add_items, publish-IsPublished,
}
use udp_to_rabbitmq_gateway.Rabbit.Publisher.Batches.{publish_batch-IsBatch}
use udp_to_rabbitmq_gateway.Rabbit.Publisher.Valid.{IsValid, Leads, leads, publish_batch-IsValid}
use udp_to_rabbitmq_gateway.Rabbit.Publisher.Steps.{
  Op, one, batch, begin, commit, rollback, forget, wipe, pause, resume, halt, enable, later, task,
  call,
}

all_taken :
    (items done left : List Item) → items ≡ done ++ left → leb (length left) 0 ≡ true → done ≡ items
all_taken items done [] e h = sym (append_nil done) ∙ sym e
all_taken items done (item ∷ left) e h = absurd (ground (arith, h))

connection_made :
    (p : Publisher)
    → IsValid p
    → p.local_queue_enabled ≡ true
    → Leads
        (λ r. holdings r ≡ (p.simulated ++ p.local_queue, []))
        (on_connection_state_changed ConnectionState.connected p)
unfolding on_connection_state_changed is_connected
connection_made p v enabled =
    let changed = record p { connected = true } in
    let few : length p.local_queue < 2 ^ 64 = omega (arith, v.bounded, v.small) in
    let made = process_local_queue-flushed changed refl enabled v.sized few in rw made (leads refl)

-- A batch that a publisher accepts in full while it is not connected, with its queue enabled and
-- publishing not paused, is lost if it is then told that the connection is there: the queue is
-- emptied, and for everything that waited and then the batch, in this order, sending is only
-- simulated. The call ends. (Nothing in the repository makes this call.)
pub publish_batch-on_connection_state_changed :
    (duration now : ℕ) (items : List Item) (p : Publisher)
    → IsValid p
    → p.connected ≡ false
    → p.local_queue_enabled ≡ true
    → p.publishing_paused ≡ false
    → (publish_batch duration now items p).1 ≡ true
    → Leads
        (λ r. holdings r ≡ (p.simulated ++ (p.local_queue ++ items), []))
        (on_connection_state_changed ConnectionState.connected
          (publish_batch duration now items p).0)
publish_batch-on_connection_state_changed duration now items p v off enabled active success =
    let q = (publish_batch duration now items p).0 in
    let h = publish_batch-IsBatch duration now items p active in
    let done = all_taken items h.done h.left h.parts (sym h.complete ∙ success) in
    let held : holdings q ≡ (p.simulated, p.local_queue ++ items) =
      h.kept
      ∙ ap (λ c. add_items c h.done (holdings p)) off
      ∙ ap (λ t. (p.simulated, p.local_queue ++ t)) done in
    subst
      (λ (k : Holdings).
        Leads (λ r. holdings r ≡ (k.0 ++ k.1, []))
          (on_connection_state_changed ConnectionState.connected q))
      held
      (connection_made q (publish_batch-IsValid duration now items p v)
        (h.steady.enabled ∙ enabled))

-- Not connected, and no sending simulated.
pub record IsSilent (p : Publisher) : Type 0 where
  pub off : p.connected ≡ false
  pub none_simulated : p.simulated ≡ []

kept-IsSilent :
    (p q : Publisher)
    → q.connected ≡ p.connected
    → q.simulated ≡ p.simulated
    → IsSilent p
    → IsSilent q
kept-IsSilent p q connected simulated s = record {
  off = connected ∙ s.off;
  none_simulated = simulated ∙ s.none_simulated;
}

added-IsSilent :
    (items : List Item) (p q : Publisher)
    → q.connected ≡ p.connected
    → holdings q ≡ add_items p.connected items (holdings p)
    → IsSilent p
    → IsSilent q
added-IsSilent items p q connected held s =
    let simulated : q.simulated ≡ p.simulated =
      ap (λ k. k.0) held ∙ ap (λ c. (add_items c items (holdings p)).0) s.off in
    kept-IsSilent p q connected simulated s

publish-IsSilent :
    (duration now : ℕ) (item : Item) (p : Publisher)
    → IsSilent p
    → IsSilent (publish duration now item p).0
publish-IsSilent duration now item p s =
    let h = publish-IsPublished duration now item p in
    added-IsSilent _ p (publish duration now item p).0 h.steady.connected h.kept s

publish_batch_paused :
    (duration now : ℕ) (items : List Item) (p : Publisher)
    → p.publishing_paused ≡ true
    → publish_batch duration now items p ≡ (p, false)
unfolding publish_batch
publish_batch_paused duration now items p h = if-true p.publishing_paused _ _ h

batch-IsSilent :
    (duration now : ℕ) (items : List Item) (p : Publisher)
    → IsSilent p
    → IsSilent (publish_batch duration now items p).0
batch-IsSilent duration now items p s = elim (Bool-cases p.publishing_paused) [
  | inl paused ↦
      subst (λ (r : Publisher × Bool). IsSilent r.0)
        (sym (publish_batch_paused duration now items p paused)) s
  | inr active ↦
      let h = publish_batch-IsBatch duration now items p active in
      added-IsSilent h.done p (publish_batch duration now items p).0 h.steady.connected h.kept s
]

run_next-IsSilent :
    (duration now : ℕ) (tasks : List Item) (p : Publisher)
    → IsSilent p
    → IsSilent (run_next duration now tasks p)
unfolding run_next
run_next-IsSilent duration now [] p s = s
run_next-IsSilent duration now (item ∷ items) p s =
    if-split IsSilent p.async_running _ _
      (λ on.
        publish-IsSilent duration now item (record p { async_tasks = items })
          (kept-IsSilent p _ refl refl s))
      (λ off. s)

abbrev IsSilentFirst : Publisher × Bool → Type 0
IsSilentFirst r = IsSilent r.0

resume-IsSilent : (p : Publisher) → IsSilent p → Leads IsSilent (resume_publishing p)
unfolding resume_publishing
resume-IsSilent p s =
    let resumed = record p { publishing_paused = false } in
    let idle = ap (λ c. c && p.local_queue_enabled) s.off in
    subst (Leads IsSilent) (sym (process_local_queue-idle resumed idle))
      (leads (kept-IsSilent p resumed refl refl s))

call-IsSilent : (o : Op) (p : Publisher) → IsSilent p → Leads IsSilent (call o p)
unfolding call begin_transaction commit_transaction rollback_transaction reset_stats
    clear_local_queue pause_publishing stop_async_publishing enable_local_queue publish_async
    run_task
call-IsSilent (one duration now item) p s = leads (publish-IsSilent duration now item p s)
call-IsSilent (batch duration now items) p s = leads (batch-IsSilent duration now items p s)
call-IsSilent begin p s =
    leads (if-split IsSilentFirst p.connected _ _ (λ h. kept-IsSilent p _ refl refl s) (λ h. s))
call-IsSilent commit p s =
    leads (
      if-split IsSilentFirst p.transaction_active _ _ (λ h. kept-IsSilent p _ refl refl s) (λ h. s))
call-IsSilent rollback p s =
    leads (
      if-split IsSilentFirst p.transaction_active _ _ (λ h. kept-IsSilent p _ refl refl s) (λ h. s))
call-IsSilent forget p s = leads (kept-IsSilent p _ refl refl s)
call-IsSilent wipe p s = leads (kept-IsSilent p _ refl refl s)
call-IsSilent pause p s = leads (kept-IsSilent p _ refl refl s)
call-IsSilent resume p s = resume-IsSilent p s
call-IsSilent halt p s = leads (kept-IsSilent p _ refl refl s)
call-IsSilent (enable on) p s = leads (kept-IsSilent p _ refl refl s)
call-IsSilent (later item) p s = leads (kept-IsSilent p _ refl refl s)
call-IsSilent (task duration now) p s = leads (run_next-IsSilent duration now p.async_tasks p s)

-- Calls one after the other.
unfoldable pub run : List Op → Publisher → Option Publisher
unfolding call
run [] p = some p
run (o ∷ os) p = do q ← call o p; run os q

then-IsSilent :
    (os : List Op) (o : Option Publisher)
    → ((p : Publisher) → IsSilent p → Leads IsSilent (run os p))
    → Leads IsSilent o
    → Leads IsSilent (o >>= run os)
then-IsSilent os none f h = elim h [ ]
then-IsSilent os (some p) f (leads s) = f p s

run_all : (os : List Op) (p : Publisher) → IsSilent p → Leads IsSilent (run os p)
unfolding run
run_all [] p s = leads s
run_all (o ∷ os) p s = then-IsSilent os (call o p) (run_all os) (call-IsSilent o p s)

-- Whatever a client calls on a new publisher, in any order, nothing is ever sent, not even the
-- simulation of it is reached: every call ends, and behind it the publisher is not connected.
pub run-IsSilent : (os : List Op) (c : PublisherConfig) → Leads IsSilent (run os (init c))
unfolding init
run-IsSilent os c = run_all os (init c) (record { off = refl; none_simulated = refl })
