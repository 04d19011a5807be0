-- ===== src/Rabbit/Publisher/Steps.antt =====
-- The operations of a publisher as steps, and what holds over all of them.
use udp_to_rabbitmq_gateway.Base.{
  ℕ, ◌≡◌, refl, sym, ap, ◌∙◌, Bool, true, false, Option, none, some, List, [], ◌∷◌, length,
  if◌then◌else◌, if-split, ◌⊎◌, inl, inr, arith, ◌>>=◌,
}
use udp_to_rabbitmq_gateway.Rabbit.Message.{Message}
use udp_to_rabbitmq_gateway.Rabbit.Connection.{ConnectionState, is_connected, open_connection}
use udp_to_rabbitmq_gateway.Rabbit.Publisher.{Item, Publisher, publish, process_local_queue}
use udp_to_rabbitmq_gateway.Rabbit.Publisher.Control.{
  begin_transaction, commit_transaction, rollback_transaction, publish_batch, reset_stats,
  enable_local_queue, clear_local_queue, pause_publishing, resume_publishing,
  on_connection_state_changed, on_publish_confirm, has_tag, on_publish_return, publish_async,
  stop_async_publishing, run_next, run_task, initialize_connection, initialize_channel,
  has_open_connection, teardown_channel, teardown_connection,
}
use udp_to_rabbitmq_gateway.Rabbit.Publisher.Valid.{
  IsValid, IsValidFirst, Leads, leads, publish-IsValid, publish_batch-IsValid,
  begin_transaction-IsValid, commit_transaction-IsValid, rollback_transaction-IsValid,
  process_local_queue-IsValid,
}

-- What a client calls, with the time that it takes and the clock where they matter, and a task that
-- the thread runs.
pub data Op : Type 0 where
  one : ℕ → ℕ → Item → Op
  batch : ℕ → ℕ → List Item → Op
  begin commit rollback forget wipe pause resume halt : Op
  enable : Bool → Op
  later : Item → Op
  task : ℕ → ℕ → Op

-- What happens beside the client: the broker answers, the connection is made, changes and is given
-- up. The methods for it are private.
pub data Event : Type 0 where
  confirm : ℕ → Bool → Event
  give_back : Message → Event
  link : Bool → Event
  state_changed : ConnectionState → Event
  unlink : Event

unfoldable pub call : Op → Publisher → Option Publisher
unfolding publish publish_batch begin_transaction commit_transaction rollback_transaction
    reset_stats clear_local_queue pause_publishing resume_publishing stop_async_publishing
    enable_local_queue publish_async run_task
call (one duration now item) p = some (publish duration now item p).0
call (batch duration now items) p = some (publish_batch duration now items p).0
call begin p = some (begin_transaction p).0
call commit p = some (commit_transaction p).0
call rollback p = some (rollback_transaction p).0
call forget p = some (reset_stats p)
call wipe p = some (clear_local_queue p)
call pause p = some (pause_publishing p)
call resume p = resume_publishing p
call halt p = some (stop_async_publishing p)
call (enable on) p = some (enable_local_queue on p)
call (later item) p = some (publish_async item p)
call (task duration now) p = some (run_task duration now p)

unfoldable pub happen : Event → Publisher → Option Publisher
unfolding on_publish_confirm on_publish_return initialize_connection on_connection_state_changed
    teardown_connection
happen (confirm tag ack) p = some (on_publish_confirm tag ack p)
happen (give_back m) p = some (on_publish_return m p)
happen (link created) p = some (initialize_connection created p).0
happen (state_changed state) p = on_connection_state_changed state p
happen unlink p = some (teardown_connection p)

unfoldable pub advance : Op ⊎ Event → Publisher → Option Publisher
unfolding call happen
advance (inl o) p = call o p
advance (inr e) p = happen e p

-- The same queue under the same configuration.
carried :
    (p q : Publisher)
    → q.local_queue ≡ p.local_queue
    → q.local_queue_size ≡ p.local_queue_size
    → q.config ≡ p.config
    → IsValid p
    → IsValid q
carried p q items size config v = record {
  sized = size ∙ v.sized ∙ ap length (sym items);
  bounded = omega (arith, v.bounded, ap length items, ap (λ c. c.local_queue_size) config);
  small = omega (arith, v.small, ap (λ c. c.local_queue_size) config);
}

run_next-IsValid :
    (duration now : ℕ) (tasks : List Item) (p : Publisher)
    → IsValid p
    → IsValid (run_next duration now tasks p)
unfolding run_next
run_next-IsValid duration now [] p v = v
run_next-IsValid duration now (item ∷ items) p v =
    if-split IsValid p.async_running _ _
      (λ on.
        publish-IsValid duration now item (record p { async_tasks = items })
          (carried p _ refl refl refl v))
      (λ off. v)

call-IsValid : (o : Op) (p : Publisher) → IsValid p → Leads IsValid (call o p)
unfolding call reset_stats clear_local_queue pause_publishing resume_publishing
    stop_async_publishing enable_local_queue publish_async run_task
call-IsValid (one duration now item) p v = leads (publish-IsValid duration now item p v)
call-IsValid (batch duration now items) p v = leads (publish_batch-IsValid duration now items p v)
call-IsValid begin p v = leads (begin_transaction-IsValid p v)
call-IsValid commit p v = leads (commit_transaction-IsValid p v)
call-IsValid rollback p v = leads (rollback_transaction-IsValid p v)
call-IsValid forget p v = leads (carried p _ refl refl refl v)
call-IsValid wipe p v = leads (record { sized = refl; bounded = omega arith; small = v.small })
call-IsValid pause p v = leads (carried p _ refl refl refl v)
call-IsValid resume p v =
    process_local_queue-IsValid (record p { publishing_paused = false })
      (carried p _ refl refl refl v)
call-IsValid halt p v = leads (carried p _ refl refl refl v)
call-IsValid (enable on) p v = leads (carried p _ refl refl refl v)
call-IsValid (later item) p v = leads (carried p _ refl refl refl v)
call-IsValid (task duration now) p v = leads (run_next-IsValid duration now p.async_tasks p v)

initialize_channel-IsValid :
    (created : Bool) (p : Publisher) → IsValid p → IsValid (initialize_channel created p).0
unfolding initialize_channel
initialize_channel-IsValid true p v = carried p _ refl refl refl v
initialize_channel-IsValid false p v = carried p _ refl refl refl v

told :
    (o : Option Publisher) (f : Publisher → Publisher)
    → ((p : Publisher) → IsValid p → IsValid (f p))
    → Leads IsValid o
    → Leads IsValid (o >>= λ p. some (f p))
told none f keep h = elim h [ ]
told (some p) f keep (leads v) = leads (keep p v)

state_changed-IsValid :
    (state : ConnectionState) (p : Publisher)
    → IsValid p
    → Leads IsValid (on_connection_state_changed state p)
unfolding on_connection_state_changed
state_changed-IsValid state p v =
    let changed = record p { connected = is_connected state } in
    let w = carried p changed refl refl refl v in
    told (if is_connected state then process_local_queue changed else some changed) _
      (λ q u. carried q _ refl refl refl u)
      (if-split (Leads IsValid) (is_connected state) _ _
        (λ on. process_local_queue-IsValid changed w) (λ off. leads w))

happen-IsValid : (e : Event) (p : Publisher) → IsValid p → Leads IsValid (happen e p)
unfolding happen on_publish_confirm on_publish_return initialize_connection teardown_connection
    teardown_channel
happen-IsValid (confirm tag ack) p v = leads (
    if-split IsValid (has_tag tag p.pending_confirms) _ _ (λ h. carried p _ refl refl refl v)
      (λ h. v))
happen-IsValid (give_back m) p v = leads (carried p _ refl refl refl v)
happen-IsValid (link created) p v = leads (
    if-split IsValidFirst (has_open_connection p.connection) _ _ (λ h. v)
      (λ h.
        let linked = record p {
          connection = some (open_connection ConnectionState.disconnected).0;
          connected = true;
        } in
        initialize_channel-IsValid created linked (carried p linked refl refl refl v)))
happen-IsValid (state_changed state) p v = state_changed-IsValid state p v
happen-IsValid unlink p v = leads (carried p _ refl refl refl v)

-- Whatever a client calls and whatever happens to the connection ends, and keeps the local queue within its limit
-- and its counter the length of the queue, as long as the configuration stays.
pub advance-IsValid : (s : Op ⊎ Event) (p : Publisher) → IsValid p → Leads IsValid (advance s p)
unfolding advance
advance-IsValid (inl o) p v = call-IsValid o p v
advance-IsValid (inr e) p v = happen-IsValid e p v
