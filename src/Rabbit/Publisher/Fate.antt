-- ===== src/Rabbit/Publisher/Fate.antt =====
-- What becomes of a message, and of a batch, that is published.
use udp_to_rabbitmq_gateway.Base.{
  ℕ, ◌≡◌, refl, sym, Bool, true, false, not, ◌&&◌, ◌||◌, List, [], ◌∷◌, ◌++◌, length, leb, ltb,
  if◌then◌else◌, if-split, arith, append_nil,
}
use udp_to_rabbitmq_gateway.Rabbit.Publisher.{
  Item, Publisher, validate_message, publish_to_local, publish_internal, update_stats,
  handle_publish_error, finish_publish, publish,
}

-- The messages that sending was simulated for, which are lost, and those that wait.
abbrev pub Holdings : Type 0
Holdings = List Item × List Item

abbrev pub holdings : Publisher → Holdings
holdings p = (p.simulated, p.local_queue)

-- Items behind the simulated ones, or behind those that wait.
abbrev pub add_items : Bool → List Item → Holdings → Holdings
add_items connected items (simulated, waiting) =
    if connected then (simulated ++ items, waiting) else (simulated, waiting ++ items)

-- The test for room, for a message that has to wait.
abbrev pub has_room : Publisher → Bool
has_room p = p.local_queue_enabled && ltb (length p.local_queue) p.config.local_queue_size

abbrev pub accepts : Item → Publisher → Bool
accepts item p = not p.publishing_paused && validate_message item.2 && (p.connected || has_room p)

abbrev taken : Bool → Item → List Item
taken success item = if success then item ∷ [] else []

-- What an operation leaves as it was.
pub record IsSteady (p q : Publisher) : Type 0 where
  pub config : q.config ≡ p.config
  pub connected : q.connected ≡ p.connected
  pub paused : q.publishing_paused ≡ p.publishing_paused
  pub enabled : q.local_queue_enabled ≡ p.local_queue_enabled

-- What is true of a publisher, an item, and what `publish` gives.
pub record IsPublished (item : Item) (p : Publisher) (r : Publisher × Bool) : Type 0 where
  pub success : r.1 ≡ accepts item p
  pub kept : holdings r.0 ≡ add_items p.connected (taken r.1 item) (holdings p)
  pub steady : IsSteady p r.0

nothing : (connected : Bool) (h : Holdings) → h ≡ add_items connected [] h
nothing true h = λ i. (sym (append_nil h.0) i, h.1)
nothing false h = λ i. (h.0, sym (append_nil h.1) i)

unchanged : (item : Item) (p : Publisher) → accepts item p ≡ false → IsPublished item p (p, false)
unchanged item p h = record {
  success = sym h;
  kept = nothing p.connected (holdings p);
  steady = record { config = refl; connected = refl; paused = refl; enabled = refl };
}

finish_publish-IsPublished :
    (duration now : ℕ) (item : Item) (p : Publisher) (r : Publisher × Bool)
    → IsPublished item p r
    → IsPublished item p (finish_publish duration now item r)
unfolding finish_publish update_stats handle_publish_error
finish_publish-IsPublished duration now item p (q, true) h = record {
  success = h.success;
  kept = h.kept;
  steady = record {
    config = h.steady.config;
    connected = h.steady.connected;
    paused = h.steady.paused;
    enabled = h.steady.enabled;
  };
}
finish_publish-IsPublished duration now item p (q, false) h = record {
  success = h.success;
  kept = h.kept;
  steady = record {
    config = h.steady.config;
    connected = h.steady.connected;
    paused = h.steady.paused;
    enabled = h.steady.enabled;
  };
}

publish_internal-IsPublished :
    (item : Item) (p : Publisher)
    → p.publishing_paused ≡ false
    → validate_message item.2 ≡ true
    → IsPublished item p (publish_internal item p)
unfolding publish_internal publish_to_local
publish_internal-IsPublished item p paused valid =
    if-split (IsPublished item p) p.connected _ _
      (λ on. record {
        success = ground (arith, paused, valid, on);
        kept = rw on refl;
        steady = record { config = refl; connected = refl; paused = refl; enabled = refl };
      })
      (λ off.
        if-split (IsPublished item p) p.local_queue_enabled _ _
          (λ enabled.
            if-split (IsPublished item p) (leb p.config.local_queue_size (length p.local_queue)) _ _
              (λ full. unchanged item p (ground (arith, off, full)))
              (λ room. record {
                success = ground (arith, paused, valid, enabled, room);
                kept = rw off refl;
                steady = record { config = refl; connected = refl; paused = refl; enabled = refl };
              }))
          (λ disabled. unchanged item p (ground (arith, off, disabled))))

-- A publisher answers that a message is published exactly where it is not paused, the message is
-- valid, and the publisher is connected or its queue is enabled and has room. Where it is
-- connected such a message goes nowhere: sending is only simulated, the queue stays as it is and
-- the message is lost. Where it is not, the message is put at the end of the queue. Nothing else
-- that was simulated or waits changes, nor does anything for a message that is refused; the
-- configuration and the state of the connection stay.
pub publish-IsPublished :
    (duration now : ℕ) (item : Item) (p : Publisher)
    → IsPublished item p (publish duration now item p)
unfolding publish
publish-IsPublished duration now item p =
    if-split (IsPublished item p) p.publishing_paused _ _
      (λ paused. unchanged item p (ground (arith, paused)))
      (λ active.
        if-split (IsPublished item p) (validate_message item.2) _ _
          (λ valid.
            finish_publish-IsPublished duration now item p (publish_internal item p)
              (publish_internal-IsPublished item p active valid))
          (λ invalid. unchanged item p (ground (arith, active, invalid))))
