-- ===== src/Rabbit/Publisher/Batches.antt =====
-- What becomes of a batch.
use udp_to_rabbitmq_gateway.Base.{
  ℕ, ◌≡◌, refl, sym, ap, ◌∙◌, Bool, true, false, List, [], ◌∷◌, ◌++◌, length, leb, if◌then◌else◌,
  if-split, arith, append_nil, append_assoc,
}
use udp_to_rabbitmq_gateway.Rabbit.Publisher.{Item, Publisher, publish}
use udp_to_rabbitmq_gateway.Rabbit.Publisher.Control.{
  begin_transaction, commit_transaction, rollback_transaction, publish_all, begin_batch, end_batch,
  publish_batch,
}
use udp_to_rabbitmq_gateway.Rabbit.Publisher.Fate.{
  Holdings, holdings, add_items, IsSteady, IsPublished, publish-IsPublished,
}

-- The items up to the first one that was refused were taken, in their order, and no other.
pub record IsBatch (items : List Item) (p : Publisher) (r : Publisher × Bool) : Type 0 where
  pub done : List Item
  pub left : List Item
  pub parts : items ≡ done ++ left
  pub complete : r.1 ≡ leb (length left) 0
  pub kept : holdings r.0 ≡ add_items p.connected done (holdings p)
  pub steady : IsSteady p r.0

add_items_nil : (connected : Bool) (h : Holdings) → h ≡ add_items connected [] h
add_items_nil true h = λ i. (sym (append_nil h.0) i, h.1)
add_items_nil false h = λ i. (h.0, sym (append_nil h.1) i)

add_items-add_items :
    (connected : Bool) (item : Item) (items : List Item) (h : Holdings)
    → add_items connected items (add_items connected (item ∷ []) h)
      ≡ add_items connected (item ∷ items) h
add_items-add_items true item items h = λ i. (append_assoc h.0 (item ∷ []) items i, h.1)
add_items-add_items false item items h = λ i. (h.0, append_assoc h.1 (item ∷ []) items i)

pub IsSteady-trans : (p q r : Publisher) → IsSteady p q → IsSteady q r → IsSteady p r
IsSteady-trans p q r h k = record {
  config = k.config ∙ h.config;
  connected = k.connected ∙ h.connected;
  paused = k.paused ∙ h.paused;
  enabled = k.enabled ∙ h.enabled;
}

IsSteady-refl : (p : Publisher) → IsSteady p p
IsSteady-refl p = record { config = refl; connected = refl; paused = refl; enabled = refl }

one_more :
    (item : Item) (items : List Item) (p : Publisher) (t r : Publisher × Bool)
    → IsPublished item p t
    → t.1 ≡ true
    → IsBatch items t.0 r
    → IsBatch (item ∷ items) p r
one_more item items p t r first success rest =
    let taken : holdings t.0 ≡ add_items p.connected (item ∷ []) (holdings p) =
      first.kept
      ∙ ap (λ b. add_items p.connected (if b then item ∷ [] else []) (holdings p)) success in
    record {
      done = item ∷ rest.done;
      left = rest.left;
      parts = ap (◌∷◌ item) rest.parts;
      complete = rest.complete;
      kept =
          rest.kept
          ∙ ap (λ c. add_items c rest.done (holdings t.0)) first.steady.connected
          ∙ ap (add_items p.connected rest.done) taken
          ∙ add_items-add_items p.connected item rest.done (holdings p);
      steady = IsSteady-trans p t.0 r.0 first.steady rest.steady;
    }

refused :
    (item : Item) (items : List Item) (p : Publisher) (t : Publisher × Bool)
    → IsPublished item p t
    → t.1 ≡ false
    → IsBatch (item ∷ items) p (t.0, false)
refused item items p t first failure = record {
  done = [];
  left = item ∷ items;
  parts = refl;
  complete = ground arith;
  kept =
      first.kept
      ∙ ap (λ b. add_items p.connected (if b then item ∷ [] else []) (holdings p)) failure;
  steady = first.steady;
}

publish_all-IsBatch :
    (duration now : ℕ) (items : List Item) (p : Publisher)
    → IsBatch items p (publish_all duration now items p)
unfolding publish_all
publish_all-IsBatch duration now [] p = record {
  done = [];
  left = [];
  parts = refl;
  complete = refl;
  kept = add_items_nil p.connected (holdings p);
  steady = IsSteady-refl p;
}
publish_all-IsBatch duration now (item ∷ items) p =
    let t = publish duration now item p in
    let first = publish-IsPublished duration now item p in
    if-split (IsBatch (item ∷ items) p) t.1 _ _
      (λ success.
        one_more item items p t _ first success (publish_all-IsBatch duration now items t.0))
      (λ failure. refused item items p t first failure)

-- A publisher that holds the same and is in the same state.
record IsSame (p q : Publisher) : Type 0 where
  held : holdings q ≡ holdings p
  state : IsSteady p q

same : (p : Publisher) → IsSame p p
same p = record { held = refl; state = IsSteady-refl p }

begin_batch-IsSame : (p : Publisher) → IsSame p (begin_batch p)
unfolding begin_batch begin_transaction
begin_batch-IsSame p =
    if-split (IsSame p) p.config.use_transactions _ _
      (λ on.
        if-split (λ (r : Publisher × Bool). IsSame p r.0) p.connected _ _
          (λ h. record {
            held = refl;
            state = record { config = refl; connected = refl; paused = refl; enabled = refl };
          })
          (λ h. same p))
      (λ off. same p)

commit_transaction-IsSame : (p : Publisher) → IsSame p (commit_transaction p).0
unfolding commit_transaction
commit_transaction-IsSame p =
    if-split (λ (r : Publisher × Bool). IsSame p r.0) p.transaction_active _ _
      (λ h. record {
        held = refl;
        state = record { config = refl; connected = refl; paused = refl; enabled = refl };
      })
      (λ h. same p)

rollback_transaction-IsSame : (p : Publisher) → IsSame p (rollback_transaction p).0
unfolding rollback_transaction
rollback_transaction-IsSame p =
    if-split (λ (r : Publisher × Bool). IsSame p r.0) p.transaction_active _ _
      (λ h. record {
        held = refl;
        state = record { config = refl; connected = refl; paused = refl; enabled = refl };
      })
      (λ h. same p)

end_batch-IsSame : (p : Publisher) (success : Bool) → IsSame p (end_batch (p, success)).0
unfolding end_batch
end_batch-IsSame p success =
    if-split (IsSame p) p.config.use_transactions _ _
      (λ on.
        if-split (IsSame p) success _ _ (λ h. commit_transaction-IsSame p)
          (λ h. rollback_transaction-IsSame p))
      (λ off. same p)

around :
    (items : List Item) (p q : Publisher) (r : Publisher × Bool)
    → IsSame p q
    → IsBatch items q r
    → IsBatch items p (end_batch r)
unfolding end_batch
around items p q (r, success) before h =
    let after = end_batch-IsSame r success in
    record {
      done = h.done;
      left = h.left;
      parts = h.parts;
      complete = h.complete;
      kept =
          after.held
          ∙ h.kept
          ∙ ap (λ c. add_items c h.done (holdings q)) before.state.connected
          ∙ ap (add_items p.connected h.done) before.held;
      steady = IsSteady-trans p q _ before.state (IsSteady-trans q r _ h.steady after.state);
    }

pub publish_batch-IsBatch :
    (duration now : ℕ) (items : List Item) (p : Publisher)
    → p.publishing_paused ≡ false
    → IsBatch items p (publish_batch duration now items p)
unfolding publish_batch
publish_batch-IsBatch duration now items p active =
    if-split (IsBatch items p) p.publishing_paused _ _ (λ h. absurd (ground (arith, h, active)))
      (λ h.
        around items p (begin_batch p) (publish_all duration now items (begin_batch p))
          (begin_batch-IsSame p) (publish_all-IsBatch duration now items (begin_batch p)))

end_batch-closed :
    (p : Publisher) (success : Bool)
    → p.config.use_transactions ≡ true
    → (end_batch (p, success)).0.transaction_active ≡ false
unfolding end_batch commit_transaction rollback_transaction
end_batch-closed p success on =
    let Closed = λ (q : Publisher). q.transaction_active ≡ false in
    let ClosedFirst = λ (r : Publisher × Bool). r.0.transaction_active ≡ false in
    if-split Closed p.config.use_transactions _ _
      (λ h.
        if-split Closed success _ _
          (λ won.
            if-split ClosedFirst p.transaction_active _ _ (λ open_one. refl) (λ closed. closed))
          (λ lost.
            if-split ClosedFirst p.transaction_active _ _ (λ open_one. refl) (λ closed. closed)))
      (λ off. absurd (ground (arith, on, off)))

-- With transactions, no transaction is left open behind a batch, whether it succeeded or failed, and
-- where one was active before as well.
publish_batch-closed :
    (duration now : ℕ) (items : List Item) (p : Publisher)
    → p.publishing_paused ≡ false
    → p.config.use_transactions ≡ true
    → (publish_batch duration now items p).0.transaction_active ≡ false
unfolding publish_batch
publish_batch-closed duration now items p active on =
    let tried = publish_all duration now items (begin_batch p) in
    let h = publish_all-IsBatch duration now items (begin_batch p) in
    let steady = h.steady.config ∙ (begin_batch-IsSame p).state.config in
    if-split (λ (r : Publisher × Bool). r.0.transaction_active ≡ false) p.publishing_paused _ _
      (λ paused. absurd (ground (arith, paused, active)))
      (λ h. end_batch-closed tried.0 tried.1 (ap (λ c. c.use_transactions) steady ∙ on))
