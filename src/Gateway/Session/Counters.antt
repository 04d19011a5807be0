-- ===== src/Gateway/Session/Counters.antt =====
-- What a session counts, and the order of its calls over all its packets.
use udp_to_rabbitmq_gateway.Base.{
  Bool, true, false, Option, none, some, [], ◌∷◌, Bytes, codes, length, ◌≡◌, ℕ, refl, if-either,
  if-split, arith, add64,
}
use udp_to_rabbitmq_gateway.Gateway.Run.{Services, World}
use udp_to_rabbitmq_gateway.Gateway.Handler.{Config, when, count_error}
use udp_to_rabbitmq_gateway.Gateway.Session.{
  process_packet, Received, datagram, operation_aborted, receive_error, Session, do_receive,
  after_packet, receive, handle_packet, report, threw,
}
use udp_to_rabbitmq_gateway.Gateway.Session.Guards.{IsGuarded, Allowed}
use udp_to_rabbitmq_gateway.Gateway.Session.Order.{process_packet-IsGuarded}

-- Each packet was processed or rejected, and the calls are in order.
pub record IsValid (s : Services) (c : Config) (n : Session) : Type 0 where
  pub counted : n.packets_received ≡ add64 n.packets_processed n.packets_rejected
  pub guarded : IsGuarded s c n.world.calls

-- The counters of a session.
pub record Tally : Type 0 where
  pub received : ℕ
  pub done : ℕ
  pub rejected : ℕ
  pub bytes : ℕ

unfoldable pub tally : Session → Tally
tally n = record {
  received = n.packets_received;
  done = n.packets_processed;
  rejected = n.packets_rejected;
  bytes = n.bytes_received;
}

abbrev processed : Bool → Tally → Tally
processed true k = record k { rejected = add64 (k.rejected) 1 }
processed false k = record k { done = add64 (k.done) 1 }

-- What a receive operation adds, by whether the processing of its packet throws.
abbrev pub expected : Received → Bool → Tally → Tally
expected (datagram []) failed k = k
expected (datagram (b ∷ bs)) failed k =
    processed failed
      (record k { received = add64 (k.received) 1; bytes = add64 (k.bytes) (length (b ∷ bs)) })
expected operation_aborted failed k = k
expected receive_error failed k = k

abbrev pub bytes_of : Received → Bytes
bytes_of (datagram data_) = data_
bytes_of operation_aborted = []
bytes_of receive_error = []

module _ (s : Services) (c : Config) where
  error_counted :
      (b : Bool) (name : Bytes) (w : World)
      → IsGuarded s c w.calls
      → IsGuarded s c (when b (count_error s c name) w).0.calls
  unfolding count_error IsGuarded Allowed
  error_counted true name w g = (tt, g)
  error_counted false name w g = g

  report-IsValid : (name : Bytes) (n : Session) → IsValid s c n → IsValid s c (report s c name n).0
  unfolding report
  report-IsValid name n v = record {
    counted = v.counted;
    guarded = error_counted c.has_collector name n.world v.guarded;
  }

  after_packet-IsValid :
      (n : Session) (o : World × Option (Unit {0}))
      → n.packets_received ≡ add64 (add64 n.packets_processed n.packets_rejected) 1
      → IsGuarded s c o.0.calls
      → IsValid s c (after_packet s c n o).0
  unfolding after_packet add64
  after_packet-IsValid n (w, some u) e g = record { counted = omega arith; guarded = g }
  after_packet-IsValid n (w, none) e g =
      report-IsValid (codes "packet_processing_exception")
        (record n { packets_rejected = add64 n.packets_rejected 1; world = w })
        (record { counted = omega arith; guarded = g })

  receive-IsValid : (r : Received) (n : Session) → IsValid s c n → IsValid s c (receive s c r n).0
  unfolding receive
  receive-IsValid (datagram []) n v = v
  receive-IsValid (datagram (b ∷ bs)) n v =
      after_packet-IsValid
        (record n {
          packets_received = add64 n.packets_received 1;
          bytes_received = add64 n.bytes_received (length (b ∷ bs));
        })
        (process_packet s c (b ∷ bs) n.world) (rw v.counted refl)
        (process_packet-IsGuarded s c (b ∷ bs) n.world v.guarded)
  receive-IsValid operation_aborted n v = v
  receive-IsValid receive_error n v = report-IsValid (codes "socket_error") n v

  after_packet-tally :
      (n : Session) (o : World × Option (Unit {0}))
      → tally (after_packet s c n o).0 ≡ processed (threw o) (tally n)
  unfolding after_packet report threw tally
  after_packet-tally n (w, some u) = refl
  after_packet-tally n (w, none) = refl

  receive-tally :
      (r : Received) (n : Session)
      → tally (receive s c r n).0
        ≡ expected r (threw (process_packet s c (bytes_of r) n.world)) (tally n)
  unfolding receive report tally
  receive-tally (datagram []) n = refl
  receive-tally (datagram (b ∷ bs)) n =
      after_packet-tally
        (record n {
          packets_received = add64 n.packets_received 1;
          bytes_received = add64 n.bytes_received (length (b ∷ bs));
        })
        (process_packet s c (b ∷ bs) n.world)
  receive-tally operation_aborted n = refl
  receive-tally receive_error n = refl

  -- What the end of a receive operation leaves of an active session.
  pub record IsHandled (r : Received) (n m : Session) : Type 0 where
    pub valid : IsValid s c m
    pub counted : tally m ≡ expected r (threw (process_packet s c (bytes_of r) n.world)) (tally n)

  -- The end of any receive operation keeps an active session valid: as many packets were received as
  -- were processed or rejected, and the calls stay in order. A packet with bytes adds one to the
  -- received packets and its length to the received bytes, and one to the rejected packets if its
  -- processing throws and to the processed packets if it does not; an empty packet and an error
  -- change no counter.
  pub handle_packet-IsHandled :
      (r : Received) (n : Session)
      → IsValid s c n
      → n.active ≡ true
      → IsHandled r n (handle_packet s c r n)
  unfolding handle_packet do_receive tally
  handle_packet-IsHandled r n v on =
      let ended = record n { receiving = false } in
      let m = (receive s c r ended).0 in
      let w = receive-IsValid r ended (record { counted = v.counted; guarded = v.guarded }) in
      let t = receive-tally r ended in
      let handled : IsHandled r n m = record { valid = w; counted = t } in
      if-split (IsHandled r n) n.active _ _
        (λ h. if-either (IsHandled r n) (receive s c r ended).1 m (do_receive m) handled (
          if-either (IsHandled r n) m.active (record m { receiving = true }) m
            (record { valid = record { counted = w.counted; guarded = w.guarded }; counted = t })
            handled))
        (λ off. absurd (ground (arith, on, off)))
