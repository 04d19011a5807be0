-- ===== src/Gateway/Session/Guards.antt =====
-- The order of a session's calls: what stands before a message is recorded and published.
use udp_to_rabbitmq_gateway.Base.{
  Bool, true, false, some, List, [], ◌∷◌, Bytes, length, ◌≡◌, refl, ◌⊎◌, ap, ◌∙◌,
}
use udp_to_rabbitmq_gateway.Gateway.Types.{
  DeviceState, connected, inbound, debug, discard, DeviceMessage, Result, ok, error,
}
use udp_to_rabbitmq_gateway.Gateway.Run.{Call, Services}
use udp_to_rabbitmq_gateway.Gateway.Handler.{Config, create_queue_name}
use udp_to_rabbitmq_gateway.Gateway.Session.{
  is_suspended, accept, step_limit, step_duplicate, step_suspended, step_authenticated, step_parsed,
  parse_and_validate,
}
use udp_to_rabbitmq_gateway.Gateway.Session.Triple.{Triple, pure-Triple, ask-Triple, bind-Triple}

-- The message as `parseAndValidate` takes it from the parser's, which is what the parser answered.
pub data Parsed (s : Services) (c : Config) (m : DeviceMessage) : List Call → Type 0 where
  parsed :
      (h : List Call) (data_ : Bytes) (p : DeviceMessage)
      → s.parse_message h data_ ≡ some (ok p)
      → m ≡ record p { region = c.region_code }
      → Parsed s c m (Call.parse_message data_ ∷ h)

-- Then its device was found authenticated.
pub data Authenticated (s : Services) (c : Config) (m : DeviceMessage) : List Call → Type 0 where
  authenticated :
      (h : List Call)
      → Parsed s c m h
      → s.is_authenticated h m.device_id ≡ some true
      → Authenticated s c m (Call.is_authenticated m.device_id ∷ h)

-- Then the device was found not to be suspended.
pub data Admitted (s : Services) (c : Config) (m : DeviceMessage) : List Call → Type 0 where
  admitted :
      (h : List Call) (d : DeviceState)
      → Authenticated s c m h
      → s.get_device_state h m.device_id ≡ some d
      → is_suspended d ≡ false
      → Admitted s c m (Call.get_device_state m.device_id ∷ h)

-- Then the message was found to be new.
pub data Fresh (s : Services) (c : Config) (m : DeviceMessage) : List Call → Type 0 where
  fresh :
      (h : List Call)
      → Admitted s c m h
      → s.is_duplicate h m.device_id m.sequence_number m.message_id ≡ some false
      → Fresh s c m (Call.is_duplicate m.device_id m.sequence_number m.message_id ∷ h)

-- Then the limiter let it through.
pub data Cleared (s : Services) (c : Config) (m : DeviceMessage) : List Call → Type 0 where
  cleared :
      (h : List Call)
      → Fresh s c m h
      → s.check_limit h m.device_id m.priority ≡ some true
      → Cleared s c m (Call.check_limit m.device_id m.priority ∷ h)

-- Then, and maybe some calls ago, it was recorded.
pub data Vetted (s : Services) (c : Config) (m : DeviceMessage) : List Call → Type 0 where
  vetted :
      (h : List Call)
      → Cleared s c m h
      → Vetted s c m (Call.record_message m.device_id m.sequence_number m.message_id ∷ h)
  earlier : (d : Call) (h : List Call) → Vetted s c m h → Vetted s c m (d ∷ h)

-- What may be recorded and published after the calls h.
unfoldable pub Allowed : Services → Config → Call → List Call → Type 0
Allowed s c (Call.record_message id n mid) h =
    (m : DeviceMessage) × Cleared s c m h
    × (id ≡ m.device_id)
    × (n ≡ m.sequence_number)
    × (mid ≡ m.message_id)
Allowed s c (Call.publish_message queue payload) h =
    ((m : DeviceMessage) × Vetted s c m h
      × (payload ≡ m.payload)
      × ((queue ≡ create_queue_name c m.device_id inbound)
          ⊎ (queue ≡ create_queue_name c m.device_id debug)))
    ⊎ ((id : Bytes) × (queue ≡ create_queue_name c id discard))
Allowed s c d h = Unit {0}

unfoldable pub IsGuarded : Services → Config → List Call → Type 0
unfolding Allowed
IsGuarded s c [] = Unit {0}
IsGuarded s c (d ∷ h) = Allowed s c d h × IsGuarded s c h

module _ (s : Services) (c : Config) where
  unfoldable pub G : List Call → Type 0
  unfolding IsGuarded
  G h = IsGuarded s c h

  -- What the calls tell when `parse_and_validate` returns.
  unfoldable pub Recorded : Result DeviceMessage → List Call → Type 0
  unfolding G
  Recorded (ok m) h = G h × Vetted s c m h
  Recorded (error e t) h = G h

  accept-Triple :
      (data_ : Bytes) (m : DeviceMessage)
      → Triple G (λ h. G h × Cleared s c m h) (accept s c data_ m) Recorded
  unfolding accept IsGuarded Allowed G Recorded
  accept-Triple data_ m =
      let r = Call.record_message m.device_id m.sequence_number m.message_id in
      bind-Triple
        (ask-Triple r (λ h. s.record_message h m.device_id m.sequence_number m.message_id)
          {Q = λ u h. G h × Vetted s c m h} (λ h p. ((m, p.1, refl, refl, refl), p.0))
          (λ h a p e. (((m, p.1, refl, refl, refl), p.0), vetted h p.1)))
        (λ u.
          bind-Triple
            (ask-Triple (Call.record_limit m.device_id m.priority (length data_)) (λ h. some tt)
              {Q = λ u h. G h × Vetted s c m h} (λ h p. (tt, p.0))
              (λ h a p e. ((tt, p.0), earlier _ h p.1)))
            (λ u.
              bind-Triple
                (ask-Triple (Call.update_device_status m.device_id connected)
                  (λ h. s.update_device_status h m.device_id connected)
                  {Q = λ u h. G h × Vetted s c m h} (λ h p. (tt, p.0))
                  (λ h a p e. ((tt, p.0), earlier _ h p.1)))
                (λ u. pure-Triple {a = ok m} (λ h p. p))))

  step_limit-Triple :
      (data_ : Bytes) (m : DeviceMessage) (b : Bool)
      → Triple G (λ h. G h × (b ≡ true → Cleared s c m h)) (step_limit s c data_ m b) Recorded
  unfolding step_limit Recorded
  step_limit-Triple data_ m true = record {
    run = λ w p. (accept-Triple data_ m).run w (p.0, p.1 refl);
  }
  step_limit-Triple data_ m false = record { run = λ w p. p.0 }

  step_duplicate-Triple :
      (data_ : Bytes) (m : DeviceMessage) (b : Bool)
      → Triple G (λ h. G h × (b ≡ false → Fresh s c m h)) (step_duplicate s c data_ m b) Recorded
  unfolding step_duplicate Recorded G IsGuarded Allowed
  step_duplicate-Triple data_ m true = record { run = λ w p. p.0 }
  step_duplicate-Triple data_ m false =
      bind-Triple
        (ask-Triple (Call.check_limit m.device_id m.priority)
          (λ h. s.check_limit h m.device_id m.priority)
          {Q = λ b h. G h × (b ≡ true → Cleared s c m h)} (λ h p. (tt, p.0))
          (λ h a p e. ((tt, p.0), λ t. cleared h (p.1 refl) (e ∙ ap some t))))
        (step_limit-Triple data_ m)

  step_suspended-Triple :
      (data_ : Bytes) (m : DeviceMessage) (b : Bool)
      → Triple G (λ h. G h × (b ≡ false → Admitted s c m h)) (step_suspended s c data_ m b) Recorded
  unfolding step_suspended Recorded G IsGuarded Allowed
  step_suspended-Triple data_ m true = record { run = λ w p. p.0 }
  step_suspended-Triple data_ m false =
      bind-Triple
        (ask-Triple (Call.is_duplicate m.device_id m.sequence_number m.message_id)
          (λ h. s.is_duplicate h m.device_id m.sequence_number m.message_id)
          {Q = λ b h. G h × (b ≡ false → Fresh s c m h)} (λ h p. (tt, p.0))
          (λ h a p e. ((tt, p.0), λ t. fresh h (p.1 refl) (e ∙ ap some t))))
        (step_duplicate-Triple data_ m)

  step_authenticated-Triple :
      (data_ : Bytes) (m : DeviceMessage) (b : Bool)
      → Triple G
          (λ h. G h × (b ≡ true → Authenticated s c m h))
          (step_authenticated s c data_ m b)
          Recorded
  unfolding step_authenticated Recorded G IsGuarded Allowed
  step_authenticated-Triple data_ m false = record { run = λ w p. p.0 }
  step_authenticated-Triple data_ m true =
      bind-Triple
        (ask-Triple (Call.get_device_state m.device_id) (λ h. s.get_device_state h m.device_id)
          {Q = λ d h. G h × (is_suspended d ≡ false → Admitted s c m h)} (λ h p. (tt, p.0))
          (λ h d p e. ((tt, p.0), λ t. admitted h d (p.1 refl) e t)))
        (λ d. step_suspended-Triple data_ m (is_suspended d))

  step_parsed-Triple :
      (data_ : Bytes) (r : Result DeviceMessage)
      → Triple G
          (λ h.
            G h
            × ((p : DeviceMessage) → r ≡ ok p → Parsed s c (record p { region = c.region_code }) h))
          (step_parsed s c data_ r)
          Recorded
  unfolding step_parsed Recorded G IsGuarded Allowed
  step_parsed-Triple data_ (error e t) = record { run = λ w p. p.0 }
  step_parsed-Triple data_ (ok answer) =
      let m : DeviceMessage = record answer { region = c.region_code } in
      bind-Triple
        (ask-Triple (Call.is_authenticated m.device_id) (λ h. s.is_authenticated h m.device_id)
          {Q = λ b h. G h × (b ≡ true → Authenticated s c m h)} (λ h p. (tt, p.0))
          (λ h b p e. ((tt, p.0), λ t. authenticated h (p.1 answer refl) (e ∙ ap some t))))
        (step_authenticated-Triple data_ m)

  pub parse_and_validate-Triple :
      (data_ : Bytes) → Triple G G (parse_and_validate s c data_) Recorded
  unfolding parse_and_validate G IsGuarded Allowed
  parse_and_validate-Triple data_ =
      bind-Triple
        (ask-Triple (Call.parse_message data_) (λ h. s.parse_message h data_)
          {Q = λ r h.
            G h
            × ((p : DeviceMessage) → r ≡ ok p → Parsed s c (record p { region = c.region_code }) h)}
          (λ h p. (tt, p))
          (λ h r p e. ((tt, p), λ q same. parsed h data_ q (e ∙ ap some same) refl)))
        (step_parsed-Triple data_)
