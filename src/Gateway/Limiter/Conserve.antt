-- ===== src/Gateway/Limiter/Conserve.antt =====
-- What a bucket lets through, and what the limiter keeps apart.
use udp_to_rabbitmq_gateway.Base.{
  ℕ, ◌+◌, ◌-◌, ◌*◌, ◌≤◌, ◌≡◌, Bool, true, false, arith, if◌then◌else◌, add64, Bytes, bytes_eq, ◌==◌,
  some, ap, subst, sym, ◌∙◌, List, [], ◌∷◌,
}
use udp_to_rabbitmq_gateway.Base.Int.{
  ℤ, pos, negsuc, pos_part, neg_part, sub_ℕ, ◌+ℤ◌, ◌*ℤ◌, leb_ℤ, ltb_ℤ, min_ℤ, +ℤ_parts, -ℤ_parts,
}
use udp_to_rabbitmq_gateway.Base.Maps.{lookup, lookup-insert}
use udp_to_rabbitmq_gateway.Gateway.Limiter.{
  RateLimiter, check_limit, find_or_make, Priority, low, normal, high, critical, token,
  DeviceBucket, refill, spend, consume_token, priority_multiplier, tokens_needed,
}
use udp_to_rabbitmq_gateway.Gateway.Limiter.Bounds.{WithinBounds, consume_token-WithinBounds}

-- What a message costs that is let through.
abbrev pub cost : ℕ → Bool → ℕ
cost multiplier allowed = if allowed then tokens_needed multiplier else 0

-- With a rate of r, spending x brings the tokens of b to those of c at most, where each nanosecond
-- adds at most r.
record Flow (r t x : ℕ) (b c : DeviceBucket) : Type 0 where
  rated : c.tokens_per_second ≡ pos r
  timed : c.last_updated ≤ t
  conserved :
      pos_part c.available_tokens + neg_part b.available_tokens + r * b.last_updated + x
      ≤ pos_part b.available_tokens + neg_part c.available_tokens + r * c.last_updated

mul_add : (r a b : ℕ) → r * a + r * b ≡ r * (a + b)
mul_add r a b = omega arith

mul_diff : (r a b : ℕ) → a ≤ b → r * (b - a) + r * a ≡ r * b
mul_diff r a b h = let e : b - a + a ≡ b = omega arith in mul_add r (b - a) a ∙ ap (λ z. r * z) e

pos_*ℤ_pos : (k r : ℕ) → pos k *ℤ pos r ≡ pos (r * k)
unfolding ◌*ℤ◌
pos_*ℤ_pos k r = ground arith

new_tokens_lem :
    (now r : ℕ) (b : DeviceBucket)
    → b.tokens_per_second ≡ pos r
    → b.last_updated ≤ now
    → sub_ℕ now b.last_updated *ℤ b.tokens_per_second ≡ pos (r * (now - b.last_updated))
new_tokens_lem now r b e h =
    let k : sub_ℕ now b.last_updated ≡ pos (now - b.last_updated) = ground arith in
    ap (λ z. sub_ℕ now b.last_updated *ℤ z) e
    ∙ ap (λ z. z *ℤ pos r) k
    ∙ pos_*ℤ_pos (now - b.last_updated) r

grow_lem :
    (n now r : ℕ) (b : DeviceBucket)
    → b.tokens_per_second ≡ pos r
    → b.last_updated ≤ now
    → n + r * b.last_updated ≡ r * now
    → Flow r now 0 b (
        if ltb_ℤ (pos 0) (pos n)
        then (record b {
          available_tokens = min_ℤ (pos (b.bucket_size * token)) (b.available_tokens +ℤ pos n);
          last_updated = now;
        })
        else b)
grow_lem n now r b e h k = ground (arith, +ℤ_parts b.available_tokens (pos n))

refill-Flow :
    (now r : ℕ) (b : DeviceBucket)
    → b.tokens_per_second ≡ pos r
    → b.last_updated ≤ now
    → Flow r now 0 b (refill now b)
unfolding refill
refill-Flow now r b e h =
    subst
      (λ z. Flow r now 0 b (
        if ltb_ℤ (pos 0) z
        then (record b {
          available_tokens = min_ℤ (pos (b.bucket_size * token)) (b.available_tokens +ℤ z);
          last_updated = now;
        })
        else b))
      (sym (new_tokens_lem now r b e h))
      (grow_lem (r * (now - b.last_updated)) now r b e h
        (omega (arith, mul_diff r b.last_updated now h)))

spend_lem :
    (boost : Bool) (p : Priority) (b : DeviceBucket)
    → let m = priority_multiplier boost p in
      let (c, allowed) = spend m b in
      (c.tokens_per_second ≡ b.tokens_per_second)
      × (c.last_updated ≡ b.last_updated)
      × (pos_part c.available_tokens + neg_part b.available_tokens + cost m allowed
          ≡ pos_part b.available_tokens + neg_part c.available_tokens)
unfolding spend priority_multiplier
spend_lem false p b = ground (arith, -ℤ_parts b.available_tokens (pos 1_000_000_000_000))
spend_lem true critical b = ground (arith, -ℤ_parts b.available_tokens (pos 100_000_000_000))
spend_lem true high b = ground (arith, -ℤ_parts b.available_tokens (pos 200_000_000_000))
spend_lem true normal b = ground (arith, -ℤ_parts b.available_tokens (pos 1_000_000_000_000))
spend_lem true low b = ground (arith, -ℤ_parts b.available_tokens (pos 2_000_000_000_000))

consume_token-Flow :
    (now r : ℕ) (boost : Bool) (p : Priority) (b : DeviceBucket)
    → b.tokens_per_second ≡ pos r
    → b.last_updated ≤ now
    → let m = priority_multiplier boost p in
      let (c, allowed) = consume_token now m b in Flow r now (cost m allowed) b c
unfolding consume_token
consume_token-Flow now r boost p b e h =
    let f = refill-Flow now r b e h in
    let s = spend_lem boost p (refill now b) in
    record {
      rated = s.0 ∙ f.rated;
      timed = subst (λ l. l ≤ now) (sym (s.1)) f.timed;
      conserved = omega (arith, s.2, f.conserved, ap (λ l. r * l) (s.1));
    }

-- The tokens that a bucket gives to a list of messages, each with the clock's reading.
pub granted : Bool → List (ℕ × Priority) → DeviceBucket → ℕ
unfolding consume_token priority_multiplier
granted boost [] b = 0
granted boost ((now, p) ∷ calls) b =
    let m = priority_multiplier boost p in
    let (c, allowed) = consume_token now m b in cost m allowed + granted boost calls c

-- The readings do not run back from `since` and end by `t`.
abbrev pub Ordered : ℕ → List (ℕ × Priority) → ℕ → Type 0
Ordered since [] t = since ≤ t
Ordered since ((now, p) ∷ calls) t = (since ≤ now) × Ordered now calls t

earlier : (s u t : ℕ) (calls : List (ℕ × Priority)) → s ≤ u → Ordered u calls t → Ordered s calls t
earlier s u t [] h o = omega arith
earlier s u t ((now, p) ∷ calls) h o = (omega (arith, o.0), o.1)

-- A device that sends at readings of the clock that do not run back is granted, whatever the
-- priorities are, at most the tokens it has, its rate times the time that passes, and 4.1 tokens
-- of debt, if its bucket is within bounds and its rate is not negative.
pub granted-bounded :
    (boost : Bool) (r t : ℕ) (calls : List (ℕ × Priority)) (b : DeviceBucket)
    → WithinBounds b
    → b.tokens_per_second ≡ pos r
    → Ordered b.last_updated calls t
    → granted boost calls b + neg_part b.available_tokens + r * b.last_updated
      ≤ pos_part b.available_tokens + 4_100_000_000_000 + r * t
unfolding granted
granted-bounded boost r t [] b v e o = omega (arith, v.owed, mul_diff r b.last_updated t o)
granted-bounded boost r t ((now, p) ∷ calls) b v e o =
    let m = priority_multiplier boost p in
    let c = (consume_token now m b).0 in
    let f = consume_token-Flow now r boost p b e o.0 in
    let w = consume_token-WithinBounds now boost p b v in
    let rest =
      granted-bounded boost r t calls c w f.rated
        (earlier c.last_updated now t calls f.timed o.1) in
    omega (arith, f.conserved, rest)

-- The tokens, in units, that a bucket must hold for a message of a priority: half a token's price
-- for twice the priority, and for a critical message a debt of less than four tokens.
pub required : Bool → Priority → ℤ
required false p = pos 1_000_000_000_000
required true low = pos 2_000_000_000_000
required true normal = pos 1_000_000_000_000
required true high = pos 200_000_000_000
required true critical = negsuc 3_999_999_999_998

-- Each message is counted, and counted as limited if it is refused.
pub record Counted (allowed : Bool) (b c : DeviceBucket) : Type 0 where
  pub messages : c.total_messages ≡ add64 b.total_messages 1
  pub limited :
      c.limited_messages ≡ (if allowed then b.limited_messages else add64 b.limited_messages 1)

spend-required :
    (boost : Bool) (p : Priority) (b : DeviceBucket)
    → let (c, allowed) = spend (priority_multiplier boost p) b in
      (allowed ≡ leb_ℤ (required boost p) b.available_tokens) × Counted allowed b c
unfolding spend priority_multiplier required
spend-required false p b = ground arith
spend-required true critical b = ground arith
spend-required true high b = ground arith
spend-required true normal b = ground arith
spend-required true low b = ground arith

refill-Counted :
    (now : ℕ) (b : DeviceBucket)
    → let c = refill now b in
      (c.total_messages ≡ b.total_messages) × (c.limited_messages ≡ b.limited_messages)
unfolding refill
refill-Counted now b = ground arith

-- A message is let through exactly if the tokens after the refill reach what its priority
-- requires, and the counters of the bucket tell which.
consume_token-required :
    (now : ℕ) (boost : Bool) (p : Priority) (b : DeviceBucket)
    → let (c, allowed) = consume_token now (priority_multiplier boost p) b in
      (allowed ≡ leb_ℤ (required boost p) (refill now b).available_tokens) × Counted allowed b c
unfolding consume_token
consume_token-required now boost p b =
    let s = spend-required boost p (refill now b) in
    let r = refill-Counted now b in
    (
      s.0,
      record {
        messages = s.1.messages ∙ ap (λ n. add64 n 1) r.0;
        limited = ground (arith, s.1.limited, r.1);
      },
    )

-- A check of one device leaves the bucket of another device as it is, so that a device that
-- sends too much does not use another's tokens; its own bucket is what `consume_token` leaves.
check_limit-lookup :
    (made now : ℕ) (id other : Bytes) (p : Priority) (l : RateLimiter)
    → lookup other (check_limit made now id p l).0.device_buckets ≡ (
        if id == other
        then some
            (consume_token now
              (priority_multiplier l.enable_priority_boost p)
              (find_or_make made id l)).0
        else lookup other l.device_buckets)
unfolding check_limit
check_limit-lookup made now id other p l =
    lookup-insert id other
      (consume_token now (priority_multiplier l.enable_priority_boost p) (find_or_make made id l)).0
      l.device_buckets
