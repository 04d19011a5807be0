-- ===== src/Parser/Packet/Reads.antt =====
-- Where in the packet the parser reads.
use udp_to_rabbitmq_gateway.Base.{
  ℕ, zero, suc, ◌+◌, ◌<◌, ◌≤◌, ◌≡◌, refl, Bool, true, false, Option, none, some, [], ◌∷◌, Bytes,
  length, ltb, if◌then◌else◌, ◌>>=◌, arith,
}
use udp_to_rabbitmq_gateway.Parser.Packet.{read, read32}

abbrev pub IsDefined : {A : Type 0} → Option A → Type 0
IsDefined none = ⊥
IsDefined (some a) = Unit {0}

-- A branch is taken only where its test holds.
pub if-IsDefined :
    {A : Type 0} (b : Bool) (x y : Option A)
    → (b ≡ true → IsDefined x)
    → (b ≡ false → IsDefined y)
    → IsDefined (if b then x else y)
if-IsDefined true x y f g = f refl
if-IsDefined false x y f g = g refl

pub read-IsDefined :
    {B : Type 0} (data_ : Bytes) (i : ℕ) (k : ℕ → Option B)
    → i < length data_
    → ((b : ℕ) → IsDefined (k b))
    → IsDefined (read data_ i >>= k)
unfolding read
read-IsDefined [] i k h f = absurd (omega arith)
read-IsDefined (b ∷ data_) zero k h f = f b
read-IsDefined (b ∷ data_) (suc i) k h f = read-IsDefined data_ i k (omega arith) f

pub bind-IsDefined :
    {A B : Type 0} (o : Option A) (k : A → Option B)
    → IsDefined o
    → ((a : A) → IsDefined (k a))
    → IsDefined (o >>= k)
bind-IsDefined none k d f = d
bind-IsDefined (some a) k d f = f a

pub read32-IsDefined : (data_ : Bytes) (i : ℕ) → i + 3 < length data_ → IsDefined (read32 data_ i)
unfolding read32
read32-IsDefined data_ i h = read-IsDefined data_ i _ (omega arith) (λ a.
    read-IsDefined data_ (i + 1) _ (omega arith) (λ b.
      read-IsDefined data_ (i + 2) _ (omega arith)
        (λ c. read-IsDefined data_ (i + 3) _ h (λ d. tt))))

pub not_less : (a b : ℕ) → ltb a b ≡ false → b ≤ a
not_less a b h = ground (arith, h)
