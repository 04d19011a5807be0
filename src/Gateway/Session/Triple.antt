-- ===== src/Gateway/Session/Triple.antt =====
-- Conditions before and after a computation of the gateway, on the calls that it made.
use udp_to_rabbitmq_gateway.Base.{Bool, true, false, Option, none, some, List, [], ◌∷◌, ◌≡◌, refl}
use udp_to_rabbitmq_gateway.Gateway.Types.{GatewayMetrics}
use udp_to_rabbitmq_gateway.Gateway.Run.{
  Call, World, Run, pure, ◌>>=◌, ask, update, try_catch, for_each, then_run, catch_result,
}
use udp_to_rabbitmq_gateway.Gateway.Handler.{when}

-- I holds of the calls if the computation throws, Q of its value and the calls if it does not.
abbrev pub Ends :
    {A : Type 0} (I : List Call → Type 0) (Q : A → List Call → Type 0) → World × Option A → Type 0
Ends I Q (w, none) = I w.calls
Ends I Q (w, some a) = Q a w.calls

pub record Triple {A : Type 0} (I P : List Call → Type 0) (r : Run A) (Q : A → List Call → Type 0)
    : Type 0 where
  pub run : (w : World) → P w.calls → Ends I Q (r w)

pub pure-Triple :
    {A : Type 0} {I P : List Call → Type 0} {a : A} {Q : A → List Call → Type 0}
    → ((h : List Call) → P h → Q a h)
    → Triple I P (pure a) Q
pure-Triple f = record { run = λ w p. f w.calls p }

asked :
    {A : Type 0} (I : List Call → Type 0) (c : Call) (Q : A → List Call → Type 0)
    → (w : World) (o : Option A) → I (c ∷ w.calls)
    → ((a : A) → o ≡ some a → Q a (c ∷ w.calls))
    → Ends I Q (record w { calls = c ∷ w.calls }, o)
asked I c Q w none i q = i
asked I c Q w (some a) i q = q a refl

pub ask-Triple :
    {A : Type 0} {I P : List Call → Type 0} (c : Call) (answer : List Call → Option A)
    → {Q : A → List Call → Type 0} → ((h : List Call) → P h → I (c ∷ h))
    → ((h : List Call) (a : A) → P h → answer h ≡ some a → Q a (c ∷ h))
    → Triple I P (ask c answer) Q
unfolding ask
ask-Triple {I = I} c answer {Q = Q} f g = record {
  run = λ w p. asked I c Q w (answer w.calls) (f w.calls p) (λ a. g w.calls a p);
}

ended :
    {A B : Type 0} (I : List Call → Type 0) (Q : A → List Call → Type 0)
    → (R : B → List Call → Type 0) (k : A → Run B) (e : World × Option A) → Ends I Q e
    → ((a : A) → Triple I (Q a) (k a) R)
    → Ends I R (then_run e k)
ended I Q R k (w, none) q t = q
ended I Q R k (w, some a) q t = (t a).run w q

pub bind-Triple :
    {A B : Type 0} {I P : List Call → Type 0} {Q : A → List Call → Type 0}
    → {R : B → List Call → Type 0} {r : Run A} {k : A → Run B} → Triple I P r Q
    → ((a : A) → Triple I (Q a) (k a) R)
    → Triple I P (r >>= k) R
bind-Triple {I = I} {Q = Q} {R = R} {r = r} {k = k} t u = record {
  run = λ w p. ended I Q R k (r w) (t.run w p) u;
}

pub update-Triple :
    {I P : List Call → Type 0} (f : GatewayMetrics → GatewayMetrics)
    → Triple I P (update f) (λ u. P)
unfolding update
update-Triple f = record { run = λ w p. p }

pub when-Triple :
    {I P : List Call → Type 0} {r : Run (Unit {0})} (b : Bool)
    → Triple I P r (λ u. P)
    → Triple I P (when b r) (λ u. P)
when-Triple true t = t
when-Triple false t = record { run = λ w p. p }

handled :
    {A : Type 0} (I : List Call → Type 0) (Q : A → List Call → Type 0) (handler : Run A)
    → (e : World × Option A) → Ends I Q e
    → Triple I I handler Q
    → Ends I Q (catch_result handler e)
handled I Q handler (w, none) q t = t.run w q
handled I Q handler (w, some a) q t = q

pub try_catch-Triple :
    {A : Type 0} {I P : List Call → Type 0} {Q : A → List Call → Type 0} {r handler : Run A}
    → Triple I P r Q
    → Triple I I handler Q
    → Triple I P (try_catch r handler) Q
unfolding try_catch
try_catch-Triple {I = I} {Q = Q} {r = r} {handler = handler} t u = record {
  run = λ w p. handled I Q handler (r w) (t.run w p) u;
}

pub for_each-Triple :
    {A : Type 0} {P : List Call → Type 0} (f : A → Run (Unit {0})) (xs : List A)
    → ((x : A) → Triple P P (f x) (λ u. P))
    → Triple P P (for_each f xs) (λ u. P)
unfolding for_each
for_each-Triple f [] t = record { run = λ w p. p }
for_each-Triple f (x ∷ xs) t = bind-Triple (t x) (λ u. for_each-Triple f xs t)

pub before-Triple :
    {A : Type 0} {I P P' : List Call → Type 0} {r : Run A} {Q : A → List Call → Type 0}
    → ((h : List Call) → P' h → P h)
    → Triple I P r Q
    → Triple I P' r Q
before-Triple f t = record { run = λ w p. t.run w (f w.calls p) }
