-- ===== src/Gateway/Lifecycle.antt =====
-- components/udp-gateway/src/gateway.cpp: starting and stopping the gateway. A session is an entry of
-- `activeSessions_`, its endpoint with whether it is active; the threads are a number.
use udp_to_rabbitmq_gateway.Base.{
  ℕ, ◌+◌, ◌≡◌, Bool, true, false, ◌&&◌, [], codes, nat_eq, nat_beq, ltb, if◌then◌else◌, length,
  arith,
}
use udp_to_rabbitmq_gateway.Base.Maps.{Map, insert}
use udp_to_rabbitmq_gateway.Gateway.Types.{internal_error, invalid_configuration, Result, ok, error}

-- `timer_created` is `metricsTimer_ != nullptr`, `timer_armed` that it waits.
pub record Gateway : Type 0 where
  pub num_worker_threads : ℕ
  pub enable_metrics : Bool
  pub has_collector : Bool
  pub running : Bool
  pub work_guard : Bool
  pub worker_threads : ℕ
  pub timer_created : Bool
  pub timer_armed : Bool
  pub active_sessions : Map ℕ Bool
  pub active_connections : ℕ
  pub peak_connections : ℕ

-- `initialize`, where the hardware's number of threads may be 0.
unfoldable pub initialize : ℕ → Gateway → Gateway
initialize hardware g =
    if nat_beq g.num_worker_threads 0
    then (record g { num_worker_threads = if nat_beq hardware 0 then 4 else hardware })
    else g

unfoldable pub start_accept : ℕ → Gateway → Gateway
start_accept endpoint g =
    if g.running then (record g { active_sessions = insert endpoint true g.active_sessions }) else g

unfoldable pub handle_accept : ℕ → Gateway → Gateway
unfolding start_accept
handle_accept endpoint g = if g.running then start_accept endpoint g else g

unfoldable pub update_metrics : Gateway → Gateway
update_metrics g =
    if g.enable_metrics && g.has_collector && g.running
    then (let n = length g.active_sessions in
        record g {
          active_connections = n;
          peak_connections = if ltb g.peak_connections n then n else g.peak_connections;
          timer_armed = true;
        })
    else g

-- `start` behind `setupSocket`
unfoldable pub launch : ℕ → Gateway → Gateway
unfolding start_accept update_metrics
launch endpoint g =
    let h : Gateway = record g {
      work_guard = true;
      worker_threads = g.worker_threads + g.num_worker_threads;
    } in
    let timed : Gateway =
      if h.enable_metrics && h.has_collector
      then update_metrics (record h { timer_created = true; timer_armed = false })
      else h in
    record (start_accept endpoint timed) { running = true }

-- `bound` tells that `setupSocket` does not throw.
unfoldable pub start : Bool → ℕ → Gateway → Gateway × Result Bool
unfolding launch
start bound endpoint g =
    if g.running
    then (g, error invalid_configuration (codes "Gateway is already running"))
    else (if bound
        then (launch endpoint g, ok true)
        else (g, error internal_error (codes "Failed to start gateway: ")))

unfoldable pub stop : Gateway → Gateway
stop g =
    if g.running
    then (record g {
      running = false;
      work_guard = false;
      timer_armed = false;
      active_sessions = [];
      worker_threads = 0;
    })
    else g

unfoldable pub get_active_connection_count : Gateway → ℕ
get_active_connection_count g = length g.active_sessions

launch_lem :
    (endpoint : ℕ) (g : Gateway)
    → g.running ≡ false
    → let h = launch endpoint g in
      (h.active_sessions ≡ g.active_sessions)
      × (h.timer_armed ≡ (if g.enable_metrics && g.has_collector then false else g.timer_armed))
      × (h.running ≡ true)
      × (h.worker_threads ≡ g.worker_threads + g.num_worker_threads)
unfolding launch start_accept update_metrics
launch_lem endpoint g e = ground (arith, e)

-- Starting a stopped gateway whose socket can be bound succeeds, marks it running and starts its
-- threads, but creates no session, and does not arm the timer of the metrics that it makes,
-- since `startAccept` and `updateMetrics` test `running_` before `start` sets it.
pub start-sessions :
    (endpoint : ℕ) (g : Gateway)
    → g.running ≡ false
    → let (h, result) = start true endpoint g in
      (result ≡ ok true)
      × (h.running ≡ true)
      × (h.active_sessions ≡ g.active_sessions)
      × (h.timer_armed ≡ (if g.enable_metrics && g.has_collector then false else g.timer_armed))
      × (h.worker_threads ≡ g.worker_threads + g.num_worker_threads)
unfolding start
start-sessions endpoint g e = ground (arith, e, launch_lem endpoint g e)
