-- ===== src/Metrics.antt =====
-- gateway/internal/metrics/metrics.go: the collectors that the package registers when it is
-- initialised.
-- Prometheus is outside: `register` is what `promauto` does with a collector and the default registry,
-- and `observe` is `Observe`. Buckets are in thousandths; the help texts are left out.
pub mod Init
use Prim.Native.String.{String}
use multi_terminal.Base.{ℕ, List, [], ◌∷◌}
use multi_terminal.Base.Outcome.{Outcome, ret, ◌>>=◌}

pub data Kind : Type 0 where
  gauge : Kind
  histogram : List ℕ → Kind
  counter_vec : List String → Kind
  histogram_vec : List ℕ → List String → Kind

pub record Collector : Type 0 where
  pub name : String
  pub kind : Kind

abbrev pub active_connections : Collector
active_connections = record { name = "gateway_active_connections"; kind = gauge }

abbrev pub ssh_sessions_total : Collector
ssh_sessions_total = record { name = "gateway_ssh_sessions_total"; kind = gauge }

abbrev pub fd_usage_percent : Collector
fd_usage_percent = record { name = "gateway_fd_usage_percent"; kind = gauge }

abbrev pub buffer_pool_hit_rate : Collector
buffer_pool_hit_rate = record { name = "gateway_buffer_pool_hit_rate"; kind = gauge }

abbrev pub slow_nodes_total : Collector
slow_nodes_total = record { name = "gateway_slow_nodes_total"; kind = gauge }

abbrev pub stream_router_latency_ms : Collector
stream_router_latency_ms = record {
  name = "gateway_stream_router_latency_ms";
  kind = histogram (1000 ∷ 5000 ∷ 10000 ∷ 20000 ∷ 50000 ∷ 100000 ∷ []);
}

abbrev pub requests_total : Collector
requests_total = record {
  name = "gateway_requests_total";
  kind = counter_vec ("method" ∷ "endpoint" ∷ []);
}

abbrev pub request_duration_seconds : Collector
request_duration_seconds = record {
  name = "gateway_request_duration_seconds";
  kind = histogram_vec (1 ∷ 5 ∷ 10 ∷ 50 ∷ 100 ∷ 500 ∷ 1000 ∷ []) ("method" ∷ "endpoint" ∷ []);
}

-- In the order in which the package's variables are initialised.
abbrev pub collectors : List Collector
collectors =
    active_connections ∷ ssh_sessions_total ∷ fd_usage_percent ∷ buffer_pool_hit_rate
    ∷ slow_nodes_total ∷ stream_router_latency_ms ∷ requests_total ∷ request_duration_seconds ∷ []

module _ {R : Type 0} (register : Collector → R → Outcome R) where
  unfoldable pub register_all : List Collector → R → Outcome R
  register_all [] r = ret r
  register_all (c ∷ cs) r = do s ← register c r; register_all cs s

  unfoldable pub init_metrics : R → Outcome R
  init_metrics r = register_all collectors r

-- `RecordStreamRouterLatency`
unfoldable pub record_stream_router_latency : {R F : Type 0} → (Collector → F → R → R) → F → R → R
record_stream_router_latency observe latency r = observe stream_router_latency_ms latency r
