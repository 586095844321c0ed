-- ===== src/Routing/Slots.antt =====
-- The fallbacks of src/server.go on the state that they share: each gives back the dial slots it takes.
use tg_ws_proxy_go.Base.{ℕ, ◌≡◌, fun_ext, Bytes, arith}
use tg_ws_proxy_go.CfProxy.State.{FallbackDialKey}
use tg_ws_proxy_go.CfProxy.Dials.{dials_of}
use tg_ws_proxy_go.CfProxy.Fallback.{cf_proxy_fallback-dials_of}
use tg_ws_proxy_go.WorkerPool.{get_worker}
use tg_ws_proxy_go.WorkerPool.Connect.{connect_worker-dials_of}
use tg_ws_proxy_go.Routing.{Fallbacks}
use tg_ws_proxy_go.Routing.Proxy.{
  WorkerKey, worker_key_discrete, Config, Proxy, Network, Bridged, has_cf_proxy_worker_domains,
  connect_worker_fallback, cf_worker_fallback, cf_fallback, tcp_fallback,
}

abbrev pub dials : Proxy → FallbackDialKey → ℕ
dials s = dials_of s.cf_state

connect_worker_fallback-dials :
    (size : ℕ) (n : Network) (key : WorkerKey) (s : Proxy) (k : FallbackDialKey)
    → dials (connect_worker_fallback size n key s).0 k ≡ dials s k
unfolding connect_worker_fallback
connect_worker_fallback-dials size n key s k =
    ground (arith, connect_worker-dials_of s.cf_state n.worker_trials k)

pub cf_worker_fallback-dials :
    (size : ℕ) (n : Network) (dc : ℕ) (dst : Bytes) (s : Proxy) (k : FallbackDialKey)
    → dials (cf_worker_fallback size n dc dst s).0 k ≡ dials s k
unfolding cf_worker_fallback
cf_worker_fallback-dials size n dc dst s k =
    let key : WorkerKey = record { dc = dc; dst = dst } in
    let taken =
      get_worker worker_key_discrete size s.workers key (has_cf_proxy_worker_domains s.cf_state)
        n.worker_time in
    ground (arith, connect_worker_fallback-dials size n key (record s { workers = taken.0.0 }) k)

pub cf_fallback-dials :
    (n : Network) (dc : ℕ) (s : Proxy) (k : FallbackDialKey)
    → dials (cf_fallback n dc s).0 k ≡ dials s k
unfolding cf_fallback
cf_fallback-dials n dc s k =
    ground (arith, (cf_proxy_fallback-dials_of s.cf_state dc 0 n.cf_trials k (omega arith)).1)

pub tcp_fallback-dials :
    (n : Network) (dst : Bytes) (s : Proxy) (k : FallbackDialKey)
    → dials (tcp_fallback n dst s).0 k ≡ dials s k
unfolding tcp_fallback
tcp_fallback-dials n dst s k = ground arith

-- The closures of doFallback.
abbrev pub fallbacks_of :
    Config → Network → ℕ → Bytes → Fallbacks Proxy Bridged (FallbackDialKey → ℕ)
fallbacks_of cfg n dc target = record {
  try_worker = cf_worker_fallback cfg.pool_size n dc target;
  try_cf = cf_fallback n dc;
  dial_tcp = tcp_fallback n target;
  measure = dials;
  worker_kept = λ s. fun_ext (cf_worker_fallback-dials cfg.pool_size n dc target s);
  cf_kept = λ s. fun_ext (cf_fallback-dials n dc s);
  tcp_kept = λ s. fun_ext (tcp_fallback-dials n target s);
}
