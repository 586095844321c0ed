-- ===== src/Routing/Proxy.antt =====
-- The fallbacks of src/server.go and src/transport.go on the state that they share: the domain state of
-- Config, the pools and the backoff of direct connections. The bridge behind a connection is a part of
-- its own, so each fallback here ends where bridgeWS or the loops of tcpFallback begin.
use tg_ws_proxy_go.Base.{
  ℕ, ◌+◌, List, [], ◌∷◌, Bytes, Bool, true, false, not, ◌&&◌, Option, none, some, if◌then◌else◌,
  GoMap, ℕ_discrete, ◌==◌, ◌++◌, codes, itoa,
}
use tg_ws_proxy_go.TcpBackoff.{
  TcpAttempt, Attempt, connected, not_started, in_backoff, not_connected, connect_tcp_fallback,
}
use tg_ws_proxy_go.CfProxy.Names.{Domain}
use tg_ws_proxy_go.CfProxy.State.{CfState}
use tg_ws_proxy_go.CfProxy.Fallback.{
  FallbackTrial, is_bridged, is_canceled, no_domains, cf_proxy_fallback,
}
use tg_ws_proxy_go.WorkerPool.{WorkerPool, miss, too_old, hit, schedule_worker, get_worker}
use tg_ws_proxy_go.WorkerPool.Connect.{Trial, Connection, connect_worker}
use tg_ws_proxy_go.WsPool.{WsPool}
use tg_ws_proxy_go.Routing.{Choice}

-- workerPoolKey, and poolKey: the target's address, dcKey.DC and dcKey.IsMedia.
pub record WorkerKey : Type 0 where
  pub dc : ℕ
  pub dst : Bytes

pub worker_key_discrete : Discrete WorkerKey
worker_key_discrete = hlevel ℕ_discrete

pub bytes_discrete : Discrete Bytes
bytes_discrete = hlevel ℕ_discrete

pub record PoolKey : Type 0 where
  pub dc : ℕ
  pub is_media : Bool
  pub target_ip : Bytes

pub pool_key_discrete : Discrete PoolKey
pool_key_discrete = hlevel ℕ_discrete

-- dcFallbackDefaults, with "" for a key that it does not have: fallbackIP.
unfoldable pub fallback_ip : ℕ → Bytes
fallback_ip dc =
    if dc == 1
    then codes "149.154.175.50"
    else if dc == 2
    then codes "149.154.167.51"
    else if dc == 3
    then codes "149.154.175.100"
    else if dc == 4
    then codes "149.154.167.91"
    else if dc == 5
    then codes "149.154.171.5"
    else if dc == 203
    then codes "91.105.192.100"
    else []

-- dcOverrides.
abbrev pub mapped_dc : ℕ → ℕ
mapped_dc dc = if dc == 203 then 2 else dc

unfoldable pub ws_domains : ℕ → Bool → List Domain
ws_domains dc true =
    (codes "kws" ++ itoa dc ++ codes "-1.web.telegram.org")
    ∷ (codes "kws" ++ itoa dc ++ codes ".web.telegram.org")
    ∷ []
ws_domains dc false = (codes "kws" ++ itoa dc ++ codes ".web.telegram.org") ∷ []

-- PoolSize (0 for all that are not positive), FallbackCFProxy, FallbackCFProxyPriority, DCPool.
pub record Config : Type 0 where
  pub pool_size : ℕ
  pub fallback_cf_proxy : Bool
  pub fallback_cf_proxy_priority : Bool
  pub dc_pool : ℕ → List Bytes

-- What the clients share; the last three are of stats.
pub record Proxy : Type 0 where
  pub cf_state : CfState
  pub workers : WorkerPool WorkerKey
  pub tcp_routes : GoMap Bytes TcpAttempt
  pub pool : WsPool PoolKey Domain
  pub connections_ws : ℕ
  pub connections_cf : ℕ
  pub connections_tcp : ℕ

-- What the network and the clock do to one client: the times of the pools' gets; which idle connections
-- are broken; whether the first write succeeds on a connection of the pool and of the Worker pool;
-- the trials of the two loops of dials, and the direct connection.
pub record Network : Type 0 where
  pub look : Bytes → ℕ × ℕ
  pub broken : ℕ → Bool
  pub pool_write : Bool
  pub worker_time : ℕ
  pub worker_write : Bool
  pub worker_trials : List Trial
  pub cf_trials : List FallbackTrial
  pub tcp_attempt : Attempt

-- The connection that a client is bridged to.
pub data Bridged : Type 0 where
  pooled_ws : ℕ → Bridged
  pooled_worker : ℕ → Bridged
  dialled_worker : ℕ → Domain → Bridged
  dialled_cf : Domain → Bridged
  dialled_tcp : Bytes → Bridged

abbrev pub is_empty : {A : Type 0} → List A → Bool
is_empty [] = true
is_empty (x ∷ xs) = false

-- hasCFProxyDomains and hasCFProxyWorkerDomains.
abbrev pub has_cf_proxy_domains : CfState → Bool
has_cf_proxy_domains s = not (is_empty s.domains)

abbrev pub has_cf_proxy_worker_domains : CfState → Bool
has_cf_proxy_worker_domains s = not (is_empty s.worker_domains)

-- connectWorker and workers.refill, where the pool has given no connection.
unfoldable pub connect_worker_fallback : ℕ → Network → WorkerKey → Proxy → Proxy × Option Bridged
connect_worker_fallback size n key s =
    let done = connect_worker s.cf_state n.worker_trials in
    let failed : Proxy = record s { cf_state = done.0 } in
    elim done.1 [
      | Connection.connected conn domain ↦ (
        record s {
          cf_state = done.0;
          workers =
              (schedule_worker worker_key_discrete size s.workers key
                (has_cf_proxy_worker_domains done.0)).0;
          connections_cf = s.connections_cf + 1;
        },
        some (dialled_worker conn domain),
      )
      | Connection.is_canceled ↦ (failed, none)
      | Connection.no_domains ↦ (failed, none)
    ]

-- cfWorkerFallback up to its bridge.
unfoldable pub cf_worker_fallback : ℕ → Network → ℕ → Bytes → Proxy → Proxy × Option Bridged
cf_worker_fallback size n dc dst s =
    let key : WorkerKey = record { dc = dc; dst = dst } in
    let taken =
      get_worker worker_key_discrete size s.workers key (has_cf_proxy_worker_domains s.cf_state)
        n.worker_time in
    let s1 : Proxy = record s { workers = taken.0.0 } in
    let dialled = connect_worker_fallback size n key s1 in
    if is_empty dst then (s, none) else elim taken.1 [
      | miss ↦ dialled
      | too_old item ↦ dialled
      | hit item ↦
          if n.worker_write
          then (
            record s1 { connections_cf = s1.connections_cf + 1 },
            some (pooled_worker item.conn),
          )
          else dialled
    ]

-- cfproxyFallback up to its bridge; promoteCFProxyDomain is a part of cf_proxy_fallback.
unfoldable pub cf_fallback : Network → ℕ → Proxy → Proxy × Option Bridged
cf_fallback n dc s =
    let done = cf_proxy_fallback s.cf_state dc 0 n.cf_trials in
    let failed : Proxy = record s { cf_state = done.0.0 } in
    elim done.1 [
      | is_bridged domain ↦ (
        record s { cf_state = done.0.0; connections_cf = s.connections_cf + 1 },
        some (dialled_cf domain),
      )
      | is_canceled ↦ (failed, none)
      | no_domains ↦ (failed, none)
    ]

-- tcpFallback up to its loops. The port of the address is always 443, so it is left out.
unfoldable pub tcp_fallback : Network → Bytes → Proxy → Proxy × Option Bridged
tcp_fallback n dst s =
    let done = connect_tcp_fallback bytes_discrete s.tcp_routes dst n.tcp_attempt in
    let failed : Proxy = record s { tcp_routes = done.0 } in
    elim done.1 [
      | connected ↦ (
        record s { tcp_routes = done.0; connections_tcp = s.connections_tcp + 1 },
        some (dialled_tcp dst),
      )
      | not_started ↦ (failed, none)
      | in_backoff ↦ (failed, none)
      | not_connected ↦ (failed, none)
    ]

-- `fallback := fallbackIP(hi.DC); if fallback == "" { fallback = primaryTarget }`.
abbrev pub fallback_target : Bytes → Bytes → Bytes
fallback_target default primary = if is_empty default then primary else default

abbrev pub first_target : List Bytes → Bytes
first_target [] = []
first_target (ip ∷ ips) = ip

abbrev pub primary_target : Config → ℕ → Bytes
primary_target cfg dc = first_target (cfg.dc_pool dc)

-- What doFallback reads of the configuration, at its start.
abbrev pub choice_of : Config → CfState → Bytes → Choice
choice_of cfg s target = record {
  use_worker = has_cf_proxy_worker_domains s;
  use_cf = cfg.fallback_cf_proxy && has_cf_proxy_domains s;
  cf_priority = cfg.fallback_cf_proxy_priority;
  has_target = not (is_empty target);
}
