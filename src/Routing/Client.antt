-- ===== src/Routing/Client.antt =====
-- src/server.go, handleMTProtoClient, over the fallbacks of the proxy: which connection a client gets,
-- what the proxy keeps behind it, and what it counts.
use tg_ws_proxy_go.Base.{
  ℕ, ◌+◌, ◌≡◌, ◌≢◌, refl, sym, subst, ap, ap₂, ◌∙◌, List, [], ◌∷◌, Bytes, Bool, false, Option, none,
  some, if◌then◌else◌, arith,
}
use tg_ws_proxy_go.CfProxy.State.{FallbackDialKey}
use tg_ws_proxy_go.WorkerPool.{get_worker}
use tg_ws_proxy_go.WsPool.{PooledWs}
use tg_ws_proxy_go.WsPool.Targets.{or_else, get_for_dc, IsApart, first_of_targets, get_for_dc-first}
use tg_ws_proxy_go.Routing.{or_then, do_fallback}
use tg_ws_proxy_go.Routing.Order.{
  Route, worker, cf, tcp, order, take_route, first_open, do_fallback-first_open, do_fallback-kept,
}
use tg_ws_proxy_go.Routing.Proxy.{
  WorkerKey, worker_key_discrete, PoolKey, pool_key_discrete, fallback_ip, mapped_dc, ws_domains,
  Config, Proxy, Network, Bridged, pooled_ws, has_cf_proxy_worker_domains, connect_worker_fallback,
  cf_worker_fallback, cf_fallback, tcp_fallback, fallback_target, primary_target, choice_of,
}
use tg_ws_proxy_go.Routing.Slots.{dials, fallbacks_of}

abbrev pub pool_key : ℕ → Bool → Bytes → PoolKey
pool_key dc is_media ip = record { dc = dc; is_media = is_media; target_ip = ip }

-- `ws := pool.getForDC(...)`.
unfoldable pub take_from_pool : Config → Network → ℕ → Bool → Proxy → Proxy × Option PooledWs
take_from_pool cfg n dc is_media s =
    let got =
      get_for_dc pool_key_discrete cfg.pool_size (pool_key dc is_media)
        (ws_domains (mapped_dc dc) is_media) n.broken n.look s.pool (cfg.dc_pool dc) in
    (record s { pool = got.0 }, got.1)

-- The end of handleMTProtoClient: the first write on the pool's connection, and the fallbacks.
unfoldable pub init_pooled :
    Network → Proxy → Option PooledWs → Proxy × Option Bridged → Proxy × Option Bridged
init_pooled n s none fallen = fallen
init_pooled n s (some ws) fallen =
    if n.pool_write
    then (record s { connections_ws = s.connections_ws + 1 }, some (pooled_ws ws.conn))
    else fallen

-- handleMTProtoClient up to the bridge, behind its ciphers.
unfoldable pub handle_mt_proto_client : Config → Network → ℕ → Bool → Proxy → Proxy × Option Bridged
handle_mt_proto_client cfg n dc is_media s =
    let target = fallback_target (fallback_ip dc) (primary_target cfg dc) in
    let got = take_from_pool cfg n dc is_media s in
    init_pooled n got.0 got.1
      (do_fallback (fallbacks_of cfg n dc target) (choice_of cfg got.0.cf_state target) got.0)

init_pooled-dials :
    (n : Network) (s : Proxy) (o : Option PooledWs) (fallen : Proxy × Option Bridged)
    (k : FallbackDialKey)
    → dials fallen.0 k ≡ dials s k
    → dials (init_pooled n s o fallen).0 k ≡ dials s k
unfolding init_pooled
init_pooled-dials n s none fallen k h = h
init_pooled-dials n s (some ws) fallen k h = ground (arith, h)

-- Whatever the network does to a client, and whatever the configuration: the connection is found, or
-- given up, with every dial slot given back: each domain has as many dials under way as before, in
-- both roles.
pub handle_mt_proto_client-dials :
    (cfg : Config) (n : Network) (dc : ℕ) (is_media : Bool) (s : Proxy) (k : FallbackDialKey)
    → dials (handle_mt_proto_client cfg n dc is_media s).0 k ≡ dials s k
unfolding handle_mt_proto_client init_pooled take_from_pool
handle_mt_proto_client-dials cfg n dc is_media s k =
    let target = fallback_target (fallback_ip dc) (primary_target cfg dc) in
    let got = take_from_pool cfg n dc is_media s in
    let fallen =
      do_fallback-kept (fallbacks_of cfg n dc target) (choice_of cfg got.0.cf_state target) got.0 in
    init_pooled-dials n got.0 got.1 _ k (ap (λ m. m k) fallen)

-- The connections that the statistics have counted, of all three kinds.
abbrev pub connections : Proxy → ℕ
connections s = s.connections_ws + s.connections_cf + s.connections_tcp

abbrev pub opened : Option Bridged → ℕ
opened none = 0
opened (some b) = 1

connect_worker_fallback-connections :
    (size : ℕ) (n : Network) (key : WorkerKey) (s : Proxy)
    → connections (connect_worker_fallback size n key s).0
      ≡ connections s + opened (connect_worker_fallback size n key s).1
unfolding connect_worker_fallback
connect_worker_fallback-connections size n key s = ground arith

take_route-connections :
    (cfg : Config) (n : Network) (dc : ℕ) (target : Bytes) (route : Route) (s : Proxy)
    → connections (take_route (fallbacks_of cfg n dc target) route s).0
      ≡ connections s + opened (take_route (fallbacks_of cfg n dc target) route s).1
unfolding cf_worker_fallback cf_fallback tcp_fallback
take_route-connections cfg n dc target worker s =
    let key : WorkerKey = record { dc = dc; dst = target } in
    let taken =
      get_worker worker_key_discrete cfg.pool_size s.workers key
        (has_cf_proxy_worker_domains s.cf_state) n.worker_time in
    ground (
      arith,
      connect_worker_fallback-connections cfg.pool_size n key (record s { workers = taken.0.0 }),
    )
take_route-connections cfg n dc target cf s = ground arith
take_route-connections cfg n dc target tcp s = ground arith

module _ (cfg : Config) (n : Network) (dc : ℕ) (target : Bytes) where
  or_then-connections :
      (t : Proxy × Option Bridged) (next : Proxy → Proxy × Option Bridged) (s : Proxy)
      → connections t.0 ≡ connections s + opened t.1
      → ((u : Proxy) → connections (next u).0 ≡ connections u + opened (next u).1)
      → connections (or_then (fallbacks_of cfg n dc target) t next).0
        ≡ connections s + opened (or_then (fallbacks_of cfg n dc target) t next).1
  unfolding or_then
  or_then-connections (t, none) next s h k = omega (arith, h, k t)
  or_then-connections (t, some b) next s h k = h

  first_open-connections :
      (routes : List Route) (s : Proxy)
      → connections (first_open (fallbacks_of cfg n dc target) routes s).0
        ≡ connections s + opened (first_open (fallbacks_of cfg n dc target) routes s).1
  first_open-connections [] s = omega arith
  first_open-connections (route ∷ routes) s =
      or_then-connections (take_route (fallbacks_of cfg n dc target) route s)
        (first_open (fallbacks_of cfg n dc target) routes) s
        (take_route-connections cfg n dc target route s) (first_open-connections routes)

init_pooled-connections :
    (n : Network) (s : Proxy) (o : Option PooledWs) (fallen : Proxy × Option Bridged)
    → connections fallen.0 ≡ connections s + opened fallen.1
    → connections (init_pooled n s o fallen).0 ≡ connections s + opened (init_pooled n s o fallen).1
unfolding init_pooled
init_pooled-connections n s none fallen h = h
init_pooled-connections n s (some ws) fallen h = ground (arith, h)

-- The statistics count each client that is bridged to Telegram once, whatever its route and however many
-- routes have failed before, and no client that is not.
pub handle_mt_proto_client-connections :
    (cfg : Config) (n : Network) (dc : ℕ) (is_media : Bool) (s : Proxy)
    → connections (handle_mt_proto_client cfg n dc is_media s).0
      ≡ connections s + opened (handle_mt_proto_client cfg n dc is_media s).1
unfolding handle_mt_proto_client take_from_pool
handle_mt_proto_client-connections cfg n dc is_media s =
    let target = fallback_target (fallback_ip dc) (primary_target cfg dc) in
    let got = take_from_pool cfg n dc is_media s in
    let choice = choice_of cfg got.0.cf_state target in
    init_pooled-connections n got.0 got.1 _ (
      subst (λ t. connections t.0 ≡ connections got.0 + opened t.1)
        (sym (do_fallback-first_open (fallbacks_of cfg n dc target) choice got.0))
        (first_open-connections cfg n dc target (order choice) got.0))

-- The bridge to the pool's connection, where its first write succeeds.
abbrev pub pooled_first : Network → Option PooledWs → Option Bridged
pooled_first n none = none
pooled_first n (some ws) = if n.pool_write then some (pooled_ws ws.conn) else none

init_pooled-or_else :
    (n : Network) (s : Proxy) (o : Option PooledWs) (fallen : Proxy × Option Bridged)
    → (init_pooled n s o fallen).1 ≡ or_else (pooled_first n o) fallen.1
unfolding init_pooled
init_pooled-or_else n s none fallen = refl
init_pooled-or_else n s (some ws) fallen = ground arith

-- Where PoolSize is not 0, the pool is open and the addresses of the data centre differ: a client is
-- bridged to the first connection of the pool, over the addresses in their order, that is not stale, if
-- that one takes the first packet, and no other one of the pool is tried; else to the first of the
-- routes in use, in their order, that opens on what the pool has left; and to none exactly if all of
-- these fail.
pub handle_mt_proto_client-route :
    (cfg : Config) (n : Network) (dc : ℕ) (is_media : Bool) (s : Proxy)
    → cfg.pool_size ≢ 0
    → s.pool.closed ≡ false
    → IsApart pool_key_discrete cfg.pool_size
        (pool_key dc is_media)
        (ws_domains (mapped_dc dc) is_media)
        n.broken
        n.look
        (cfg.dc_pool dc)
    → (handle_mt_proto_client cfg n dc is_media s).1
      ≡ or_else
          (pooled_first n (
            first_of_targets pool_key_discrete cfg.pool_size
              (pool_key dc is_media)
              (ws_domains (mapped_dc dc) is_media)
              n.broken
              n.look
              s.pool
              (cfg.dc_pool dc)))
          (first_open
            (fallbacks_of cfg n dc (fallback_target (fallback_ip dc) (primary_target cfg dc)))
            (order
              (choice_of cfg s.cf_state (fallback_target (fallback_ip dc) (primary_target cfg dc))))
            (take_from_pool cfg n dc is_media s).0).1
unfolding handle_mt_proto_client take_from_pool
handle_mt_proto_client-route cfg n dc is_media s size_ok is_open apart =
    let target = fallback_target (fallback_ip dc) (primary_target cfg dc) in
    let got = take_from_pool cfg n dc is_media s in
    init_pooled-or_else n got.0 got.1 _
    ∙ ap₂ (λ o b. or_else (pooled_first n o) b)
        (get_for_dc-first pool_key_discrete cfg.pool_size (pool_key dc is_media)
          (ws_domains (mapped_dc dc) is_media) n.broken n.look s.pool (cfg.dc_pool dc) size_ok
          is_open apart)
        (ap (λ t. t.1)
          (do_fallback-first_open (fallbacks_of cfg n dc target) (choice_of cfg s.cf_state target)
            got.0))
