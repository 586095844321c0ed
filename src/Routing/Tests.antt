-- ===== src/Routing/Tests.antt =====
-- One client of data centre 2 whose pool is empty, and one whose pool holds a connection.
use tg_ws_proxy_go.Base.{ℕ, ◌≡◌, refl, [], ◌∷◌, Bytes, true, false, no_entries, insert, ap, arith}
use tg_ws_proxy_go.TcpBackoff.{Outcome}
use tg_ws_proxy_go.CfProxy.State.{CfState, DialError}
use tg_ws_proxy_go.WorkerPool.{new_worker_pool}
use tg_ws_proxy_go.WsPool.{new_ws_pool}
use tg_ws_proxy_go.WsPool.Targets.{or_else, first_of_targets}
use tg_ws_proxy_go.Routing.{do_fallback}
use tg_ws_proxy_go.Routing.Order.{order, first_open, do_fallback-first_open}
use tg_ws_proxy_go.Routing.Proxy.{
  pool_key_discrete, fallback_ip, ws_domains, Config, Proxy, Network, PoolKey, fallback_target,
  primary_target, choice_of,
}
use tg_ws_proxy_go.Routing.Slots.{dials, fallbacks_of}
use tg_ws_proxy_go.Routing.Client.{
  pool_key, take_from_pool, handle_mt_proto_client, handle_mt_proto_client-dials, pooled_first,
  handle_mt_proto_client-route,
}

abbrev worker_domain : Bytes
worker_domain = 119 ∷ []

abbrev one_worker : CfState
one_worker = record {
  domains = [];
  worker_domains = worker_domain ∷ [];
  active = [];
  per_dc_active = no_entries;
  last_domain = [];
  fail_until = no_entries;
  worker_fail_until = no_entries;
  fallback_dials = no_entries;
}

abbrev started : Proxy
started = record {
  cf_state = one_worker;
  workers = new_worker_pool;
  tcp_routes = no_entries;
  pool = new_ws_pool;
  connections_ws = 0;
  connections_cf = 0;
  connections_tcp = 0;
}

abbrev config : Config
config = record {
  pool_size = 4;
  fallback_cf_proxy = true;
  fallback_cf_proxy_priority = true;
  dc_pool = λ dc. (7 ∷ []) ∷ (8 ∷ []) ∷ [];
}

-- The Worker's dial fails, and the direct one succeeds.
abbrev network : Network
network = record {
  look = λ ip. (10, 10);
  broken = λ conn. false;
  pool_write = true;
  worker_time = 10;
  worker_write = true;
  worker_trials =
      record {
        domain = worker_domain;
        ended_before = false;
        begun = 10;
        outcome = DialError.other;
        finished = 11;
        conn = 0;
      }
      ∷ [];
  cf_trials = [];
  tcp_attempt = record {
    canceled_before = false;
    begun = 12;
    dial = Outcome.success;
    init_write = Outcome.success;
    canceled_after = false;
    finished = 13;
  };
}

do_fallback-first_open_example :
    do_fallback
      (fallbacks_of config network 2 (fallback_ip 2))
      (choice_of config one_worker (fallback_ip 2))
      started
    ≡ first_open
        (fallbacks_of config network 2 (fallback_ip 2))
        (order (choice_of config one_worker (fallback_ip 2)))
        started
do_fallback-first_open_example =
    do_fallback-first_open (fallbacks_of config network 2 (fallback_ip 2))
      (choice_of config one_worker (fallback_ip 2)) started

handle_mt_proto_client-dials_example :
    dials
      (handle_mt_proto_client config network 2 false started).0
      (record { domain = worker_domain; worker = true })
    ≡ 0
handle_mt_proto_client-dials_example =
    handle_mt_proto_client-dials config network 2 false started
      (record { domain = worker_domain; worker = true })

abbrev stocked : Proxy
stocked = record started {
  pool = record new_ws_pool {
    idle =
        insert pool_key_discrete (pool_key 2 false (8 ∷ [])) (record { conn = 5; created = 9 } ∷ [])
          no_entries;
  };
}

target_of : PoolKey → ℕ
target_of key = first_byte key.target_ip
  where
    first_byte : Bytes → ℕ
    first_byte [] = 0
    first_byte (b ∷ bs) = b

handle_mt_proto_client-route_example :
    (handle_mt_proto_client config network 2 false stocked).1
    ≡ or_else
        (pooled_first network (
          first_of_targets pool_key_discrete 4
            (pool_key 2 false)
            (ws_domains 2 false)
            network.broken
            network.look
            stocked.pool
            (config.dc_pool 2)))
        (first_open
          (fallbacks_of config network 2
            (fallback_target (fallback_ip 2) (primary_target config 2)))
          (order (
            choice_of config one_worker
              (fallback_target (fallback_ip 2) (primary_target config 2))))
          (take_from_pool config network 2 false stocked).0).1
handle_mt_proto_client-route_example =
    handle_mt_proto_client-route config network 2 false stocked (λ e. omega (arith, e)) refl
      (((λ e. unfold target_of in omega (arith, ap target_of e)), tt), (tt, tt))
