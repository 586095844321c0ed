-- ===== src/WsPool.antt =====
-- src/pool.go: the pool of idle WebSocket connections, one bucket for each data centre, kind and target.
-- Every definition that changes the pool is one critical section under wsPool.mu. Keys are of any type
-- with decided equality, domains of any type. A connection is its number and the time it was made;
-- whether its first read has failed by now is asked of the network, the parameter `broken`. Times are
-- nanoseconds, and the zero time is 0; PoolSize is a number, 0 standing for all that are not positive.
pub mod Refill
pub mod Bounds
pub mod Get
pub mod Targets
mod Tests
use tg_ws_proxy_go.Base.{
  ℕ, zero, suc, ◌+◌, ◌-◌, ◌*◌, List, [], ◌∷◌, ◌++◌, Bool, true, false, not, ◌||◌, ◌&&◌, Option,
  none, some, ltb, leb, ◌==◌, if◌then◌else◌, min, max, length, GoMap, no_entries, read_or, insert,
  delete,
}

abbrev pub ws_pool_max_age : ℕ
ws_pool_max_age = 120 * 1000000000

abbrev pub ws_pool_backoff_min : ℕ
ws_pool_backoff_min = 5 * 1000000000

abbrev pub ws_pool_backoff_max : ℕ
ws_pool_backoff_max = 60 * 1000000000

pub record PooledWs : Type 0 where
  pub conn : ℕ
  pub created : ℕ

pub record PoolRoute (D : Type 0) : Type 0 where
  pub domains : List D
  pub retry_delay : ℕ
  pub retry_after : ℕ

abbrev pub no_route : {D : Type 0} → PoolRoute D
no_route = record { domains = []; retry_delay = 0; retry_after = 0 }

-- What one round of get comes to: nothing to give, a stale connection that it closes before it goes
-- round again, or a connection.
pub data Got : Type 0 where
  is_closed miss : Got
  is_stale hit : PooledWs → Got

unfoldable pub stale : (ℕ → Bool) → ℕ → PooledWs → Bool
stale broken now ws = leb ws_pool_max_age (now - ws.created) || broken ws.conn

-- The connections of a bucket that are not stale, and those that are.
unfoldable pub ready : (ℕ → Bool) → ℕ → List PooledWs → List PooledWs
ready broken now [] = []
ready broken now (ws ∷ bucket) =
    let rest = ready broken now bucket in if stale broken now ws then rest else ws ∷ rest

unfoldable pub expired : (ℕ → Bool) → ℕ → List PooledWs → List PooledWs
expired broken now [] = []
expired broken now (ws ∷ bucket) =
    let rest = expired broken now bucket in if stale broken now ws then ws ∷ rest else rest

pub record WsPool (K D : Type 0) : Type 0 where
  pub closed : Bool
  pub idle : GoMap K (List PooledWs)
  pub refilling : GoMap K Bool
  pub routes : GoMap K (PoolRoute D)

module _ {K D : Type 0} where
  abbrev pub bucket : WsPool K D → K → List PooledWs
  bucket p key = read_or (p.idle key) []

  abbrev pub is_refilling : WsPool K D → K → Bool
  is_refilling p key = read_or (p.refilling key) false

  abbrev pub new_ws_pool : WsPool K D
  new_ws_pool = record {
    closed = false;
    idle = no_entries;
    refilling = no_entries;
    routes = no_entries;
  }

module _ {K D : Type 0} (d : Discrete K) (size : ℕ) where
  -- `route, known := p.routes[key]; if !known { ... }`.
  unfoldable pub with_route : WsPool K D → K → List D → WsPool K D
  with_route p key domains = elim (p.routes key) [
    | none ↦ record p { routes = insert d key (record no_route { domains = domains }) p.routes }
    | some route ↦ p
  ]

  -- The Boolean tells whether the goroutine of refill is started.
  unfoldable pub schedule_refill : WsPool K D → K → List D → ℕ → WsPool K D × Bool
  schedule_refill p key domains now =
      let q = with_route p key domains in
      if p.closed || size == 0
      then (p, false)
      else if is_refilling q key
          || leb size (length (bucket q key))
          || ltb now (read_or (q.routes key) no_route).retry_after
      then (q, false)
      else (record q { refilling = insert d key true q.refilling }, true)

  -- The part of a round behind the check of closed, on the bucket of the key.
  unfoldable pub get_from :
      List PooledWs → WsPool K D → K → List D → (ℕ → Bool) → ℕ → ℕ → (WsPool K D × Bool) × Got
  get_from [] p key domains broken now at = (schedule_refill p key domains at, miss)
  get_from (item ∷ rest) p key domains broken now at = (
    schedule_refill (record p { idle = insert d key rest p.idle }) key domains at,
    if stale broken now item then is_stale item else hit item,
  )

  -- One round of get: `now` is the time at its start, `at` that of scheduleRefill.
  unfoldable pub get_round :
      WsPool K D → K → List D → (ℕ → Bool) → ℕ → ℕ → (WsPool K D × Bool) × Got
  get_round p key domains broken now at =
      if p.closed
      then ((p, false), is_closed)
      else get_from (bucket p key) p key domains broken now at

  -- One route of rotate.
  unfoldable pub rotate_key : WsPool K D → K → (ℕ → Bool) → ℕ → (WsPool K D × Bool) × List PooledWs
  rotate_key p key broken now = (
    schedule_refill (record p { idle = insert d key (ready broken now (bucket p key)) p.idle }) key
        (read_or (p.routes key) no_route).domains now,
    expired broken now (bucket p key),
  )

  -- rotate, over the keys of p.routes in the order in which the map gives them: the keys whose refill
  -- starts, and the connections to close. All of it happens at one time.
  unfoldable pub rotate :
      WsPool K D → List K → (ℕ → Bool) → ℕ → (WsPool K D × List K) × List PooledWs
  rotate p [] broken now = ((p, []), [])
  rotate p (key ∷ keys) broken now =
      let ((p1, started), old) = rotate_key p key broken now in
      let ((p2, more), older) = rotate p1 keys broken now in
      ((p2, if started then key ∷ more else more), old ++ older)

  -- The loops of warmup, over its keys with their domains.
  unfoldable pub warmup_loop : WsPool K D → List (K × List D) → ℕ → WsPool K D × List K
  warmup_loop p [] now = (p, [])
  warmup_loop p (target ∷ targets) now =
      let (p1, started) = schedule_refill p target.0 target.1 now in
      let (p2, more) = warmup_loop p1 targets now in (p2, if started then target.0 ∷ more else more)

  unfoldable pub warmup : WsPool K D → List (K × List D) → ℕ → WsPool K D × List K
  warmup p targets now =
      let warmed = warmup_loop p targets now in if size == 0 || p.closed then (p, []) else warmed

  -- The first critical section of a round of refill: whether it returns.
  abbrev pub refill_is_full : WsPool K D → K → Bool
  refill_is_full p key = p.closed || leb size (length (bucket p key))

  -- The critical section behind a failure.
  unfoldable pub refill_failed : WsPool K D → K → List D → ℕ → WsPool K D
  refill_failed p key domains now =
      let route = read_or (p.routes key) no_route in
      let delay = min (max (route.retry_delay * 2) ws_pool_backoff_min) ws_pool_backoff_max in
      if p.closed then p else record p {
        routes =
            insert d key
              (record { domains = domains; retry_delay = delay; retry_after = now + delay })
              p.routes;
      }

  -- The critical section behind a connection: false where refill closes it and returns.
  unfoldable pub refill_connected : WsPool K D → K → List D → PooledWs → WsPool K D × Bool
  refill_connected p key domains ws = if p.closed then (p, false) else (
    record p {
      idle = insert d key (bucket p key ++ ws ∷ []) p.idle;
      routes = insert d key (record no_route { domains = domains }) p.routes;
    },
    true,
  )

  -- The deferred function of refill.
  unfoldable pub refill_end : WsPool K D → K → WsPool K D
  refill_end p key = record p { refilling = delete d key p.refilling }

  -- Close: the pool, and the connections that it closes. closeOnce has run exactly when the pool is
  -- closed.
  unfoldable pub close : WsPool K D → WsPool K D × (K → List PooledWs)
  close p =
      if p.closed then (p, λ k. []) else (record p { closed = true; idle = no_entries }, bucket p)
