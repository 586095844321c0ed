-- ===== src/WorkerPool.antt =====
-- src/worker_pool.go: the pool of Worker connections, at most one idle for each data centre and
-- destination. Every definition that changes the pool is one critical section under workerPool.mu.
-- Keys are of any type with decided equality; a connection is its number and the time it was made.
-- Times are nanoseconds; PoolSize is a number, 0 standing for all that are not positive, and
-- `has_domains` is what hasCFProxyWorkerDomains answers at the call.
pub mod Single
pub mod Connect
mod Tests
use tg_ws_proxy_go.Base.{
  ℕ, ◌+◌, ◌-◌, ◌*◌, List, Bool, true, false, not, ◌||◌, Option, none, some, ltb, leb, ◌==◌,
  if◌then◌else◌, GoMap, no_entries, read_or, insert, delete,
}

abbrev pub worker_pool_max_age : ℕ
worker_pool_max_age = 100 * 1000000000

pub record PooledWorker : Type 0 where
  pub conn : ℕ
  pub created : ℕ

pub record WorkerPool (K : Type 0) : Type 0 where
  pub closed : Bool
  pub idle : GoMap K PooledWorker
  pub refilling : GoMap K Bool

-- What get comes to: nothing, a connection that it closes as too old, or a connection.
pub data Taken : Type 0 where
  miss : Taken
  too_old hit : PooledWorker → Taken

abbrev pub new_worker_pool : {K : Type 0} → WorkerPool K
new_worker_pool = record { closed = false; idle = no_entries; refilling = no_entries }

abbrev pub is_idle : Option PooledWorker → Bool
is_idle none = false
is_idle (some item) = true

module _ {K : Type 0} (d : Discrete K) (size : ℕ) where
  -- The Boolean tells whether the goroutine is started.
  unfoldable pub schedule_worker : WorkerPool K → K → Bool → WorkerPool K × Bool
  schedule_worker p key has_domains =
      if p.closed || size == 0 || read_or (p.refilling key) false || not has_domains
      then (p, false)
      else if is_idle (p.idle key)
      then (p, false)
      else (record p { refilling = insert d key true p.refilling }, true)

  -- The part of get behind its first check, on p.idle[key].
  unfoldable pub take_worker :
      Option PooledWorker → WorkerPool K → K → Bool → ℕ → (WorkerPool K × Bool) × Taken
  take_worker none p key has_domains now = ((record p { idle = delete d key p.idle }, false), miss)
  take_worker (some item) p key has_domains now = (
    schedule_worker (record p { idle = delete d key p.idle }) key has_domains,
    if leb worker_pool_max_age (now - item.created) then too_old item else hit item,
  )

  unfoldable pub get_worker : WorkerPool K → K → Bool → ℕ → (WorkerPool K × Bool) × Taken
  get_worker p key has_domains now =
      if p.closed || size == 0
      then ((p, false), miss)
      else take_worker (p.idle key) p key has_domains now

  -- The critical section of the goroutine behind its dial: the answer tells whether the connection is
  -- kept, else it is closed.
  unfoldable pub worker_dialled : WorkerPool K → K → Option PooledWorker → WorkerPool K × Bool
  worker_dialled p key none = (record p { refilling = delete d key p.refilling }, false)
  worker_dialled p key (some item) =
      if p.closed then (record p { refilling = delete d key p.refilling }, false) else (
        record p { refilling = delete d key p.refilling; idle = insert d key item p.idle },
        true,
      )

  -- Close: the pool, and the connections that it closes.
  unfoldable pub close_workers : WorkerPool K → WorkerPool K × GoMap K PooledWorker
  close_workers p =
      if p.closed then (p, no_entries) else (record p { closed = true; idle = no_entries }, p.idle)
