-- ===== src/WorkerPool/Single.antt =====
-- src/worker_pool.go under many clients at once: get, refill, warmup, Close and the goroutines that
-- dial, one critical section at a time, in any order.
use tg_ws_proxy_go.Base.{
  ℕ, ◌+◌, ◌-◌, ◌≤◌, ◌≡◌, Bool, false, ◌&&◌, Option, none, some, if◌then◌else◌, read_or, insert,
  delete, arith,
}
use mathlib.Core.Logic.{ite}
use tg_ws_proxy_go.WorkerPool.{
  PooledWorker, WorkerPool, new_worker_pool, is_idle, schedule_worker, take_worker, get_worker,
  worker_dialled, close_workers,
}

-- The pool, and how many goroutines of a key are dialling.
pub record Workers (K : Type 0) : Type 0 where
  pub pool : WorkerPool K
  pub dialling : K → ℕ

module _ {K : Type 0} (d : Discrete K) (size : ℕ) where
  abbrev pub add_if : Bool → K → (K → ℕ) → K → ℕ
  add_if is_started k f j = f j + (if is_started then ite (d k j) 1 0 else 0)

  pub data WorkerStep : Workers K → Workers K → Type 0 where
    gets :
        (s : Workers K) (key : K) (has_domains : Bool) (now : ℕ)
        → WorkerStep s (record {
          pool = (get_worker d size s.pool key has_domains now).0.0;
          dialling = add_if (get_worker d size s.pool key has_domains now).0.1 key s.dialling;
        })
    refills :
        (s : Workers K) (key : K) (has_domains : Bool)
        → WorkerStep s (record {
          pool = (schedule_worker d size s.pool key has_domains).0;
          dialling = add_if (schedule_worker d size s.pool key has_domains).1 key s.dialling;
        })
    dials :
        (s : Workers K) (key : K) (dialled : Option PooledWorker)
        → 1 ≤ s.dialling key
        → WorkerStep s (record {
          pool = (worker_dialled d size s.pool key dialled).0;
          dialling = λ j. s.dialling j - ite (d key j) 1 0;
        })
    closes : (s : Workers K) → WorkerStep s (record s { pool = (close_workers d size s.pool).0 })

  pub data WorkerReach : Workers K → Type 0 where
    at_start : WorkerReach (record { pool = new_worker_pool; dialling = λ k. 0 })
    next : {s t : Workers K} → WorkerReach s → WorkerStep s t → WorkerReach t

  -- A key has an idle connection or one goroutine that dials, never both, its flag tells which, and a
  -- closed pool has none.
  abbrev pub IsSingle : Workers K → K → Type 0
  IsSingle s k =
      ((if is_idle (s.pool.idle k) then 1 else 0) + s.dialling k ≤ 1)
      × (s.dialling k ≡ (if read_or (s.pool.refilling k) false then 1 else 0))
      × (s.pool.closed && is_idle (s.pool.idle k) ≡ false)

  schedule_worker-IsSingle :
      (s : Workers K) (key k : K) (has_domains : Bool)
      → IsSingle s key
      → IsSingle s k
      → IsSingle
          (record {
            pool = (schedule_worker d size s.pool key has_domains).0;
            dialling = add_if (schedule_worker d size s.pool key has_domains).1 key s.dialling;
          })
          k
  unfolding schedule_worker insert
  schedule_worker-IsSingle s key k has_domains a h = ground arith

  delete-IsSingle :
      (s : Workers K) (key k : K)
      → IsSingle s k
      → IsSingle (record s { pool = record s.pool { idle = delete d key s.pool.idle } }) k
  unfolding delete
  delete-IsSingle s key k h = ground arith

  take_worker-IsSingle :
      (o : Option PooledWorker) (s : Workers K) (key k : K) (has_domains : Bool) (now : ℕ)
      → IsSingle s key
      → IsSingle s k
      → IsSingle
          (record {
            pool = (take_worker d size o s.pool key has_domains now).0.0;
            dialling = add_if (take_worker d size o s.pool key has_domains now).0.1 key s.dialling;
          })
          k
  unfolding take_worker
  take_worker-IsSingle none s key k has_domains now a h = ground (arith, delete-IsSingle s key k h)
  take_worker-IsSingle (some item) s key k has_domains now a h =
      schedule_worker-IsSingle
        (record s { pool = record s.pool { idle = delete d key s.pool.idle } }) key k has_domains
        (delete-IsSingle s key key a) (delete-IsSingle s key k h)

  get_worker-IsSingle :
      (s : Workers K) (key k : K) (has_domains : Bool) (now : ℕ)
      → IsSingle s key
      → IsSingle s k
      → IsSingle
          (record {
            pool = (get_worker d size s.pool key has_domains now).0.0;
            dialling = add_if (get_worker d size s.pool key has_domains now).0.1 key s.dialling;
          })
          k
  unfolding get_worker
  get_worker-IsSingle s key k has_domains now a h =
      ground (arith, take_worker-IsSingle (s.pool.idle key) s key k has_domains now a h, h)

  WorkerStep-IsSingle :
      {s t : Workers K} → WorkerStep s t → ((k : K) → IsSingle s k) → (k : K) → IsSingle t k
  WorkerStep-IsSingle (gets s key has_domains now) h k =
      get_worker-IsSingle s key k has_domains now (h key) (h k)
  WorkerStep-IsSingle (refills s key has_domains) h k =
      schedule_worker-IsSingle s key k has_domains (h key) (h k)
  WorkerStep-IsSingle (dials s key none e) h k =
      unfold worker_dialled insert delete in ground (arith, h k, h key, e)
  WorkerStep-IsSingle (dials s key (some item) e) h k =
      unfold worker_dialled insert delete in ground (arith, h k, h key, e)
  WorkerStep-IsSingle (closes s) h k = unfold close_workers in ground (arith, h k)

  WorkerReach-IsSingle : {s : Workers K} → WorkerReach s → (k : K) → IsSingle s k
  WorkerReach-IsSingle at_start k = ground arith
  WorkerReach-IsSingle (next r st) k = WorkerStep-IsSingle st (WorkerReach-IsSingle r) k

  -- However clients, refills and Close interleave: a key has one idle connection or one goroutine that
  -- dials for it, never both, so that no connection is put over another; the flag tells whether it is
  -- dialled, and a closed pool holds no connection.
  pub WorkerReach-single :
      {s : Workers K} (k : K)
      → WorkerReach s
      → ((if is_idle (s.pool.idle k) then 1 else 0) + s.dialling k ≤ 1)
        × (s.dialling k ≡ (if read_or (s.pool.refilling k) false then 1 else 0))
        × (s.pool.closed && is_idle (s.pool.idle k) ≡ false)
  WorkerReach-single k r = WorkerReach-IsSingle r k
