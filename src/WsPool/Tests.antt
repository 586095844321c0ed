-- ===== src/WsPool/Tests.antt =====
-- The theorems on src/pool.go at concrete inputs; keys and domains are numbers.
use tg_ws_proxy_go.Base.{
  ℕ, ◌≤◌, ◌≡◌, refl, [], ◌∷◌, Bool, true, false, arith, length, ◌==◌, no_entries, insert,
  ℕ_discrete, if◌then◌else◌, some,
}
use tg_ws_proxy_go.WsPool.{WsPool, new_ws_pool, bucket, is_refilling, get_round, stale}
use tg_ws_proxy_go.WsPool.Refill.{
  Dialed, established, failed, refilled, refill_dials, fronting_active, IsRefilled,
  refill_dials-IsRefilled,
}
use tg_ws_proxy_go.WsPool.Bounds.{
  no_refills, running, Run, launch_if, gets, PoolReach, at_start, next, PoolReach-bucket,
}
use tg_ws_proxy_go.WsPool.Get.{get, IsTaken, get-first_fresh}
use tg_ws_proxy_go.WsPool.Targets.{get_for_dc, get_for_dc-first}

abbrev healthy : ℕ → Bool
healthy conn = false

abbrev no_conns : WsPool ℕ ℕ
no_conns = new_ws_pool

-- A first get misses and starts a refill.
abbrev missed : Run ℕ ℕ
missed = record {
  pool = (get_round ℕ_discrete 4 no_conns 2 (7 ∷ []) healthy 10 10).0.0;
  refills =
      launch_if ℕ_discrete (get_round ℕ_discrete 4 no_conns 2 (7 ∷ []) healthy 10 10).0.1 2
        (λ k. no_refills);
}

missed-PoolReach : PoolReach ℕ_discrete 4 missed
missed-PoolReach =
    next at_start
      (gets (record { pool = no_conns; refills = λ k. no_refills }) 2 (7 ∷ []) healthy 10 10)

PoolReach-bucket_example :
    (length (bucket missed.pool 2) ≤ 4)
    × ((if missed.pool.closed then length (bucket missed.pool 2) else 0) ≡ 0)
    × (running (missed.refills 2) ≡ (if is_refilling missed.pool 2 then 1 else 0))
PoolReach-bucket_example = PoolReach-bucket ℕ_discrete 4 2 missed-PoolReach

-- The second of two connections is old.
abbrev two_idle : WsPool ℕ ℕ
two_idle = record new_ws_pool {
  idle =
      insert ℕ_discrete 2
        (record { conn = 1; created = 0 } ∷ record { conn = 5; created = 120000000000 } ∷ [])
        no_entries;
}

get-first_fresh_example :
    IsTaken ℕ_discrete 4 2 healthy 130000000000 []
      (bucket two_idle 2)
      (get ℕ_discrete 4 3 two_idle 2 (7 ∷ []) healthy 130000000000 130000000000 [])
unfolding ℕ_discrete
get-first_fresh_example =
    get-first_fresh ℕ_discrete 4 3 two_idle 2 (7 ∷ []) healthy 130000000000 130000000000
      (unfold insert in omega arith) refl

-- The first domain fails both ways, the second answers with fronting only.
abbrev connect : ℕ → Bool → Dialed
connect domain fronted = if domain == 8 then (if fronted then established 3 else failed) else failed

connects : refill_dials connect 0 100 (7 ∷ 8 ∷ []) ≡ refilled 3 true
unfolding refill_dials
connects = refl

refill_dials-IsRefilled_example :
    IsRefilled connect
      (7 ∷ 8 ∷ [])
      (fronting_active 0 100)
      (refill_dials connect 0 100 (7 ∷ 8 ∷ []))
refill_dials-IsRefilled_example = refill_dials-IsRefilled connect 0 100 (7 ∷ 8 ∷ [])

-- The only connection of target 2 is old, those of target 3 are not.
abbrev three_idle : WsPool ℕ ℕ
three_idle = record new_ws_pool {
  idle =
      insert ℕ_discrete 3
        (record { conn = 5; created = 120000000000 } ∷ record { conn = 6; created = 1 } ∷ [])
        (insert ℕ_discrete 2 (record { conn = 1; created = 0 } ∷ []) no_entries);
}

abbrev same_time : ℕ → ℕ × ℕ
same_time ip = (130000000000, 130000000000)

get_for_dc-first_example :
    (get_for_dc ℕ_discrete 4 (λ k. k) (7 ∷ []) healthy same_time three_idle (2 ∷ 3 ∷ [])).1
    ≡ some (record { conn = 5; created = 120000000000 })
unfolding ℕ_discrete insert stale
get_for_dc-first_example =
    get_for_dc-first ℕ_discrete 4 (λ k. k) (7 ∷ []) healthy same_time three_idle (2 ∷ 3 ∷ [])
      (λ e. omega (arith, e)) refl (((λ e. omega (arith, e)), tt), (tt, tt))
