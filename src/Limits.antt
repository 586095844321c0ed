-- ===== src/Limits.antt =====
-- src/limits.go, fitsFDBudget: whether the file descriptors are enough for the pools and the clients.
-- The loop over cfg.DCPool goes through its entries in some order: the pool is a list of them.
-- A uint64 is a number below 2 ^ 64, and its arithmetic wraps round.
mod Tests
use tg_ws_proxy_go.Base.{
  ℕ, suc, ◌+◌, ◌-◌, ◌*◌, ◌/◌, ◌%◌, ◌^◌, ◌≤◌, ◌<◌, ◌≡◌, refl, sym, ap, ◌∙◌, inl, inr, Bool-cases,
  List, [], ◌∷◌, Bool, true, false, ◌&&◌, Option, none, some, ltb, leb, if◌then◌else◌, length,
  Bytes, arith,
}

-- The part of Config that the budget reads; has_worker_domains is what hasCFProxyWorkerDomains answers.
pub record Budget : Type 0 where
  pub dc_pool : List (ℕ × List Bytes)
  pub pool_size : ℕ
  pub max_conns : ℕ
  pub has_worker_domains : Bool

-- uint64 subtraction, and `uint64(cfg.PoolSize) * 4`.
unfoldable pub sub64 : ℕ → ℕ → ℕ
sub64 a b = (a + (2 ^ 64 - b % 2 ^ 64)) % 2 ^ 64

unfoldable pub times_four : ℕ → ℕ
times_four n = n * 4 % 2 ^ 64

-- `for range ips { ... }`: what remains, or nothing where it returns false.
unfoldable pub reserve_targets : ℕ → ℕ → List Bytes → Option ℕ
reserve_targets size remaining [] = some remaining
reserve_targets size remaining (ip ∷ ips) =
    let rest = reserve_targets size (sub64 remaining (times_four size)) ips in
    if ltb (remaining / 4) size then none else rest

unfoldable pub reserve_pools : ℕ → ℕ → List (ℕ × List Bytes) → Option ℕ
reserve_pools size remaining [] = some remaining
reserve_pools size remaining ((dc, ips) ∷ pools) = elim (reserve_targets size remaining ips) [
  | none ↦ none
  | some left ↦ reserve_pools size left pools
]

-- The part behind the loop.
abbrev pub fits_conns : Budget → Option ℕ → Bool
fits_conns cfg none = false
fits_conns cfg (some remaining) =
    if ltb 0 cfg.pool_size && cfg.has_worker_domains
    then (if ltb remaining 12 then false else leb cfg.max_conns (sub64 remaining 12 / 2))
    else leb cfg.max_conns (remaining / 2)

unfoldable pub fits_fd_budget : Budget → ℕ → Bool
fits_fd_budget cfg limit =
    if ltb limit 33
    then false
    else fits_conns cfg (reserve_pools cfg.pool_size (sub64 limit 33) cfg.dc_pool)

-- How many targets the pools have together.
abbrev pub targets : List (ℕ × List Bytes) → ℕ
targets [] = 0
targets ((dc, ips) ∷ pools) = length ips + targets pools

-- The descriptors that the pools of Worker connections may need.
abbrev pub worker_sockets : Budget → ℕ
worker_sockets cfg = if ltb 0 cfg.pool_size && cfg.has_worker_domains then 12 else 0

abbrev pub left_of : ℕ → ℕ → Option ℕ
left_of remaining needed = if leb needed remaining then some (remaining - needed) else none

sub64-small : (a b : ℕ) → b ≤ a → a < 2 ^ 64 → sub64 a b ≡ a - b
unfolding sub64
sub64-small a b l h = omega arith

times_four-small : (n : ℕ) → n * 4 < 2 ^ 64 → times_four n ≡ n * 4
unfolding times_four
times_four-small n h = omega arith

sub64-times_four :
    (size remaining : ℕ)
    → size ≤ remaining / 4
    → remaining < 2 ^ 64
    → sub64 remaining (times_four size) ≡ remaining - size * 4
sub64-times_four size remaining l h =
    ap (sub64 remaining) (times_four-small size (omega arith))
    ∙ sub64-small remaining (size * 4) (omega arith) h

left_of-more :
    (remaining a b : ℕ) → a ≤ remaining → left_of (remaining - a) b ≡ left_of remaining (a + b)
left_of-more remaining a b h = ground arith

reserve_targets-left_of :
    (size remaining : ℕ) (ips : List Bytes)
    → remaining < 2 ^ 64
    → reserve_targets size remaining ips ≡ left_of remaining (size * 4 * length ips)
unfolding reserve_targets
reserve_targets-left_of size remaining [] h = ground arith
reserve_targets-left_of size remaining (ip ∷ ips) h =
    let grown : size * 4 * suc (length ips) ≡ size * 4 + size * 4 * length ips = omega arith in
    elim (Bool-cases (ltb (remaining / 4) size)) [
      | inl e ↦ rw (e) (ground (arith, grown, e))
      | inr e ↦
          rw (e, sub64-times_four size remaining (ground arith) h)
            (reserve_targets-left_of size (remaining - size * 4) ips (omega (arith, h))
              ∙ left_of-more remaining (size * 4) (size * 4 * length ips) (ground (arith, e))
              ∙ ap (left_of remaining) (sym grown))
    ]

reserve_pools-left_of :
    (size remaining : ℕ) (pools : List (ℕ × List Bytes))
    → remaining < 2 ^ 64
    → reserve_pools size remaining pools ≡ left_of remaining (size * 4 * targets pools)
unfolding reserve_pools
reserve_pools-left_of size remaining [] h = ground arith
reserve_pools-left_of size remaining ((dc, ips) ∷ pools) h =
    let need = size * 4 * length ips in
    let grown : size * 4 * (length ips + targets pools) ≡ need + size * 4 * targets pools =
      omega arith in
    rw (reserve_pools, reserve_targets-left_of size remaining ips h)
      (elim (Bool-cases (leb need remaining)) [
        | inr e ↦ rw (e) (ground (arith, grown, e))
        | inl e ↦ rw (e) (
            reserve_pools-left_of size (remaining - need) pools (omega (arith, h))
            ∙ left_of-more remaining need (size * 4 * targets pools) (ground (arith, e))
            ∙ ap (left_of remaining) (sym grown))
      ])

-- The budget as one inequation: 33 descriptors, four for each connection that a target's pool may hold,
-- 12 for Worker pools where there are any, and two for each client.
abbrev pub descriptors : Budget → ℕ
descriptors cfg =
    33 + cfg.pool_size * 4 * targets cfg.dc_pool + worker_sockets cfg + cfg.max_conns * 2

fits_conns-left_of :
    (cfg : Budget) (remaining need : ℕ)
    → remaining < 2 ^ 64
    → fits_conns cfg (left_of remaining need)
      ≡ leb (need + worker_sockets cfg + cfg.max_conns * 2) remaining
fits_conns-left_of cfg remaining need h = elim (Bool-cases (leb need remaining)) [
  | inr e ↦ rw (e) (ground (arith, e))
  | inl e ↦ rw (e) (elim (Bool-cases (ltb 0 cfg.pool_size && cfg.has_worker_domains)) [
    | inr f ↦ rw (f) (ground (arith, e))
    | inl f ↦ rw (f) (elim (Bool-cases (ltb (remaining - need) 12)) [
      | inl g ↦ rw (g) (ground (arith, g, e))
      | inr g ↦
          rw (g, sub64-small (remaining - need) 12 (ground (arith, g)) (omega (arith, h)))
            (ground (arith, g, e))
    ])
  ])
]

-- For every limit that a uint64 holds: fitsFDBudget, for any order of the map's entries, answers true
-- exactly if the limit is at least what the sum of all the sockets comes to, and no step of it wraps.
pub fits_fd_budget-descriptors :
    (cfg : Budget) (limit : ℕ)
    → limit < 2 ^ 64
    → fits_fd_budget cfg limit ≡ leb (descriptors cfg) limit
unfolding fits_fd_budget
fits_fd_budget-descriptors cfg limit h =
    let need = cfg.pool_size * 4 * targets cfg.dc_pool in
    elim (Bool-cases (ltb limit 33)) [
      | inl e ↦ rw (e) (ground (arith, e))
      | inr e ↦
          rw
            (
              e,
              sub64-small limit 33 (ground (arith, e)) h,
              reserve_pools-left_of cfg.pool_size (limit - 33) cfg.dc_pool (omega (arith, h)),
            )
            (fits_conns-left_of cfg (limit - 33) need (omega (arith, h)) ∙ ground (arith, e))
    ]
