-- ===== src/Limits/Tests.antt =====
-- Runs of fitsFDBudget.
use tg_ws_proxy_go.Base.{[], ◌∷◌, ◌≡◌, refl, true, false, arith}
use tg_ws_proxy_go.Limits.{
  Budget, fits_fd_budget, reserve_pools, reserve_targets, sub64, times_four,
  fits_fd_budget-descriptors,
}

abbrev two_pools : Budget
two_pools = record {
  dc_pool = (2, (1 ∷ []) ∷ (2 ∷ []) ∷ []) ∷ (4, (3 ∷ []) ∷ []) ∷ [];
  pool_size = 4;
  max_conns = 100;
  has_worker_domains = true;
}

-- 33 + 3 * 16 + 12 + 200.
fits_exactly : fits_fd_budget two_pools 293 ≡ true
unfolding fits_fd_budget reserve_pools reserve_targets sub64 times_four
fits_exactly = refl

misses_by_one : fits_fd_budget two_pools 292 ≡ false
unfolding fits_fd_budget reserve_pools reserve_targets sub64 times_four
misses_by_one = refl

fits_fd_budget-descriptors_example : fits_fd_budget two_pools 1024 ≡ true
fits_fd_budget-descriptors_example = fits_fd_budget-descriptors two_pools 1024 (omega arith)
