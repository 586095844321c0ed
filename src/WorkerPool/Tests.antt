-- ===== src/WorkerPool/Tests.antt =====
-- The theorems on src/worker_pool.go at concrete runs; keys are numbers.
use tg_ws_proxy_go.Base.{
  ℕ, ◌+◌, ◌≤◌, ◌≡◌, true, false, ◌&&◌, List, [], ◌∷◌, no_entries, if◌then◌else◌, read_or,
  ℕ_discrete,
}
use tg_ws_proxy_go.WorkerPool.{new_worker_pool, is_idle, schedule_worker}
use tg_ws_proxy_go.WorkerPool.Single.{
  Workers, add_if, refills, WorkerReach, at_start, next, WorkerReach-single,
}
use tg_ws_proxy_go.CfProxy.Names.{Domain}
use tg_ws_proxy_go.CfProxy.State.{CfState, FallbackDialKey, dns, success}
use tg_ws_proxy_go.WorkerPool.Connect.{Trial}

abbrev none_yet : Workers ℕ
none_yet = record { pool = new_worker_pool; dialling = λ k. 0 }

-- A refill of key 4 is under way.
abbrev one_refill : Workers ℕ
one_refill = record {
  pool = (schedule_worker ℕ_discrete 4 none_yet.pool 4 true).0;
  dialling =
      add_if ℕ_discrete 4 (schedule_worker ℕ_discrete 4 none_yet.pool 4 true).1 4 none_yet.dialling;
}

one_refill-WorkerReach : WorkerReach ℕ_discrete 4 one_refill
one_refill-WorkerReach = next at_start (refills none_yet 4 true)

WorkerReach-single_example :
    ((if is_idle (one_refill.pool.idle 4) then 1 else 0) + one_refill.dialling 4 ≤ 1)
    × (one_refill.dialling 4 ≡ (if read_or (one_refill.pool.refilling 4) false then 1 else 0))
    × (one_refill.pool.closed && is_idle (one_refill.pool.idle 4) ≡ false)
WorkerReach-single_example = WorkerReach-single ℕ_discrete 4 4 one_refill-WorkerReach

-- a.de and b.de, of which the first does not answer.
abbrev a_de : Domain
a_de = b'a' ∷ b'.' ∷ b'd' ∷ b'e' ∷ []

abbrev b_de : Domain
b_de = b'b' ∷ b'.' ∷ b'd' ∷ b'e' ∷ []

abbrev two_workers : CfState
two_workers = record {
  domains = [];
  worker_domains = a_de ∷ b_de ∷ [];
  active = [];
  per_dc_active = no_entries;
  last_domain = [];
  fail_until = no_entries;
  worker_fail_until = no_entries;
  fallback_dials = no_entries;
}

abbrev two_trials : List Trial
two_trials =
    record {
      domain = a_de;
      ended_before = false;
      begun = 10;
      outcome = dns;
      finished = 20;
      conn = 0;
    }
    ∷ record {
      domain = b_de;
      ended_before = false;
      begun = 30;
      outcome = success;
      finished = 40;
      conn = 1;
    }
    ∷ []

abbrev key_a : FallbackDialKey
key_a = record { domain = a_de; worker = true }
