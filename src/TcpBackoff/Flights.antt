-- ===== src/TcpBackoff/Flights.antt =====
-- src/tcp_backoff.go under many clients at once: the steps of all goroutines in any order. Each dial
-- is a begin that answers true and later one finish.
use tg_ws_proxy_go.Base.{
  ℕ, ◌+◌, ◌-◌, ◌≤◌, ◌≡◌, refl, true, false, arith, if◌then◌else◌, GoMap, no_entries, read_or,
  insert, delete,
}
use mathlib.Core.Logic.{ite}
use tg_ws_proxy_go.TcpBackoff.{
  TcpAttempt, no_attempt, Outcome, success, canceled, failure, begin, finish,
}

module _ {K : Type 0} (d : Discrete K) where
  -- The map, and how many dials to each address are under way.
  pub record Dials : Type 0 where
    pub routes : GoMap K TcpAttempt
    pub active : K → ℕ

  abbrev pub with_active : (K → ℕ) → K → ℕ → K → ℕ
  with_active f k n j = ite (d k j) n (f j)

  abbrev pub no_dials : Dials
  no_dials = record { routes = no_entries; active = λ k. 0 }

  pub data Step : Dials → Dials → Type 0 where
    starts :
        (s : Dials) (address : K) (now : ℕ)
        → (begin d s.routes address now).1 ≡ true
        → Step s (record {
          routes = (begin d s.routes address now).0;
          active = with_active s.active address (s.active address + 1);
        })
    is_refused :
        (s : Dials) (address : K) (now : ℕ)
        → (begin d s.routes address now).1 ≡ false
        → Step s (record s { routes = (begin d s.routes address now).0 })
    ends :
        (s : Dials) (address : K) (now : ℕ) (outcome : Outcome)
        → 1 ≤ s.active address
        → Step s (record {
          routes = (finish d s.routes address now outcome).0;
          active = with_active s.active address (s.active address - 1);
        })

  pub data Reach : Dials → Type 0 where
    at_start : Reach no_dials
    next : {s t : Dials} → Reach s → Step s t → Reach t

  -- The flag of an address is up exactly while one dial to it is under way.
  abbrev pub IsExclusive : Dials → Type 0
  IsExclusive s =
      (k : K) → s.active k ≡ (if (read_or (s.routes k) no_attempt).connecting then 1 else 0)

  Step-IsExclusive : {s t : Dials} → Step s t → IsExclusive s → IsExclusive t
  Step-IsExclusive (starts s address now e) h k =
      unfold begin insert in ground (arith, h k, h address)
  Step-IsExclusive (is_refused s address now e) h k =
      unfold begin insert in ground (arith, h k, h address)
  Step-IsExclusive (ends s address now success a) h k =
      unfold finish insert delete in ground (arith, h k, h address)
  Step-IsExclusive (ends s address now canceled a) h k =
      unfold finish insert delete in ground (arith, h k, h address)
  Step-IsExclusive (ends s address now failure a) h k =
      unfold finish insert delete in ground (arith, h k, h address)

  Reach-IsExclusive : {s : Dials} → Reach s → IsExclusive s
  Reach-IsExclusive at_start k = refl
  Reach-IsExclusive (next r st) k = Step-IsExclusive st (Reach-IsExclusive r) k

  -- However the goroutines of all clients interleave, no address is ever dialled twice at once, and
  -- its record says whether it is dialled.
  pub Reach-active :
      {s : Dials} (k : K)
      → Reach s
      → (s.active k ≤ 1)
        × (s.active k ≡ (if (read_or (s.routes k) no_attempt).connecting then 1 else 0))
  Reach-active k r = ground (arith, Reach-IsExclusive r k)
