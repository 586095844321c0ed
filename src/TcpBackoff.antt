-- ===== src/TcpBackoff.antt =====
-- src/tcp_backoff.go: the backoff of direct TCP connections, one record for each address, and
-- connectTCPFallback, which dials under it. Times and durations are nanoseconds; the zero time is 0,
-- before every time that time.Now gives. Addresses are of any type with decided equality. The mutex
-- makes each of begin and finish one step.
pub mod Rules
pub mod Flights
mod Tests
use tg_ws_proxy_go.Base.{
  ℕ, ◌+◌, ◌*◌, Bool, true, false, ◌||◌, Option, none, some, ltb, ◌==◌, if◌then◌else◌, min, max,
  GoMap, read_or, insert, delete,
}

abbrev pub seconds : ℕ → ℕ
seconds n = n * 1000000000

abbrev pub tcp_backoff_min : ℕ
tcp_backoff_min = seconds 30

abbrev pub tcp_backoff_max : ℕ
tcp_backoff_max = seconds 3600

pub record TcpAttempt : Type 0 where
  pub connecting : Bool
  pub delay : ℕ
  pub retry_after : ℕ

abbrev pub no_attempt : TcpAttempt
no_attempt = record { connecting = false; delay = 0; retry_after = 0 }

-- The error of a connection attempt: nil, one that is context.Canceled, or another.
pub data Outcome : Type 0 where
  success canceled failure : Outcome

-- The context's Err() before the dial, the dial, the write of the first packet, Err() behind it, and
-- the times at which begin and finish are called.
pub record Attempt : Type 0 where
  pub canceled_before : Bool
  pub begun : ℕ
  pub dial : Outcome
  pub init_write : Outcome
  pub canceled_after : Bool
  pub finished : ℕ

-- What connectTCPFallback returns.
pub data Connected : Type 0 where
  connected not_started in_backoff not_connected : Connected

-- route.delay and route.retryAfter behind a failure at `now`.
unfoldable pub backed_off : TcpAttempt → ℕ → TcpAttempt
backed_off route now =
    let delay = min (max (route.delay * 2) tcp_backoff_min) tcp_backoff_max in
    record { connecting = false; delay = delay; retry_after = now + delay }

-- The error that finish gets: that of the dial, else that of the write, and context.Canceled
-- whenever the context has ended.
abbrev pub attempt_outcome : Attempt → Outcome
attempt_outcome a =
    if a.canceled_after
    then canceled
    else elim a.dial [ success ↦ a.init_write | canceled ↦ canceled | failure ↦ failure ]

module _ {K : Type 0} (d : Discrete K) where
  unfoldable pub begin : GoMap K TcpAttempt → K → ℕ → GoMap K TcpAttempt × Bool
  begin routes address now =
      let route = read_or (routes address) no_attempt in
      if route.connecting || ltb now route.retry_after
      then (routes, false)
      else (insert d address (record route { connecting = true }) routes, true)

  -- The end of finish: `if route.delay == 0 { delete } else { store }; return route.delay`.
  unfoldable pub store : GoMap K TcpAttempt → K → TcpAttempt → GoMap K TcpAttempt × ℕ
  store routes address route =
      if route.delay == 0
      then (delete d address routes, route.delay)
      else (insert d address route routes, route.delay)

  unfoldable pub finish : GoMap K TcpAttempt → K → ℕ → Outcome → GoMap K TcpAttempt × ℕ
  unfolding store backed_off
  finish routes address now success = (delete d address routes, 0)
  finish routes address now canceled =
      store routes address (record (read_or (routes address) no_attempt) { connecting = false })
  finish routes address now failure =
      store routes address (backed_off (read_or (routes address) no_attempt) now)

  unfoldable pub connect_tcp_fallback :
      GoMap K TcpAttempt → K → Attempt → GoMap K TcpAttempt × Connected
  connect_tcp_fallback routes address a =
      if a.canceled_before
      then (routes, not_started)
      else let (begun, free) = begin routes address a.begun in
        if free
        then (
          (finish begun address a.finished (attempt_outcome a)).0,
          elim (attempt_outcome a) [
            | success ↦ connected
            | canceled ↦ not_connected
            | failure ↦ not_connected
          ],
        )
        else (begun, in_backoff)
