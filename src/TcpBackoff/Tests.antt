-- ===== src/TcpBackoff/Tests.antt =====
-- The theorems on src/tcp_backoff.go at concrete inputs; addresses are numbers.
use tg_ws_proxy_go.Base.{
  ◌+◌, ◌≤◌, ◌≡◌, refl, false, not, arith, ltb, if◌then◌else◌, no_entries, read_or, ℕ_discrete,
}
use tg_ws_proxy_go.TcpBackoff.{
  no_attempt, success, failure, Attempt, begin, connect_tcp_fallback, seconds, not_connected,
}
use tg_ws_proxy_go.TcpBackoff.Rules.{IsBackoff, delay_after, connect_tcp_fallback_fails}
use tg_ws_proxy_go.TcpBackoff.Flights.{
  starts, Reach, at_start, next, no_dials, with_active, Reach-active,
}

-- The dial fails.
abbrev failing : Attempt
failing = record {
  canceled_before = false;
  begun = seconds 100;
  dial = failure;
  init_write = success;
  canceled_after = false;
  finished = seconds 110;
}

none-IsBackoff : IsBackoff ℕ_discrete no_entries
none-IsBackoff k = ground arith

connect_tcp_fallback_fails_example :
    let after = connect_tcp_fallback ℕ_discrete no_entries 7 failing in
    (after.1 ≡ not_connected)
    × ((read_or (after.0 7) no_attempt).connecting ≡ false)
    × ((read_or (after.0 7) no_attempt).delay ≡ delay_after 1)
    × ((begin ℕ_discrete after.0 7 (seconds 120)).1
        ≡ not (ltb (seconds 120) (seconds 110 + delay_after 1)))
unfolding delay_after
connect_tcp_fallback_fails_example =
    connect_tcp_fallback_fails ℕ_discrete no_entries 7 0 (seconds 120) failing (refl, refl) refl
      (omega arith) refl

-- One dial is under way.
one_dial : Reach ℕ_discrete (record {
  routes = (begin ℕ_discrete no_entries 7 (seconds 1)).0;
  active = with_active ℕ_discrete (λ k. 0) 7 1;
})
one_dial = next at_start (starts (no_dials ℕ_discrete) 7 (seconds 1) (unfold begin in refl))

Reach-active_example :
    (with_active ℕ_discrete (λ k. 0) 7 1 7 ≤ 1)
    × (with_active ℕ_discrete (λ k. 0) 7 1 7 ≡ (
        if (read_or ((begin ℕ_discrete no_entries 7 (seconds 1)).0 7) no_attempt).connecting
        then 1
        else 0))
Reach-active_example = Reach-active ℕ_discrete 7 one_dial
