-- ===== src/TcpBackoff/Rules.antt =====
-- The backoff of src/tcp_backoff.go, one address at a time: how long it refuses, and how its delays grow.
use tg_ws_proxy_go.Base.{
  ℕ, zero, suc, ◌+◌, ◌*◌, ◌^◌, ◌≤◌, ◌≡◌, ◌⊎◌, refl, ap, ◌∙◌, true, false, not, Option, none, some,
  arith, ltb, min, max, GoMap, read_or, insert, delete,
}
use native.Mathlib.Nat.{pow-suc}
use tg_ws_proxy_go.TcpBackoff.{
  attempt_outcome, TcpAttempt, no_attempt, tcp_backoff_min, tcp_backoff_max, Outcome, success,
  canceled, failure, backed_off, begin, finish, connect_tcp_fallback, Attempt, not_connected,
}

-- A record that may stand in the map: its delay is in the bounds, or it is the record of a first
-- attempt that is under way.
abbrev pub IsRoute : TcpAttempt → Type 0
IsRoute r =
    ((r.connecting ≡ true) × (r.delay ≡ 0) × (r.retry_after ≡ 0))
    ⊎ ((tcp_backoff_min ≤ r.delay) × (r.delay ≤ tcp_backoff_max))

abbrev pub IsEntry : Option TcpAttempt → Type 0
IsEntry none = Unit {0}
IsEntry (some r) = IsRoute r

-- The delay after the given number of failures in a row.
unfoldable pub delay_after : ℕ → ℕ
delay_after zero = 0
delay_after (suc n) = min (tcp_backoff_min * 2 ^ n) tcp_backoff_max

module _ {K : Type 0} (d : Discrete K) where
  abbrev pub IsBackoff : GoMap K TcpAttempt → Type 0
  IsBackoff routes = (k : K) → IsEntry (routes k)

  begin-IsBackoff :
      (routes : GoMap K TcpAttempt) (address : K) (now : ℕ)
      → IsBackoff routes
      → IsBackoff (begin d routes address now).0
  unfolding begin insert
  begin-IsBackoff routes address now h k = ground (arith, h k, h address)

  finish-IsBackoff :
      (routes : GoMap K TcpAttempt) (address : K) (now : ℕ) (outcome : Outcome)
      → IsBackoff routes
      → IsBackoff (finish d routes address now outcome).0
  unfolding finish insert delete
  finish-IsBackoff routes address now success h k = ground (arith, h k, h address)
  finish-IsBackoff routes address now canceled h k = ground (arith, h k, h address)
  finish-IsBackoff routes address now failure h k = ground (arith, h k, h address)

  -- Where every record has a delay between 30 seconds and an hour, or belongs to a first
  -- attempt that is under way, the same holds of every record behind a call.
  pub connect_tcp_fallback-IsBackoff :
      (routes : GoMap K TcpAttempt) (address : K) (a : Attempt)
      → IsBackoff routes
      → (k : K) → IsEntry ((connect_tcp_fallback d routes address a).0 k)
  connect_tcp_fallback-IsBackoff routes address a h k =
      unfold connect_tcp_fallback in
      ground (
        arith,
        begun k,
        h k,
        finish-IsBackoff (begin d routes address a.begun).0 address a.finished (attempt_outcome a)
            begun k,
      )
    where
      begun : IsBackoff (begin d routes address a.begun).0
      begun = begin-IsBackoff routes address a.begun h

one_le_pow : (n : ℕ) → 1 ≤ 2 ^ n
one_le_pow zero = omega arith
one_le_pow (suc n) = omega (arith, pow-suc 2 n, one_le_pow n)

double_delay :
    (n : ℕ) → min (max (delay_after n * 2) tcp_backoff_min) tcp_backoff_max ≡ delay_after (suc n)
unfolding delay_after
double_delay zero = refl
double_delay (suc n) = omega (arith, pow-suc 2 n, one_le_pow n)

-- The answer at a record that is not connecting.
module _ {K : Type 0} (d : Discrete K) (routes : GoMap K TcpAttempt) (address : K) where
  begin_free :
      (now : ℕ) {r : TcpAttempt}
      → routes address ≡ some r
      → r.connecting ≡ false
      → (begin d routes address now).1 ≡ not (ltb now r.retry_after)
  unfolding begin
  begin_free now e c = ground arith

module _ {K : Type 0} (d : Discrete K) (routes : GoMap K TcpAttempt) (address : K) where
  -- The record of an address that has failed `n` times in a row, and is not connecting.
  abbrev pub HasFailed : ℕ → Type 0
  HasFailed n =
      ((read_or (routes address) no_attempt).connecting ≡ false)
      × ((read_or (routes address) no_attempt).delay ≡ delay_after n)

  after_failure :
      (a : Attempt)
      → a.canceled_before ≡ false
      → (read_or (routes address) no_attempt).connecting ≡ false
      → (read_or (routes address) no_attempt).retry_after ≤ a.begun
      → attempt_outcome a ≡ failure
      → let after = connect_tcp_fallback d routes address a in
        (after.1 ≡ not_connected)
        × (after.0 address ≡ some (backed_off (read_or (routes address) no_attempt) a.finished))
  after_failure a c h r o = unfold connect_tcp_fallback finish begin insert in ground arith

  -- An attempt to an address that has failed n times in a row, begun when no dial to it is
  -- under way and its wait is over, in a context that has not ended: if it fails, the call
  -- returns the error, and the address waits for 30 s · 2^n, an hour at most; an attempt that
  -- begins before that has passed is refused, and one that begins later is not.
  pub connect_tcp_fallback_fails :
      (n later : ℕ) (a : Attempt)
      → HasFailed n
      → a.canceled_before ≡ false
      → (read_or (routes address) no_attempt).retry_after ≤ a.begun
      → attempt_outcome a ≡ failure
      → let after = connect_tcp_fallback d routes address a in
        (after.1 ≡ not_connected)
        × ((read_or (after.0 address) no_attempt).connecting ≡ false)
        × ((read_or (after.0 address) no_attempt).delay ≡ delay_after (suc n))
        × ((begin d after.0 address later).1 ≡ not (ltb later (a.finished + delay_after (suc n))))
  connect_tcp_fallback_fails n later a h c r o =
      let (lost, e) = after_failure a c h.0 r o in
      let delay_is : (backed_off (read_or (routes address) no_attempt) a.finished).delay
          ≡ delay_after (suc n) =
        unfold backed_off in
        ap (λ t. min (max (t * 2) tcp_backoff_min) tcp_backoff_max) h.1 ∙ double_delay n in
      (
        lost,
        rw e (unfold backed_off in refl),
        rw e delay_is,
        begin_free d _ address later e (unfold backed_off in refl)
            ∙ ap (λ t. not (ltb later t)) (unfold backed_off in ap (λ t. a.finished + t) delay_is),
      )

  -- Where every record is well formed and an attempt begins: if it is cancelled, it leaves the
  -- record of every address as it was before.
  pub finish-begin_canceled :
      (now later : ℕ)
      → IsBackoff d routes
      → (begin d routes address now).1 ≡ true
      → (k : K) → (finish d (begin d routes address now).0 address later canceled).0 k ≡ routes k
  unfolding finish begin insert delete
  finish-begin_canceled now later h b k = ground (arith, h address)
