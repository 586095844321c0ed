-- ===== src/Routing.antt =====
-- src/server.go, handleMTProtoClient: which connection to Telegram a client gets. The order of the
-- fallbacks stands over an interface: the state, the three fallbacks, and a measure of the state that
-- each of them keeps. The children fill it with the operations of the pools and of the domain state.
pub mod Order
pub mod Proxy
pub mod Slots
pub mod Client
mod Tests
use tg_ws_proxy_go.Base.{
  ℕ, ◌≡◌, List, [], ◌∷◌, ◌++◌, Bool, true, false, ◌&&◌, Option, none, some, if◌then◌else◌,
}

-- The closures tryWorker, tryCF and the dial of tryTCP: the state behind each, and what it bridges to.
-- None of them is asked what the others did.
pub record Fallbacks (S B M : Type 0) : Type 0 where
  pub try_worker : S → S × Option B
  pub try_cf : S → S × Option B
  pub dial_tcp : S → S × Option B
  pub measure : S → M
  pub worker_kept : (s : S) → measure (try_worker s).0 ≡ measure s
  pub cf_kept : (s : S) → measure (try_cf s).0 ≡ measure s
  pub tcp_kept : (s : S) → measure (dial_tcp s).0 ≡ measure s

-- useWorker, useCF, cfg.FallbackCFProxyPriority, and whether `fallback` is not empty.
pub record Choice : Type 0 where
  pub use_worker : Bool
  pub use_cf : Bool
  pub cf_priority : Bool
  pub has_target : Bool

module _ {S B M : Type 0} (r : Fallbacks S B M) where
  -- `a || b` on two closures: the second runs where the first gives false.
  unfoldable pub or_then : S × Option B → (S → S × Option B) → S × Option B
  or_then (s, none) next = next s
  or_then (s, some b) next = (s, some b)

  unfoldable pub try_tcp : Choice → S → S × Option B
  try_tcp c s = if c.has_target then r.dial_tcp s else (s, none)

  -- The if behind the Worker: which of the two remaining fallbacks are tried, in which order.
  unfoldable pub behind_worker : Choice → S → S × Option B
  behind_worker c s =
      if c.use_cf && c.cf_priority
      then or_then (r.try_cf s) (try_tcp c)
      else if c.use_cf
      then or_then (try_tcp c s) r.try_cf
      else try_tcp c s

  unfoldable pub do_fallback : Choice → S → S × Option B
  do_fallback c s =
      if c.use_worker then or_then (r.try_worker s) (behind_worker c) else behind_worker c s
