-- ===== src/WorkerPool/Connect.antt =====
-- src/worker_pool.go, connectWorker: the dials of Worker domains, under the slots and cooldowns of the
-- Cloudflare domain state. The network is a row of trials, one for each shuffled domain.
use tg_ws_proxy_go.Base.{
  ℕ, ◌≡◌, refl, inl, inr, Bool-cases, List, [], ◌∷◌, Bool, true, not, if◌then◌else◌, arith,
}
use tg_ws_proxy_go.CfProxy.Names.{Domain}
use tg_ws_proxy_go.CfProxy.State.{
  CfState, FallbackDialKey, DialError, success, canceled, dns, other, begin_fallback_dial,
  finish_fallback_dial,
}
use tg_ws_proxy_go.CfProxy.Dials.{dials_of, begun-dials_of, refused-dials_of}

-- ctx.Err() before the dial; the times of beginFallbackDial and finishFallbackDial; the error behind
-- the dial, the first write and the last ctx.Err(); the connection.
pub record Trial : Type 0 where
  pub domain : Domain
  pub ended_before : Bool
  pub begun : ℕ
  pub outcome : DialError
  pub finished : ℕ
  pub conn : ℕ

pub data Connection : Type 0 where
  connected : ℕ → Domain → Connection
  is_canceled no_domains : Connection

unfoldable pub connect_worker : CfState → List Trial → CfState × Connection
connect_worker s [] = (s, no_domains)
connect_worker s (t ∷ trials) =
    let begun = begin_fallback_dial s t.domain true t.begun in
    let done = finish_fallback_dial begun.0 t.domain true t.outcome t.finished in
    let skipped = connect_worker begun.0 trials in
    let later = connect_worker done.0 trials in
    if t.ended_before then (s, is_canceled) else if not begun.1 then skipped else elim t.outcome [
      | success ↦ (done.0, connected t.conn t.domain)
      | canceled ↦ later
      | dns ↦ later
      | other ↦ later
    ]

-- Whatever the network does, connectWorker gives back every slot that it takes: behind it, each domain
-- has as many dials under way as before, in both roles.
pub connect_worker-dials_of :
    (s : CfState) (trials : List Trial) (k : FallbackDialKey)
    → dials_of (connect_worker s trials).0 k ≡ dials_of s k
unfolding connect_worker
connect_worker-dials_of s [] k = refl
connect_worker-dials_of s (t ∷ trials) k =
    let begun = begin_fallback_dial s t.domain true t.begun in
    let done = finish_fallback_dial begun.0 t.domain true t.outcome t.finished in
    let skipped = connect_worker-dials_of begun.0 trials k in
    let later = connect_worker-dials_of done.0 trials k in
    elim (Bool-cases begun.1) [
      | inl e ↦
          ground (arith, e, later, begun-dials_of s t.domain true t.begun t.finished t.outcome k e)
      | inr e ↦ ground (arith, e, skipped, refused-dials_of s t.domain true t.begun k e)
    ]
