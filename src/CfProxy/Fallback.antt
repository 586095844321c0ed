-- ===== src/CfProxy/Fallback.antt =====
-- src/transport.go, cfproxyFallback: the dials of Cloudflare domains for a client, under the slots and
-- cooldowns of the domain state. The network is a row of trials, one for each domain of
-- cfproxyDomainsForTry, in its order; the bridge behind the connection is a part of its own.
use tg_ws_proxy_go.Base.{
  ℕ, ◌+◌, ◌≤◌, ◌≡◌, refl, ap, inl, inr, Bool-cases, List, [], ◌∷◌, Bool, false, not, ◌==◌,
  if◌then◌else◌, read_or, arith,
}
use tg_ws_proxy_go.CfProxy.Names.{Domain}
use tg_ws_proxy_go.CfProxy.State.{
  CfState, FallbackDialKey, DialError, success, canceled, dns, other, begin_fallback_dial,
  finish_fallback_dial, promote_cf_proxy_domain,
}
use tg_ws_proxy_go.CfProxy.Dials.{
  dials_of, begun-dials_of, refused-dials_of, promote_cf_proxy_domain-fallback_dials,
}

abbrev pub cf_proxy_max_attempts : ℕ
cf_proxy_max_attempts = 3

-- The context's Err() before the dial; the time of beginFallbackDial; the errors of the dial and of the
-- first write; whether the context has ended behind the write; the time of finishFallbackDial.
pub record FallbackTrial : Type 0 where
  pub domain : Domain
  pub ended_before : Bool
  pub begun : ℕ
  pub dial : DialError
  pub init_write : DialError
  pub ended_after : Bool
  pub finished : ℕ

-- What cfproxyFallback comes to: the domain that it bridges to, or its error.
pub data Fallback : Type 0 where
  is_bridged : Domain → Fallback
  is_canceled no_domains : Fallback

-- The error that finishFallbackDial gets: that of the dial, else context.Canceled where the context has
-- ended behind the write, else that of the write.
abbrev pub trial_error : FallbackTrial → DialError
trial_error t = elim t.dial [
  | success ↦ if t.ended_after then canceled else t.init_write
  | canceled ↦ canceled
  | dns ↦ dns
  | other ↦ other
]

-- The state behind the loop, how many domains it has dialled, and what it comes to.
unfoldable pub cf_proxy_fallback : CfState → ℕ → ℕ → List FallbackTrial → (CfState × ℕ) × Fallback
cf_proxy_fallback s dc attempts [] = ((s, attempts), no_domains)
cf_proxy_fallback s dc attempts (t ∷ trials) =
    let begun = begin_fallback_dial s t.domain false t.begun in
    let done = finish_fallback_dial begun.0 t.domain false (trial_error t) t.finished in
    let skipped = cf_proxy_fallback begun.0 dc attempts trials in
    let later = cf_proxy_fallback done.0 dc (attempts + 1) trials in
    if t.ended_before
    then ((s, attempts), is_canceled)
    else if attempts == cf_proxy_max_attempts
    then ((s, attempts), no_domains)
    else if not begun.1
    then skipped
    else elim (trial_error t) [
      | success ↦ ((promote_cf_proxy_domain done.0 dc t.domain, attempts + 1), is_bridged t.domain)
      | canceled ↦ later
      | dns ↦ later
      | other ↦ later
    ]

-- Whatever the network does: cfproxyFallback dials three domains at most, and gives back every slot
-- that it takes: behind it, each domain has as many dials under way as before, in both roles.
pub cf_proxy_fallback-dials_of :
    (s : CfState) (dc attempts : ℕ) (trials : List FallbackTrial) (k : FallbackDialKey)
    → attempts ≤ 3
    → ((cf_proxy_fallback s dc attempts trials).0.1 ≤ 3)
      × (dials_of (cf_proxy_fallback s dc attempts trials).0.0 k ≡ dials_of s k)
unfolding cf_proxy_fallback
cf_proxy_fallback-dials_of s dc attempts [] k n = (n, refl)
cf_proxy_fallback-dials_of s dc attempts (t ∷ trials) k n =
    let begun = begin_fallback_dial s t.domain false t.begun in
    let done = finish_fallback_dial begun.0 t.domain false (trial_error t) t.finished in
    let promoted =
      ap (λ m. read_or (m k) 0) (promote_cf_proxy_domain-fallback_dials done.0 dc t.domain) in
    elim (Bool-cases (attempts == 3)) [
      | inl full ↦ ground (arith, full, n)
      | inr few ↦ elim (Bool-cases begun.1) [
        | inl e ↦ ground (
          arith,
          few,
          n,
          e,
          cf_proxy_fallback-dials_of done.0 dc (attempts + 1) trials k (ground (arith, few, n)),
          begun-dials_of s t.domain false t.begun t.finished (trial_error t) k e,
          promoted,
        )
        | inr e ↦ ground (
          arith,
          few,
          n,
          e,
          cf_proxy_fallback-dials_of begun.0 dc attempts trials k n,
          refused-dials_of s t.domain false t.begun k e,
        )
      ]
    ]
