-- ===== src/CfProxy/State.antt =====
-- src/cfproxy_domains.go and src/types.go: the fields of Config that cfproxyMu guards, and their
-- operations. Each holds the lock throughout and is one step. Times are nanoseconds, the zero time
-- is 0; a nil map reads like an empty one.
use tg_ws_proxy_go.Base.{
  ℕ, ◌+◌, ◌-◌, ◌*◌, List, [], ◌∷◌, Bool, true, false, not, ◌||◌, none, Bytes, ltb, leb, ◌==◌,
  if◌then◌else◌, length, GoMap, read_or, insert, delete, ℕ_discrete,
}
use tg_ws_proxy_go.CfProxy.Names.{
  Domain, contains, append_unique_domains, normalize_cf_proxy_domain,
}

abbrev pub fallback_max_dials_per_domain : ℕ
fallback_max_dials_per_domain = 4

abbrev pub minutes : ℕ → ℕ
minutes n = n * 60000000000

abbrev pub cf_proxy_dns_fail_cooldown : ℕ
cf_proxy_dns_fail_cooldown = minutes 5

abbrev pub cf_proxy_fail_cooldown : ℕ
cf_proxy_fail_cooldown = minutes 1

abbrev pub cf_proxy_known_dcs : List ℕ
cf_proxy_known_dcs = 1 ∷ 2 ∷ 3 ∷ 4 ∷ 5 ∷ 203 ∷ []

pub record FallbackDialKey : Type 0 where
  pub domain : Domain
  pub worker : Bool

pub domain_discrete : Discrete Domain
domain_discrete = hlevel ℕ_discrete

pub key_discrete : Discrete FallbackDialKey
key_discrete = hlevel ℕ_discrete

-- FallbackCFProxyDomains, FallbackCFProxyWorkerDomains, FallbackCFProxyActive,
-- FallbackCFProxyPerDCActive, FallbackCFProxyDomain, the two maps of failures, and fallbackDials.
pub record CfState : Type 0 where
  pub domains : List Domain
  pub worker_domains : List Domain
  pub active : Domain
  pub per_dc_active : GoMap ℕ Domain
  pub last_domain : Domain
  pub fail_until : GoMap Domain ℕ
  pub worker_fail_until : GoMap Domain ℕ
  pub fallback_dials : GoMap FallbackDialKey ℕ

-- nil, an error that is context.Canceled, one that holds a *net.DNSError, or another.
pub data DialError : Type 0 where
  success canceled dns other : DialError

-- The two halves of `domains, failures := ...; if worker { ... }`.
abbrev pub dial_domains : CfState → Bool → List Domain
dial_domains s worker = if worker then s.worker_domains else s.domains

abbrev pub failures : CfState → Bool → GoMap Domain ℕ
failures s worker = if worker then s.worker_fail_until else s.fail_until

abbrev pub with_failures : CfState → Bool → GoMap Domain ℕ → CfState
with_failures s worker m =
    if worker then record s { worker_fail_until = m } else record s { fail_until = m }

unfoldable pub begin_fallback_dial : CfState → Domain → Bool → ℕ → CfState × Bool
begin_fallback_dial s domain worker now =
    let key : FallbackDialKey = record { domain = domain; worker = worker } in
    let dials = read_or (s.fallback_dials key) 0 in
    if not (contains (dial_domains s worker) domain)
      || ltb now (read_or (failures s worker domain) 0)
      || leb fallback_max_dials_per_domain dials
    then (s, false)
    else (record s { fallback_dials = insert key_discrete key (dials + 1) s.fallback_dials }, true)

abbrev pub cf_proxy_failure_cooldown : DialError → ℕ
cf_proxy_failure_cooldown dns = cf_proxy_dns_fail_cooldown
cf_proxy_failure_cooldown _ = cf_proxy_fail_cooldown

-- The first statements of finishFallbackDial: the slot is given back.
unfoldable pub release_dial : CfState → FallbackDialKey → CfState
release_dial s key =
    let dials = read_or (s.fallback_dials key) 0 in
    if leb dials 1
    then record s { fallback_dials = delete key_discrete key s.fallback_dials }
    else record s { fallback_dials = insert key_discrete key (dials - 1) s.fallback_dials }

-- The last part of finishFallbackDial, behind the checks of the error; also the end of
-- markCFProxyDomainFailed. The answer tells whether this is the first failure of a cooldown.
unfoldable pub cool_down : GoMap Domain ℕ → Domain → ℕ → ℕ → GoMap Domain ℕ × Bool
cool_down m domain now cooldown =
    if ltb now (read_or (m domain) 0)
    then (m, false)
    else (insert domain_discrete domain (now + cooldown) m, true)

unfoldable pub finish_fallback_dial : CfState → Domain → Bool → DialError → ℕ → CfState × Bool
finish_fallback_dial s domain worker err now =
    let freed = release_dial s (record { domain = domain; worker = worker }) in
    let failed = cool_down (failures freed worker) domain now (cf_proxy_failure_cooldown err) in
    elim err [
      | canceled ↦ (freed, false)
      | success ↦ (
        with_failures freed worker (delete domain_discrete domain (failures freed worker)),
        false,
      )
      | dns ↦ (with_failures freed worker failed.0, failed.1)
      | other ↦ (with_failures freed worker failed.0, failed.1)
    ]

unfoldable pub mark_cf_proxy_domain_failed : CfState → Bytes → ℕ → ℕ → CfState × Bool
mark_cf_proxy_domain_failed s raw cooldown now =
    let domain = normalize_cf_proxy_domain raw in
    if length domain == 0
    then (s, false)
    else let failed = cool_down s.fail_until domain now cooldown in
      (record s { fail_until = failed.0 }, failed.1)

unfoldable pub promote_cf_proxy_domain : CfState → ℕ → Bytes → CfState
promote_cf_proxy_domain s dc raw =
    let domain = normalize_cf_proxy_domain raw in
    if length domain == 0 || not (contains s.domains domain) then s else record s {
      per_dc_active = insert ℕ_discrete dc domain s.per_dc_active;
      active = domain;
      last_domain = domain;
      fail_until = delete domain_discrete domain s.fail_until;
    }

-- The loop over cfProxyKnownDCs; `choose` is the draw of chooseActiveDomain, one for each call.
unfoldable pub choose_for_dcs : List ℕ → (ℕ → Domain) → GoMap ℕ Domain → GoMap ℕ Domain
choose_for_dcs [] choose m = m
choose_for_dcs (dc ∷ dcs) choose m = choose_for_dcs dcs choose (insert ℕ_discrete dc (choose dc) m)

-- `draw` is chooseActiveDomain on the pool, for the active domain (0) and for each data centre; the
-- default pool is an argument.
unfoldable pub set_cf_proxy_domains :
    CfState → List Domain → List Bytes → (List Domain → ℕ → Domain) → CfState
set_cf_proxy_domains s defaults raws draw =
    let parsed = append_unique_domains [] raws in
    let pool = if length parsed == 0 then defaults else parsed in
    let active = draw pool 0 in
    record s {
      domains = pool;
      active = active;
      per_dc_active = choose_for_dcs cf_proxy_known_dcs (draw pool) s.per_dc_active;
      last_domain = if length active == 0 then s.last_domain else active;
      fail_until = λ k. if contains pool k then s.fail_until k else none;
    }
