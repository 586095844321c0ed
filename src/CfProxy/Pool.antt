-- ===== src/CfProxy/Pool.antt =====
-- src/cfproxy_domains.go: what setCFProxyDomains, promoteCFProxyDomain and finishFallbackDial leave
-- behind in the fields that cfproxyMu guards.
use tg_ws_proxy_go.Base.{
  ℕ, ◌+◌, ◌≤◌, ◌<◌, ◌≡◌, refl, ap, ◌∙◌, ◌⊎◌, inl, inr, List, [], ◌∷◌, Bool, true, false, not, ◌||◌,
  arith, Bytes, ◌==◌, if◌then◌else◌, length, GoMap, read_or, insert, Bool-cases, ℕ_discrete,
}
use tg_ws_proxy_go.CfProxy.Names.{
  Domain, contains, append_unique_domains, append_unique_domains_lem, Distinct,
}
use tg_ws_proxy_go.CfProxy.State.{
  CfState, FallbackDialKey, DialError, success, canceled, dns, other, begin_fallback_dial,
  release_dial, cool_down, finish_fallback_dial, promote_cf_proxy_domain, set_cf_proxy_domains,
  choose_for_dcs, with_failures, failures, cf_proxy_failure_cooldown, cf_proxy_known_dcs,
}

abbrev pub listed : List ℕ → ℕ → Bool
listed [] dc = false
listed (x ∷ xs) dc = x == dc || listed xs dc

-- A pool without doubles, whose active domain, and that of every known data centre, is in it.
pub record IsPool (s : CfState) : Type 0 where
  pub distinct : Distinct s.domains
  pub active_in : contains s.domains s.active ≡ true
  pub per_dc_in :
      (dc : ℕ)
      → not (listed cf_proxy_known_dcs dc) || contains s.domains (read_or (s.per_dc_active dc) [])
        ≡ true

choose_for_dcs-kept :
    (dcs : List ℕ) (choose : ℕ → Domain) (m : GoMap ℕ Domain) (pool : List Domain) (dc : ℕ)
    → ((i : ℕ) → contains pool (choose i) ≡ true)
    → (listed dcs dc ≡ true) ⊎ (contains pool (read_or (m dc) []) ≡ true)
    → contains pool (read_or (choose_for_dcs dcs choose m dc) []) ≡ true
unfolding choose_for_dcs
choose_for_dcs-kept [] choose m pool dc h (inl e) = ground arith
choose_for_dcs-kept [] choose m pool dc h (inr e) = e
choose_for_dcs-kept (x ∷ xs) choose m pool dc h i =
    choose_for_dcs-kept xs choose (insert ℕ_discrete x (choose x) m) pool dc h
      (elim (Bool-cases (listed xs dc)) [
        | inl e ↦ inl e
        | inr e ↦ inr (unfold insert in ground (arith, h dc, h x))
      ])

-- The pool that a refresh installs.
unfoldable new_pool : List Domain → List Bytes → List Domain
new_pool defaults raws =
    let parsed = append_unique_domains [] raws in if length parsed == 0 then defaults else parsed

new_pool-Distinct :
    (defaults : List Domain) (raws : List Bytes)
    → Distinct defaults
    → Distinct (new_pool defaults raws)
unfolding new_pool
new_pool-Distinct defaults raws d = ground (arith, (append_unique_domains_lem [] raws [] tt).0, d)

new_pool-length :
    (defaults : List Domain) (raws : List Bytes)
    → length defaults == 0 ≡ false
    → length (new_pool defaults raws) == 0 ≡ false
unfolding new_pool
new_pool-length defaults raws d = ground arith

-- A refresh of the domains, where the defaults are not empty and have no doubles and the draw picks
-- from the pool: whatever stood there before, the new pool has no doubles, and the active domain, and
-- that of every known data centre, is one of it.
pub set_cf_proxy_domains-IsPool :
    (s : CfState) (defaults : List Domain) (raws : List Bytes) (draw : List Domain → ℕ → Domain)
    → Distinct defaults
    → length defaults == 0 ≡ false
    → ((pool : List Domain) (i : ℕ) → length pool == 0 ≡ false → contains pool (draw pool i) ≡ true)
    → IsPool (set_cf_proxy_domains s defaults raws draw)
unfolding set_cf_proxy_domains new_pool
set_cf_proxy_domains-IsPool s defaults raws draw d n picks =
    let pool = new_pool defaults raws in
    let picked : (i : ℕ) → contains pool (draw pool i) ≡ true =
      λ i. picks pool i (new_pool-length defaults raws n) in
    record {
      distinct = new_pool-Distinct defaults raws d;
      active_in = picked 0;
      per_dc_in = λ dc. elim (Bool-cases (listed cf_proxy_known_dcs dc)) [
        | inl e ↦ ground (
          arith,
          choose_for_dcs-kept cf_proxy_known_dcs (draw pool) s.per_dc_active pool dc picked (inl e),
        )
        | inr e ↦ ground arith
      ];
    }

-- A promotion of whatever domain keeps a pool well formed: without doubles, and with the active
-- domain, and that of every known data centre, in it.
pub promote_cf_proxy_domain-IsPool :
    (s : CfState) (dc : ℕ) (raw : Bytes) → IsPool s → IsPool (promote_cf_proxy_domain s dc raw)
unfolding promote_cf_proxy_domain insert
promote_cf_proxy_domain-IsPool s dc raw h = record {
  distinct = ground (arith, h.distinct);
  active_in = ground (arith, h.active_in);
  per_dc_in = λ k. ground (arith, h.per_dc_in k);
}

-- An error that starts a cooldown.
abbrev pub is_failure : DialError → Bool
is_failure success = false
is_failure canceled = false
is_failure dns = true
is_failure other = true

pub failures-with_failures :
    (s : CfState) (w : Bool) (m : GoMap Domain ℕ)
    → (failures (with_failures s w m) w ≡ m)
      × (failures (with_failures s w m) (not w) ≡ failures s (not w))
failures-with_failures s true m = (refl, refl)
failures-with_failures s false m = (refl, refl)

pub failures-release_dial :
    (s : CfState) (key : FallbackDialKey) (w : Bool)
    → failures (release_dial s key) w ≡ failures s w
unfolding release_dial
failures-release_dial s key true = ground arith
failures-release_dial s key false = ground arith

begin_fallback_dial-refused :
    (s : CfState) (domain : Domain) (worker : Bool) (now until : ℕ)
    → read_or (failures s worker domain) 0 ≡ until
    → now < until
    → (begin_fallback_dial s domain worker now).1 ≡ false
unfolding begin_fallback_dial
begin_fallback_dial-refused s domain worker now until e h = ground arith

pub cool_down-free :
    (m : GoMap Domain ℕ) (domain : Domain) (now cooldown : ℕ)
    → read_or (m domain) 0 ≤ now
    → ((cool_down m domain now cooldown).1 ≡ true)
      × (read_or ((cool_down m domain now cooldown).0 domain) 0 ≡ now + cooldown)
unfolding cool_down insert
cool_down-free m domain now cooldown h = ground arith

pub finish_fallback_dial-failed :
    (s : CfState) (domain : Domain) (worker : Bool) (err : DialError) (now : ℕ)
    → is_failure err ≡ true
    → let freed = release_dial s (record { domain = domain; worker = worker }) in
      let failed = cool_down (failures freed worker) domain now (cf_proxy_failure_cooldown err) in
      finish_fallback_dial s domain worker err now ≡ (with_failures freed worker failed.0, failed.1)
unfolding finish_fallback_dial
finish_fallback_dial-failed s domain worker success now h = ground arith
finish_fallback_dial-failed s domain worker canceled now h = ground arith
finish_fallback_dial-failed s domain worker dns now h = refl
finish_fallback_dial-failed s domain worker other now h = refl

-- A dial that fails (and is not cancelled) when no cooldown of its domain runs: the failure is
-- reported as new, a dial of the domain that begins next in the same role is refused at any time before
-- the cooldown ends, and the other role keeps its failures.
pub finish_fallback_dial-begin_fallback_dial :
    (s : CfState) (domain : Domain) (worker : Bool) (err : DialError) (now later : ℕ)
    → is_failure err ≡ true
    → read_or (failures s worker domain) 0 ≤ now
    → later < now + cf_proxy_failure_cooldown err
    → ((finish_fallback_dial s domain worker err now).1 ≡ true)
      × ((begin_fallback_dial
            (finish_fallback_dial s domain worker err now).0
            domain
            worker
            later).1
          ≡ false)
      × (failures (finish_fallback_dial s domain worker err now).0 (not worker)
          ≡ failures s (not worker))
finish_fallback_dial-begin_fallback_dial s domain worker err now later k free soon =
    let freed = release_dial s (record { domain = domain; worker = worker }) in
    let cooldown = cf_proxy_failure_cooldown err in
    let kept = failures-release_dial s (record { domain = domain; worker = worker }) in
    let free_still : read_or (failures freed worker domain) 0 ≤ now = rw (kept worker) free in
    let cooled = cool_down-free (failures freed worker) domain now cooldown free_still in
    let stored =
      failures-with_failures freed worker
        (cool_down (failures freed worker) domain now cooldown).0 in
    rw (finish_fallback_dial-failed s domain worker err now k) (
      cooled.0,
      begin_fallback_dial-refused _ domain worker later _
          (ap (λ m. read_or (m domain) 0) stored.0 ∙ cooled.1) soon,
      stored.1 ∙ kept (not worker),
    )
