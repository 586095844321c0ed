-- ===== src/CfProxy/Cooldown.antt =====
-- src/cfproxy_domains.go: how long the cooldown of a domain lasts while other dials begin and finish.
use tg_ws_proxy_go.Base.{
  ℕ, ◌+◌, ◌≤◌, ◌<◌, ◌≡◌, refl, sym, subst, ap, ◌⊎◌, inl, inr, List, [], ◌∷◌, All, Bool, true, false,
  not, arith, ltb, GoMap, read_or, insert, delete, Bool-cases,
}
use tg_ws_proxy_go.CfProxy.Names.{Domain}
use tg_ws_proxy_go.CfProxy.State.{
  CfState, FallbackDialKey, DialError, success, canceled, dns, other, domain_discrete,
  begin_fallback_dial, release_dial, cool_down, finish_fallback_dial, with_failures, failures,
  cf_proxy_failure_cooldown,
}
use tg_ws_proxy_go.CfProxy.Pool.{
  is_failure, failures-release_dial, failures-with_failures, finish_fallback_dial-failed,
  cool_down-free, finish_fallback_dial-begin_fallback_dial,
}

-- A call of beginFallbackDial or of finishFallbackDial by some client.
pub data DialCall : Type 0 where
  begins : Domain → Bool → ℕ → DialCall
  finishes : Domain → Bool → DialError → ℕ → DialCall

abbrev pub call : CfState → DialCall → CfState
call s (begins d w now) = (begin_fallback_dial s d w now).0
call s (finishes d w err now) = (finish_fallback_dial s d w err now).0

abbrev pub call_all : CfState → List DialCall → CfState
call_all s [] = s
call_all s (c ∷ calls) = call_all (call s c) calls

-- A call that is no success of the domain in the role.
abbrev pub Spares : Domain → Bool → DialCall → Type 0
Spares domain worker (finishes d w success now) = ((d ≡ domain) → ⊥) ⊎ ((w ≡ worker) → ⊥)
Spares domain worker (finishes d w canceled now) = Unit
Spares domain worker (finishes d w dns now) = Unit
Spares domain worker (finishes d w other now) = Unit
Spares domain worker (begins d w now) = Unit

-- The domain has failed, and is not dialled before the time x.
abbrev IsCold : ℕ → GoMap Domain ℕ → Domain → Type 0
IsCold x m domain = x ≤ read_or (m domain) 0

IsCold-cool_down :
    (x : ℕ) (m : GoMap Domain ℕ) (domain d : Domain) (now cooldown : ℕ)
    → IsCold x m domain
    → IsCold x (cool_down m d now cooldown).0 domain
unfolding cool_down insert
IsCold-cool_down x m domain d now cooldown h = elim (Bool-cases (ltb now (read_or (m d) 0))) [
  | inl e ↦ rw (e) h
  | inr e ↦ elim (domain_discrete d domain) [
    | yes f ↦ ground (arith, e, h, f, ap (λ k. read_or (m k) 0) f)
    | no f ↦ ground (arith, e, h, f)
  ]
]

IsCold-delete :
    (x : ℕ) (m : GoMap Domain ℕ) (domain d : Domain)
    → ((d ≡ domain) → ⊥)
    → IsCold x m domain
    → IsCold x (delete domain_discrete d m) domain
unfolding delete
IsCold-delete x m domain d n h = elim (domain_discrete d domain) [
  | yes f ↦ absurd (n f)
  | no f ↦ ground (arith, h, f)
]

-- A role whose map changes, and the other one.
IsCold-with_failures :
    (x : ℕ) (s : CfState) (w worker : Bool) (m : GoMap Domain ℕ) (domain : Domain)
    → ((w ≡ worker) → IsCold x m domain)
    → IsCold x (failures s worker) domain
    → IsCold x (failures (with_failures s w m) worker) domain
IsCold-with_failures x s true true m domain h k = h refl
IsCold-with_failures x s true false m domain h k = k
IsCold-with_failures x s false true m domain h k = k
IsCold-with_failures x s false false m domain h k = h refl

IsCold-release_dial :
    (x : ℕ) (s : CfState) (key : FallbackDialKey) (worker : Bool) (domain : Domain)
    → IsCold x (failures s worker) domain
    → IsCold x (failures (release_dial s key) worker) domain
IsCold-release_dial x s key worker domain h = rw (failures-release_dial s key worker) h

failures-begin_fallback_dial :
    (s : CfState) (d : Domain) (w worker : Bool) (now : ℕ)
    → failures (begin_fallback_dial s d w now).0 worker ≡ failures s worker
unfolding begin_fallback_dial
failures-begin_fallback_dial s d w true now = ground arith
failures-begin_fallback_dial s d w false now = ground arith

-- A failure, of whatever domain and role.
IsCold-failed :
    (x : ℕ) (s : CfState) (d : Domain) (w worker : Bool) (domain : Domain) (now cooldown : ℕ)
    → IsCold x (failures s worker) domain
    → let freed = release_dial s (record { domain = d; worker = w }) in
      IsCold x
        (failures (with_failures freed w (cool_down (failures freed w) d now cooldown).0) worker)
        domain
IsCold-failed x s d w worker domain now cooldown h =
    let key : FallbackDialKey = record { domain = d; worker = w } in
    let freed = release_dial s key in
    let still = IsCold-release_dial x s key worker domain h in
    IsCold-with_failures x freed w worker (cool_down (failures freed w) d now cooldown).0 domain
      (λ e.
        IsCold-cool_down x (failures freed w) domain d now cooldown
          (subst (λ r. IsCold x (failures freed r) domain) (sym e) still))
      still

IsCold-call :
    (x : ℕ) (s : CfState) (c : DialCall) (domain : Domain) (worker : Bool)
    → Spares domain worker c
    → IsCold x (failures s worker) domain
    → IsCold x (failures (call s c) worker) domain
unfolding finish_fallback_dial
IsCold-call x s (begins d w now) domain worker k h =
    rw (failures-begin_fallback_dial s d w worker now) h
IsCold-call x s (finishes d w canceled now) domain worker k h =
    IsCold-release_dial x s (record { domain = d; worker = w }) worker domain h
IsCold-call x s (finishes d w dns now) domain worker k h =
    IsCold-failed x s d w worker domain now (cf_proxy_failure_cooldown dns) h
IsCold-call x s (finishes d w other now) domain worker k h =
    IsCold-failed x s d w worker domain now (cf_proxy_failure_cooldown other) h
IsCold-call x s (finishes d w success now) domain worker k h =
    let key : FallbackDialKey = record { domain = d; worker = w } in
    let freed = release_dial s key in
    let still = IsCold-release_dial x s key worker domain h in
    IsCold-with_failures x freed w worker (delete domain_discrete d (failures freed w)) domain
      (λ e. elim k [
        | inl n ↦
            IsCold-delete x (failures freed w) domain d n
              (subst (λ r. IsCold x (failures freed r) domain) (sym e) still)
        | inr n ↦ absurd (n e)
      ])
      still

IsCold-call_all :
    (x : ℕ) (s : CfState) (calls : List DialCall) (domain : Domain) (worker : Bool)
    → All (Spares domain worker) calls
    → IsCold x (failures s worker) domain
    → IsCold x (failures (call_all s calls) worker) domain
IsCold-call_all x s [] domain worker k h = h
IsCold-call_all x s (c ∷ calls) domain worker (k, ks) h =
    IsCold-call_all x (call s c) calls domain worker ks (IsCold-call x s c domain worker k h)

begin_fallback_dial-IsCold :
    (s : CfState) (domain : Domain) (worker : Bool) (now x : ℕ)
    → IsCold x (failures s worker) domain
    → now < x
    → (begin_fallback_dial s domain worker now).1 ≡ false
unfolding begin_fallback_dial
begin_fallback_dial-IsCold s domain worker now x h k = ground (arith, h, k)

-- A dial that fails (and is not cancelled) when no cooldown of its domain runs: the failure is
-- reported as new, the other role keeps its failures, and no dial of the domain begins in the same role
-- before the cooldown has passed, whichever dials begin and finish in between, of this domain and of
-- others, in both roles, but for a success of this domain in this role, which ends the cooldown.
pub begin_fallback_dial-cooldown :
    (s : CfState) (domain : Domain) (worker : Bool) (err : DialError) (now later : ℕ)
    (calls : List DialCall)
    → is_failure err ≡ true
    → read_or (failures s worker domain) 0 ≤ now
    → later < now + cf_proxy_failure_cooldown err
    → All (Spares domain worker) calls
    → let failed = finish_fallback_dial s domain worker err now in
      (failed.1 ≡ true)
      × ((begin_fallback_dial (call_all failed.0 calls) domain worker later).1 ≡ false)
      × (failures failed.0 (not worker) ≡ failures s (not worker))
begin_fallback_dial-cooldown s domain worker err now later calls k free soon spared =
    let failed = finish_fallback_dial s domain worker err now in
    let (new, refused, kept) =
      finish_fallback_dial-begin_fallback_dial s domain worker err now later k free soon in
    let until = now + cf_proxy_failure_cooldown err in
    (
      new,
      begin_fallback_dial-IsCold (call_all failed.0 calls) domain worker later until
          (IsCold-call_all until failed.0 calls domain worker spared
            (cooled s domain worker err now k free))
          soon,
      kept,
    )
  where
    cooled :
        (s : CfState) (domain : Domain) (worker : Bool) (err : DialError) (now : ℕ)
        → is_failure err ≡ true
        → read_or (failures s worker domain) 0 ≤ now
        → IsCold
            (now + cf_proxy_failure_cooldown err)
            (failures (finish_fallback_dial s domain worker err now).0 worker)
            domain
    cooled s domain worker err now k free =
        let freed = release_dial s (record { domain = domain; worker = worker }) in
        let cooldown = cf_proxy_failure_cooldown err in
        let free_still : read_or (failures freed worker domain) 0 ≤ now =
          rw (failures-release_dial s (record { domain = domain; worker = worker }) worker) free in
        let m = cool_down (failures freed worker) domain now cooldown in
        rw (finish_fallback_dial-failed s domain worker err now k) (
          omega (
            arith,
            ap (λ (t : GoMap Domain ℕ). read_or (t domain) 0)
                (failures-with_failures freed worker m.0).0,
            (cool_down-free (failures freed worker) domain now cooldown free_still).1,
          ))
