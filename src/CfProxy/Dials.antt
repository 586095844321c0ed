-- ===== src/CfProxy/Dials.antt =====
-- src/cfproxy_domains.go under many clients at once: the steps that the holders of cfproxyMu take, in
-- any order. Each fallback dial is a beginFallbackDial that answers true and later one
-- finishFallbackDial; refreshes of the pool, promotions and failures come in between.
use tg_ws_proxy_go.Base.{
  ℕ, ◌+◌, ◌-◌, ◌≤◌, ◌≡◌, refl, List, Bool, true, false, arith, Bytes, GoMap, no_entries, read_or,
  insert, delete,
}
use mathlib.Core.Logic.{ite}
use tg_ws_proxy_go.CfProxy.Names.{Domain}
use tg_ws_proxy_go.CfProxy.State.{
  CfState, FallbackDialKey, DialError, success, canceled, dns, other, key_discrete,
  begin_fallback_dial, release_dial, finish_fallback_dial, mark_cf_proxy_domain_failed,
  promote_cf_proxy_domain, set_cf_proxy_domains, with_failures,
}

-- The guarded fields, and how many dials of each key are under way.
pub record Cluster : Type 0 where
  pub state : CfState
  pub active : FallbackDialKey → ℕ

abbrev pub with_active : (FallbackDialKey → ℕ) → FallbackDialKey → ℕ → FallbackDialKey → ℕ
with_active f k n j = ite (key_discrete k j) n (f j)

abbrev pub key_of : Domain → Bool → FallbackDialKey
key_of d w = record { domain = d; worker = w }

pub data CfStep : Cluster → Cluster → Type 0 where
  begins :
      (s : Cluster) (domain : Domain) (worker : Bool) (now : ℕ)
      → (begin_fallback_dial s.state domain worker now).1 ≡ true
      → CfStep s (record {
        state = (begin_fallback_dial s.state domain worker now).0;
        active = with_active s.active (key_of domain worker) (s.active (key_of domain worker) + 1);
      })
  is_refused :
      (s : Cluster) (domain : Domain) (worker : Bool) (now : ℕ)
      → (begin_fallback_dial s.state domain worker now).1 ≡ false
      → CfStep s (record s { state = (begin_fallback_dial s.state domain worker now).0 })
  finishes :
      (s : Cluster) (domain : Domain) (worker : Bool) (err : DialError) (now : ℕ)
      → 1 ≤ s.active (key_of domain worker)
      → CfStep s (record {
        state = (finish_fallback_dial s.state domain worker err now).0;
        active = with_active s.active (key_of domain worker) (s.active (key_of domain worker) - 1);
      })
  marks :
      (s : Cluster) (raw : Bytes) (cooldown now : ℕ)
      → CfStep s (record s { state = (mark_cf_proxy_domain_failed s.state raw cooldown now).0 })
  promotes :
      (s : Cluster) (dc : ℕ) (raw : Bytes)
      → CfStep s (record s { state = promote_cf_proxy_domain s.state dc raw })
  refreshes :
      (s : Cluster) (defaults : List Domain) (raws : List Bytes) (draw : List Domain → ℕ → Domain)
      → CfStep s (record s { state = set_cf_proxy_domains s.state defaults raws draw })

-- From any fields with no dial under way.
pub data CfReach : Cluster → Type 0 where
  at_start :
      (s : CfState)
      → (s.fallback_dials ≡ no_entries)
      → CfReach (record { state = s; active = λ k. 0 })
  next : {s t : Cluster} → CfReach s → CfStep s t → CfReach t

-- The entry of a key counts its dials, and there are at most four.
abbrev pub IsCounted : Cluster → Type 0
IsCounted s =
    (k : FallbackDialKey) → (read_or (s.state.fallback_dials k) 0 ≡ s.active k) × (s.active k ≤ 4)

with_failures-fallback_dials :
    (s : CfState) (w : Bool) (m : GoMap Domain ℕ)
    → (with_failures s w m).fallback_dials ≡ s.fallback_dials
with_failures-fallback_dials s true m = refl
with_failures-fallback_dials s false m = refl

pub finish_fallback_dial-fallback_dials :
    (s : CfState) (d : Domain) (w : Bool) (e : DialError) (now : ℕ)
    → (finish_fallback_dial s d w e now).0.fallback_dials
      ≡ (release_dial s (key_of d w)).fallback_dials
unfolding finish_fallback_dial
finish_fallback_dial-fallback_dials s d w success now = with_failures-fallback_dials _ w _
finish_fallback_dial-fallback_dials s d w canceled now = refl
finish_fallback_dial-fallback_dials s d w dns now = with_failures-fallback_dials _ w _
finish_fallback_dial-fallback_dials s d w other now = with_failures-fallback_dials _ w _

mark_cf_proxy_domain_failed-fallback_dials :
    (s : CfState) (raw : Bytes) (cooldown now : ℕ)
    → (mark_cf_proxy_domain_failed s raw cooldown now).0.fallback_dials ≡ s.fallback_dials
unfolding mark_cf_proxy_domain_failed
mark_cf_proxy_domain_failed-fallback_dials s raw cooldown now = ground arith

pub promote_cf_proxy_domain-fallback_dials :
    (s : CfState) (dc : ℕ) (raw : Bytes)
    → (promote_cf_proxy_domain s dc raw).fallback_dials ≡ s.fallback_dials
unfolding promote_cf_proxy_domain
promote_cf_proxy_domain-fallback_dials s dc raw = ground arith

set_cf_proxy_domains-fallback_dials :
    (s : CfState) (defaults : List Domain) (raws : List Bytes) (draw : List Domain → ℕ → Domain)
    → (set_cf_proxy_domains s defaults raws draw).fallback_dials ≡ s.fallback_dials
unfolding set_cf_proxy_domains
set_cf_proxy_domains-fallback_dials s defaults raws draw = refl

CfStep-IsCounted : {s t : Cluster} → CfStep s t → IsCounted s → IsCounted t
CfStep-IsCounted (begins s d w now e) h k =
    unfold begin_fallback_dial insert in ground (arith, h k, h (key_of d w))
CfStep-IsCounted (is_refused s d w now e) h k =
    unfold begin_fallback_dial insert in ground (arith, h k, h (key_of d w))
CfStep-IsCounted (finishes s d w err now a) h k =
    rw (finish_fallback_dial-fallback_dials s.state d w err now)
      (unfold release_dial insert delete in ground (arith, h k, h (key_of d w)))
CfStep-IsCounted (marks s raw c now) h k =
    rw (mark_cf_proxy_domain_failed-fallback_dials s.state raw c now) (h k)
CfStep-IsCounted (promotes s dc raw) h k =
    rw (promote_cf_proxy_domain-fallback_dials s.state dc raw) (h k)
CfStep-IsCounted (refreshes s defaults raws draw) h k =
    rw (set_cf_proxy_domains-fallback_dials s.state defaults raws draw) (h k)

CfReach-IsCounted : {s : Cluster} → CfReach s → IsCounted s
CfReach-IsCounted (at_start s e) k = (rw (e) refl, ground arith)
CfReach-IsCounted (next r st) k = CfStep-IsCounted st (CfReach-IsCounted r) k

-- From fields with no dial under way, and however the clients, the refreshes of the pool, the
-- failures and the promotions interleave: at most four dials of a domain are under way as a
-- worker and at most four as a plain proxy, and the map counts exactly those.
pub CfReach-active :
    {s : Cluster} (k : FallbackDialKey)
    → CfReach s
    → (s.active k ≤ 4) × (read_or (s.state.fallback_dials k) 0 ≡ s.active k)
CfReach-active k r = ground (arith, CfReach-IsCounted r k)

abbrev pub dials_of : CfState → FallbackDialKey → ℕ
dials_of s key = read_or (s.fallback_dials key) 0

pub refused-dials_of :
    (s : CfState) (domain : Domain) (worker : Bool) (now : ℕ) (k : FallbackDialKey)
    → (begin_fallback_dial s domain worker now).1 ≡ false
    → dials_of (begin_fallback_dial s domain worker now).0 k ≡ dials_of s k
unfolding begin_fallback_dial
refused-dials_of s domain worker now k h = ground arith

pub begun-dials_of :
    (s : CfState) (domain : Domain) (worker : Bool) (now finished : ℕ) (err : DialError)
    (k : FallbackDialKey)
    → (begin_fallback_dial s domain worker now).1 ≡ true
    → dials_of
        (finish_fallback_dial
          (begin_fallback_dial s domain worker now).0
          domain
          worker
          err
          finished).0
        k
      ≡ dials_of s k
begun-dials_of s domain worker now finished err k h =
    rw
      (finish_fallback_dial-fallback_dials (begin_fallback_dial s domain worker now).0 domain worker
        err finished)
      (unfold begin_fallback_dial release_dial insert delete in ground arith)
