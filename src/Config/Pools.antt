-- ===== src/Config/Pools.antt =====
-- The pools of targets that parseFlags (src/config.go) returns: different addresses, and when it refuses one.
use tg_ws_proxy_go.Base.{
  ℤ, pos, List, [], ◌∷◌, Bool, true, false, Option, none, some, Bytes, All, All-append, ◌==◌,
  length, insert_self, insert_ne, some_injective, ◌≡◌, refl, subst, inl, inr, Bool-cases, arith,
}
use tg_ws_proxy_go.CfProxy.Names.{trim, is_space, contains, Distinct, Distinct-snoc}
use tg_ws_proxy_go.CfProxy.Fetch.{split_by}
use tg_ws_proxy_go.Config.{
  int_discrete, Flags, ConfigError, Result, ok, error, ◌>>=◌, or_error, check, cut, dc_ip,
  dc_ip_number, dc_ip_address, dc_ip_pool, dc_ip_pool_number, dc_ip_pool_addresses, default_ip,
  default_pool,
}
use tg_ws_proxy_go.Config.Targets.{
  Targets, append_unique_ip, set_targets, no_targets, parse_ips, some_ips, parse_ip_csv, add_dc_ips,
  add_dc_ip_pools, default_targets,
}
use tg_ws_proxy_go.Config.Parse.{read_default_pool, read_targets, is_blank}

-- A chain that gives a result has one at its first step.
pub bind_ok {ℓ κ} :
    {A : Type ℓ} {B : Type κ} (r : Result A) (f : A → Result B) (b : B)
    → (r >>= f) ≡ ok b
    → (a : A) × (r ≡ ok a) × (f a ≡ ok b)
bind_ok (ok a) f b e = (a, refl, e)
bind_ok (error e) f b h = ground arith

or_error_ok {ℓ} :
    {A : Type ℓ} (o : Option A) (e : ConfigError) (a : A) → or_error o e ≡ ok a → o ≡ some a
or_error_ok none e a h = ground arith
or_error_ok (some x) e a h = ground arith

pub ok_injective {ℓ} : {A : Type ℓ} (a b : A) → ok a ≡ ok b → a ≡ b
ok_injective a b e = cc

pub check_ok : (b : Bool) (e : ConfigError) (u : Unit {0}) → check b e ≡ ok u → b ≡ true
check_ok true e u h = refl
check_ok false e u h = ground arith

-- The targets of one data centre: the map has the first of a pool of different addresses, each of which
-- net.ParseIP takes; or neither has an entry.
abbrev pub IsTarget : (Bytes → Bool) → Option Bytes → Option (List Bytes) → Type 0
IsTarget parse_ip none none = Unit
IsTarget parse_ip (some ip) (some (first ∷ ips)) =
    (ip ≡ first) × Distinct (first ∷ ips) × All (λ x. parse_ip x ≡ true) (first ∷ ips)
IsTarget parse_ip _ _ = ⊥

module _ (parse_ip : Bytes → Bool) where
  -- Different addresses, each of which net.ParseIP takes.
  abbrev IsIps : List Bytes → Type 0
  IsIps ips = Distinct ips × All (λ x. parse_ip x ≡ true) ips

  one_ip : (ip : Bytes) → parse_ip ip ≡ true → IsIps (ip ∷ [])
  unfolding contains
  one_ip ip v = ((refl, tt), (v, tt))

  append_unique_ip-IsIps :
      (dst : List Bytes) (ip : Bytes)
      → IsIps dst
      → parse_ip ip ≡ true
      → IsIps (append_unique_ip dst ip)
  unfolding append_unique_ip
  append_unique_ip-IsIps dst ip h v = elim (Bool-cases (contains dst ip)) [
    | inl e ↦ rw (e) h
    | inr e ↦ rw (e) (Distinct-snoc dst ip h.0 e, All-append _ dst (ip ∷ []) h.1 (v, tt))
  ]

  parse_ips-IsIps :
      (out : List Bytes) (parts ips : List Bytes)
      → IsIps out
      → parse_ips parse_ip out parts ≡ some ips
      → IsIps ips
  unfolding parse_ips
  parse_ips-IsIps out [] ips h e = subst IsIps (some_injective out ips e) h
  parse_ips-IsIps out (part ∷ parts) ips h e =
      let ip = trim is_space part in
      elim (Bool-cases (length ip == 0)) [
        | inl f ↦ parse_ips-IsIps out parts ips h (ground (arith, e, f))
        | inr f ↦ elim (Bool-cases (parse_ip ip)) [
          | inl v ↦
              parse_ips-IsIps (append_unique_ip out ip) parts ips
                (append_unique_ip-IsIps out ip h v) (ground (arith, e, f, v))
          | inr v ↦ absurd (ground (arith, e, f, v))
        ]
      ]

  some_ips-some :
      (o : Option (List Bytes)) (ip : Bytes) (ips : List Bytes)
      → some_ips parse_ip o ≡ some (ip, ips)
      → o ≡ some (ip ∷ ips)
  some_ips-some none ip ips e = ground arith
  some_ips-some (some []) ip ips e = ground arith
  some_ips-some (some (x ∷ xs)) ip ips e = ground arith

  -- parseIPCSV that returns a pool.
  parse_ip_csv-IsIps :
      (raw ip : Bytes) (ips : List Bytes)
      → parse_ip_csv parse_ip raw ≡ some (ip, ips)
      → IsIps (ip ∷ ips)
  unfolding parse_ip_csv
  parse_ip_csv-IsIps raw ip ips e =
      parse_ips-IsIps [] (split_by b',' raw) (ip ∷ ips) (tt, tt)
        (some_ips-some (parse_ips parse_ip [] (split_by b',' raw)) ip ips e)

  abbrev pub IsTargetAt : Targets → ℤ → Type 0
  IsTargetAt t k = IsTarget parse_ip (t.dc_map k) (t.dc_pool k)

  set_targets_self :
      (t : Targets) (dc k : ℤ) (ip : Bytes) (ips : List Bytes)
      → IsIps (ip ∷ ips)
      → dc ≡ k
      → IsTargetAt (set_targets t dc ip ips) k
  set_targets_self t dc k ip ips h same = subst (IsTargetAt (set_targets t dc ip ips)) same (
      rw (insert_self int_discrete dc ip t.dc_map, insert_self int_discrete dc (ip ∷ ips) t.dc_pool)
        (refl, h.0, h.1))

  set_targets-IsTarget :
      (t : Targets) (dc k : ℤ) (ip : Bytes) (ips : List Bytes)
      → IsIps (ip ∷ ips)
      → IsTargetAt t k
      → IsTargetAt (set_targets t dc ip ips) k
  set_targets-IsTarget t dc k ip ips h old = elim (int_discrete dc k) [
    | yes same ↦ set_targets_self t dc k ip ips h same
    | no differs ↦
        rw
          (
            insert_ne int_discrete dc k ip t.dc_map differs,
            insert_ne int_discrete dc k (ip ∷ ips) t.dc_pool differs,
          )
          old
  ]

  module _ (atoi : Bytes → Option ℤ) (k : ℤ) where
    add_dc_ips-IsTarget :
        (t r : Targets) (items : List Bytes)
        → IsTargetAt t k
        → add_dc_ips parse_ip atoi t items ≡ ok r
        → IsTargetAt r k
    unfolding add_dc_ips
    add_dc_ips-IsTarget t r [] h e = subst (λ s. IsTargetAt s k) (ok_injective t r e) h
    add_dc_ips-IsTarget t r (item ∷ items) h e =
        let (parts, p, e₁) = bind_ok (or_error (cut b':' item) dc_ip) _ r e in
        let (dc, d, e₂) = bind_ok (or_error (atoi parts.0) dc_ip_number) _ r e₁ in
        let (u, v, e₃) = bind_ok (check (parse_ip parts.1) dc_ip_address) _ r e₂ in
        let valid = check_ok (parse_ip parts.1) dc_ip_address u v in
        add_dc_ips-IsTarget (set_targets t dc parts.1 []) r items
          (set_targets-IsTarget t dc k parts.1 [] (one_ip parts.1 valid) h) e₃

    add_dc_ip_pools-IsTarget :
        (t r : Targets) (items : List Bytes)
        → IsTargetAt t k
        → add_dc_ip_pools parse_ip atoi t items ≡ ok r
        → IsTargetAt r k
    unfolding add_dc_ip_pools
    add_dc_ip_pools-IsTarget t r [] h e = subst (λ s. IsTargetAt s k) (ok_injective t r e) h
    add_dc_ip_pools-IsTarget t r (item ∷ items) h e =
        let (parts, p, e₁) = bind_ok (or_error (cut b':' item) dc_ip_pool) _ r e in
        let (dc, d, e₂) = bind_ok (or_error (atoi parts.0) dc_ip_pool_number) _ r e₁ in
        let (ips, i, e₃) =
          bind_ok (or_error (parse_ip_csv parse_ip parts.1) dc_ip_pool_addresses) _ r e₂ in
        add_dc_ip_pools-IsTarget (set_targets t dc ips.0 ips.1) r items
          (set_targets-IsTarget t dc k ips.0 ips.1
            (parse_ip_csv-IsIps parts.1 ips.0 ips.1
              (or_error_ok (parse_ip_csv parse_ip parts.1) dc_ip_pool_addresses ips i))
            h)
          e₃

    read_default_pool-IsIps :
        (f : Flags) (pool : Bytes × List Bytes)
        → read_default_pool parse_ip f ≡ ok pool
        → IsIps (pool.0 ∷ pool.1)
    unfolding read_default_pool
    read_default_pool-IsIps f pool e =
        let ip = trim is_space f.dc_ip_default in
        let (u, v, e₁) = bind_ok (check (parse_ip ip) default_ip) _ pool e in
        elim (Bool-cases (is_blank f.dc_ip_default_pool)) [
          | inl b ↦
              subst (λ (p : Bytes × List Bytes). IsIps (p.0 ∷ p.1))
                (ok_injective (ip, []) pool (ground (arith, e₁, b)))
                (one_ip ip (check_ok (parse_ip ip) default_ip u v))
          | inr b ↦ parse_ip_csv-IsIps f.dc_ip_default_pool pool.0 pool.1 (
              or_error_ok (parse_ip_csv parse_ip f.dc_ip_default_pool) default_pool pool
                (ground (arith, e₁, b)))
        ]

    pub read_targets-IsTarget :
        (f : Flags) (r : Targets) → read_targets parse_ip atoi f ≡ ok r → IsTargetAt r k
    unfolding read_targets
    read_targets-IsTarget f r e =
        let (pool, p, e₁) = bind_ok (read_default_pool parse_ip f) _ r e in
        let (single, s, e₂) =
          bind_ok (add_dc_ips parse_ip atoi (default_targets pool) f.dc_ips) _ r e₁ in
        let ips = read_default_pool-IsIps f pool p in
        let both =
          set_targets-IsTarget (set_targets no_targets (pos 2) pool.0 pool.1) (pos 4) k pool.0
            pool.1 ips (set_targets-IsTarget no_targets (pos 2) k pool.0 pool.1 ips tt) in
        add_dc_ip_pools-IsTarget single r f.dc_ip_pools
          (add_dc_ips-IsTarget (default_targets pool) single f.dc_ips both s) e₂
