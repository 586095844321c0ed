-- ===== src/WsPool/Targets.antt =====
-- src/pool.go, getForDC: the targets of a data centre are asked one after another. `look` gives the times
-- of the get for each target, `key_of` its key; each get has more fuel than its bucket is long.
use tg_ws_proxy_go.Base.{
  ℕ, suc, ◌<◌, ◌≡◌, ◌≢◌, ◌⊎◌, refl, subst, ap, ap₂, ◌∙◌, inl, inr, Bool-cases, List, [], ◌∷◌, ◌++◌,
  Bool, false, Option, none, some, if◌then◌else◌, ◌==◌, length, All, insert_self, insert_ne, insert,
  read_or, zero, arith,
}
use tg_ws_proxy_go.WsPool.{PooledWs, WsPool, bucket, stale, schedule_refill}
use tg_ws_proxy_go.WsPool.Get.{
  Taken, first_fresh, get, get-first_fresh, schedule_refill-bucket, get_round-empty, get_round-item,
}

abbrev pub or_else : {A : Type 0} → Option A → Option A → Option A
or_else none later = later
or_else (some a) later = some a

not_zero : (n : ℕ) → n ≢ 0 → (n == 0) ≡ false
not_zero n h = ground (arith, h)

module _ {K D T : Type 0} (d : Discrete K) (size : ℕ) (key_of : T → K) (domains : List D)
    (broken : ℕ → Bool) (look : T → ℕ × ℕ) where
  -- `p.get(cfg, key, ip, domains)`.
  abbrev pub get_at : WsPool K D → T → Option (Taken K D)
  get_at p ip =
      get d size (suc (length (bucket p (key_of ip)))) p (key_of ip) domains broken (look ip).0
        (look ip).1 []

  -- `if ws := ...; ws != nil { return ws }`, and what is behind it.
  abbrev pub or_next :
      WsPool K D → Option PooledWs → WsPool K D × Option PooledWs → WsPool K D × Option PooledWs
  or_next p none next = next
  or_next p (some ws) next = (p, some ws)

  -- `for _, ip := range cfg.DCPool[key.DC] { ... }`.
  unfoldable pub get_from_targets : WsPool K D → List T → WsPool K D × Option PooledWs
  get_from_targets p [] = (p, none)
  get_from_targets p (ip ∷ ips) = elim (get_at p ip) [
    | none ↦ (p, none)
    | some t ↦ or_next t.pool t.returned (get_from_targets t.pool ips)
  ]

  unfoldable pub get_for_dc : WsPool K D → List T → WsPool K D × Option PooledWs
  get_for_dc p ips = if size == 0 then (p, none) else get_from_targets p ips

  -- What a get keeps: the buckets of other keys, and that the pool is open.
  abbrev pub IsElsewhere : K → K → WsPool K D → Option (Taken K D) → Type 0
  IsElsewhere key k p none = Unit
  IsElsewhere key k p (some t) =
      ((key ≡ k) ⊎ (bucket t.pool k ≡ bucket p k)) × (t.pool.closed ≡ false)

  get-IsElsewhere :
      (b : List PooledWs) (fuel : ℕ) (p r : WsPool K D) (key k : K) (now at : ℕ)
      (dropped : List PooledWs)
      → length b < fuel
      → r.closed ≡ false
      → bucket r key ≡ b
      → (key ≡ k) ⊎ (bucket r k ≡ bucket p k)
      → IsElsewhere key k p (get d size fuel r key domains broken now at dropped)
  unfolding get
  get-IsElsewhere b zero p r key k now at dropped l c e n = tt
  get-IsElsewhere [] (suc fuel) p r key k now at dropped l c e n =
      let kept = schedule_refill-bucket d size r key k domains at in
      rw (get_round-empty d size r key domains broken now at c e)
        (elim n [ inl same ↦ inl same | inr other ↦ inr (kept.0 ∙ other) ], kept.1 ∙ c)
  get-IsElsewhere (ws ∷ b) (suc fuel) p r key k now at dropped l c e n =
      let r' : WsPool K D = record r { idle = insert d key b r.idle } in
      let q = schedule_refill d size r' key domains at in
      let kept = schedule_refill-bucket d size r' key k domains at in
      let left : bucket q.0 key ≡ b =
        (schedule_refill-bucket d size r' key key domains at).0
        ∙ ap (λ o. read_or o []) (insert_self d key b r.idle) in
      let away : (key ≡ k) ⊎ (bucket q.0 k ≡ bucket p k) = elim (d key k) [
        | yes same ↦ inl same
        | no differs ↦ elim n [
          | inl same ↦ inl same
          | inr other ↦
              inr (kept.0 ∙ ap (λ o. read_or o []) (insert_ne d key k b r.idle differs) ∙ other)
        ]
      ] in
      rw (get_round-item d size r key domains broken now at ws b c e)
        (elim (Bool-cases (stale broken now ws)) [
          | inr f ↦ rw (f) (away, kept.1 ∙ c)
          | inl f ↦ rw (f) (
              get-IsElsewhere b fuel p q.0 key k now at (dropped ++ ws ∷ []) (omega (arith, l))
                (kept.1 ∙ c) left away)
        ])

  -- The first connection that is not stale, over the targets in their order.
  abbrev pub first_of_targets : WsPool K D → List T → Option PooledWs
  first_of_targets p [] = none
  first_of_targets p (ip ∷ ips) =
      or_else (first_fresh broken (look ip).0 (bucket p (key_of ip))) (first_of_targets p ips)

  -- Targets of different keys.
  abbrev pub IsApart : List T → Type 0
  IsApart [] = Unit
  IsApart (ip ∷ ips) = All (λ other. key_of ip ≢ key_of other) ips × IsApart ips

  first_of_targets-kept :
      (p r : WsPool K D) (ips : List T)
      → All (λ ip. bucket r (key_of ip) ≡ bucket p (key_of ip)) ips
      → first_of_targets r ips ≡ first_of_targets p ips
  first_of_targets-kept p r [] h = refl
  first_of_targets-kept p r (ip ∷ ips) h =
      ap₂ or_else (ap (first_fresh broken (look ip).0) h.0) (first_of_targets-kept p r ips h.1)

  buckets_kept :
      (p : WsPool K D) (t : Taken K D) (ip : T) (ips : List T)
      → ((k : K) → IsElsewhere (key_of ip) k p (some t))
      → All (λ other. key_of ip ≢ key_of other) ips
      → All (λ other. bucket t.pool (key_of other) ≡ bucket p (key_of other)) ips
  buckets_kept p t ip [] h a = tt
  buckets_kept p t ip (other ∷ ips) h a = (
    elim (h (key_of other)).0 [ inl same ↦ absurd (a.0 same) | inr e ↦ e ],
    buckets_kept p t ip ips h a.1,
  )

  get_at-IsElsewhere :
      (p : WsPool K D) (ip : T) (t : Taken K D) (k : K)
      → p.closed ≡ false
      → get_at p ip ≡ some t
      → IsElsewhere (key_of ip) k p (some t)
  get_at-IsElsewhere p ip t k c e = subst (IsElsewhere (key_of ip) k p) e (
      get-IsElsewhere (bucket p (key_of ip)) (suc (length (bucket p (key_of ip)))) p p (key_of ip) k
        (look ip).0 (look ip).1 [] (omega arith) c refl (inr refl))

  or_next-or_else :
      (q : WsPool K D) (o : Option PooledWs) (next : WsPool K D × Option PooledWs)
      → (or_next q o next).1 ≡ or_else o next.1
  or_next-or_else q none next = refl
  or_next-or_else q (some ws) next = refl

  get_from_targets-first :
      (p : WsPool K D) (ips : List T)
      → p.closed ≡ false
      → IsApart ips
      → (get_from_targets p ips).1 ≡ first_of_targets p ips
  unfolding get_from_targets
  get_from_targets-first p [] c a = refl
  get_from_targets-first p (ip ∷ ips) c a =
      let got =
        get-first_fresh d size (suc (length (bucket p (key_of ip)))) p (key_of ip) domains broken
          (look ip).0 (look ip).1 (omega arith) c in
      let away = get_at-IsElsewhere p ip got.taken (key_of ip) c got.returns in
      let kept =
        buckets_kept p got.taken ip ips (λ k. get_at-IsElsewhere p ip got.taken k c got.returns)
          a.0 in
      let later = get_from_targets got.taken.pool ips in
      rw (get_from_targets, got.returns)
        (or_next-or_else got.taken.pool got.taken.returned later
          ∙ ap₂ or_else got.first (
              get_from_targets-first got.taken.pool ips away.1 a.1
              ∙ first_of_targets-kept p got.taken.pool ips kept))

  -- Where PoolSize is not 0, the pool is open and the targets are of different keys: getForDC
  -- returns the first connection that is not stale, over the buckets of the targets in their order,
  -- and nothing exactly where all connections of all of them are stale.
  pub get_for_dc-first :
      (p : WsPool K D) (ips : List T)
      → size ≢ 0
      → p.closed ≡ false
      → IsApart ips
      → (get_for_dc p ips).1 ≡ first_of_targets p ips
  unfolding get_for_dc
  get_for_dc-first p ips s c a = rw (not_zero size s) (get_from_targets-first p ips c a)
