-- ===== src/CfProxy/Choice.antt =====
-- src/cfproxy_domains.go: cfproxyDomainAvailableLocked and cfproxyDomainsForTry, the domains that a
-- fallback tries, in order. rand.Shuffle is a parameter: any function on lists that keeps which
-- domains stand in the list.
use tg_ws_proxy_go.Base.{
  ℕ, ◌≡◌, refl, ap, inl, inr, List, [], ◌∷◌, ◌++◌, Bool, true, false, not, ◌||◌, ◌&&◌, none, some,
  arith, ltb, ◌==◌, if◌then◌else◌, length, GoMap, read_or, delete, Bool-cases, bytes_equal,
  bytes_equal_refl, bytes_equal→eq,
}
use tg_ws_proxy_go.CfProxy.Names.{
  Domain, contains, contains-append, bytes_equal_comm, normalize_cf_proxy_domain,
}
use tg_ws_proxy_go.CfProxy.State.{CfState, domain_discrete}

-- The failures behind the call, and the answer.
unfoldable pub cf_proxy_domain_available : GoMap Domain ℕ → Domain → ℕ → GoMap Domain ℕ × Bool
cf_proxy_domain_available m domain now = elim (m domain) [
  | none ↦ (m, true)
  | some until ↦ if ltb now until then (m, false) else (delete domain_discrete domain m, true)
]

-- The loop that looks for the active domain, with its break.
unfoldable pub take_active :
    List Domain → Domain → ℕ → GoMap Domain ℕ → GoMap Domain ℕ × List Domain
take_active [] active now m = (m, [])
take_active (domain ∷ domains) active now m =
    if bytes_equal domain active
    then (let (m', free) = cf_proxy_domain_available m domain now in
        let rest = take_active domains active now m' in if free then (m', domain ∷ []) else rest)
    else take_active domains active now m

-- `if active != "" { for ... }`.
unfoldable pub take_first : List Domain → Domain → ℕ → GoMap Domain ℕ → GoMap Domain ℕ × List Domain
take_first domains active now m =
    if length active == 0 then (m, []) else take_active domains active now m

-- The loop over the shuffled domains.
unfoldable pub take_others :
    List Domain → Domain → ℕ → GoMap Domain ℕ → GoMap Domain ℕ × List Domain
take_others [] active now m = (m, [])
take_others (domain ∷ domains) active now m =
    if bytes_equal domain active
    then take_others domains active now m
    else (let (m', free) = cf_proxy_domain_available m domain now in
        let (m'', rest) = take_others domains active now m' in
        (m'', if free then domain ∷ rest else rest))

unfoldable pub active_for : CfState → ℕ → Domain
active_for s dc =
    let active = normalize_cf_proxy_domain (read_or (s.per_dc_active dc) []) in
    if length active == 0 then normalize_cf_proxy_domain s.active else active

unfoldable pub cf_proxy_domains_for_try :
    (List Domain → List Domain) → CfState → ℕ → ℕ → CfState × List Domain
cf_proxy_domains_for_try shuffle s dc now =
    let active = active_for s dc in
    let (m, first) = take_first s.domains active now s.fail_until in
    let (m', rest) = take_others (shuffle s.domains) active now m in
    if length s.domains == 0 then (s, []) else (record s { fail_until = m' }, first ++ rest)

-- No cooldown of the domain runs.
abbrev pub is_free : GoMap Domain ℕ → Domain → ℕ → Bool
is_free m domain now = not (ltb now (read_or (m domain) 0))

cf_proxy_domain_available_lem :
    (m : GoMap Domain ℕ) (x y : Domain) (now : ℕ)
    → ((cf_proxy_domain_available m x now).1 ≡ is_free m x now)
      × (is_free (cf_proxy_domain_available m x now).0 y now ≡ is_free m y now)
unfolding cf_proxy_domain_available delete
cf_proxy_domain_available_lem m x y now = ground arith

take_active_lem :
    (xs : List Domain) (a y : Domain) (now : ℕ) (m : GoMap Domain ℕ)
    → ((take_active xs a now m).1 ≡ (if contains xs a && is_free m a now then a ∷ [] else []))
      × (is_free (take_active xs a now m).0 y now ≡ is_free m y now)
unfolding take_active contains
take_active_lem [] a y now m = (refl, refl)
take_active_lem (x ∷ xs) a y now m =
    let m' = (cf_proxy_domain_available m x now).0 in
    elim (Bool-cases (bytes_equal x a)) [
      | inl e ↦
          let same = bytes_equal→eq x a e in
          ground (
            arith,
            take_active_lem xs a y now m',
            cf_proxy_domain_available_lem m x y now,
            cf_proxy_domain_available_lem m x a now,
            ap (λ z. z ∷ []) same,
            ap (λ z. is_free m z now) same,
          )
      | inr e ↦ ground (arith, take_active_lem xs a y now m)
    ]

-- The active domain is in front exactly when there is one, in the pool and free.
abbrev leads : List Domain → Domain → ℕ → GoMap Domain ℕ → Bool
leads xs a now m = not (length a == 0) && contains xs a && is_free m a now

take_first_lem :
    (xs : List Domain) (a y : Domain) (now : ℕ) (m : GoMap Domain ℕ)
    → ((take_first xs a now m).1 ≡ (if leads xs a now m then a ∷ [] else []))
      × (is_free (take_first xs a now m).0 y now ≡ is_free m y now)
unfolding take_first
take_first_lem xs a y now m = ground (arith, take_active_lem xs a y now m)

take_others_lem :
    (xs : List Domain) (a y : Domain) (now : ℕ) (m : GoMap Domain ℕ)
    → (contains (take_others xs a now m).1 y
        ≡ contains xs y && not (bytes_equal y a) && is_free m y now)
      × (is_free (take_others xs a now m).0 y now ≡ is_free m y now)
unfolding take_others contains
take_others_lem [] a y now m = (refl, refl)
take_others_lem (x ∷ xs) a y now m =
    let m' = (cf_proxy_domain_available m x now).0 in
    let later = take_others_lem xs a y now m' in
    let skipped = take_others_lem xs a y now m in
    let here = cf_proxy_domain_available_lem m x y now in
    elim (Bool-cases (bytes_equal x y)) [
      | inl e ↦
          let same = bytes_equal→eq x y e in
          ground (
            arith,
            later,
            skipped,
            here,
            ap (λ z. bytes_equal z a) same,
            ap (λ z. is_free m z now) same,
          )
      | inr e ↦ ground (arith, later, skipped, here)
    ]

empty_domain : (xs : Domain) → length xs == 0 ≡ true → xs ≡ []
empty_domain [] h = refl
empty_domain (x ∷ xs) h = ground arith

no_domain : (xs : List Domain) (y : Domain) → length xs == 0 ≡ true → contains xs y ≡ false
no_domain [] y h = unfold contains in refl
no_domain (x ∷ xs) y h = ground arith

-- The two loops together.
both_loops :
    (xs ys : List Domain) (a y : Domain) (now : ℕ) (m : GoMap Domain ℕ)
    → contains ((take_first xs a now m).1 ++ (take_others ys a now (take_first xs a now m).0).1) y
      ≡ (leads xs a now m && bytes_equal a y)
        || (contains ys y && not (bytes_equal y a) && is_free m y now)
unfolding contains
both_loops xs ys a y now m =
    let first = take_first xs a now m in
    ground (
      arith,
      contains-append first.1 (take_others ys a now first.0).1 y,
      (take_first_lem xs a y now m).1,
      ap (λ z. contains z y) (take_first_lem xs a y now m).0,
      take_others_lem ys a y now first.0,
    )

tried :
    (xs ys : List Domain) (a y : Domain) (now : ℕ) (m : GoMap Domain ℕ)
    → contains ys y ≡ contains xs y
    → contains xs [] ≡ false
    → contains ((take_first xs a now m).1 ++ (take_others ys a now (take_first xs a now m).0).1) y
      ≡ contains xs y && is_free m y now
tried xs ys a y now m k e =
    rw (both_loops xs ys a y now m, bytes_equal_comm a y, k)
      (elim (Bool-cases (bytes_equal y a)) [
        | inr f ↦ ground arith
        | inl f ↦
            let same = bytes_equal→eq y a f in
            let inside = ap (contains xs) same in
            let free = ap (λ z. is_free m z now) same in
            elim (Bool-cases (length a == 0)) [
              | inr g ↦ ground (arith, inside, free)
              | inl g ↦ ground (arith, inside, e, ap (contains xs) (empty_domain a g))
            ]
      ])

module _ (shuffle : List Domain → List Domain) where
  -- Where a shuffle keeps which domains stand in a list, and the pool holds no empty text: the domains
  -- to try are exactly those of the pool that no cooldown holds back, and asking for them changes no
  -- cooldown that still runs.
  pub cf_proxy_domains_for_try-contains :
      (s : CfState) (dc now : ℕ) (y : Domain)
      → ((xs : List Domain) (z : Domain) → contains (shuffle xs) z ≡ contains xs z)
      → contains s.domains [] ≡ false
      → (contains (cf_proxy_domains_for_try shuffle s dc now).1 y
          ≡ contains s.domains y && is_free s.fail_until y now)
        × (is_free (cf_proxy_domains_for_try shuffle s dc now).0.fail_until y now
            ≡ is_free s.fail_until y now)
  unfolding cf_proxy_domains_for_try
  cf_proxy_domains_for_try-contains s dc now y kept e =
      let a = active_for s dc in
      let first = take_first s.domains a now s.fail_until in
      ground (
        arith,
        tried s.domains (shuffle s.domains) a y now s.fail_until (kept s.domains y) e,
        (take_others_lem (shuffle s.domains) a y now first.0).1,
        (take_first_lem s.domains a y now s.fail_until).1,
        no_domain s.domains y,
        no_domain [] y refl,
      )

  -- For every shuffle: the active domain of the data centre, where there is one, in the pool
  -- and held back by no cooldown, is the first to be tried, and does not come again.
  pub cf_proxy_domains_for_try-active :
      (s : CfState) (dc now : ℕ)
      → length (active_for s dc) == 0 ≡ false
      → contains s.domains (active_for s dc) ≡ true
      → is_free s.fail_until (active_for s dc) now ≡ true
      → (rest : List Domain) × ((cf_proxy_domains_for_try shuffle s dc now).1
          ≡ active_for s dc ∷ rest)
        × (contains rest (active_for s dc) ≡ false)
  unfolding cf_proxy_domains_for_try
  cf_proxy_domains_for_try-active s dc now e i f =
      let a = active_for s dc in
      let first = take_first s.domains a now s.fail_until in
      let rest = take_others (shuffle s.domains) a now first.0 in
      (
        rest.1,
        ground (
          arith,
          no_domain s.domains a,
          ap (λ z. z ++ rest.1) (take_first_lem s.domains a a now s.fail_until).0,
        ),
        ground (arith, bytes_equal_refl a, (take_others_lem (shuffle s.domains) a a now first.0).0),
      )
