-- ===== src/Routing/Order.antt =====
-- The order of doFallback (src/server.go) as a list, and what follows for the state.
use tg_ws_proxy_go.Base.{
  ◌≡◌, refl, sym, ap, fun_ext, Bool-cases, ◌∙◌, inl, inr, List, [], ◌∷◌, ◌++◌, Bool, true, false,
  Option, none, some, if◌then◌else◌,
}
use tg_ws_proxy_go.Routing.{Fallbacks, Choice, or_then, try_tcp, behind_worker, do_fallback}

pub data Route : Type 0 where
  worker cf tcp : Route

-- The Worker first, the Cloudflare domains before the direct connection where they have priority and
-- behind it else, each only where it is in use.
abbrev pub order : Choice → List Route
order c =
    let direct : List Route = if c.has_target then tcp ∷ [] else [] in
    let domains : List Route = if c.use_cf then cf ∷ [] else [] in
    let rest : List Route = if c.cf_priority then domains ++ direct else direct ++ domains in
    if c.use_worker then worker ∷ rest else rest

module _ {S B M : Type 0} (r : Fallbacks S B M) where
  abbrev pub take_route : Route → S → S × Option B
  take_route worker = r.try_worker
  take_route cf = r.try_cf
  take_route tcp = r.dial_tcp

  -- The routes one after another, until one opens.
  abbrev pub first_open : List Route → S → S × Option B
  first_open [] s = (s, none)
  first_open (route ∷ routes) s = or_then r (take_route route s) (first_open routes)

  or_then-none : (t : S × Option B) → or_then r t (λ s. (s, none)) ≡ t
  unfolding or_then
  or_then-none (s, none) = refl
  or_then-none (s, some b) = refl

  first_open-one : (route : Route) → first_open (route ∷ []) ≡ take_route route
  first_open-one route = fun_ext (λ s. or_then-none (take_route route s))

  behind_worker-first_open :
      (cf_used priority target : Bool) (s : S)
      → behind_worker r
          (record {
            use_worker = false;
            use_cf = cf_used;
            cf_priority = priority;
            has_target = target;
          })
          s
        ≡ first_open
            (order (record {
              use_worker = false;
              use_cf = cf_used;
              cf_priority = priority;
              has_target = target;
            }))
            s
  unfolding behind_worker try_tcp or_then
  behind_worker-first_open true true true s = ap (or_then r (r.try_cf s)) (sym (first_open-one tcp))
  behind_worker-first_open true true false s = refl
  behind_worker-first_open true false true s =
      ap (or_then r (r.dial_tcp s)) (sym (first_open-one cf))
  behind_worker-first_open true false false s = ap (λ f. f s) (sym (first_open-one cf))
  behind_worker-first_open false true true s = ap (λ f. f s) (sym (first_open-one tcp))
  behind_worker-first_open false false true s = ap (λ f. f s) (sym (first_open-one tcp))
  behind_worker-first_open false true false s = refl
  behind_worker-first_open false false false s = refl

  -- For every configuration and whatever each route does: doFallback is the routes in use, one after
  -- another in their order, each on the state that the ones before have left, up to the first that
  -- opens.
  pub do_fallback-first_open : (c : Choice) (s : S) → do_fallback r c s ≡ first_open (order c) s
  unfolding do_fallback behind_worker try_tcp
  do_fallback-first_open c s =
      let rest = behind_worker-first_open c.use_cf c.cf_priority c.has_target in
      elim (Bool-cases c.use_worker) [
        | inl e ↦ rw (e) (ap (or_then r (r.try_worker s)) (fun_ext rest))
        | inr e ↦ rw (e) (rest s)
      ]

  take_route-kept : (route : Route) (s : S) → r.measure (take_route route s).0 ≡ r.measure s
  take_route-kept worker s = r.worker_kept s
  take_route-kept cf s = r.cf_kept s
  take_route-kept tcp s = r.tcp_kept s

  or_then-kept :
      (t : S × Option B) (next : S → S × Option B) (s : S)
      → r.measure t.0 ≡ r.measure s
      → ((u : S) → r.measure (next u).0 ≡ r.measure u)
      → r.measure (or_then r t next).0 ≡ r.measure s
  unfolding or_then
  or_then-kept (t, none) next s h n = n t ∙ h
  or_then-kept (t, some b) next s h n = h

  first_open-kept : (routes : List Route) (s : S) → r.measure (first_open routes s).0 ≡ r.measure s
  first_open-kept [] s = refl
  first_open-kept (route ∷ routes) s =
      or_then-kept (take_route route s) (first_open routes) s (take_route-kept route s)
        (first_open-kept routes)

  -- What all three fallbacks keep, doFallback keeps.
  pub do_fallback-kept : (c : Choice) (s : S) → r.measure (do_fallback r c s).0 ≡ r.measure s
  do_fallback-kept c s =
      ap (λ t. r.measure t.0) (do_fallback-first_open c s) ∙ first_open-kept (order c) s
