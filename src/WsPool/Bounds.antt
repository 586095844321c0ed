-- ===== src/WsPool/Bounds.antt =====
-- src/pool.go under many clients at once: get, rotate, warmup, Close and the goroutines of refill, one
-- critical section at a time, in any order.
use tg_ws_proxy_go.Base.{
  ℕ, ◌+◌, ◌-◌, ◌≤◌, ◌≡◌, refl, sym, subst, List, [], ◌∷◌, Bool, true, false, ◌||◌, ◌==◌,
  if◌then◌else◌, length, length-append, insert, delete, arith,
}
use mathlib.Core.Logic.{ite}
use tg_ws_proxy_go.WsPool.{
  PooledWs, WsPool, bucket, is_refilling, new_ws_pool, Got, ready, with_route, schedule_refill,
  get_from, get_round, rotate_key, rotate, warmup_loop, warmup, refill_is_full, refill_failed,
  refill_connected, refill_end, close,
}

-- How many goroutines of refill a key has before their check, at their dials, and at their deferred
-- function.
pub record Refills : Type 0 where
  pub checking : ℕ
  pub dialing : ℕ
  pub ending : ℕ

abbrev pub no_refills : Refills
no_refills = record { checking = 0; dialing = 0; ending = 0 }

abbrev pub running : Refills → ℕ
running r = r.checking + r.dialing + r.ending

-- One goroutine more before its check; one goes from its check to its dials or to its end, from its
-- dials to its check or to its end, and from its end.
abbrev pub started : Refills → Refills
started r = record r { checking = r.checking + 1 }

abbrev pub checked : Bool → Refills → Refills
checked full r =
    if full
    then record r { checking = r.checking - 1; ending = r.ending + 1 }
    else record r { checking = r.checking - 1; dialing = r.dialing + 1 }

abbrev pub dialled : Bool → Refills → Refills
dialled again r =
    if again
    then record r { dialing = r.dialing - 1; checking = r.checking + 1 }
    else record r { dialing = r.dialing - 1; ending = r.ending + 1 }

abbrev pub ended : Refills → Refills
ended r = record r { ending = r.ending - 1 }

pub record Run (K D : Type 0) : Type 0 where
  pub pool : WsPool K D
  pub refills : K → Refills

length-ready :
    (broken : ℕ → Bool) (now : ℕ) (b : List PooledWs) → length (ready broken now b) ≤ length b
unfolding ready
length-ready broken now [] = omega arith
length-ready broken now (ws ∷ b) = ground (arith, length-ready broken now b)

if-cases : {A : Type 0} (P : A → Type 0) (b : Bool) (x y : A) → P x → P y → P (if b then x else y)
if-cases P true x y p q = p
if-cases P false x y p q = q

module _ {K : Type 0} (d : Discrete K) where
  abbrev pub set_refills : (K → Refills) → K → Refills → K → Refills
  set_refills f k r j = ite (d k j) r (f j)

  abbrev pub launch : List K → (K → Refills) → K → Refills
  launch [] f = f
  launch (k ∷ ks) f = launch ks (set_refills f k (started (f k)))

  abbrev pub launch_if : Bool → K → (K → Refills) → K → Refills
  launch_if is_started k f = if is_started then set_refills f k (started (f k)) else f

  launch-if :
      (is_started : Bool) (key : K) (more : List K) (f : K → Refills)
      → launch (if is_started then key ∷ more else more) f
        ≡ launch more (launch_if is_started key f)
  launch-if true key more f = refl
  launch-if false key more f = refl

module _ {K D : Type 0} (d : Discrete K) (size : ℕ) where
  pub data PoolStep : Run K D → Run K D → Type 0 where
    gets :
        (s : Run K D) (key : K) (domains : List D) (broken : ℕ → Bool) (now at : ℕ)
        → PoolStep s (record {
          pool = (get_round d size s.pool key domains broken now at).0.0;
          refills =
              launch_if d (get_round d size s.pool key domains broken now at).0.1 key s.refills;
        })
    rotates :
        (s : Run K D) (keys : List K) (broken : ℕ → Bool) (now : ℕ)
        → PoolStep s (record {
          pool = (rotate d size s.pool keys broken now).0.0;
          refills = launch d (rotate d size s.pool keys broken now).0.1 s.refills;
        })
    warms :
        (s : Run K D) (targets : List (K × List D)) (now : ℕ)
        → PoolStep s (record {
          pool = (warmup d size s.pool targets now).0;
          refills = launch d (warmup d size s.pool targets now).1 s.refills;
        })
    checks :
        (s : Run K D) (key : K)
        → 1 ≤ (s.refills key).checking
        → PoolStep s (record s {
          refills =
              set_refills d s.refills key
                (checked (refill_is_full d size s.pool key) (s.refills key));
        })
    fails :
        (s : Run K D) (key : K) (domains : List D) (now : ℕ)
        → 1 ≤ (s.refills key).dialing
        → PoolStep s (record {
          pool = refill_failed d size s.pool key domains now;
          refills = set_refills d s.refills key (dialled false (s.refills key));
        })
    connects :
        (s : Run K D) (key : K) (domains : List D) (ws : PooledWs)
        → 1 ≤ (s.refills key).dialing
        → PoolStep s (record {
          pool = (refill_connected d size s.pool key domains ws).0;
          refills =
              set_refills d s.refills key
                (dialled (refill_connected d size s.pool key domains ws).1 (s.refills key));
        })
    is_canceled :
        (s : Run K D) (key : K)
        → 1 ≤ (s.refills key).dialing
        → PoolStep s
            (record s { refills = set_refills d s.refills key (dialled false (s.refills key)) })
    ends :
        (s : Run K D) (key : K)
        → 1 ≤ (s.refills key).ending
        → PoolStep s (record {
          pool = refill_end d size s.pool key;
          refills = set_refills d s.refills key (ended (s.refills key));
        })
    closes : (s : Run K D) → PoolStep s (record s { pool = (close d size s.pool).0 })

  pub data PoolReach : Run K D → Type 0 where
    at_start : PoolReach (record { pool = new_ws_pool; refills = λ k. no_refills })
    next : {s t : Run K D} → PoolReach s → PoolStep s t → PoolReach t

  -- One key: the flag is up while its one goroutine runs, the bucket is no longer than PoolSize, has
  -- room for every dial of an open pool, and is empty in a closed one.
  abbrev pub Fits : WsPool K D → (K → Refills) → K → Type 0
  Fits p f k =
      (running (f k) ≡ (if is_refilling p k then 1 else 0))
      × (length (bucket p k) + (if p.closed then 0 else (f k).dialing) ≤ size)
      × ((if p.closed then length (bucket p k) else 0) ≡ 0)

  schedule_refill-Fits :
      (p : WsPool K D) (key k : K) (domains : List D) (now : ℕ) (f : K → Refills)
      → Fits p f key
      → Fits p f k
      → Fits
          (schedule_refill d size p key domains now).0
          (launch_if d (schedule_refill d size p key domains now).1 key f)
          k
  unfolding schedule_refill with_route insert
  schedule_refill-Fits p key k domains now f a h = ground arith

  abbrev pub AllFit : WsPool K D → (K → Refills) → Type 0
  AllFit p f = (k : K) → Fits p f k

  shrink-Fits :
      (p : WsPool K D) (key k : K) (b : List PooledWs) (f : K → Refills)
      → length b ≤ length (bucket p key)
      → Fits p f key
      → Fits p f k
      → Fits (record p { idle = insert d key b p.idle }) f k
  unfolding insert
  shrink-Fits p key k b f l a h = ground arith

  get_from-Fits :
      (b : List PooledWs) (p : WsPool K D) (key k : K) (domains : List D) (broken : ℕ → Bool)
      (now at : ℕ) (f : K → Refills)
      → length b ≤ length (bucket p key)
      → AllFit p f
      → let got = (get_from d size b p key domains broken now at).0 in
        Fits got.0 (launch_if d got.1 key f) k
  unfolding get_from
  get_from-Fits [] p key k domains broken now at f l h =
      schedule_refill-Fits p key k domains at f (h key) (h k)
  get_from-Fits (item ∷ rest) p key k domains broken now at f l h =
      schedule_refill-Fits (record p { idle = insert d key rest p.idle }) key k domains at f
        (shrink-Fits p key key rest f (omega (arith, l)) (h key) (h key))
        (shrink-Fits p key k rest f (omega (arith, l)) (h key) (h k))

  get_round-Fits :
      (p : WsPool K D) (key : K) (domains : List D) (broken : ℕ → Bool) (now at : ℕ)
      (f : K → Refills)
      → AllFit p f
      → let got = (get_round d size p key domains broken now at).0 in
        AllFit got.0 (launch_if d got.1 key f)
  unfolding get_round
  get_round-Fits p key domains broken now at f h k =
      if-cases (λ (got : (WsPool K D × Bool) × Got). Fits got.0.0 (launch_if d got.0.1 key f) k)
        p.closed _ _ (h k)
        (get_from-Fits (bucket p key) p key k domains broken now at f (omega arith) h)

  rotate_key-Fits :
      (p : WsPool K D) (key : K) (broken : ℕ → Bool) (now : ℕ) (f : K → Refills)
      → AllFit p f
      → let got = (rotate_key d size p key broken now).0 in AllFit got.0 (launch_if d got.1 key f)
  unfolding rotate_key
  rotate_key-Fits p key broken now f h k =
      let b = ready broken now (bucket p key) in
      let l = length-ready broken now (bucket p key) in
      schedule_refill-Fits (record p { idle = insert d key b p.idle }) key k _ now f
        (shrink-Fits p key key b f l (h key) (h key)) (shrink-Fits p key k b f l (h key) (h k))

  rotate-Fits :
      (p : WsPool K D) (keys : List K) (broken : ℕ → Bool) (now : ℕ) (f : K → Refills)
      → AllFit p f
      → let got = (rotate d size p keys broken now).0 in AllFit got.0 (launch d got.1 f)
  unfolding rotate
  rotate-Fits p [] broken now f h = h
  rotate-Fits p (key ∷ keys) broken now f h =
      let first = rotate_key d size p key broken now in
      let rest = rotate d size first.0.0 keys broken now in
      subst (AllFit rest.0.0) (sym (launch-if d first.0.1 key rest.0.1 f))
        (rotate-Fits first.0.0 keys broken now _ (rotate_key-Fits p key broken now f h))

  warmup_loop-Fits :
      (p : WsPool K D) (targets : List (K × List D)) (now : ℕ) (f : K → Refills)
      → AllFit p f
      → let got = warmup_loop d size p targets now in AllFit got.0 (launch d got.1 f)
  unfolding warmup_loop
  warmup_loop-Fits p [] now f h = h
  warmup_loop-Fits p (target ∷ targets) now f h =
      let first = schedule_refill d size p target.0 target.1 now in
      let rest = warmup_loop d size first.0 targets now in
      subst (AllFit rest.0) (sym (launch-if d first.1 target.0 rest.1 f)) (
        warmup_loop-Fits first.0 targets now _
          (λ k. schedule_refill-Fits p target.0 k target.1 now f (h target.0) (h k)))

  warmup-Fits :
      (p : WsPool K D) (targets : List (K × List D)) (now : ℕ) (f : K → Refills)
      → AllFit p f
      → let got = warmup d size p targets now in AllFit got.0 (launch d got.1 f)
  unfolding warmup
  warmup-Fits p targets now f h =
      if-cases (λ (got : WsPool K D × List K). AllFit got.0 (launch d got.1 f))
        (size == 0 || p.closed) _ _ h (warmup_loop-Fits p targets now f h)

  PoolStep-AllFit :
      {s t : Run K D} → PoolStep s t → AllFit s.pool s.refills → AllFit t.pool t.refills
  PoolStep-AllFit (gets s key domains broken now at) h =
      get_round-Fits s.pool key domains broken now at s.refills h
  PoolStep-AllFit (rotates s keys broken now) h = rotate-Fits s.pool keys broken now s.refills h
  PoolStep-AllFit (warms s targets now) h = warmup-Fits s.pool targets now s.refills h
  PoolStep-AllFit (checks s key e) h = λ k. ground (arith, h k, h key, e)
  PoolStep-AllFit (fails s key domains now e) h =
      λ k. unfold refill_failed in ground (arith, h k, h key, e)
  PoolStep-AllFit (connects s key domains ws e) h = λ k.
      unfold refill_connected insert in
      ground (arith, h k, h key, e, length-append (bucket s.pool key) (ws ∷ []))
  PoolStep-AllFit (is_canceled s key e) h = λ k. ground (arith, h k, h key, e)
  PoolStep-AllFit (ends s key e) h = λ k. unfold refill_end delete in ground (arith, h k, h key, e)
  PoolStep-AllFit (closes s) h = λ k. unfold close in ground (arith, h k)

  PoolReach-AllFit : {s : Run K D} → PoolReach s → AllFit s.pool s.refills
  PoolReach-AllFit at_start k = ground arith
  PoolReach-AllFit (next r st) k = PoolStep-AllFit st (PoolReach-AllFit r) k

  -- However clients, rotation, refills and Close interleave: a bucket never holds more than PoolSize
  -- connections, a closed pool holds none and takes none, and a key has one goroutine of refill while
  -- its flag is up, and none otherwise.
  pub PoolReach-bucket :
      {s : Run K D} (k : K)
      → PoolReach s
      → (length (bucket s.pool k) ≤ size)
        × ((if s.pool.closed then length (bucket s.pool k) else 0) ≡ 0)
        × (running (s.refills k) ≡ (if is_refilling s.pool k then 1 else 0))
  PoolReach-bucket k r = ground (arith, PoolReach-AllFit r k)
