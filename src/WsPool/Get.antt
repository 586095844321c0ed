-- ===== src/WsPool/Get.antt =====
-- src/pool.go: the loop of wsPool.get, its rounds one after another with no other client in between.
-- The loop runs on fuel: each round that goes on has taken a connection out of the bucket, so more
-- than its length is enough.
use tg_ws_proxy_go.Base.{
  ℕ, zero, suc, ◌<◌, ◌≡◌, refl, sym, ap, Bool-cases, inl, inr, ◌∙◌, List, [], ◌∷◌, ◌++◌, Bool, true,
  false, Option, none, some, if◌then◌else◌, length, All, All-append, append_assoc, insert_self,
  read_or, insert, arith,
}
use tg_ws_proxy_go.WsPool.{
  PooledWs, WsPool, bucket, Got, is_closed, miss, is_stale, hit, stale, with_route, schedule_refill,
  get_from, get_round,
}

-- What get leaves: the pool, the stale connections that it has closed, and what it returns.
pub record Taken (K D : Type 0) : Type 0 where
  pub pool : WsPool K D
  pub dropped : List PooledWs
  pub returned : Option PooledWs

-- The first connection that is not stale.
abbrev pub first_fresh : (ℕ → Bool) → ℕ → List PooledWs → Option PooledWs
first_fresh broken now [] = none
first_fresh broken now (ws ∷ b) = if stale broken now ws then first_fresh broken now b else some ws

abbrev pub as_list : Option PooledWs → List PooledWs
as_list none = []
as_list (some ws) = ws ∷ []

module _ {K D : Type 0} (d : Discrete K) (size : ℕ) where
  -- The end of a round: `again` is the next one, with the connections closed by then.
  abbrev pub conclude :
      WsPool K D
      → Got
      → List PooledWs
      → (WsPool K D → List PooledWs → Option (Taken K D))
      → Option (Taken K D)
  conclude q is_closed dropped again =
      some (record { pool = q; dropped = dropped; returned = none })
  conclude q miss dropped again = some (record { pool = q; dropped = dropped; returned = none })
  conclude q (is_stale ws) dropped again = again q (dropped ++ ws ∷ [])
  conclude q (hit ws) dropped again =
      some (record { pool = q; dropped = dropped; returned = some ws })

  -- `none` where the fuel runs out.
  unfoldable pub get :
      ℕ → WsPool K D → K → List D → (ℕ → Bool) → ℕ → ℕ → List PooledWs → Option (Taken K D)
  get zero p key domains broken now at dropped = none
  get (suc fuel) p key domains broken now at dropped =
      let ((q, started), got) = get_round d size p key domains broken now at in
      conclude q got dropped (λ r closed. get fuel r key domains broken now at closed)

  pub schedule_refill-bucket :
      (p : WsPool K D) (key k : K) (domains : List D) (at : ℕ)
      → (bucket (schedule_refill d size p key domains at).0 k ≡ bucket p k)
        × ((schedule_refill d size p key domains at).0.closed ≡ p.closed)
  unfolding schedule_refill with_route
  schedule_refill-bucket p key k domains at = ground arith

  pub get_round-empty :
      (p : WsPool K D) (key : K) (domains : List D) (broken : ℕ → Bool) (now at : ℕ)
      → p.closed ≡ false
      → bucket p key ≡ []
      → get_round d size p key domains broken now at
        ≡ (schedule_refill d size p key domains at, miss)
  unfolding get_round get_from
  get_round-empty p key domains broken now at c e =
      ground (arith, c, ap (λ b. get_from d size b p key domains broken now at) e)

  pub get_round-item :
      (p : WsPool K D) (key : K) (domains : List D) (broken : ℕ → Bool) (now at : ℕ)
      (item : PooledWs) (rest : List PooledWs)
      → p.closed ≡ false
      → bucket p key ≡ item ∷ rest
      → get_round d size p key domains broken now at ≡ (
        schedule_refill d size (record p { idle = insert d key rest p.idle }) key domains at,
        if stale broken now item then is_stale item else hit item,
      )
  unfolding get_round get_from
  get_round-item p key domains broken now at item rest c e =
      ground (arith, c, ap (λ b. get_from d size b p key domains broken now at) e)

  -- What get comes to on a bucket `b`, behind the connections `dropped` that it has closed before.
  pub record IsTaken (key : K) (broken : ℕ → Bool) (now : ℕ) (dropped b : List PooledWs)
      (r : Option (Taken K D)) : Type 0 where
    pub taken : Taken K D
    pub returns : r ≡ some taken
    pub first : taken.returned ≡ first_fresh broken now b
    pub split : dropped ++ b ≡ taken.dropped ++ (as_list taken.returned ++ bucket taken.pool key)
    pub all_stale : All (λ ws. stale broken now ws ≡ true) taken.dropped

  get-IsTaken :
      (b : List PooledWs) (fuel : ℕ) (p : WsPool K D) (key : K) (domains : List D)
      (broken : ℕ → Bool) (now at : ℕ) (dropped : List PooledWs)
      → length b < fuel
      → p.closed ≡ false
      → bucket p key ≡ b
      → All (λ ws. stale broken now ws ≡ true) dropped
      → IsTaken key broken now dropped b (get fuel p key domains broken now at dropped)
  unfolding get
  get-IsTaken b zero p key domains broken now at dropped l c e h = ground arith
  get-IsTaken [] (suc fuel) p key domains broken now at dropped l c e h =
      let q = schedule_refill d size p key domains at in
      rw (get_round-empty p key domains broken now at c e) (record {
        taken = record { pool = q.0; dropped = dropped; returned = none };
        returns = refl;
        first = refl;
        split = ground (arith, (schedule_refill-bucket p key key domains at).0, e);
        all_stale = h;
      })
  get-IsTaken (ws ∷ b) (suc fuel) p key domains broken now at dropped l c e h =
      let p' : WsPool K D = record p { idle = insert d key b p.idle } in
      let q = schedule_refill d size p' key domains at in
      let left : bucket q.0 key ≡ b =
        (schedule_refill-bucket p' key key domains at).0
        ∙ ap (λ o. read_or o []) (insert_self d key b p.idle) in
      rw (get_round-item p key domains broken now at ws b c e)
        (elim (Bool-cases (stale broken now ws)) [
          | inr f ↦ rw (f) (record {
            taken = record { pool = q.0; dropped = dropped; returned = some ws };
            returns = refl;
            first = ground arith;
            split = ground (arith, left);
            all_stale = h;
          })
          | inl f ↦ rw (f) (
              let later =
                get-IsTaken b fuel q.0 key domains broken now at (dropped ++ ws ∷ [])
                  (omega (arith, l)) ((schedule_refill-bucket p' key key domains at).1 ∙ c) left
                  (All-append _ dropped (ws ∷ []) h (f, tt)) in
              record {
                taken = later.taken;
                returns = later.returns;
                first = later.first ∙ ground arith;
                split = sym (append_assoc dropped (ws ∷ []) b) ∙ later.split;
                all_stale = later.all_stale;
              })
        ])

  -- A get on an open pool, with no other client in between and more fuel than the bucket is long: it
  -- returns the first connection of the bucket that is not stale, or nothing where all are; it closes
  -- exactly those before it, all of them stale, and the rest stays in the bucket, in order.
  pub get-first_fresh :
      (fuel : ℕ) (p : WsPool K D) (key : K) (domains : List D) (broken : ℕ → Bool) (now at : ℕ)
      → length (bucket p key) < fuel
      → p.closed ≡ false
      → IsTaken key broken now [] (bucket p key) (get fuel p key domains broken now at [])
  get-first_fresh fuel p key domains broken now at l c =
      get-IsTaken (bucket p key) fuel p key domains broken now at [] l c refl tt
