-- ===== src/WsPool/Refill.antt =====
-- src/pool.go: the loops of refill over the domains, each dialled both ways, and src/state.go: the time
-- until which domain fronting is tried first, 0 where it is not. The dials happen at one time, with no
-- other writer of that time in between.
use tg_ws_proxy_go.Base.{
  ℕ, ◌+◌, ◌*◌, ◌<◌, ◌≡◌, refl, inl, inr, List, [], ◌∷◌, ◌++◌, Bool, true, false, not, ltb, All, ◌⊎◌,
  ap, arith,
}

abbrev pub fronting_cooldown : ℕ
fronting_cooldown = 30 * 60000000000

abbrev pub set_fronting_active : ℕ → ℕ
set_fronting_active now = now + fronting_cooldown

abbrev pub clear_fronting_active : ℕ
clear_fronting_active = 0

abbrev pub fronting_active : ℕ → ℕ → Bool
fronting_active until now = ltb now until

-- The outcome of a dial: a connection, an error, or an error of a context that has ended.
pub data Dialed : Type 0 where
  established : ℕ → Dialed
  failed ended : Dialed

-- What the loops come to: a connection and whether it is fronted, `return`, or the last error.
pub data Refilled : Type 0 where
  refilled : ℕ → Bool → Refilled
  stopped no_connection : Refilled

-- What one dial makes of the answer of the dials behind it.
abbrev pub answer_or : Bool → Dialed → Refilled → Refilled
answer_or fronted (established conn) rest = refilled conn fronted
answer_or fronted failed rest = rest
answer_or fronted ended rest = stopped

module _ {D : Type 0} (connect : D → Bool → Dialed) where
  -- One dial: the answer of the loops, or that of the dials behind it.
  abbrev pub dial_or : D → Bool → Refilled → Refilled
  dial_or domain fronted rest = answer_or fronted (connect domain fronted) rest

  unfoldable pub refill_dials : ℕ → ℕ → List D → Refilled
  refill_dials until now [] = no_connection
  refill_dials until now (domain ∷ domains) =
      let fronted_first = fronting_active until now in
      let rest = refill_dials until now domains in
      dial_or domain fronted_first (dial_or domain (not fronted_first) rest)

  -- The time of fronting behind the loops.
  abbrev pub fronting_until : Refilled → ℕ → ℕ → ℕ
  fronting_until (refilled conn true) until now = set_fronting_active now
  fronting_until (refilled conn false) until now = clear_fronting_active
  fronting_until stopped until now = until
  fronting_until no_connection until now = until

  -- The domain that a connection comes from, behind domains that failed both ways, and the way.
  pub record IsDialled (domains : List D) (first : Bool) (conn : ℕ) (fronted : Bool) : Type 0 where
    pub before : List D
    pub domain : D
    pub after : List D
    pub stands : domains ≡ before ++ domain ∷ after
    pub answers : connect domain fronted ≡ established conn
    pub other_way : (fronted ≡ first) ⊎ (connect domain first ≡ failed)
    pub all_failed : All (λ x. (connect x true ≡ failed) × (connect x false ≡ failed)) before

  -- The domain whose dial ends with the context, behind domains that failed both ways.
  pub record IsEnded (domains : List D) (first : Bool) : Type 0 where
    pub before : List D
    pub domain : D
    pub after : List D
    pub stands : domains ≡ before ++ domain ∷ after
    pub ends :
        (connect domain first ≡ ended)
        ⊎ ((connect domain first ≡ failed) × (connect domain (not first) ≡ ended))
    pub all_failed : All (λ x. (connect x true ≡ failed) × (connect x false ≡ failed)) before

  -- What the loops answer: a connection or a stop at the first dial that has not merely failed, and
  -- no connection only if all dials have failed.
  abbrev pub IsRefilled : List D → Bool → Refilled → Type 0
  IsRefilled domains first (refilled conn fronted) = IsDialled domains first conn fronted
  IsRefilled domains first stopped = IsEnded domains first
  IsRefilled domains first no_connection =
      All (λ x. (connect x true ≡ failed) × (connect x false ≡ failed)) domains

  both_failed :
      (x : D) (f : Bool)
      → connect x f ≡ failed
      → connect x (not f) ≡ failed
      → (connect x true ≡ failed) × (connect x false ≡ failed)
  both_failed x true h k = (h, k)
  both_failed x false h k = (k, h)

  IsRefilled-cons :
      (x : D) (xs : List D) (first : Bool) (r : Refilled)
      → (connect x true ≡ failed) × (connect x false ≡ failed)
      → IsRefilled xs first r
      → IsRefilled (x ∷ xs) first r
  IsRefilled-cons x xs first (refilled conn fronted) h later = record {
    before = x ∷ later.before;
    domain = later.domain;
    after = later.after;
    stands = ap (λ l. x ∷ l) later.stands;
    answers = later.answers;
    other_way = later.other_way;
    all_failed = (h, later.all_failed);
  }
  IsRefilled-cons x xs first stopped h later = record {
    before = x ∷ later.before;
    domain = later.domain;
    after = later.after;
    stands = ap (λ l. x ∷ l) later.stands;
    ends = later.ends;
    all_failed = (h, later.all_failed);
  }
  IsRefilled-cons x xs first no_connection h later = (h, later)

  -- The second dial of a domain, behind one that failed; `second` is what it comes to.
  second_dial :
      (x : D) (xs : List D) (first : Bool) (rest : Refilled) (second : Dialed)
      → connect x first ≡ failed
      → connect x (not first) ≡ second
      → IsRefilled xs first rest
      → IsRefilled (x ∷ xs) first (answer_or (not first) second rest)
  second_dial x xs first rest (established conn) h k later = record {
    before = [];
    domain = x;
    after = xs;
    stands = refl;
    answers = k;
    other_way = inr h;
    all_failed = tt;
  }
  second_dial x xs first rest failed h k later =
      IsRefilled-cons x xs first rest (both_failed x first h k) later
  second_dial x xs first rest ended h k later = record {
    before = [];
    domain = x;
    after = xs;
    stands = refl;
    ends = inr (h, k);
    all_failed = tt;
  }

  first_dial :
      (x : D) (xs : List D) (first : Bool) (rest : Refilled) (answer : Dialed)
      → connect x first ≡ answer
      → IsRefilled xs first rest
      → IsRefilled (x ∷ xs) first (answer_or first answer (dial_or x (not first) rest))
  first_dial x xs first rest (established conn) h later = record {
    before = [];
    domain = x;
    after = xs;
    stands = refl;
    answers = h;
    other_way = inl refl;
    all_failed = tt;
  }
  first_dial x xs first rest failed h later =
      second_dial x xs first rest (connect x (not first)) h refl later
  first_dial x xs first rest ended h later = record {
    before = [];
    domain = x;
    after = xs;
    stands = refl;
    ends = inl h;
    all_failed = tt;
  }

  -- The loops of refill, whatever the dials come to: they dial the domains in the order of the list, both
  -- ways before the next, fronting first while it is active. The first dial that does not merely fail
  -- decides: its connection is the answer, or the refill stops where the context has ended; there is
  -- no connection exactly where every dial of every domain fails.
  pub refill_dials-IsRefilled :
      (until now : ℕ) (domains : List D)
      → IsRefilled domains (fronting_active until now) (refill_dials until now domains)
  unfolding refill_dials
  refill_dials-IsRefilled until now [] = tt
  refill_dials-IsRefilled until now (x ∷ xs) =
      let first = fronting_active until now in
      first_dial x xs first (refill_dials until now xs) (connect x first) refl
        (refill_dials-IsRefilled until now xs)

  -- Behind a refill that gets a connection, the next dials within the cooldown try first the way that
  -- it was made.
  pub fronting_until-active :
      (until now later : ℕ) (domains : List D) (conn : ℕ) (fronted : Bool)
      → refill_dials until now domains ≡ refilled conn fronted
      → later < now + fronting_cooldown
      → fronting_active (fronting_until (refill_dials until now domains) until now) later ≡ fronted
  fronting_until-active until now later domains conn true h soon = rw (h) (ground arith)
  fronting_until-active until now later domains conn false h soon = rw (h) (ground arith)
