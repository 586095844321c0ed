-- ===== src/Server/Stop.antt =====
-- How serve (src/server.go) ends: behind the loop it returns once its clients have ended; and how its
-- sleeps grow while Accept keeps failing.
use tg_ws_proxy_go.Base.{
  ℕ, zero, suc, ◌+◌, ◌-◌, ◌*◌, ◌^◌, ◌≤◌, ◌≡◌, refl, ap, ap₂, ◌∙◌, inl, inr, Bool-cases, min, List,
  [], ◌∷◌, ◌++◌, true, false, ◌==◌, if◌then◌else◌, replicate, arith,
}
use tg_ws_proxy_go.Server.{
  accept_backoff_min, accept_backoff_max, fails, Phase, accepting, is_canceled, is_closed, returned,
  in_loop, is_waiting, Server, new_server, next_backoff, accept_round, without, holds, release,
  wait_clients, Event, accepts, ends, waits, step, run,
}
use tg_ws_proxy_go.Server.Accept.{IsQuiet}

-- How often a connection stands in a list, and how often its goroutine ends in a run.
abbrev pub count_of : ℕ → List ℕ → ℕ
count_of c [] = 0
count_of c (x ∷ xs) = if x == c then suc (count_of c xs) else count_of c xs

abbrev pub ends_of : ℕ → List Event → ℕ
ends_of c [] = 0
ends_of c (accepts a ended ∷ events) = ends_of c events
ends_of c (ends x ∷ events) = if x == c then suc (ends_of c events) else ends_of c events
ends_of c (waits ∷ events) = ends_of c events

count_of-without :
    (c k : ℕ) (xs : List ℕ) → count_of k (without c xs) ≡ count_of k xs - (if c == k then 1 else 0)
unfolding without
count_of-without c k [] = ground arith
count_of-without c k (x ∷ xs) = ground (arith, count_of-without c k xs)

count_of-lacks : (c k : ℕ) (xs : List ℕ) → holds c xs ≡ false → c ≡ k → count_of k xs ≡ 0
count_of-lacks c k [] h e = refl
count_of-lacks c k (x ∷ xs) h e = ground (arith, h, e, count_of-lacks c k xs)

none_counted : (xs : List ℕ) → ((c : ℕ) → count_of c xs ≡ 0) → xs ≡ []
none_counted [] h = refl
none_counted (x ∷ xs) h = ground (arith, h x)

-- Behind the loop: no client is left where serve has returned, else it waits.
abbrev pub IsOver : Server → Type 0
IsOver s = (in_loop s.phase ≡ false) × IsQuiet s.phase s.handled

wait_clients-IsOver :
    (s : Server) (cs : List ℕ) → s.handled ≡ cs → IsOver s → IsOver (wait_clients s cs)
wait_clients-IsOver s [] e h = (refl, e)
wait_clients-IsOver s (c ∷ cs) e h = h

handled-wait_clients : (s : Server) (cs : List ℕ) → (wait_clients s cs).handled ≡ s.handled
handled-wait_clients s [] = refl
handled-wait_clients s (c ∷ cs) = refl

IsQuiet-without : (p : Phase) (c : ℕ) (xs : List ℕ) → IsQuiet p xs → IsQuiet p (without c xs)
unfolding without
IsQuiet-without accepting c xs q = tt
IsQuiet-without is_canceled c xs q = tt
IsQuiet-without is_closed c xs q = tt
IsQuiet-without returned c [] q = refl
IsQuiet-without returned c (x ∷ xs) q = ground arith

step-IsOver : (max_conns : ℕ) (s : Server) (e : Event) → IsOver s → IsOver (step max_conns s e)
unfolding step release
step-IsOver max_conns s (accepts a ended) h = rw (h.0) h
step-IsOver max_conns s (ends c) h = elim (Bool-cases (holds c s.handled)) [
  | inl e ↦ rw (e) (h.0, IsQuiet-without s.phase c s.handled h.1)
  | inr e ↦ rw (e) h
]
step-IsOver max_conns s waits h = elim (Bool-cases (is_waiting s.phase)) [
  | inl e ↦ rw (e) (wait_clients-IsOver s s.handled refl h)
  | inr e ↦ rw (e) h
]

step-handled :
    (max_conns : ℕ) (s : Server) (e : Event) (k : ℕ)
    → IsOver s
    → count_of k (step max_conns s e).handled ≡ count_of k s.handled - ends_of k (e ∷ [])
unfolding step release
step-handled max_conns s (accepts a ended) k h = rw (h.0) (omega arith)
step-handled max_conns s (ends c) k h = elim (Bool-cases (holds c s.handled)) [
  | inl e ↦ rw (e) (count_of-without c k s.handled)
  | inr e ↦ rw (e) (ground (arith, count_of-lacks c k s.handled e))
]
step-handled max_conns s waits k h =
    ground (arith, ap (count_of k) (handled-wait_clients s s.handled))

ends_of-cons :
    (k : ℕ) (e : Event) (events : List Event)
    → ends_of k (e ∷ events) ≡ ends_of k (e ∷ []) + ends_of k events
ends_of-cons k (accepts a ended) events = omega arith
ends_of-cons k (ends c) events = ground arith
ends_of-cons k waits events = omega arith

waits-returned :
    (s : Server) (p : Phase) (cs : List ℕ)
    → in_loop p ≡ false
    → s.phase ≡ p
    → cs ≡ []
    → (if is_waiting p then wait_clients s cs else s).phase ≡ returned
waits-returned s accepting cs o e n = ground arith
waits-returned s is_canceled [] o e n = refl
waits-returned s is_canceled (c ∷ cs) o e n = ground arith
waits-returned s is_closed [] o e n = refl
waits-returned s is_closed (c ∷ cs) o e n = ground arith
waits-returned s returned cs o e n = e

-- serve ends: once it has left the loop, by the context or by the listener, and in whatever order and
-- among whatever other events its clients end, each as often as it is handled, the wait behind them
-- returns.
pub run-returned :
    (max_conns : ℕ) (s : Server) (events : List Event)
    → IsOver s
    → ((k : ℕ) → count_of k s.handled ≤ ends_of k events)
    → (run max_conns s (events ++ waits ∷ [])).phase ≡ returned
unfolding run step
run-returned max_conns s [] h enough =
    waits-returned s s.phase s.handled h.0 refl
      (none_counted s.handled (λ c. omega (arith, enough c)))
run-returned max_conns s (e ∷ events) h enough =
    run-returned max_conns (step max_conns s e) events (step-IsOver max_conns s e h)
      (λ k. omega (arith, step-handled max_conns s e k h, ends_of-cons k e events, enough k))

next_backoff-doubled :
    (b n : ℕ)
    → b ≡ min (accept_backoff_min * 2 ^ n) accept_backoff_max
    → next_backoff b ≡ min (accept_backoff_min * 2 ^ suc n) accept_backoff_max
unfolding next_backoff
next_backoff-doubled b n e =
    let doubled : 2 ^ suc n ≡ 2 * 2 ^ n = omega arith in ground (arith, e, doubled)

-- The sleeps of so many failures in a row, the last one first.
abbrev pub sleeps : ℕ → List ℕ
sleeps zero = []
sleeps (suc n) = min (accept_backoff_min * 2 ^ n) accept_backoff_max ∷ sleeps n

run-fails :
    (max_conns k : ℕ) (s : Server) (n m : ℕ)
    → m ≡ n + k
    → in_loop s.phase ≡ true
    → s.accept_backoff ≡ min (accept_backoff_min * 2 ^ n) accept_backoff_max
    → s.slept ≡ sleeps n
    → (run max_conns s (replicate k (accepts fails false))).slept ≡ sleeps m
unfolding run step accept_round
run-fails max_conns zero s n m f p e l = l ∙ ap sleeps (omega (arith, f))
run-fails max_conns (suc k) s n m f p e l =
    rw (run, p)
      (run-fails max_conns k
        (record s {
          slept = s.accept_backoff ∷ s.slept;
          accept_backoff = next_backoff s.accept_backoff;
        })
        (suc n) m (omega (arith, f)) p (next_backoff-doubled s.accept_backoff n e)
        (ap₂ (λ (x : ℕ) (xs : List ℕ). x ∷ xs) e l))

-- While Accept keeps failing, the loop sleeps once for each failure: 5 ms first, then twice as long each
-- time, up to 1 s. For every number of failures in a row from the start, the sleep of the one that
-- has n before it is the lesser of 5 ms times 2 ^ n and 1 s.
pub slept-fails :
    (max_conns k : ℕ)
    → (run max_conns new_server (replicate k (accepts fails false))).slept ≡ sleeps k
slept-fails max_conns k = run-fails max_conns k new_server 0 k (omega arith) refl (omega arith) refl
