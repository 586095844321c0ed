-- ===== src/Server/Accept.antt =====
-- What serve (src/server.go) keeps over every run: its bound on the clients, its count of them, the bounds
-- of its backoff; and that it returns.
use tg_ws_proxy_go.Base.{
  ℕ, suc, ◌+◌, ◌≤◌, ◌≡◌, refl, inl, inr, Bool-cases, List, [], ◌∷◌, Bool, true, false, ltb, length,
  All, arith,
}
use tg_ws_proxy_go.Server.{
  accept_backoff_min, accept_backoff_max, Accepted, conn, err_closed, times_out, fails, Phase,
  accepting, is_canceled, is_closed, returned, in_loop, is_waiting, Server, new_server,
  next_backoff, dispatch, accept_round, without, holds, release, wait_clients, Event, accepts, ends,
  waits, step, run,
}

abbrev pub IsBackoff : ℕ → Type 0
IsBackoff b = (accept_backoff_min ≤ b) × (b ≤ accept_backoff_max)

abbrev pub IsQuiet : Phase → List ℕ → Type 0
IsQuiet accepting handled = Unit
IsQuiet is_canceled handled = Unit
IsQuiet is_closed handled = Unit
IsQuiet returned handled = handled ≡ []

-- The slots taken are the clients handled, never more than MaxConns; each connection accepted is
-- handled, done or dropped; acceptBackoff and every sleep are within their bounds; and a serve that
-- has returned has left no client behind.
pub record IsServing (max_conns : ℕ) (s : Server) : Type 0 where
  pub slots : s.sessions ≡ length s.handled
  pub bounded : s.sessions ≤ max_conns
  pub accounted : s.total ≡ length s.handled + length s.dropped + length s.done
  pub backoff : IsBackoff s.accept_backoff
  pub sleeps : All IsBackoff s.slept
  pub quiet : IsQuiet s.phase s.handled

in_loop-IsQuiet : (p : Phase) (handled : List ℕ) → in_loop p ≡ true → IsQuiet p handled
in_loop-IsQuiet accepting handled e = tt
in_loop-IsQuiet is_canceled handled e = tt
in_loop-IsQuiet is_closed handled e = tt
in_loop-IsQuiet returned handled e = ground arith

next_backoff-IsBackoff : (b : ℕ) → IsBackoff b → IsBackoff (next_backoff b)
unfolding next_backoff
next_backoff-IsBackoff b h = ground (arith, h)

length-without : (c : ℕ) (xs : List ℕ) → holds c xs ≡ true → suc (length (without c xs)) ≡ length xs
unfolding without
length-without c [] h = ground arith
length-without c (x ∷ xs) h = ground (arith, h, length-without c xs)

dispatch-IsServing :
    (max_conns : ℕ) (s : Server) (c : ℕ)
    → IsServing max_conns s
    → in_loop s.phase ≡ true
    → IsServing max_conns (
        dispatch max_conns
          (record s { accept_backoff = accept_backoff_min; total = s.total + 1 })
          c)
unfolding dispatch
dispatch-IsServing max_conns s c h e = elim (Bool-cases (ltb s.sessions max_conns)) [
  | inl f ↦ rw (f) (record {
    slots = omega (arith, h.slots);
    bounded = ground (arith, f);
    accounted = omega (arith, h.accounted);
    backoff = (omega arith, omega arith);
    sleeps = h.sleeps;
    quiet = in_loop-IsQuiet s.phase (c ∷ s.handled) e;
  })
  | inr f ↦ rw (f) (record {
    slots = h.slots;
    bounded = h.bounded;
    accounted = omega (arith, h.accounted);
    backoff = (omega arith, omega arith);
    sleeps = h.sleeps;
    quiet = in_loop-IsQuiet s.phase s.handled e;
  })
]

-- An error other than a timeout, in the loop: serve sleeps, and doubles the backoff.
failed-IsServing :
    (max_conns : ℕ) (s : Server)
    → IsServing max_conns s
    → IsServing max_conns (record s {
      slept = s.accept_backoff ∷ s.slept;
      accept_backoff = next_backoff s.accept_backoff;
    })
failed-IsServing max_conns s h = record {
  slots = h.slots;
  bounded = h.bounded;
  accounted = h.accounted;
  backoff = next_backoff-IsBackoff s.accept_backoff h.backoff;
  sleeps = (h.backoff, h.sleeps);
  quiet = h.quiet;
}

ended-IsServing :
    (max_conns : ℕ) (s : Server) (p : Phase)
    → IsServing max_conns s
    → IsQuiet p s.handled
    → IsServing max_conns (record s { phase = p })
ended-IsServing max_conns s p h q = record {
  slots = h.slots;
  bounded = h.bounded;
  accounted = h.accounted;
  backoff = h.backoff;
  sleeps = h.sleeps;
  quiet = q;
}

accept_round-IsServing :
    (max_conns : ℕ) (s : Server) (a : Accepted) (ended : Bool)
    → IsServing max_conns s
    → in_loop s.phase ≡ true
    → IsServing max_conns (accept_round max_conns s a ended)
unfolding accept_round
accept_round-IsServing max_conns s (conn c) ended h e = dispatch-IsServing max_conns s c h e
accept_round-IsServing max_conns s err_closed true h e =
    ended-IsServing max_conns s is_canceled h tt
accept_round-IsServing max_conns s err_closed false h e = ended-IsServing max_conns s is_closed h tt
accept_round-IsServing max_conns s times_out true h e = ended-IsServing max_conns s is_canceled h tt
accept_round-IsServing max_conns s times_out false h e = record {
  slots = h.slots;
  bounded = h.bounded;
  accounted = h.accounted;
  backoff = (omega arith, omega arith);
  sleeps = h.sleeps;
  quiet = h.quiet;
}
accept_round-IsServing max_conns s fails true h e = ended-IsServing max_conns s is_canceled h tt
accept_round-IsServing max_conns s fails false h e = failed-IsServing max_conns s h

without-IsQuiet :
    (p : Phase) (c : ℕ) (xs : List ℕ) → IsQuiet p xs → holds c xs ≡ true → IsQuiet p (without c xs)
without-IsQuiet accepting c xs q h = tt
without-IsQuiet is_canceled c xs q h = tt
without-IsQuiet is_closed c xs q h = tt
without-IsQuiet returned c [] q h = ground arith
without-IsQuiet returned c (x ∷ xs) q h = ground arith

release-IsServing :
    (max_conns : ℕ) (s : Server) (c : ℕ)
    → IsServing max_conns s
    → holds c s.handled ≡ true
    → IsServing max_conns (release s c)
unfolding release
release-IsServing max_conns s c h e =
    let fewer = length-without c s.handled e in
    record {
      slots = omega (arith, fewer, h.slots);
      bounded = omega (arith, h.bounded);
      accounted = omega (arith, fewer, h.accounted);
      backoff = h.backoff;
      sleeps = h.sleeps;
      quiet = without-IsQuiet s.phase c s.handled h.quiet e;
    }

wait_clients-IsServing :
    (max_conns : ℕ) (s : Server) (cs : List ℕ)
    → IsServing max_conns s
    → s.handled ≡ cs
    → IsServing max_conns (wait_clients s cs)
wait_clients-IsServing max_conns s [] h e = ended-IsServing max_conns s returned h e
wait_clients-IsServing max_conns s (c ∷ cs) h e = h

step-IsServing :
    (max_conns : ℕ) (s : Server) (e : Event)
    → IsServing max_conns s
    → IsServing max_conns (step max_conns s e)
unfolding step
step-IsServing max_conns s (accepts a ended) h = elim (Bool-cases (in_loop s.phase)) [
  | inl e ↦ rw (e) (accept_round-IsServing max_conns s a ended h e)
  | inr e ↦ rw (e) h
]
step-IsServing max_conns s (ends c) h = elim (Bool-cases (holds c s.handled)) [
  | inl e ↦ rw (e) (release-IsServing max_conns s c h e)
  | inr e ↦ rw (e) h
]
step-IsServing max_conns s waits h = elim (Bool-cases (is_waiting s.phase)) [
  | inl e ↦ rw (e) (wait_clients-IsServing max_conns s s.handled h refl)
  | inr e ↦ rw (e) h
]

run-from :
    (max_conns : ℕ) (s : Server) (events : List Event)
    → IsServing max_conns s
    → IsServing max_conns (run max_conns s events)
unfolding run
run-from max_conns s [] h = h
run-from max_conns s (e ∷ events) h =
    run-from max_conns (step max_conns s e) events (step-IsServing max_conns s e h)

-- Whatever the listener gives, in whatever order the clients end and whenever the context ends: the
-- clients handled at a time are as many as the slots taken, and never more than MaxConns; each
-- connection accepted is being handled, done, or was closed; acceptBackoff and every sleep stay within
-- 5 ms and 1 s; and where serve has returned, no client is left.
pub run-IsServing :
    (max_conns : ℕ) (events : List Event) → IsServing max_conns (run max_conns new_server events)
run-IsServing max_conns events = run-from max_conns new_server events (record {
  slots = refl;
  bounded = omega arith;
  accounted = refl;
  backoff = (omega arith, omega arith);
  sleeps = tt;
  quiet = tt;
})
