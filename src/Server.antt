-- ===== src/Server.antt =====
-- src/server.go: the accept loop of serve, with its bound on the clients that are handled at a time, and
-- (in the children) what handles a client. The loop and the ends of the handlers are interleaved in any
-- order: a run is a list of events. Connections are numbers; times are nanoseconds.
pub mod Accept
pub mod Stop
mod Tests
use tg_ws_proxy_go.Base.{
  ℕ, ◌+◌, ◌-◌, ◌*◌, List, [], ◌∷◌, ◌++◌, Bool, true, false, ltb, ◌==◌, if◌then◌else◌,
}

abbrev pub accept_backoff_min : ℕ
accept_backoff_min = 5 * 1000000

abbrev pub accept_backoff_max : ℕ
accept_backoff_max = 1000000000

-- What ln.Accept gives: a connection, net.ErrClosed, a timeout, or another error.
pub data Accepted : Type 0 where
  conn : ℕ → Accepted
  err_closed times_out fails : Accepted

-- Where serve is: in the loop, behind it with the error of the context or of the listener, where
-- it waits for the clients, or returned.
pub data Phase : Type 0 where
  accepting is_canceled is_closed returned : Phase

abbrev pub in_loop : Phase → Bool
in_loop accepting = true
in_loop is_canceled = false
in_loop is_closed = false
in_loop returned = false

abbrev pub is_waiting : Phase → Bool
is_waiting accepting = false
is_waiting is_canceled = true
is_waiting is_closed = true
is_waiting returned = false

-- acceptBackoff; len(sessionsSem); the connections whose goroutine has not given its slot back;
-- those that the default case has closed; those that the goroutines are done with;
-- stats.connectionsTotal; the durations slept.
pub record Server : Type 0 where
  pub phase : Phase
  pub accept_backoff : ℕ
  pub sessions : ℕ
  pub handled : List ℕ
  pub dropped : List ℕ
  pub done : List ℕ
  pub total : ℕ
  pub slept : List ℕ

abbrev pub new_server : Server
new_server = record {
  phase = accepting;
  accept_backoff = accept_backoff_min;
  sessions = 0;
  handled = [];
  dropped = [];
  done = [];
  total = 0;
  slept = [];
}

-- `acceptBackoff *= 2; if acceptBackoff > acceptBackoffMax { ... }`.
unfoldable pub next_backoff : ℕ → ℕ
next_backoff b = if ltb accept_backoff_max (b * 2) then accept_backoff_max else b * 2

-- The select: a send on the channel of capacity max_conns, or the default case.
unfoldable pub dispatch : ℕ → Server → ℕ → Server
dispatch max_conns s c =
    if ltb s.sessions max_conns
    then record s { sessions = s.sessions + 1; handled = c ∷ s.handled }
    else record s { dropped = c ∷ s.dropped }

-- One round of the loop; `ended` is whether the context has ended at ctx.Err().
unfoldable pub accept_round : ℕ → Server → Accepted → Bool → Server
accept_round max_conns s (conn c) ended =
    dispatch max_conns (record s { accept_backoff = accept_backoff_min; total = s.total + 1 }) c
accept_round max_conns s err_closed ended =
    if ended then record s { phase = is_canceled } else record s { phase = is_closed }
accept_round max_conns s times_out ended =
    if ended
    then record s { phase = is_canceled }
    else record s { accept_backoff = accept_backoff_min }
accept_round max_conns s fails ended =
    if ended then record s { phase = is_canceled } else record s {
      slept = s.accept_backoff ∷ s.slept;
      accept_backoff = next_backoff s.accept_backoff;
    }

-- The connection taken out of the list, once.
unfoldable pub without : ℕ → List ℕ → List ℕ
without c [] = []
without c (x ∷ xs) = let rest = without c xs in if x == c then xs else x ∷ rest

abbrev pub holds : ℕ → List ℕ → Bool
holds c [] = false
holds c (x ∷ xs) = if x == c then true else holds c xs

-- The deferred `<-sessionsSem` of the goroutine of `c`, whether handleClient has returned or panicked.
unfoldable pub release : Server → ℕ → Server
release s c = record s {
  sessions = s.sessions - 1;
  handled = without c s.handled;
  done = c ∷ s.done;
}

-- clients.Wait(), behind the loop: it goes on as soon as no client is left.
abbrev pub wait_clients : Server → List ℕ → Server
wait_clients s [] = record s { phase = returned }
wait_clients s (c ∷ cs) = s

pub data Event : Type 0 where
  accepts : Accepted → Bool → Event
  ends : ℕ → Event
  waits : Event

-- An event that the state does not allow changes nothing: the loop accepts while serve is in it, a
-- goroutine ends if there is one, and serve waits behind the loop.
unfoldable pub step : ℕ → Server → Event → Server
step max_conns s (accepts a ended) = if in_loop s.phase then accept_round max_conns s a ended else s
step max_conns s (ends c) = if holds c s.handled then release s c else s
step max_conns s waits = if is_waiting s.phase then wait_clients s s.handled else s

unfoldable pub run : ℕ → Server → List Event → Server
run max_conns s [] = s
run max_conns s (e ∷ events) = run max_conns (step max_conns s e) events
