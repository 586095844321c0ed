-- ===== src/Server/Tests.antt =====
-- Runs of serve with two slots.
use tg_ws_proxy_go.Base.{ℕ, List, [], ◌∷◌, ◌++◌, ◌≡◌, refl, ◌≤◌, false, arith, replicate}
use tg_ws_proxy_go.Server.{
  conn, err_closed, fails, returned, Server, new_server, dispatch, accept_round, without, release,
  Event, accepts, ends, waits, step, run,
}
use tg_ws_proxy_go.Server.Accept.{IsServing, run-IsServing}
use tg_ws_proxy_go.Server.Stop.{count_of, ends_of, run-returned, sleeps, slept-fails}

abbrev three_come : List Event
three_come = accepts (conn 1) false ∷ accepts (conn 2) false ∷ accepts (conn 3) false ∷ []

third_dropped : (run 2 new_server three_come).dropped ≡ 3 ∷ []
unfolding run step accept_round dispatch
third_dropped = refl

abbrev one_goes : List Event
one_goes = three_come ++ (ends 1 ∷ accepts (conn 4) false ∷ [])

fourth_handled : (run 2 new_server one_goes).handled ≡ 4 ∷ 2 ∷ []
unfolding run step accept_round dispatch release without
fourth_handled = refl

run-IsServing_example : IsServing 2 (run 2 new_server one_goes)
run-IsServing_example = run-IsServing 2 one_goes

abbrev closing : Server
closing = run 2 new_server (three_come ++ accepts err_closed false ∷ [])

enough_ends : (k : ℕ) → count_of k closing.handled ≤ ends_of k (ends 2 ∷ waits ∷ ends 1 ∷ [])
unfolding run step accept_round dispatch
enough_ends k = ground arith

run-returned_example :
    (run 2 closing ((ends 2 ∷ waits ∷ ends 1 ∷ []) ++ waits ∷ [])).phase ≡ returned
unfolding run step accept_round dispatch
run-returned_example = run-returned 2 closing (ends 2 ∷ waits ∷ ends 1 ∷ []) (refl, tt) enough_ends

slept-fails_example : (run 2 new_server (replicate 9 (accepts fails false))).slept ≡ sleeps 9
slept-fails_example = slept-fails 2 9
