-- ===== src/NetServer/Tests.antt =====
-- A server whose callback keeps the datagrams.
use client_server.NetServer.Loop.{
  Thread, ended, Turn, test_flag, datagram, timed_out, stop, turns, started, serving, deliver,
}
use client_server.NetServer.Stop.{turns-stop, turns-serving}
use client_server.Base.{ℕ, ◌+◌, ◌≤◌, ◌≡◌, refl, List, [], ◌∷◌, ◌++◌, arith, length}

abbrev keep : List ℕ → List (List ℕ) → List (List ℕ)
keep d ds = ds ++ (d ∷ [])

abbrev stopped : Thread (List (List ℕ))
stopped = turns keep ((test_flag ∷ []) ++ (stop ∷ [])) (started [])

abbrev later : List Turn
later = datagram (1 ∷ []) ∷ test_flag ∷ datagram (2 ∷ []) ∷ []

turns-stop_example :
    (length (turns keep later stopped).handed ≤ length stopped.handed + 1)
    × ((turns keep (timed_out ∷ test_flag ∷ []) (turns keep later stopped)).place ≡ ended)
turns-stop_example = turns-stop keep (test_flag ∷ []) later timed_out [] tt

turns-serving_example :
    (turns keep (serving ((1 ∷ []) ∷ (2 ∷ 3 ∷ []) ∷ [])) (started [])).world
    ≡ deliver keep ((1 ∷ []) ∷ (2 ∷ 3 ∷ []) ∷ []) []
turns-serving_example =
    turns-serving keep ((1 ∷ []) ∷ (2 ∷ 3 ∷ []) ∷ []) (started []) refl refl
      (omega arith, omega arith, (omega arith, omega arith, tt))
