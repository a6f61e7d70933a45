-- ===== src/Sockets/Up.antt =====
-- The documented behaviour of a network that takes every datagram.
use client_server.Sockets.{Sockets}
use client_server.Base.{ℕ, ◌≤◌, ◌≡◌, List, [], ◌∷◌, ◌++◌, length, ok}

-- `sent` are the datagrams sent so far, newest last. The largest that UDP over IPv4 can carry has
-- 65507 bytes.
pub record IsUp (K : Sockets) : Type 0 where
  pub sent : K.Net → List (List ℕ)
  pub sendto_ok :
      (net : K.Net) (fd : ℕ) (a : K.Address) (d : List ℕ)
      → length d ≤ 65507
      → (K.sendto net fd a d).0 ≡ ok
  pub sendto_sent :
      (net : K.Net) (fd : ℕ) (a : K.Address) (d : List ℕ)
      → length d ≤ 65507
      → sent (K.sendto net fd a d).1 ≡ sent net ++ (d ∷ [])
  pub close_sent : (net : K.Net) (fd : ℕ) → sent (K.close net fd) ≡ sent net
  pub socket_sent : (net : K.Net) → sent (K.socket net).2 ≡ sent net
