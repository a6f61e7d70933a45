-- ===== src/Sockets/Memory.antt =====
-- A network that keeps the datagrams that are sent, newest last, and on which `bind` may fail.
use client_server.Sockets.{Sockets}
use client_server.Sockets.Up.{IsUp}
use client_server.Base.{ℕ, refl, Bool, some, List, [], ◌∷◌, ◌++◌, if◌then◌else◌, eacces, ok, err}

pub record Wire : Type 0 where
  pub sent : List (List ℕ)
  pub taken : Bool

abbrev pub wire : Sockets
wire = record {
  Net = Wire;
  Text = ℕ;
  Address = ℕ × ℕ;
  socket = λ n. (ok, 3, n);
  inet_aton = λ t p. some (t, p);
  inet_addr = λ t p. (t, p);
  reuse_addr = λ n fd. (ok, n);
  receive_timeout = λ n fd. (ok, n);
  bind = λ n fd a. if n.taken then (err eacces, n) else (ok, n);
  sendto = λ n fd a d. (ok, record n { sent = n.sent ++ (d ∷ []) });
  close = λ n fd. n;
}

abbrev pub wire-IsUp : IsUp wire
wire-IsUp = record {
  sent = λ n. n.sent;
  sendto_ok = λ n fd a d h. refl;
  sendto_sent = λ n fd a d h. refl;
  close_sent = λ n fd. refl;
  socket_sent = λ n. refl;
}
