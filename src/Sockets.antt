-- ===== src/Sockets.antt =====
-- What the program calls of <sys/socket.h>, <arpa/inet.h> and <unistd.h>, over an unknown network.
-- A call that fails gives `err e` with the value that it leaves in `errno`.
pub mod Up
pub mod Memory
use client_server.Base.{ℕ, Option, List, Status}

-- An address is a `struct sockaddr_in` of an address text and a port. `socket` gives the
-- descriptor with its status; it is at least 0 on success.
pub record Sockets : Type 1 where
  pub Net : Type 0
  pub Text : Type 0
  pub Address : Type 0
  pub socket : Net → Status × ℕ × Net
  pub inet_aton : Text → ℕ → Option Address
  pub inet_addr : Text → ℕ → Address
  pub reuse_addr : Net → ℕ → Status × Net
  pub receive_timeout : Net → ℕ → Status × Net
  pub bind : Net → ℕ → Address → Status × Net
  pub sendto : Net → ℕ → Address → List ℕ → Status × Net
  pub close : Net → ℕ → Net
