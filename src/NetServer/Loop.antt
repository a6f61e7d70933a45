-- ===== src/NetServer/Loop.antt =====
-- `_net_server_recv_loop` and `net_server_stop`, which run at the same time: the turns that the
-- loop and its caller take, in any order.
use client_server.NetServer.{server_buffer_size}
use client_server.Transfer.{take}
use client_server.Base.{ℕ, Bool, true, false, List, [], ◌∷◌, if◌then◌else◌}

-- Where the loop stands: before the test of the flag, inside `recvfrom`, or behind the loop.
pub data Place : Type 0 where
  testing waiting ended : Place

-- A turn: the loop tests the flag, `recvfrom` gives a datagram, runs out of time or fails with
-- another error, or `net_server_stop` clears the flag. A turn that is not possible where the loop
-- stands does nothing.
pub data Turn : Type 0 where
  test_flag : Turn
  datagram : List ℕ → Turn
  timed_out : Turn
  failed : Turn
  stop : Turn

-- The turns by which the loop takes the datagrams one after the other.
abbrev pub serving : List (List ℕ) → List Turn
serving [] = []
serving (d ∷ ds) = test_flag ∷ datagram d ∷ serving ds

-- `handed` are the datagrams that the callback was called with so far, newest first.
pub record Thread (W : Type 0) : Type 0 where
  pub flag : Bool
  pub place : Place
  pub world : W
  pub handed : List (List ℕ)

module _ {W : Type 0} where
  -- The body of the loop behind `recvfrom`. A datagram of no bytes is passed over.
  abbrev pub received : (List ℕ → W → W) → List ℕ → Thread W → Thread W
  received callback [] t = record t { place = testing }
  received callback (b ∷ bs) t = record t {
    place = testing;
    world = callback (take server_buffer_size (b ∷ bs)) t.world;
    handed = take server_buffer_size (b ∷ bs) ∷ t.handed;
  }

  abbrev pub at_test : Thread W → Place → Thread W
  at_test t testing = record t { place = if t.flag then waiting else ended }
  at_test t waiting = t
  at_test t ended = t

  abbrev pub at_wait : Thread W → Thread W → Place → Thread W
  at_wait t next testing = t
  at_wait t next waiting = next
  at_wait t next ended = t

  unfoldable pub turn : (List ℕ → W → W) → Turn → Thread W → Thread W
  turn callback test_flag t = at_test t t.place
  turn callback (datagram d) t = at_wait t (received callback d t) t.place
  turn callback timed_out t = at_wait t (record t { place = testing }) t.place
  turn callback failed t = at_wait t (record t { place = ended }) t.place
  turn callback stop t = record t { flag = false }

  unfoldable pub turns : (List ℕ → W → W) → List Turn → Thread W → Thread W
  turns callback [] t = t
  turns callback (e ∷ es) t = turns callback es (turn callback e t)

  -- The loop as `net_server_start` leaves it.
  abbrev pub started : W → Thread W
  started w = record { flag = true; place = testing; world = w; handed = [] }

  -- The callback of each datagram, in order.
  abbrev pub deliver : (List ℕ → W → W) → List (List ℕ) → W → W
  deliver callback [] w = w
  deliver callback (d ∷ ds) w = deliver callback ds (callback d w)
