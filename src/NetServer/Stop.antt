-- ===== src/NetServer/Stop.antt =====
-- What the loop still does after `net_server_stop` has cleared the flag, and what it has done.
use client_server.NetServer.Loop.{
  Place, testing, waiting, ended, Turn, test_flag, datagram, timed_out, failed, stop, Thread,
  received, turn, turns, started, serving, deliver,
}
use client_server.NetServer.{server_buffer_size}
use client_server.Transfer.{take}
use client_server.Transfer.Layout.{take_all}
use client_server.Base.{
  ℕ, ◌+◌, ◌≤◌, ◌<◌, ◌≡◌, refl, ap, ◌∙◌, true, false, List, [], ◌∷◌, ◌++◌, arith, length,
}

-- Datagrams of some bytes that fit the buffer.
abbrev pub AllFit : List (List ℕ) → Type 0
AllFit [] = Unit {0}
AllFit (d ∷ ds) = (0 < length d) × (length d ≤ server_buffer_size) × AllFit ds

module _ {W : Type 0} (callback : List ℕ → W → W) where
  -- How many datagrams may still be handed on after the flag is cleared.
  abbrev left : Place → ℕ
  left testing = 0
  left waiting = 1
  left ended = 0

  turn_stopped :
      (e : Turn) (t : Thread W)
      → t.flag ≡ false
      → ((turn callback e t).flag ≡ false)
        × (length (turn callback e t).handed + left (turn callback e t).place
            ≤ length t.handed + left t.place)
  unfolding turn
  turn_stopped test_flag t h = ground arith
  turn_stopped (datagram []) t h = ground arith
  turn_stopped (datagram (b ∷ bs)) t h = ground arith
  turn_stopped timed_out t h = ground arith
  turn_stopped failed t h = ground arith
  turn_stopped stop t h = ground arith

  turns_stopped :
      (es : List Turn) (t : Thread W)
      → t.flag ≡ false
      → ((turns callback es t).flag ≡ false)
        × (length (turns callback es t).handed ≤ length t.handed + left t.place)
  unfolding turns
  turns_stopped [] t h = (h, omega arith)
  turns_stopped (e ∷ es) t h =
      let (h', le) = turn_stopped e t h in
      let (flag, le') = turns_stopped es (turn callback e t) h' in (flag, omega (arith, le, le'))

  turns-append :
      (es fs : List Turn) (t : Thread W)
      → turns callback (es ++ fs) t ≡ turns callback fs (turns callback es t)
  unfolding turns
  turns-append [] fs t = refl
  turns-append (e ∷ es) fs t = turns-append es fs (turn callback e t)

  -- What `recvfrom` can come to.
  abbrev pub IsReturn : Turn → Type 0
  IsReturn test_flag = ⊥
  IsReturn (datagram d) = Unit {0}
  IsReturn timed_out = Unit {0}
  IsReturn failed = Unit {0}
  IsReturn stop = ⊥

  ends :
      (e : Turn) (t : Thread W)
      → t.flag ≡ false
      → IsReturn e
      → (turns callback (e ∷ test_flag ∷ []) t).place ≡ ended
  unfolding turns turn
  ends test_flag t h r = absurd r
  ends (datagram []) t h r = ground arith
  ends (datagram (b ∷ bs)) t h r = ground arith
  ends timed_out t h r = ground arith
  ends failed t h r = ground arith
  ends stop t h r = absurd r

  flag_off :
      (es : List Turn) (w : W) → (turns callback (es ++ (stop ∷ [])) (started w)).flag ≡ false
  unfolding turns turn
  flag_off es w = rw (turns-append es (stop ∷ []) (started w)) refl

  left-le : (p : Place) → left p ≤ 1
  left-le testing = omega arith
  left-le waiting = omega arith
  left-le ended = omega arith

  -- After any turns of the loop, `net_server_stop` clears the flag. In whatever turns follow, the
  -- callback is called at most once more. As soon as `recvfrom` has returned, with a datagram, after
  -- its time-out or with an error, and the flag has been tested, the loop has ended.
  pub turns-stop :
      (before after : List Turn) (e : Turn) (w : W)
      → IsReturn e
      → let stopped = turns callback (before ++ (stop ∷ [])) (started w) in
        (length (turns callback after stopped).handed ≤ length stopped.handed + 1)
        × ((turns callback (e ∷ test_flag ∷ []) (turns callback after stopped)).place ≡ ended)
  turns-stop before after e w r =
      let stopped = turns callback (before ++ (stop ∷ [])) (started w) in
      let off : stopped.flag ≡ false = flag_off before w in
      let (off', few) = turns_stopped after stopped off in
      (omega (arith, few, left-le stopped.place), ends e (turns callback after stopped) off' r)

  -- Datagrams that come one after the other, each of some bytes that fit the buffer, are handed to
  -- the callback in order.
  pub turns-serving :
      (ds : List (List ℕ)) (t : Thread W)
      → t.flag ≡ true
      → t.place ≡ testing
      → AllFit ds
      → (turns callback (serving ds) t).world ≡ deliver callback ds t.world
  unfolding turns turn
  turns-serving [] t f p fit = refl
  turns-serving ([] ∷ ds) t f p fit = absurd (omega (arith, fit.0))
  turns-serving ((b ∷ bs) ∷ ds) t f p (some_bytes, fits, rest) =
      let whole : take server_buffer_size (b ∷ bs) ≡ b ∷ bs = take_all _ (b ∷ bs) fits in
      let one : turns callback (serving ((b ∷ bs) ∷ ds)) t
          ≡ turns callback (serving ds)
              (received callback (b ∷ bs) (record t { place = waiting })) =
        rw (p, f) refl in
      ap (λ u. u.world) one
      ∙ turns-serving ds (received callback (b ∷ bs) (record t { place = waiting })) f refl rest
      ∙ ap (λ d. deliver callback ds (callback d t.world)) whole
