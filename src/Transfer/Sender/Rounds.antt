-- ===== src/Transfer/Sender/Rounds.antt =====
-- The rounds of the sender's loop while nothing fails.
use mathlib.Core.Path.{fun_ext}
use mathlib.Core.List.{append-nil, append_assoc}
use client_server.Stdio.{Stdio}
use client_server.Stdio.Reliable.{IsReliable}
use client_server.Sockets.{Sockets}
use client_server.Sockets.Up.{IsUp}
use client_server.RamFile.{RamFile, ram_file_destroy, ram_file_read}
use client_server.RamFile.Access.{IsOpen, SameBytes, read_fits}
use client_server.NetClient.{NetClient, net_client_destroy, net_client_send}
use client_server.Transfer.Packets.{max_file_chunk_size, part_size, part, packet, length-packet}
use client_server.Transfer.Sender.{data_chunk_size, send_loop}
use client_server.Base.{
  ℕ, zero, suc, ◌+◌, ◌-◌, ◌*◌, ◌/◌, ◌≤◌, ◌<◌, min, ◌≡◌, refl, sym, ap, ◌∙◌, true, false, some, List,
  [], ◌∷◌, ◌++◌, map, arith, ltb, lt→ltb, length, ok, live, returns,
}

-- The number of parts of a file of `n` bytes.
abbrev pub part_count : ℕ → ℕ
part_count n = (n + (max_file_chunk_size - 1)) / max_file_chunk_size

-- The `j` numbers from `k` on.
unfoldable pub from : ℕ → ℕ → List ℕ
from k zero = []
from k (suc j) = k ∷ from (k + 1) j

module _ {S : Stdio} (R : IsReliable S) {K : Sockets} (N : IsUp K) where
  module _ (m : RamFile S) (f : S.File) (byte : ℕ → ℕ) (n : ℕ) where
    -- The open file has the bytes to be sent.
    pub record IsSource (w : S.World) : Type 0 where
      pub opened : IsOpen R w m f
      pub size : R.size w f ≡ n
      pub bytes : (i : ℕ) → R.byte w f i ≡ byte i
      pub limit : n ≤ m.max_file_size

    SameBytes-IsSource : (w w' : S.World) → IsSource w → SameBytes R w w' f → IsSource w'
    SameBytes-IsSource w w' s same = record {
      opened = record { file = s.opened.file; is_open = same.is_open; limit = s.opened.limit };
      size = same.size ∙ s.size;
      bytes = λ i. same.byte i ∙ s.bytes i;
      limit = s.limit;
    }

  module _ (m : RamFile S) (f : S.File) (c : NetClient K) (byte : ℕ → ℕ) (n : ℕ) where
    -- A read that succeeds leads to the next round.
    next_round :
        (fuel k : ℕ) (w w' : S.World) (net : K.Net)
        → max_file_chunk_size * k < n
        → ram_file_read S w (some m) (max_file_chunk_size * k) true (part_size n k)
          ≡ (ok, part byte n k, w')
        → send_loop S K (suc fuel) (some m) (live c) n (max_file_chunk_size * k) w net
          ≡ send_loop S K fuel
              (some m)
              (live c)
              n
              (min (max_file_chunk_size * (k + 1)) n)
              w'
              (K.sendto net c.sock_fd c.sock_addr (packet byte n k)).1
    unfolding send_loop net_client_send packet
    next_round fuel k w w' net lt run =
        let p = max_file_chunk_size * k in
        let size : data_chunk_size n p ≡ part_size n k = ground (arith, lt) in
        let next : p + part_size n k ≡ min (max_file_chunk_size * (k + 1)) n = omega (arith, lt) in
        let short : length (packet byte n k) ≤ 65507 = omega (arith, length-packet byte n k) in
        let sent = N.sendto_ok net c.sock_fd c.sock_addr (packet byte n k) short in
        rw (send_loop, lt→ltb _ _ lt, size, run, sent, next) refl

    -- One round sends one packet.
    round :
        (fuel k : ℕ) (w : S.World) (net : K.Net)
        → IsSource m f byte n w
        → max_file_chunk_size * k < n
        → (w' : S.World) × (send_loop S K
              (suc fuel)
              (some m)
              (live c)
              n
              (max_file_chunk_size * k)
              w
              net
            ≡ send_loop S K fuel
                (some m)
                (live c)
                n
                (min (max_file_chunk_size * (k + 1)) n)
                w'
                (K.sendto net c.sock_fd c.sock_addr (packet byte n k)).1)
          × IsSource m f byte n w'
    round fuel k w net s lt =
        let (w', run, same) =
          read_fits R w m f s.opened (max_file_chunk_size * k) (part_size n k) (omega (arith, lt))
            (omega (arith, lt, s.limit)) (omega (arith, lt, s.size)) in
        let bytes : R.byte w f ≡ byte = fun_ext s.bytes in
        (
          w',
          next_round fuel k w w' net lt (run ∙ ap (λ b. (ok, part b n k, w')) bytes),
          SameBytes-IsSource m f byte n w w' s same,
        )

    pub send_loop_lem :
        (j fuel k : ℕ) (w : S.World) (net : K.Net)
        → IsSource m f byte n w
        → part_count n ≡ k + j
        → j < fuel
        → (w' : S.World) × (net' : K.Net) × (send_loop S K fuel
              (some m)
              (live c)
              n
              (min (max_file_chunk_size * k) n)
              w
              net
            ≡ returns (some (ok, w', net')))
          × (N.sent net' ≡ N.sent net ++ map (packet byte n) (from k j))
    unfolding send_loop net_client_destroy from
    send_loop_lem j zero k w net s count lt = absurd (omega (arith, lt))
    send_loop_lem zero (suc fuel) k w net s count lt =
        let over : ltb (min (max_file_chunk_size * k) n) n ≡ false = ground (arith, count) in
        (
          (ram_file_destroy S w (some m)).1,
          K.close net c.sock_fd,
          rw (send_loop, over) refl,
          N.close_sent net c.sock_fd ∙ sym (append-nil (N.sent net)),
        )
    send_loop_lem (suc j) (suc fuel) k w net s count lt =
        let inside : max_file_chunk_size * k < n = omega (arith, count) in
        let here : min (max_file_chunk_size * k) n ≡ max_file_chunk_size * k =
          omega (arith, inside) in
        let (w1, step, s1) = round fuel k w net s inside in
        let net1 = (K.sendto net c.sock_fd c.sock_addr (packet byte n k)).1 in
        let (w', net', run, sent) =
          send_loop_lem j fuel (k + 1) w1 net1 s1 (omega (arith, count)) (omega (arith, lt)) in
        let short : length (packet byte n k) ≤ 65507 = omega (arith, length-packet byte n k) in
        (
          w',
          net',
          ap (λ p. send_loop S K (suc fuel) (some m) (live c) n p w net) here ∙ step ∙ run,
          sent
              ∙ ap (λ t. t ++ map (packet byte n) (from (k + 1) j))
                  (N.sendto_sent net c.sock_fd c.sock_addr (packet byte n k) short)
              ∙ append_assoc (N.sent net) (packet byte n k ∷ [])
                  (map (packet byte n) (from (k + 1) j)),
        )
