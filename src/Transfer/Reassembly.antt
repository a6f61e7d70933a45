-- ===== src/Transfer/Reassembly.antt =====
-- The received file, after the callback of the server has run on packets of a sent file.
use client_server.Stdio.{Stdio}
use client_server.Stdio.Reliable.{IsReliable, window}
use client_server.Stdio.Window.{length-window, window-eq}
use client_server.RamFile.{RamFile}
use client_server.RamFile.Access.{IsOpen, Wrote, Wrote-IsOpen, write_fits}
use client_server.NetServer.Loop.{deliver}
use client_server.Transfer.{sizeof_header, chunk_offset, chunk_data}
use client_server.Transfer.Layout.{chunk_offset-chunk_bytes, chunk_data-chunk_bytes}
use client_server.Transfer.Packets.{
  max_file_chunk_size, chosen, part_size, part, packet, has, AllParts, extent, length-packet,
  patch-part, extent_all,
}
use client_server.Transfer.Receiver.{max_file_buffer_size, server_data_to_file_callback}
use client_server.Base.{
  ℕ, ◌-◌, ◌*◌, ◌/◌, ◌≤◌, ◌<◌, max, ◌≡◌, sym, ap, subst, ◌∙◌, ◌≢◌, true, false, ◌&&◌, some, List, [],
  ◌∷◌, map, arith, ltb, length,
}

module _ {S : Stdio} (R : IsReliable S) (m : RamFile S) (f : S.File) (byte : ℕ → ℕ) (n : ℕ) where
  module _ {w : S.World} (k : ℕ) where
    offset_of :
        IsOpen R w m f
        → n ≤ m.max_file_size
        → max_file_chunk_size * k < n
        → chunk_offset (packet byte n k) ≡ max_file_chunk_size * k
    unfolding packet
    offset_of o fits lt =
        chunk_offset-chunk_bytes 0 (max_file_chunk_size * k) (part byte n k)
          (omega (arith, o.limit, fits, lt))

  data_of : (k : ℕ) → chunk_data (packet byte n k) ≡ part byte n k
  unfolding packet
  data_of k = chunk_data-chunk_bytes 0 (max_file_chunk_size * k) (part byte n k)

  -- The callback on the packet of part `k`.
  receive-Wrote :
      (w : S.World) (k : ℕ)
      → IsOpen R w m f
      → max_file_chunk_size * k < n
      → n ≤ m.max_file_size
      → Wrote R w
          (server_data_to_file_callback S (some m) (packet byte n k) w)
          f
          (max_file_chunk_size * k)
          (part byte n k)
  unfolding server_data_to_file_callback
  receive-Wrote w k o lt fits =
      let p = max_file_chunk_size * k in
      let size = length-window byte p (part_size n k) in
      let total = length-packet byte n k in
      let long : ltb (length (packet byte n k)) sizeof_header ≡ false = ground (arith, total) in
      let short : ltb max_file_buffer_size (length (packet byte n k) - sizeof_header) ≡ false =
        ground (arith, total) in
      let some_data : part byte n k ≢ [] = λ e. omega (arith, lt, size, ap length e) in
      let (w', run, wrote) =
        write_fits R w m f o p (part byte n k) some_data (omega (arith, size, lt, fits)) in
      let reach : server_data_to_file_callback S (some m) (packet byte n k) w ≡ w' =
        rw (long, short, offset_of k o fits lt, data_of k) (ap (λ r. r.1) run) in
      subst (λ u. Wrote R w u f p (part byte n k)) (sym reach) wrote

  -- The received file has the sent bytes of the parts that came, and is long enough for them.
  pub record IsReceived (w w' : S.World) (ks : List ℕ) : Type 0 where
    pub opened : IsOpen R w' m f
    pub size : R.size w' f ≡ max (R.size w f) (extent n ks)
    pub byte_at :
        (i : ℕ)
        → R.byte w' f i
          ≡ chosen (ltb i n && has (i / max_file_chunk_size) ks) (byte i) (R.byte w f i)

  -- While no device fails, let packets of a file that fits the limit be handed to the callback on
  -- an open file whose limit is below 2 ^ 63, in any order, some of them more than once and some never. The received file has
  -- the sent bytes in the parts that came and its old bytes elsewhere, and has grown to the end of
  -- the last part that came.
  pub deliver-IsReceived :
      (w : S.World) (ks : List ℕ)
      → IsOpen R w m f
      → n ≤ m.max_file_size
      → AllParts n ks
      → IsReceived w
          (deliver (server_data_to_file_callback S (some m)) (map (packet byte n) ks) w)
          ks
  deliver-IsReceived w [] o fits parts = record {
    opened = o;
    size = omega arith;
    byte_at = λ i. ground arith;
  }
  deliver-IsReceived w (k ∷ ks) o fits (lt, parts) =
      let w1 = server_data_to_file_callback S (some m) (packet byte n k) w in
      let wrote = receive-Wrote w k o lt fits in
      let rest = deliver-IsReceived w1 ks (Wrote-IsOpen R w w1 m f _ _ o wrote) fits parts in
      let size = length-window byte (max_file_chunk_size * k) (part_size n k) in
      record {
        opened = rest.opened;
        size = omega (arith, rest.size, wrote.size, size);
        byte_at = λ i.
            let now = wrote.byte i ∙ patch-part (R.byte w f) byte n k i in
            ground (arith, rest.byte_at i, now);
      }

  -- If every part comes at least once, in whatever order, the received file begins with the bytes
  -- of the sent one. It has its size if it was not larger before.
  pub deliver_all :
      (w : S.World) (ks : List ℕ)
      → IsOpen R w m f
      → n ≤ m.max_file_size
      → R.size w f ≤ n
      → AllParts n ks
      → ((k : ℕ) → max_file_chunk_size * k < n → has k ks ≡ true)
      → let w' = deliver (server_data_to_file_callback S (some m)) (map (packet byte n) ks) w in
        (R.size w' f ≡ n) × (window (R.byte w' f) 0 n ≡ window byte 0 n)
  deliver_all w ks o fits le parts all =
      let received = deliver-IsReceived w ks o fits parts in
      let end = extent_all n ks parts all in
      (
        omega (arith, received.size, end, le),
        window-eq _ byte 0 n (λ i low high.
            let came = all (i / max_file_chunk_size) (omega (arith, high)) in
            ground (arith, received.byte_at i, came, high)),
      )
