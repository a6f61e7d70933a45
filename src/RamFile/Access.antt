-- ===== src/RamFile/Access.antt =====
-- `ram_file_read` and `ram_file_write` on an open file.
use mathlib.Core.Path.{fun_ext}
use client_server.Stdio.{Stdio}
use client_server.Stdio.Reliable.{IsReliable, window, patch}
use client_server.Stdio.Window.{length-window, window-patch_self, window-patch_apart}
use client_server.RamFile.{RamFile, ram_file_read, ram_file_write, read_at, write_at}
use client_server.Base.{
  ℕ, ◌+◌, ◌-◌, ◌^◌, ◌≤◌, ◌<◌, min, max, ◌≡◌, refl, ap, ◌∙◌, ◌≢◌, ◌⊎◌, inl, inr, true, false, ◌||◌,
  some, List, [], ◌∷◌, arith, ltb, leb, ◌==◌, if◌then◌else◌, ltb→lt, ltb→le, leb→le, leb→lt, ==→eq,
  eq→==, ==→ne, Bool-cases, length, u64, einval, eio, efbig, ok, err,
}

length-eq-nil : (xs : List ℕ) → length xs ≡ 0 → xs ≡ []
length-eq-nil [] e = refl
length-eq-nil (x ∷ xs) e = absurd (omega (arith, e))

-- A read gets all its bytes if the file reaches so far.
whole_count : (p n s : ℕ) → min n (s - p) == n ≡ leb (p + n) s || n == 0
whole_count p n s = ground arith

module _ {S : Stdio} (R : IsReliable S) where
  -- The manager has the open file `f`, and its limit is a size that `fseek` can reach.
  pub record IsOpen (w : S.World) (m : RamFile S) (f : S.File) : Type 0 where
    pub file : m.file ≡ some f
    pub is_open : R.is_open w f ≡ true
    pub limit : m.max_file_size < 2 ^ 63

  -- The file has the same bytes.
  pub record SameBytes (w w' : S.World) (f : S.File) : Type 0 where
    pub is_open : R.is_open w' f ≡ true
    pub size : R.size w' f ≡ R.size w f
    pub byte : (i : ℕ) → R.byte w' f i ≡ R.byte w f i

  -- The bytes have been written over those from the offset on.
  pub record Wrote (w w' : S.World) (f : S.File) (offset : ℕ) (xs : List ℕ) : Type 0 where
    pub is_open : R.is_open w' f ≡ true
    pub size : R.size w' f ≡ max (R.size w f) (offset + length xs)
    pub byte : (i : ℕ) → R.byte w' f i ≡ patch (R.byte w f) offset xs i

  module _ {w : S.World} {m : RamFile S} {f : S.File} (o : IsOpen w m f) (offset : ℕ) where
    pub write_at-Wrote :
        (xs : List ℕ)
        → xs ≢ []
        → offset < 2 ^ 63
        → (w' : S.World) × (write_at S w f offset xs ≡ (ok, w')) × Wrote w w' f offset xs
    unfolding patch
    write_at-Wrote xs ne lt =
        let w1 = (S.fseek w f offset).1 in
        let w2 = (S.fwrite w1 f xs).1 in
        let o1 = R.fseek_open w f offset o.is_open in
        let o2 = R.fwrite_open w1 f xs o1 in
        let all : (S.fwrite w1 f xs).0 == length xs ≡ true =
          eq→== _ _ (R.fwrite_count w1 f xs o1) in
        let place = R.fseek_position w f offset o.is_open lt in
        (
          (S.fflush w2 f).1,
          rw (write_at, R.fseek_ok w f offset o.is_open lt, all)
              (ap (λ s. (s, (S.fflush w2 f).1)) (R.fflush_ok w2 f o2)),
          record {
            is_open = R.fflush_open w2 f o2;
            size =
                R.fflush_size w2 f
                ∙ R.fwrite_size w1 f xs o1 ne
                ∙ rw (R.fseek_size w f offset, place) refl;
            byte = λ i.
                R.fflush_byte w2 f i
                ∙ R.fwrite_byte w1 f xs i o1
                ∙ rw (place, R.fseek_byte w f offset i) refl;
          },
        )

    read_at-SameBytes :
        (n : ℕ)
        → offset < 2 ^ 63
        → (w' : S.World) × (read_at S w f offset n ≡ (
          if leb (offset + n) (R.size w f) || n == 0 then ok else err eio,
          window (R.byte w f) offset (min n (R.size w f - offset)),
          w',
        ))
          × SameBytes w w' f
    read_at-SameBytes n lt =
        let w1 = (S.fseek w f offset).1 in
        let w2 = (S.fread w1 f n).1 in
        let o1 = R.fseek_open w f offset o.is_open in
        let place = R.fseek_position w f offset o.is_open lt in
        let bytes : (S.fread w1 f n).0 ≡ window (R.byte w f) offset (min n (R.size w f - offset)) =
          R.fread_bytes w1 f n o1
          ∙ rw (place, R.fseek_size w f offset, fun_ext (R.fseek_byte w f offset)) refl in
        (
          w2,
          elim (Bool-cases (leb (offset + n) (R.size w f) || n == 0)) [
            | inl e ↦
                rw
                  (
                    read_at,
                    R.fseek_ok w f offset o.is_open lt,
                    bytes,
                    length-window,
                    whole_count offset n (R.size w f),
                    e,
                  )
                  refl
            | inr e ↦
                rw
                  (
                    read_at,
                    R.fseek_ok w f offset o.is_open lt,
                    bytes,
                    length-window,
                    whole_count offset n (R.size w f),
                    e,
                  )
                  refl
          ],
          record {
            is_open = R.fread_open w1 f n o1;
            size = R.fread_size w1 f n ∙ R.fseek_size w f offset;
            byte = λ i. R.fread_byte w1 f n i ∙ R.fseek_byte w f offset i;
          },
        )

  module _ {w : S.World} {m : RamFile S} {f : S.File} (o : IsOpen w m f) (offset : ℕ) where
    -- The outcome of a write of `xs`.
    pub data WriteOutcome (xs : List ℕ) : Type 0 where
      no_data :
          xs ≡ [] → ram_file_write S w (some m) offset (some xs) ≡ (err einval, w) → WriteOutcome xs
      too_big :
          m.max_file_size < offset + length xs
          → ram_file_write S w (some m) offset (some xs) ≡ (err efbig, w)
          → WriteOutcome xs
      written :
          offset + length xs ≤ m.max_file_size
          → (w' : S.World) → ram_file_write S w (some m) offset (some xs) ≡ (ok, w')
          → Wrote w w' f offset xs
          → WriteOutcome xs

    -- The outcome of a read of `n` bytes.
    pub data ReadOutcome (n : ℕ) : Type 0 where
      no_bytes :
          n ≡ 0 → ram_file_read S w (some m) offset true n ≡ (err einval, [], w) → ReadOutcome n
      too_far :
          m.max_file_size < offset + n
          → ram_file_read S w (some m) offset true n ≡ (err efbig, [], w)
          → ReadOutcome n
      short :
          R.size w f < offset + n
          → (w' : S.World)
          → ram_file_read S w (some m) offset true n
            ≡ (err eio, window (R.byte w f) offset (min n (R.size w f - offset)), w')
          → SameBytes w w' f
          → ReadOutcome n
      whole :
          offset + n ≤ R.size w f
          → (w' : S.World)
          → ram_file_read S w (some m) offset true n ≡ (ok, window (R.byte w f) offset n, w')
          → SameBytes w w' f
          → ReadOutcome n

    -- A write to an open file whose limit is below 2 ^ 63, while no device fails, at an offset and
    -- of a length with a sum below 2 ^ 64: no data is EINVAL, a write past the limit is EFBIG, and both leave the world as it
    -- was. Any other succeeds; the bytes from the offset on are the written ones, all others are
    -- as before, and the file has grown to the end of the write if it was smaller.
    pub ram_file_write-WriteOutcome : (xs : List ℕ) → offset + length xs < 2 ^ 64 → WriteOutcome xs
    unfolding ram_file_write
    ram_file_write-WriteOutcome [] fits = no_data refl (rw o.file refl)
    ram_file_write-WriteOutcome (x ∷ xs) fits =
        let sum : u64 (offset + length (x ∷ xs)) ≡ offset + length (x ∷ xs) = omega arith in
        let some_data : length (x ∷ xs) == 0 ≡ false = ground arith in
        elim (Bool-cases (ltb m.max_file_size (offset + length (x ∷ xs)))) [
          | inl e ↦ too_big (ltb→lt _ _ e) (rw (o.file, some_data, sum, e) refl)
          | inr e ↦
              let le : offset + length (x ∷ xs) ≤ m.max_file_size = ltb→le _ _ e in
              let (w', run, wrote) =
                write_at-Wrote o offset (x ∷ xs) (λ h. cc) (omega (arith, o.limit, le)) in
              let reach : ram_file_write S w (some m) offset (some (x ∷ xs))
                  ≡ write_at S w f offset (x ∷ xs) =
                rw (o.file, some_data, sum, e) refl in
              written le w' (reach ∙ run) wrote
        ]

    pub ram_file_read-ReadOutcome : (n : ℕ) → offset + n < 2 ^ 64 → ReadOutcome n
    unfolding ram_file_read
    ram_file_read-ReadOutcome n fits =
        let sum : u64 (offset + n) ≡ offset + n = omega arith in
        elim (Bool-cases (n == 0)) [
          | inl z ↦ no_bytes (==→eq _ _ z) (rw (o.file, z) refl)
          | inr nz ↦ elim (Bool-cases (ltb m.max_file_size (offset + n))) [
            | inl e ↦ too_far (ltb→lt _ _ e) (rw (o.file, nz, sum, e) refl)
            | inr e ↦
                let lt : offset < 2 ^ 63 = omega (arith, o.limit, ltb→le _ _ e, ==→ne _ _ nz) in
                let reach : ram_file_read S w (some m) offset true n ≡ read_at S w f offset n =
                  rw (o.file, nz, sum, e) refl in
                let (w', run, same) = read_at-SameBytes o offset n lt in
                elim (Bool-cases (leb (offset + n) (R.size w f))) [
                  | inl le ↦
                      let count : min n (R.size w f - offset) ≡ n = omega (arith, leb→le _ _ le) in
                      let test : leb (offset + n) (R.size w f) || n == 0 ≡ true =
                        ground (arith, le) in
                      whole (leb→le _ _ le) w' (reach ∙ run ∙ rw (test, count) refl) same
                  | inr gt ↦
                      let test : leb (offset + n) (R.size w f) || n == 0 ≡ false =
                        ground (arith, gt, nz) in
                      short (leb→lt _ _ gt) w' (reach ∙ run ∙ rw test refl) same
                ]
          ]
        ]

  module _ (w : S.World) (m : RamFile S) (f : S.File) (o : IsOpen w m f) (offset : ℕ) where
    pub write_fits :
        (xs : List ℕ)
        → xs ≢ []
        → offset + length xs ≤ m.max_file_size
        → (w' : S.World) × (ram_file_write S w (some m) offset (some xs) ≡ (ok, w'))
          × Wrote w w' f offset xs
    write_fits xs ne fits =
        elim (ram_file_write-WriteOutcome o offset xs (omega (arith, fits, o.limit))) [
          | no_data e run ↦ absurd (ne e)
          | too_big lt run ↦ absurd (omega (arith, lt, fits))
          | written le w' run wrote ↦ (w', run, wrote)
        ]

    pub read_fits :
        (n : ℕ)
        → n ≢ 0
        → offset + n ≤ m.max_file_size
        → offset + n ≤ R.size w f
        → (w' : S.World) × (ram_file_read S w (some m) offset true n
            ≡ (ok, window (R.byte w f) offset n, w'))
          × SameBytes w w' f
    read_fits n nz fits within =
        elim (ram_file_read-ReadOutcome o offset n (omega (arith, fits, o.limit))) [
          | no_bytes e run ↦ absurd (nz e)
          | too_far lt run ↦ absurd (omega (arith, lt, fits))
          | short lt w' run same ↦ absurd (omega (arith, lt, within))
          | whole le w' run same ↦ (w', run, same)
        ]

  pub Wrote-IsOpen :
      (w w' : S.World) (m : RamFile S) (f : S.File) (offset : ℕ) (xs : List ℕ)
      → IsOpen w m f
      → Wrote w w' f offset xs
      → IsOpen w' m f
  Wrote-IsOpen w w' m f offset xs o wrote = record {
    file = o.file;
    is_open = wrote.is_open;
    limit = o.limit;
  }

  -- On an open file whose limit is below 2 ^ 63, while no device fails, some data that is written within the limit is read
  -- back, and a read of some bytes that the file has, within the limit and apart from the data,
  -- gives what it gave before.
  pub ram_file_read-ram_file_write :
      (w : S.World) (m : RamFile S) (f : S.File) (offset : ℕ) (xs : List ℕ) (other n : ℕ)
      → IsOpen w m f
      → xs ≢ []
      → offset + length xs ≤ m.max_file_size
      → n ≢ 0
      → other + n ≤ m.max_file_size
      → other + n ≤ R.size w f
      → (other + n ≤ offset) ⊎ (offset + length xs ≤ other)
      → (w1 w2 w3 : S.World) × (ram_file_write S w (some m) offset (some xs) ≡ (ok, w1))
        × (ram_file_read S w1 (some m) offset true (length xs) ≡ (ok, xs, w2))
        × (ram_file_read S w1 (some m) other true n ≡ (ok, window (R.byte w f) other n, w3))
  ram_file_read-ram_file_write w m f offset xs other n o ne fits nz fits' within apart =
      let (w1, run, wrote) = write_fits w m f o offset xs ne fits in
      let o1 = Wrote-IsOpen w w1 m f offset xs o wrote in
      let some_bytes : length xs ≢ 0 = λ e. ne (length-eq-nil xs e) in
      let (w2, run2, _) =
        read_fits w1 m f o1 offset (length xs) some_bytes fits (omega (arith, wrote.size)) in
      let (w3, run3, _) =
        read_fits w1 m f o1 other n nz fits' (omega (arith, wrote.size, within)) in
      let bytes = fun_ext wrote.byte in
      (
        w1,
        w2,
        w3,
        run,
        run2 ∙ ap (λ t. (ok, t, w2)) (rw bytes (window-patch_self (R.byte w f) offset xs)),
        run3
            ∙ ap (λ t. (ok, t, w3))
                (rw bytes (window-patch_apart (R.byte w f) offset xs other n apart)),
      )
