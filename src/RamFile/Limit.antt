-- ===== src/RamFile/Limit.antt =====
-- The largest size of a file, through every history of reads and writes.
use client_server.Stdio.{Stdio}
use client_server.Stdio.Reliable.{IsReliable}
use client_server.RamFile.{RamFile, ram_file_read, ram_file_write, write_at, read_at}
use client_server.RamFile.Access.{IsOpen, write_at-Wrote}
use client_server.Base.{
  ℕ, ◌+◌, ◌^◌, ◌≤◌, ◌<◌, ◌≡◌, refl, sym, subst, ◌≢◌, inl, inr, true, false, some, List, [], ◌∷◌,
  arith, ltb, ◌==◌, ltb→lt, ltb→le, Bool-cases, length, u64, Status-cases,
}

-- A call on an open file, its offset as a `size_t`.
pub data FileCall : Type 0 where
  read : ℕ → ℕ → FileCall
  write : ℕ → List ℕ → FileCall

-- The data of a write is smaller than the address space.
abbrev pub IsSmall : FileCall → Type 0
IsSmall (read offset n) = Unit {0}
IsSmall (write offset xs) = length xs < 2 ^ 63

abbrev pub AllSmall : List FileCall → Type 0
AllSmall [] = Unit {0}
AllSmall (c ∷ cs) = IsSmall c × AllSmall cs

module _ (S : Stdio) (m : RamFile S) where
  unfoldable pub call : S.World → FileCall → S.World
  call w (read offset n) = (ram_file_read S w (some m) (u64 offset) true n).2
  call w (write offset xs) = (ram_file_write S w (some m) (u64 offset) (some xs)).1

  unfoldable pub run : S.World → List FileCall → S.World
  run w [] = w
  run w (c ∷ cs) = run (call w c) cs

module _ {S : Stdio} (R : IsReliable S) (m : RamFile S) (f : S.File) where
  -- The file is open and not larger than the limit.
  pub record IsWithin (w : S.World) : Type 0 where
    pub opened : IsOpen R w m f
    pub within : R.size w f ≤ m.max_file_size

  module _ (w : S.World) (v : IsWithin w) where
    open v use {opened, within}

    moved : (w' : S.World) → R.is_open w' f ≡ true → R.size w' f ≤ m.max_file_size → IsWithin w'
    moved w' o le = record {
      opened = record { file = opened.file; is_open = o; limit = opened.limit };
      within = le;
    }

    -- A write whose end wraps past 2 ^ 64 passes the test of its end, and fails at `fseek`.
    write_at-IsWithin :
        (offset : ℕ) (xs : List ℕ)
        → xs ≢ []
        → offset < 2 ^ 64
        → length xs < 2 ^ 63
        → u64 (offset + length xs) ≤ m.max_file_size
        → IsWithin (write_at S w f offset xs).1
    write_at-IsWithin offset xs ne word small le = elim (Bool-cases (ltb offset (2 ^ 63))) [
      | inl lt ↦
          let (w', run, wrote) = write_at-Wrote R opened offset xs ne (ltb→lt _ _ lt) in
          subst (λ r. IsWithin r.1) (sym run)
            (moved w' wrote.is_open (omega (arith, wrote.size, within, le, small, ltb→lt _ _ lt)))
      | inr ge ↦
          rw (write_at, R.fseek_negative w f offset (ltb→le _ _ ge) word)
            (moved _ (R.fseek_open w f offset opened.is_open)
              (omega (arith, R.fseek_size w f offset, within)))
    ]

    read_at-IsWithin : (offset n : ℕ) → IsWithin (read_at S w f offset n).2
    read_at-IsWithin offset n =
        let w1 = (S.fseek w f offset).1 in
        let o1 = R.fseek_open w f offset opened.is_open in
        let size = R.fseek_size w f offset in
        elim (Status-cases (S.fseek w f offset).0) [
          | inr (e, failed) ↦ rw (read_at, failed) (moved w1 o1 (omega (arith, size, within)))
          | inl fine ↦
              let w2 = (S.fread w1 f n).1 in
              let v2 =
                moved w2 (R.fread_open w1 f n o1)
                  (omega (arith, R.fread_size w1 f n, size, within)) in
              elim (Bool-cases (length (S.fread w1 f n).0 == n)) [
                | inl e ↦ rw (read_at, fine, e) v2
                | inr e ↦ rw (read_at, fine, e) v2
              ]
        ]

    call-IsWithin : (c : FileCall) → IsSmall c → IsWithin (call S m w c)
    unfolding call ram_file_read ram_file_write
    call-IsWithin (read offset n) small = elim (Bool-cases (n == 0)) [
      | inl z ↦ reach w (rw (opened.file, z) refl) v
      | inr nz ↦ elim (Bool-cases (ltb m.max_file_size (u64 (u64 offset + n)))) [
        | inl e ↦ reach w (rw (opened.file, nz, e) refl) v
        | inr e ↦
            reach (read_at S w f (u64 offset) n).2 (rw (opened.file, nz, e) refl)
              (read_at-IsWithin (u64 offset) n)
      ]
    ]
      where
        reach :
            (w' : S.World)
            → (ram_file_read S w (some m) (u64 offset) true n).2 ≡ w'
            → IsWithin w'
            → IsWithin (call S m w (read offset n))
        reach w' e v' = subst IsWithin (sym e) v'
    call-IsWithin (write offset []) small = subst IsWithin (sym none_written) v
      where
        none_written : (ram_file_write S w (some m) (u64 offset) (some [])).1 ≡ w
        none_written = rw opened.file refl
    call-IsWithin (write offset (x ∷ xs)) small =
        let some_data : length (x ∷ xs) == 0 ≡ false = ground arith in
        elim (Bool-cases (ltb m.max_file_size (u64 (u64 offset + length (x ∷ xs))))) [
          | inl e ↦ reach w (rw (opened.file, some_data, e) refl) v
          | inr e ↦
              reach (write_at S w f (u64 offset) (x ∷ xs)).1 (rw (opened.file, some_data, e) refl) (
                write_at-IsWithin (u64 offset) (x ∷ xs) (λ h. cc) (omega arith) small
                  (ltb→le _ _ e))
        ]
      where
        reach :
            (w' : S.World)
            → (ram_file_write S w (some m) (u64 offset) (some (x ∷ xs))).1 ≡ w'
            → IsWithin w'
            → IsWithin (call S m w (write offset (x ∷ xs)))
        reach w' e v' = subst IsWithin (sym e) v'

  -- While no device fails, a file that is open and not larger than its limit, which is below
  -- 2 ^ 63, stays so through
  -- every history of reads and writes, at any offsets of 64 bits and of data shorter than 2 ^ 63
  -- bytes, whether they succeed or not; also where the sum of offset and length wraps.
  pub run-IsWithin :
      (w : S.World) (cs : List FileCall) → IsWithin w → AllSmall cs → IsWithin (run S m w cs)
  unfolding run
  run-IsWithin w [] v small = v
  run-IsWithin w (c ∷ cs) v (small, rest) =
      run-IsWithin (call S m w c) cs (call-IsWithin w v c small) rest
