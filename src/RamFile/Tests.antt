-- ===== src/RamFile/Tests.antt =====
-- A file in memory with a limit of 4096 bytes, 100 of them there.
use client_server.Stdio.Reliable.{window}
use client_server.Stdio.Memory.{Disk, memory, memory-IsReliable}
use client_server.RamFile.{RamFile, ram_file_read, ram_file_write}
use client_server.RamFile.Access.{
  IsOpen, WriteOutcome, ram_file_write-WriteOutcome, ram_file_read-ram_file_write,
}
use client_server.RamFile.Limit.{FileCall, read, write, run, IsWithin, run-IsWithin}
use client_server.Base.{◌-◌, ◌%◌, ◌^◌, ◌≡◌, refl, inl, true, false, some, List, [], ◌∷◌, arith, ok}

abbrev hundred : Disk
hundred = record { there = true; position = 0; size = 100; byte = λ i. i % 256 }

abbrev file_of_4096 : RamFile memory
file_of_4096 = record {
  file = some tt;
  file_path = some tt;
  max_file_size = 4096;
  delete_files = false;
}

hundred-IsOpen : IsOpen memory-IsReliable hundred file_of_4096 tt
hundred-IsOpen = record { file = refl; is_open = refl; limit = omega arith }

ram_file_write-WriteOutcome_example :
    WriteOutcome memory-IsReliable hundred-IsOpen 98 (1 ∷ 2 ∷ 3 ∷ [])
ram_file_write-WriteOutcome_example =
    ram_file_write-WriteOutcome memory-IsReliable hundred-IsOpen 98 (1 ∷ 2 ∷ 3 ∷ []) (omega arith)

ram_file_read-ram_file_write_example :
    (w1 w2 w3 : Disk) × (ram_file_write memory hundred
        (some file_of_4096)
        98
        (some (1 ∷ 2 ∷ 3 ∷ []))
      ≡ (ok, w1))
    × (ram_file_read memory w1 (some file_of_4096) 98 true 3 ≡ (ok, 1 ∷ 2 ∷ 3 ∷ [], w2))
    × (ram_file_read memory w1 (some file_of_4096) 10 true 2 ≡ (ok, window (λ i. i % 256) 10 2, w3))
ram_file_read-ram_file_write_example =
    ram_file_read-ram_file_write memory-IsReliable hundred file_of_4096 tt 98 (1 ∷ 2 ∷ 3 ∷ []) 10 2
      hundred-IsOpen (λ e. cc) (omega arith) (omega arith) (omega arith) (omega arith)
      (inl (omega arith))

-- The first offset is 1 below 2 ^ 64, so its end wraps to 1.
abbrev history : List FileCall
history = write (2 ^ 64 - 1) (1 ∷ 2 ∷ []) ∷ read 90 20 ∷ write 100 (7 ∷ []) ∷ []

run-IsWithin_example :
    IsWithin memory-IsReliable file_of_4096 tt (run memory file_of_4096 hundred history)
run-IsWithin_example =
    run-IsWithin memory-IsReliable file_of_4096 tt hundred history
      (record { opened = hundred-IsOpen; within = omega arith })
      (omega arith, (tt, (omega arith, tt)))
