-- ===== src/FileCreator/Tests.antt =====
-- A generator that counts, and a file in memory.
use client_server.Stdio.Reliable.{window}
use client_server.Stdio.Memory.{Disk, memory, memory-IsWritable, no_file}
use client_server.FileCreator.{fill, creating_data_file}
use client_server.FileCreator.Written.{creating_data_file-fill}
use client_server.Base.{ℕ, ◌+◌, ◌≡◌, refl, true, [], ◌∷◌, ok}

abbrev count_up : ℕ → ℕ × ℕ
count_up s = (s, s + 1)

creating_data_file-fill_example :
    (w2 : Disk) × (creating_data_file memory count_up tt 3 no_file 254 ≡ (ok, w2, 257))
    × (w2.size ≡ 3)
    × (window w2.byte 0 3 ≡ 254 ∷ 255 ∷ 0 ∷ [])
unfolding fill
creating_data_file-fill_example =
    creating_data_file-fill memory-IsWritable count_up tt tt 3 no_file
      (record no_file { there = true }) 254 refl refl refl refl
