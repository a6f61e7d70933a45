-- ===== src/Transfer/Tests.antt =====
-- A file of 1500 bytes in memory, sent as two datagrams, and a file that receives it.
use client_server.Stdio.Reliable.{window}
use client_server.Stdio.Memory.{Disk, memory, memory-IsReliable, no_file}
use client_server.Sockets.Memory.{Wire, wire, wire-IsUp}
use client_server.RamFile.{RamFile, ram_file_size_in_bytes, check_if_file_exist}
use client_server.RamFile.Access.{IsOpen}
use client_server.NetServer.Loop.{test_flag, timed_out, turns, started, serving, deliver}
use client_server.Transfer.Packets.{max_file_chunk_size, packet, has}
use client_server.Transfer.Receiver.{Answers, server_data_to_file_callback}
use client_server.Transfer.Reassembly.{IsReceived, deliver-IsReceived}
use client_server.Transfer.Sender.{client_main}
use client_server.Transfer.Sender.Termination.{Ends, client_main-Ends}
use client_server.Transfer.Sender.Rounds.{part_count, from}
use client_server.Transfer.Sender.Sending.{IsServed, client_main-sent}
use client_server.Transfer.Shutdown.{ServerOutcome, server_main-ServerOutcome}
use client_server.Transfer.EndToEnd.{arrivals, turns-client_main}
use client_server.Base.{
  ℕ, ◌*◌, ◌%◌, ◌<◌, ◌≡◌, refl, true, false, some, List, [], ◌∷◌, map, arith, ok, returns,
}

abbrev disk_of_1500 : Disk
disk_of_1500 = record { there = true; position = 0; size = 1500; byte = λ i. i % 251 }

abbrev quiet : Wire
quiet = record { sent = []; taken = false }

abbrev receiver : RamFile memory
receiver = record {
  file = some tt;
  file_path = some tt;
  max_file_size = 1024 * 1024;
  delete_files = false;
}

abbrev empty_disk : Disk
empty_disk = record no_file { there = true }

empty_disk-IsOpen : IsOpen memory-IsReliable empty_disk receiver tt
empty_disk-IsOpen = record { file = refl; is_open = refl; limit = omega arith }

-- The second part comes first, and the first one twice.
abbrev order : List ℕ
order = 1 ∷ 0 ∷ 0 ∷ []

both : (k : ℕ) → max_file_chunk_size * k < 1500 → has k order ≡ true
both k h = ground (arith, h)

served :
    IsServed memory-IsReliable wire-IsUp tt 127
      (λ i. true)
      disk_of_1500
      quiet
      1500
      tt
      disk_of_1500
      3
      quiet
      (127, 54322)
served = record {
  there = refl;
  file_size = refl;
  file = refl;
  is_open = refl;
  size = refl;
  limit = omega arith;
  memory = λ i. refl;
  socket = refl;
  address = refl;
}

deliver-IsReceived_example :
    IsReceived memory-IsReliable receiver tt
      (λ i. i % 251)
      1500
      empty_disk
      (deliver
        (server_data_to_file_callback memory (some receiver))
        (map (packet (λ i. i % 251) 1500) (1 ∷ []))
        empty_disk)
      (1 ∷ [])
deliver-IsReceived_example =
    deliver-IsReceived memory-IsReliable receiver tt (λ i. i % 251) 1500 empty_disk (1 ∷ [])
      empty_disk-IsOpen (omega arith) (omega arith, tt)

client_main-Ends_example :
    Ends memory wire (client_main memory wire 127 (λ i. true) 3 (some tt) disk_of_1500 quiet)
unfolding ram_file_size_in_bytes check_if_file_exist
client_main-Ends_example =
    client_main-Ends memory wire 127 (λ i. true) 3 tt disk_of_1500 quiet (omega arith)

client_main-sent_example :
    (w' : Disk) × (net' : Wire) × (client_main memory wire 127
        (λ i. true)
        3
        (some tt)
        disk_of_1500
        quiet
      ≡ returns (some (ok, w', net')))
    × (net'.sent ≡ map (packet (λ i. i % 251) 1500) (from 0 (part_count 1500)))
client_main-sent_example =
    client_main-sent memory-IsReliable wire-IsUp tt 127 (λ i. true) 3 disk_of_1500 quiet 1500 tt
      disk_of_1500 3 quiet (127, 54322) served (omega arith)

turns-client_main_example :
    (w' : Disk) × (net' : Wire) × (client_main memory wire 127
        (λ i. true)
        3
        (some tt)
        disk_of_1500
        quiet
      ≡ returns (some (ok, w', net')))
    × (let v' =
          (turns
            (server_data_to_file_callback memory (some receiver))
            (serving (arrivals net'.sent order))
            (started empty_disk)).world in
        (v'.size ≡ 1500) × (window v'.byte 0 1500 ≡ window (λ i. i % 251) 0 1500))
turns-client_main_example =
    turns-client_main memory-IsReliable wire-IsUp memory-IsReliable tt 127 (λ i. true) 3
      disk_of_1500 quiet 1500 tt disk_of_1500 3 quiet (127, 54322) empty_disk receiver tt order
      served (omega arith) refl empty_disk-IsOpen (omega arith) (omega arith)
      (omega arith, (omega arith, (omega arith, tt))) both

-- `bind` fails: the port is taken.
abbrev answers : Answers memory wire 127 tt
answers = record {
  got = λ i. true;
  thread_started = true;
  thread_errno = ok;
  served = test_flag ∷ timed_out ∷ [];
}

server_main-ServerOutcome_example :
    ServerOutcome memory wire 127 tt answers empty_disk (record quiet { taken = true })
server_main-ServerOutcome_example =
    server_main-ServerOutcome memory wire 127 tt answers empty_disk (record quiet { taken = true })
