-- ===== src/Lib.antt =====
-- A verification library for client_server: a file transfer over UDP, and the memory, storage and
-- identifier management of its servers, as executable definitions with theorems.
--
-- The program. The sender (APPS/FILE_SENDER_CLIENT_APP) reads a file in parts of 1024 bytes through
-- a file manager (CLIENT_SERVER/src/ram_file_ctrl.c) and sends each with its offset as a datagram
-- through a UDP client (net_client.c). The receiver (APPS/FILE_SENDER_SERVER_APP) runs a UDP server
-- (net_server.c), whose thread hands each datagram to a callback that writes it through a file
-- manager. The storage manager (STORAGE_MANAGER) gives out blocks of a buddy allocator
-- (BUDDY_ALLOCATOR) as ranges of one file. A client manager (CLIENTS_MANAGER) takes client and file
-- numbers from id pools (INFRA/src/id_pool.c). A small bounded stack (STACK) and a program that
-- makes files of random bytes (APPS/FILE_CREATOR_APP) stand alone.
--
-- The parts and their files.
--   Base: numbers of 16 and 32 bits as naturals with the wrap written out, arrays as lists,
--     error numbers and statuses, `Run`, the outcome of code that may reach outside an array or use
--     freed memory (`overrun`), and `Pointer`, a pointer that is `null`, `live` or `freed`.
--   Buddy: BUDDY_ALLOCATOR/src/buddy_allocator.c. Buddy/Calc has the arithmetic (next_pow2,
--     calc_num_of_levels, calc_max_nodes, get_block_level, the slots, offsets and sizes).
--     Buddy/State has the allocator (`BuddyAlloc`), its pool of block records (`MemPool`) and the
--     monad of its operations; a pointer to a block is the number of the slot it points into.
--     Buddy/FreeList has the linked lists, create_new_block, remove_buddy_block,
--     allocate_at_level and split_block_down; Buddy/Api the public functions.
--     Buddy/Pow and Buddy/Bits are lemmas on powers of two and on bit operations, Buddy/Chain on
--     doubly linked chains, Buddy/Geometry on the tree of slots, Buddy/Tiling on the way blocks
--     tile the pool. Buddy/Links and Buddy/Lists are about the free lists. Buddy/Inv has the
--     invariant, in which one block of the tiling may be a hole while a call works on it; Take
--     opens a hole, Fill closes it, Split (split_block_down) and Merge (the loop of
--     buddy_alloc_free) move it. Create, Creation, Allocate, Request, Release and Sequence are
--     about the public functions (Creation has all outcomes of buddy_alloc_create, where the pointer
--     to the pool is null, live or freed), Disjoint about the blocks that callers hold, Count about
--     buddy_alloc_count_free_blocks.
--   IdPool: INFRA/src/id_pool.c. The flags `in_use` and the stack `free_ids` are lists. Inv has
--     the invariant, Create, Allocate, Free and RoundTrip the calls, Held and Sequence the
--     histories of calls.
--   ClientMngr: CLIENTS_MANAGER/src/client_mngr.c, over the id pools. The manager is one block of
--     memory, and each access to its arrays is checked against the size of the block. Api has the
--     calls on a manager, Create and Layout what its block holds, Ready is about the clients, Files
--     about the files of client 0, Sequence about histories of calls.
--   Stack: STACK/stack.c. Spec is a bounded list, Refine and Sequence the refinement.
--   Stdio: the calls of <stdio.h>, <unistd.h> and <sys/stat.h> that the program makes, as a record
--     of operations on an unknown world, which every part over files takes as a parameter. Reliable
--     is what their documentation says of an open file while no device fails, for a file that is
--     open for writing (`IsWritable`) and for one that is open for both (`IsReliable`); Window has lemmas on
--     ranges of bytes, Memory is a file in memory for which both hold.
--   Sockets: the same for the socket calls. Up is the documented behaviour of a network that takes
--     every datagram, Memory a network that keeps what is sent.
--   RamFile: CLIENT_SERVER/src/ram_file_ctrl.c. Access is about single reads and writes, Limit about
--     histories of them.
--   StoreMngr: STORAGE_MANAGER/src/store_mngr.c, over Buddy and RamFile. Blocks is about reads and
--     writes, Create about store_mngr_create, Sequence about histories of calls.
--   NetClient: CLIENT_SERVER/src/net_client.c. A pointer to an object is `null`, `live` or `freed`,
--     and a use of a freed one is `overrun`.
--   NetServer: CLIENT_SERVER/src/net_server.c. Loop has the thread, _net_server_recv_loop, and
--     net_server_stop as turns that come in any order, Stop is about these.
--   Transfer: APPS/FILE_TRANSFER_INFRA/file_transfer_protocol.h, the bytes of a datagram. Layout and
--     Packets are about them. Receiver is file_sender_server.c (server_data_to_file_callback,
--     app_setup, app_run, app_teardown, main), Shutdown and Reassembly are about it. Sender is
--     file_sender_client.c (main), with Termination, Rounds and Sending. EndToEnd joins the two.
--   FileCreator: APPS/FILE_CREATOR_APP/file_creator.c; Written is about the bytes it writes.
--
-- Bounds and fuel. Loops by halving recurse on the well-founded order and need no fuel. The
-- merging loop of buddy_alloc_free has its level as the measure, split_block_down the distance
-- of its levels. Only the count of the free blocks of a level follows links with fuel, one more
-- than the number of slots: a free list has no repetition, so it has at most so many entries.
-- buddy_alloc_create is treated for all 32-bit sizes (with 32 levels `1 << 31` is taken for its bit
-- pattern), the calls on an allocator for at most 27 levels (`Fits`): beyond these the byte offset
-- of a block record, slot * 24 in 32 bits, would wrap.
-- The loop of the sender has fuel, and an outcome of its own, `none`, if the fuel runs out: one
-- round for each part, and one for the last test, are enough. File offsets are `size_t` of 64
-- bits, with the sum of offset and length wrapped as the code wraps it, and `fseek` takes an
-- offset from 2 ^ 63 on as a negative one.
--
-- Outside. The outcome of malloc, calloc, strdup and pthread_create is an argument of the
-- definitions that call them, and so are the values of `rand`. Log output, the registration of
-- signal handlers and the text of the command line are left out; a signal is the moment at which
-- the loop of the server is stopped. The sizes of structs, and the bytes of a datagram, least
-- first, are those of a 64-bit x86 machine.
pub mod Base
pub mod Stdio
pub mod Sockets
pub mod Buddy
pub mod IdPool
pub mod Stack
pub mod RamFile
pub mod StoreMngr
pub mod ClientMngr
pub mod NetClient
pub mod NetServer
pub mod Transfer
pub mod FileCreator
