-- ===== src/ClientMngr/Ready.antt =====
-- The invariant of a manager, and the calls that take and give back clients.
use client_server.IdPool
use client_server.IdPool.{IdPool, get_used_id_count}
use client_server.IdPool.Inv
use client_server.IdPool.Inv.{is_used, in_range}
use client_server.IdPool.Allocate.{allocate_lem, Allocated, top-le}
use client_server.IdPool.Free.{free_lem, Freed}
use client_server.ClientMngr.{ClientMngr, ClientData, update}
use client_server.ClientMngr.Api.{client_mngr_allocate, client_mngr_free, drop_client}
use client_server.ClientMngr.Layout.{IsLaid, client_room}
use client_server.ClientMngr.Create.{HasPool}
use client_server.Base.{
  ℕ, ◌^◌, ◌≤◌, ◌<◌, ◌≡◌, refl, sym, ap, ◌∙◌, ◌≢◌, ◌⊎◌, inl, inr, true, false, Option, none, some,
  arith, leb, ◌==◌, if◌then◌else◌, leb→le, leb→lt, ==→eq, ==→ne, Bool-cases, sub32, einval, enoent,
  ealready, eacces, Status, ok, err, Run, returns,
}

-- The manager is laid out as the code does it, and has a valid pool of client ids, and one of
-- file ids for each client.
pub record IsReady (m : ClientMngr) : Type 0 where
  pub laid : IsLaid m
  pub client_pool : HasPool m.max_clients m.clients_id_pool
  pub file_pools :
      (j : ℕ) → j < m.max_clients → HasPool m.max_files (m.clients_data j).files_id_pool

-- The manager with another pool of client ids and another client `i`.
abbrev pub with_client : ClientMngr → Option IdPool → ℕ → ClientData → ClientMngr
with_client m pool i c = record m {
  clients_id_pool = pool;
  clients_data = update m.clients_data i c;
}

pub with_client-IsReady :
    (m : ClientMngr) (pool : Option IdPool) (i : ℕ) (c : ClientData)
    → IsReady m
    → HasPool m.max_clients pool
    → HasPool m.max_files c.files_id_pool
    → c.files_data ≡ (m.clients_data i).files_data
    → IsReady (with_client m pool i c)
with_client-IsReady m pool i c h clients files place = record {
  laid = record {
    bytes = h.laid.bytes;
    base = h.laid.base;
    files = λ j lt. elim (Bool-cases (j == i)) [
      | inl e ↦
          rw e (
            place ∙ ap (λ k. (m.clients_data k).files_data) (sym (==→eq j i e)) ∙ h.laid.files j lt)
      | inr e ↦ rw e (h.laid.files j lt)
    ];
  };
  client_pool = clients;
  file_pools =
      λ j lt. elim (Bool-cases (j == i)) [ inl e ↦ rw e files | inr e ↦ rw e (h.file_pools j lt) ];
}

module _ (m : ClientMngr) (h : IsReady m) where
  -- The pool of client ids.
  pub clients : IdPool
  clients = h.client_pool.0

  -- What `client_mngr_allocate` can come to.
  pub data Allocation : Type 0 where
    full :
        ((id : ℕ) → id < m.max_clients → is_used clients id ≡ true)
        → client_mngr_allocate (some m) ≡ returns (err enoent, some m, none)
        → Allocation
    taken :
        (id : ℕ) (q : IdPool)
        → id < m.max_clients
        → Allocated clients id q
        → client_mngr_allocate (some m)
          ≡ returns (
            ok,
            some (with_client m (some q) id (record (m.clients_data id) { in_use = true })),
            some id,
          )
        → IsReady (with_client m (some q) id (record (m.clients_data id) { in_use = true }))
        → Allocation

  -- What `client_mngr_free` can come to.
  pub data Freeing (id : ℕ) : Type 0 where
    out_of_range :
        m.max_clients ≤ id
        → client_mngr_free (some m) id ≡ returns (err einval, some m)
        → Freeing id
    has_files :
        (files : IdPool)
        → (m.clients_data id).files_id_pool ≡ some files
        → files.top ≢ files.capacity
        → client_mngr_free (some m) id ≡ returns (err eacces, some m)
        → Freeing id
    not_taken :
        is_used clients id ≡ false
        → client_mngr_free (some m) id
          ≡ returns (
            err ealready,
            some (with_client m (some clients) id (record (m.clients_data id) { in_use = false })),
          )
        → IsReady (with_client m (some clients) id (record (m.clients_data id) { in_use = false }))
        → Freeing id
    given_back :
        (q : IdPool)
        → is_used clients id ≡ true
        → Freed clients id q
        → client_mngr_free (some m) id
          ≡ returns
              (ok, some (with_client m (some q) id (record (m.clients_data id) { in_use = false })))
        → IsReady (with_client m (some q) id (record (m.clients_data id) { in_use = false }))
        → Freeing id

  -- A call for a new client on a ready manager. If every id is taken, it fails with ENOENT and
  -- changes nothing. Otherwise it gives an id that was not taken, which is taken now, and marks
  -- that client; everything else stays, and the manager is ready. No access is out of bounds.
  pub client_mngr_allocate-Allocation : Allocation
  unfolding client_mngr_allocate clients is_used in_range
  client_mngr_allocate-Allocation =
      let (p, e, valid, cap, start) = h.client_pool in
      elim (allocate_lem valid) [
        | inl (top, run, used) ↦
            let answer = ap IdPool.allocate e ∙ run in
            full (λ id lt. used id ∙ ground (arith, lt, cap, start)) (rw answer refl)
        | inr (id, q, top, run, a) ↦
            let lt : id < m.max_clients = omega (arith, a.in_range, cap, start) in
            let answer = ap IdPool.allocate e ∙ run in
            taken id q lt a (rw (answer, client_room m h.laid id lt) refl) (
              with_client-IsReady m (some q) id (record (m.clients_data id) { in_use = true }) h
                (q, refl, a.valid, a.capacity ∙ cap, a.offset ∙ start) (h.file_pools id lt) refl)
      ]

  -- The count of the used ids is zero exactly if all are free.
  used_cases :
      (files : IdPool)
      → IdPool.Inv.IsValid files
      → (((get_used_id_count (some files)).1 ≡ none) × (files.top == files.capacity ≡ false))
        ⊎ ((count : ℕ) × ((get_used_id_count (some files)).1 ≡ some count)
            × (count == 0 ≡ files.top == files.capacity))
  unfolding get_used_id_count
  used_cases files v = elim (Bool-cases (leb (2 ^ 31) (sub32 files.capacity files.top))) [
    | inl e ↦ inl (rw e refl, ground (arith, e, v.fits, top-le v))
    | inr e ↦ inr (sub32 files.capacity files.top, rw e refl, ground (arith, v.fits, top-le v))
  ]

  abbrev free_counted : ℕ → Option ℕ → Run (Status × Option ClientMngr)
  free_counted id none = returns (err eacces, some m)
  free_counted id (some count) =
      if count == 0 then drop_client m id (m.clients_data id) else returns (err eacces, some m)

  -- The code behind the tests runs exactly if the client has no files.
  free_reach :
      (id : ℕ) (files : IdPool)
      → id < m.max_clients
      → (m.clients_data id).files_id_pool ≡ some files
      → IdPool.Inv.IsValid files
      → client_mngr_free (some m) id ≡ (
          if files.top == files.capacity
          then drop_client m id (m.clients_data id)
          else returns (err eacces, some m))
  unfolding client_mngr_free
  free_reach id files lt g v =
      let below : leb m.max_clients id ≡ false = ground (arith, lt) in
      let room = client_room m h.laid id lt in
      let count_of : (get_used_id_count (m.clients_data id).files_id_pool).1
          ≡ (get_used_id_count (some files)).1 =
        ap (λ o. (get_used_id_count o).1) g in
      let first : client_mngr_free (some m) id
          ≡ free_counted id (get_used_id_count (m.clients_data id).files_id_pool).1 =
        rw (below, room) refl in
      elim (used_cases files v) [
        | inl (n, busy) ↦ first ∙ ap (free_counted id) (count_of ∙ n) ∙ rw busy refl
        | inr (count, n, same) ↦ first ∙ ap (free_counted id) (count_of ∙ n) ∙ rw same refl
      ]

  pub client_mngr_free-Freeing : (id : ℕ) → Freeing id
  unfolding client_mngr_free clients is_used in_range
  client_mngr_free-Freeing id = elim (Bool-cases (leb m.max_clients id)) [
    | inl over ↦ out_of_range (leb→le _ _ over) (rw over refl)
    | inr below ↦
        let lt : id < m.max_clients = leb→lt _ _ below in
        let (p, e, valid, cap, start) = h.client_pool in
        let (files, g, v, fcap, fstart) = h.file_pools id lt in
        let room = client_room m h.laid id lt in
        let reach = free_reach id files lt g v in
        let unmarked = record (m.clients_data id) { in_use = false } in
        elim (Bool-cases (files.top == files.capacity)) [
          | inr busy ↦ has_files files g (==→ne _ _ busy) (reach ∙ rw busy refl)
          | inl idle ↦ elim (free_lem id valid) [
            | inl (out, run) ↦ absurd (ground (arith, out, lt, cap, start))
            | inr (inl (inside, unused, run)) ↦
                let answer = ap (λ o. IdPool.free o id) e ∙ run in
                not_taken unused (reach ∙ rw (idle, room, answer) refl) (
                  with_client-IsReady m (some p) id unmarked h (p, refl, valid, cap, start)
                    (h.file_pools id lt) refl)
            | inr (inr (q, used, run, a)) ↦
                let answer = ap (λ o. IdPool.free o id) e ∙ run in
                given_back q used a (reach ∙ rw (idle, room, answer) refl) (
                  with_client-IsReady m (some q) id unmarked h
                    (q, refl, a.valid, a.capacity ∙ cap, a.offset ∙ start) (h.file_pools id lt)
                    refl)
          ]
        ]
  ]
