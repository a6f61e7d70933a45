-- ===== src/ClientMngr/Layout.antt =====
-- Where the entries of the files lie in the manager's block.
use client_server.Base.{
  ℕ, ◌+◌, ◌*◌, ◌≤◌, ◌<◌, ◌≡◌, refl, sym, ap, ◌∙◌, inl, inr, false, not, ◌||◌, Option, none, some,
  arith, ltb, leb, ◌==◌, if◌then◌else◌, ==→eq, ==→ne, Bool-cases, einval, ok, err, returns, overrun,
}
use native.Mathlib.Nat.{mul-le-mul_right}
use client_server.ClientMngr.{
  ClientMngr, update, sizeof_mngr, sizeof_client, sizeof_file, get_client,
}
use client_server.ClientMngr.Api.{client_mngr_file_set_ctx, client_mngr_file_get_ctx}

-- The block has room for the clients and for `max_files` entries in all; the entries of client
-- `i` are counted from `i * max_files` on.
pub record IsLaid (m : ClientMngr) : Type 0 where
  pub bytes : m.bytes ≡ sizeof_mngr + m.max_clients * sizeof_client + m.max_files * sizeof_file
  pub base : m.file_base ≡ sizeof_mngr + m.max_clients * sizeof_client
  pub files : (i : ℕ) → i < m.max_clients → (m.clients_data i).files_data ≡ i * m.max_files

-- The manager with another context for the entry `k`.
abbrev pub with_ctx : ClientMngr → ℕ → Option ℕ → ClientMngr
with_ctx m k ctx = record m { entries = update m.entries k (record (m.entries k) { ctx = ctx }) }

module _ (m : ClientMngr) (h : IsLaid m) (client_id : ℕ) (hc : client_id < m.max_clients) where
  pub client_room : ltb m.bytes (sizeof_mngr + (client_id + 1) * sizeof_client) ≡ false
  client_room = ground (arith, h.bytes, hc)

  get_client_lem : get_client m client_id ≡ returns (m.clients_data client_id)
  get_client_lem = rw client_room refl

module _ (m : ClientMngr) (h : IsLaid m) (client_id file_id : ℕ) (hc : client_id < m.max_clients)
    (hf : file_id < m.max_files) where
  -- The test that guards an access to an entry fails for all clients but the first.
  pub past_end :
      ltb m.bytes
        (m.file_base + ((m.clients_data client_id).files_data + file_id + 1) * sizeof_file)
      ≡ not (client_id == 0)
  past_end = elim (Bool-cases (client_id == 0)) [
    | inl e ↦
        let none_before : client_id * m.max_files ≡ 0 =
          ap (λ t. t * m.max_files) (==→eq _ _ e) ∙ omega arith in
        ground (arith, h.bytes, h.base, h.files client_id hc, none_before, e, hf)
    | inr ne ↦
        let later : 1 * m.max_files ≤ client_id * m.max_files =
          mul-le-mul_right m.max_files (omega (arith, ==→ne _ _ ne)) in
        ground (arith, h.bytes, h.base, h.files client_id hc, later, ne)
  ]

  -- Setting the context of a file within the limits of a manager that is laid out as the code does
  -- it succeeds for client 0, and changes that entry only. For every other client the entry lies
  -- behind the end of the block.
  pub client_mngr_file_set_ctx_lem :
      (ctx : Option ℕ)
      → client_mngr_file_set_ctx (some m) client_id file_id ctx
        ≡ (if client_id == 0 then returns (ok, some (with_ctx m file_id ctx)) else overrun)
  unfolding client_mngr_file_set_ctx
  client_mngr_file_set_ctx_lem ctx =
      let limits : leb m.max_clients client_id || leb m.max_files file_id ≡ false =
        ground (arith, hc, hf) in
      elim (Bool-cases (client_id == 0)) [
        | inl e ↦
            let first : (m.clients_data client_id).files_data + file_id ≡ file_id =
              omega (arith, h.files client_id hc, ap (λ t. t * m.max_files) (==→eq _ _ e)) in
            let inside = past_end ∙ ap not e in
            rw (limits, get_client_lem m h client_id hc, inside, first, e) refl
        | inr ne ↦
            let outside = past_end ∙ ap not ne in
            rw (limits, get_client_lem m h client_id hc, outside, ne) refl
      ]

pub with_ctx-IsLaid :
    (m : ClientMngr) (k : ℕ) (ctx : Option ℕ) → IsLaid m → IsLaid (with_ctx m k ctx)
with_ctx-IsLaid m k ctx h = record { bytes = h.bytes; base = h.base; files = h.files }

-- A read of the context of a file of client 0 finds the entry.
pub get_ctx_first :
    (m : ClientMngr) (file_id : ℕ)
    → IsLaid m
    → 0 < m.max_clients
    → file_id < m.max_files
    → client_mngr_file_get_ctx (some m) 0 file_id ≡ elim ((m.entries file_id).ctx) [
      | none ↦ returns (err einval, none)
      | some p ↦ returns (ok, some p)
    ]
unfolding client_mngr_file_get_ctx
get_ctx_first m file_id h hc hf =
    let limits : leb m.max_clients 0 || leb m.max_files file_id ≡ false = ground (arith, hc, hf) in
    let first : (m.clients_data 0).files_data + file_id ≡ file_id = omega (arith, h.files 0 hc) in
    rw (limits, get_client_lem m h 0 hc, past_end m h 0 file_id hc hf, first) refl

-- The context of client 0's file `file_id` is set and then read: file `file_id` has the new one
-- and every other file of client 0 the one it had.
pub file_get_ctx-file_set_ctx :
    (m : ClientMngr) (file_id other p : ℕ)
    → IsLaid m
    → 0 < m.max_clients
    → file_id < m.max_files
    → other < m.max_files
    → (m' : ClientMngr) × (client_mngr_file_set_ctx (some m) 0 file_id (some p)
        ≡ returns (ok, some m'))
      × (client_mngr_file_get_ctx (some m') 0 other ≡ (
          if other == file_id
          then returns (ok, some p)
          else client_mngr_file_get_ctx (some m) 0 other))
file_get_ctx-file_set_ctx m file_id other p h hc hf ho = (
  with_ctx m file_id (some p),
  client_mngr_file_set_ctx_lem m h 0 file_id hc hf (some p),
  get_ctx_first (with_ctx m file_id (some p)) other (with_ctx-IsLaid m file_id (some p) h) hc ho
      ∙ elim (Bool-cases (other == file_id)) [
        | inl e ↦ rw e refl
        | inr ne ↦ rw ne (sym (get_ctx_first m other h hc ho))
      ],
)
