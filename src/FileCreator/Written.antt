-- ===== src/FileCreator/Written.antt =====
-- The bytes of the made file.
use mathlib.Core.Path.{fun_ext}
use mathlib.Core.List.{append-nil, append_assoc}
use client_server.Stdio.{Stdio, create_new}
use client_server.Stdio.Reliable.{IsWritable, window, patch}
use client_server.Stdio.Window.{window-patch_self, window-patch_apart, window-append}
use client_server.FileCreator.{
  file_buffer_size, fill, write_remaining, write_chunks, creating_data_file,
}
use client_server.Base.{
  ℕ, zero, suc, ◌+◌, ◌*◌, ◌/◌, ◌%◌, ◌≡◌, refl, sym, ap, subst, ◌∙◌, ◌≢◌, inl, true, some, List, [],
  ◌∷◌, ◌++◌, arith, ◌==◌, eq→==, length, length-append, Status, ok,
}

module _ {S : Stdio} (R : IsWritable S) {Seed : Type 0} (rand : Seed → ℕ × Seed) (f : S.File) where
  length-fill : (n : ℕ) (s : Seed) → length (fill S rand n s).0 ≡ n
  unfolding fill
  length-fill zero s = refl
  length-fill (suc n) s = ap suc (length-fill n (rand s).1)

  -- Filling twice goes on where the first left off.
  fill-add :
      (m n : ℕ) (s : Seed)
      → fill S rand (m + n) s ≡ (
        (fill S rand m s).0 ++ (fill S rand n (fill S rand m s).1).0,
        (fill S rand n (fill S rand m s).1).1,
      )
  unfolding fill
  fill-add zero n s = let zero_add : 0 + n ≡ n = omega arith in ap (λ k. fill S rand k s) zero_add
  fill-add (suc m) n s =
      let suc_add : suc m + n ≡ suc (m + n) = omega arith in
      ap (λ k. fill S rand k s) suc_add
      ∙ ap (λ r. (((rand s).0 % 256) ∷ r.0, r.1)) (fill-add m n (rand s).1)

  -- The file is open at its end, and has these bytes.
  record HasBytes (w : S.World) (xs : List ℕ) : Type 0 where
    pub is_open : R.is_open w f ≡ true
    pub position : R.position w f ≡ length xs
    pub size : R.size w f ≡ length xs
    pub bytes : window (R.byte w f) 0 (length xs) ≡ xs

  fwrite-HasBytes :
      (w : S.World) (xs ys : List ℕ)
      → HasBytes w xs
      → ys ≢ []
      → HasBytes (S.fwrite w f ys).1 (xs ++ ys)
  fwrite-HasBytes w xs ys h ne =
      let p = length xs in
      let len = length-append xs ys in
      let written : R.byte (S.fwrite w f ys).1 f ≡ patch (R.byte w f) p ys =
        fun_ext (λ i.
          R.fwrite_byte w f ys i h.is_open ∙ ap (λ q. patch (R.byte w f) q ys i) h.position) in
      let before = window-patch_apart (R.byte w f) p ys 0 p (inl (omega arith)) ∙ h.bytes in
      let zero_add : 0 + p ≡ p = omega arith in
      let after =
        ap (λ q. window (patch (R.byte w f) p ys) q (length ys)) zero_add
        ∙ window-patch_self (R.byte w f) p ys in
      record {
        is_open = R.fwrite_open w f ys h.is_open;
        position = R.fwrite_position w f ys h.is_open ∙ omega (arith, len, h.position);
        size = R.fwrite_size w f ys h.is_open ne ∙ omega (arith, len, h.position, h.size);
        bytes =
            ap (λ b. window b 0 (length (xs ++ ys))) written
            ∙ ap (window (patch (R.byte w f) p ys) 0) len
            ∙ window-append (patch (R.byte w f) p ys) 0 p (length ys)
            ∙ ap (λ t. t ++ window (patch (R.byte w f) p ys) (0 + p) (length ys)) before
            ∙ ap (λ t. xs ++ t) after;
      }

  -- The written bytes are those of one `fill`.
  Written : ℕ → Seed → List ℕ → Status × S.World × Seed → Type 0
  Written n s xs r =
      (w2 : S.World) × (r ≡ (ok, S.fclose w2 f, (fill S rand n s).1))
      × HasBytes w2 (xs ++ (fill S rand n s).0)

  write_remaining_lem :
      (n : ℕ) (w : S.World) (s : Seed) (xs : List ℕ)
      → HasBytes w xs
      → Written n s xs (write_remaining S rand f n w s)
  unfolding fill Written
  write_remaining_lem zero w s xs h = (w, refl, subst (HasBytes w) (sym (append-nil xs)) h)
  write_remaining_lem (suc n) w s xs h =
      let bytes = (fill S rand (suc n) s).0 in
      let all : (S.fwrite w f bytes).0 == suc n ≡ true =
        eq→== _ _ (R.fwrite_count w f bytes h.is_open ∙ length-fill (suc n) s) in
      ((S.fwrite w f bytes).1, rw all refl, fwrite-HasBytes w xs bytes h (λ e. cc))

  write_chunks_lem :
      (i remaining : ℕ) (w : S.World) (s : Seed) (xs : List ℕ)
      → HasBytes w xs
      → Written (file_buffer_size * i + remaining) s xs (write_chunks S rand i f remaining w s)
  unfolding write_chunks Written
  write_chunks_lem zero remaining w s xs h =
      let none_left : file_buffer_size * 0 + remaining ≡ remaining = omega arith in
      subst (λ n. Written n s xs (write_remaining S rand f remaining w s)) (sym none_left)
        (write_remaining_lem remaining w s xs h)
  write_chunks_lem (suc i) remaining w s xs h =
      let bytes = (fill S rand file_buffer_size s).0 in
      let s1 = (fill S rand file_buffer_size s).1 in
      let rest = file_buffer_size * i + remaining in
      let sum : file_buffer_size * suc i + remaining ≡ file_buffer_size + rest = omega arith in
      let count = length-fill file_buffer_size s in
      let all : (S.fwrite w f bytes).0 == file_buffer_size ≡ true =
        eq→== _ _ (R.fwrite_count w f bytes h.is_open ∙ count) in
      let some_bytes : bytes ≢ [] = λ e. omega (arith, count, ap length e) in
      let (w2, run, h2) =
        write_chunks_lem i remaining (S.fwrite w f bytes).1 s1 (xs ++ bytes)
          (fwrite-HasBytes w xs bytes h some_bytes) in
      let whole = ap (λ n. fill S rand n s) sum ∙ fill-add file_buffer_size rest s in
      (
        w2,
        rw all (run ∙ ap (λ r. (ok, S.fclose w2 f, r)) (sym (ap (λ r. r.1) whole))),
        subst (HasBytes w2)
            (append_assoc xs bytes (fill S rand rest s1).0 ∙ ap (λ r. xs ++ r.0) (sym whole)) h2,
      )

  -- While no device fails, a file that opens empty gets `f_size` bytes, the values that `rand`
  -- gives one after the other, modulo 256, as if the buffer were as large as the file; then it is
  -- closed, and the call succeeds.
  pub creating_data_file-fill :
      (path : S.FilePath) (f_size : ℕ) (w w1 : S.World) (s : Seed)
      → S.fopen w path create_new ≡ (some f, w1)
      → R.is_open w1 f ≡ true
      → R.position w1 f ≡ 0
      → R.size w1 f ≡ 0
      → (w2 : S.World) × (creating_data_file S rand path f_size w s
          ≡ (ok, S.fclose w2 f, (fill S rand f_size s).1))
        × (R.size w2 f ≡ f_size)
        × (window (R.byte w2 f) 0 f_size ≡ (fill S rand f_size s).0)
  unfolding creating_data_file Written window
  creating_data_file-fill path f_size w w1 s opened is_open position size =
      let start : HasBytes w1 [] = record {
        is_open = is_open;
        position = position;
        size = size;
        bytes = refl;
      } in
      let sum : file_buffer_size * (f_size / file_buffer_size) + f_size % file_buffer_size
          ≡ f_size =
        omega arith in
      let (w2, run, h) =
        subst
          (λ n.
            Written n s []
              (write_chunks S rand (f_size / file_buffer_size) f (f_size % file_buffer_size) w1 s))
          sum
          (write_chunks_lem (f_size / file_buffer_size) (f_size % file_buffer_size) w1 s []
            start) in
      let count = length-fill f_size s in
      (w2, rw opened run, h.size ∙ count, ap (window (R.byte w2 f) 0) (sym count) ∙ h.bytes)
