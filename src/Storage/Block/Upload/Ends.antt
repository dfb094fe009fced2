-- ===== src/Storage/Block/Upload/Ends.antt =====
-- The end of the loop of `putBlockBlob`, storage/blob.go.
use azure_sdk_for_go.Common.{
  ℕ, zero, suc, ◌+◌, ◌≤◌, ◌<◌, List, [], ◌∷◌, ◌++◌, inl, inr, ◌≡◌, ◌≢◌, arith, Bool-cases, ltb,
  length,
}
use azure_sdk_for_go.Common.Text.{Text}
use azure_sdk_for_go.Go.{stuck, History, Result-cases}
use azure_sdk_for_go.Storage.{StorageClient, Env}
use azure_sdk_for_go.Storage.Exec.Final.{IsFinal, err-IsFinal, panic-IsFinal}
use azure_sdk_for_go.Storage.Container.Final.{expect_status-IsFinal}
use azure_sdk_for_go.Storage.Block.{
  Block, max_blob_block_size, put_block, put_block_list, put_single_block_blob, block_id,
}
use azure_sdk_for_go.Storage.Block.Upload.{
  Reader, more, latest_block, effective_size, put_blocks, put_block_blob_sized,
}
use azure_sdk_for_go.Storage.Block.Upload.Loop.{ReadEnd-cases}

module _ (env : Env) (c : StorageClient) (container name : Text) where
  put_block-IsFinal :
      (id chunk : Text) (h : History) → IsFinal (put_block env c container name id chunk h).0
  unfolding put_block
  put_block-IsFinal id chunk h = expect_status-IsFinal env c _ _ _ _ _ _ _ h

  put_block_list-IsFinal :
      (blocks : List Block) (h : History) → IsFinal (put_block_list env c container name blocks h).0
  unfolding put_block_list
  put_block_list-IsFinal blocks h = expect_status-IsFinal env c _ _ _ _ _ _ _ h

  put_single-IsFinal :
      (chunk : Text) (h : History) → IsFinal (put_single_block_blob env c container name chunk h).0
  unfolding put_single_block_blob
  put_single-IsFinal chunk h = elim (Bool-cases (ltb max_blob_block_size (length chunk))) [
    | inl t ↦ rw t err-IsFinal
    | inr t ↦ rw t (expect_status-IsFinal env c _ _ _ _ _ _ _ h)
  ]

-- The reader gives this many chunks with no error before it ends, by `io.EOF` or by another error.
pub data Stops {R : Type 0} (reader : Reader R) (size : ℕ) : R → ℕ → Type 0 where
  at_end : {r : R} → (reader.read r size).ended ≢ more → Stops reader size r 0
  later :
      {r : R} {n : ℕ}
      → (reader.read r size).ended ≡ more
      → Stops reader size (reader.read r size).reader n
      → Stops reader size r (n + 1)

module _ {R : Type 0} (reader : Reader R) (env : Env) (c : StorageClient)
    (container name : Text) where
  -- One round of the loop, with what came of the block, and of the `Read`.
  round :
      (fuel size : ℕ) (r : R) (n : ℕ) (x : Text) (bs : List Block) (h : History)
      → ((g : History)
          → (reader.read r size).ended ≡ more
          → IsFinal
              (put_blocks reader env c container name fuel size
                (reader.read r size).reader
                (n + 1)
                (reader.read r size).bytes
                (bs ++ (latest_block (block_id n) ∷ []))
                g).0)
      → IsFinal (put_blocks reader env c container name (suc fuel) size r n x bs h).0
  unfolding put_blocks
  round fuel size r n x bs h rest =
      elim (Result-cases (put_block env c container name (block_id n) x h).0) [
        | inr (inl (e, p)) ↦ rw (p, put_blocks) err-IsFinal
        | inr (inr (inl p)) ↦ rw (p, put_blocks) panic-IsFinal
        | inr (inr (inr p)) ↦ absurd (put_block-IsFinal env c container name (block_id n) x h p)
        | inl (u, p) ↦ elim (ReadEnd-cases (reader.read r size).ended) [
          | inl e ↦ rw (p, e, put_blocks) (put_block_list-IsFinal env c container name _ _)
          | inr (inl e) ↦ rw (p, e, put_blocks) (rest _ e)
          | inr (inr (y, e)) ↦ rw (p, e, put_blocks) err-IsFinal
        ]
      ]

  put_blocks-IsFinal :
      (fuel size : ℕ) {r : R} {k : ℕ} (n : ℕ) (x : Text) (bs : List Block) (h : History)
      → Stops reader size r k
      → k < fuel
      → IsFinal (put_blocks reader env c container name fuel size r n x bs h).0
  put_blocks-IsFinal zero size n x bs h s f = absurd (omega arith)
  put_blocks-IsFinal (suc fuel) size {r} n x bs h (at_end e) f =
      round fuel size r n x bs h (λ g m. absurd (e m))
  put_blocks-IsFinal (suc fuel) size {r} n x bs h (later e s) f = round fuel size r n x bs h (λ g m.
      put_blocks-IsFinal fuel size (n + 1) (reader.read r size).bytes
        (bs ++ (latest_block (block_id n) ∷ [])) g s (omega arith))

  -- `putBlockBlob` comes to an end, whatever the service answers, if the reader gives at most as many
  -- chunks as the fuel before it ends, by `io.EOF` or by another error.
  pub put_block_blob_ends :
      (fuel chunk_size : ℕ) {r : R} {k : ℕ} (h : History)
      → Stops reader (effective_size chunk_size) r k
      → k ≤ fuel
      → (put_block_blob_sized reader env c container name fuel chunk_size r h).0 ≢ stuck
  unfolding put_block_blob_sized
  put_block_blob_ends fuel chunk_size {r} h (at_end e) f =
      elim (ReadEnd-cases (reader.read r (effective_size chunk_size)).ended) [
        | inl q ↦ rw (q, put_block_blob_sized) (put_single-IsFinal env c container name _ h)
        | inr (inl q) ↦ absurd (e q)
        | inr (inr (y, q)) ↦ rw (q, put_block_blob_sized) err-IsFinal
      ]
  put_block_blob_ends fuel chunk_size {r} h (later e s) f =
      rw (e, put_block_blob_sized)
        (put_blocks-IsFinal fuel (effective_size chunk_size) 0
          (reader.read r (effective_size chunk_size)).bytes [] h s (omega arith))
