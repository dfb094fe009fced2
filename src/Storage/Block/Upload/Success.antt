-- ===== src/Storage/Block/Upload/Success.antt =====
-- `putBlockBlob` of storage/blob.go against a service that accepts.
use azure_sdk_for_go.Common.{ℕ, ◌+◌, ◌≤◌, List, [], ◌∷◌, false, ◌≡◌, refl, ◌∙◌, arith, length, ltb}
use azure_sdk_for_go.Common.Text.{Text}
use azure_sdk_for_go.Go.{ok, History}
use azure_sdk_for_go.Storage.{StorageClient, Env}
use azure_sdk_for_go.Storage.Container.Accepts.{Accepts, expect_status_created}
use azure_sdk_for_go.Storage.Block.{
  Block, max_blob_block_size, put_single_block_blob, put_block, put_block_list, block_id,
}
use azure_sdk_for_go.Storage.Block.Upload.{Reader, eof, effective_size, put_block_blob_sized}
use azure_sdk_for_go.Storage.Block.Upload.Content.{numbered}
use azure_sdk_for_go.Storage.Block.Upload.Loop.{
  Delivers, at_eof, Uploaded, nothing, block, put_block_blob-Delivers,
}

too_long : {n : ℕ} → n ≤ max_blob_block_size → ltb max_blob_block_size n ≡ false
too_long h = ground arith

module _ {R : Type 0} (reader : Reader R) (env : Env) (c : StorageClient) (a : Accepts env c)
    (container name : Text) where
  put_block_created :
      (id bytes : Text) (h : History)
      → (g : History) × (put_block env c container name id bytes h ≡ (ok tt, g))
  unfolding put_block
  put_block_created id bytes h = expect_status_created env c a _ _ _ _ _ h

  put_block_list_created :
      (blocks : List Block) (h : History)
      → (g : History) × (put_block_list env c container name blocks h ≡ (ok tt, g))
  unfolding put_block_list
  put_block_list_created blocks h = expect_status_created env c a _ _ _ _ _ h

  put_single_created :
      (bytes : Text) (h : History)
      → length bytes ≤ max_blob_block_size
      → (g : History) × (put_single_block_blob env c container name bytes h ≡ (ok tt, g))
  unfolding put_single_block_blob
  put_single_created bytes h short = rw (too_long short) (expect_status_created env c a _ _ _ _ _ h)

  all-Uploaded :
      (n : ℕ) (xs : List Text) (h : History)
      → (g : History) × Uploaded reader env c container name n xs h g
  all-Uploaded n [] h = (h, nothing)
  all-Uploaded n (x ∷ xs) h =
      let (g, p) = put_block_created (block_id n) x h in
      let (g', u) = all-Uploaded (n + 1) xs g in (g', block p u)

  single_upload :
      {r : R} (fuel chunk_size : ℕ) (h : History) {tail : Text}
      → (reader.read r (effective_size chunk_size)).ended ≡ eof
      → (reader.read r (effective_size chunk_size)).bytes ≡ tail
      → put_block_blob_sized reader env c container name fuel chunk_size r h
        ≡ put_single_block_blob env c container name tail h
  unfolding put_block_blob_sized
  single_upload fuel chunk_size h e t = rw (e, put_block_blob_sized) (rw t refl)

  -- If every request can be addressed, signed and built and is answered with 201, the reader gives some
  -- chunks, at most as many as the fuel, and then `io.EOF` with a tail that fits into a single upload,
  -- then `putBlockBlob` returns no error.
  pub put_block_blob_succeeds :
      (fuel chunk_size : ℕ) {r : R} (xs : List Text) {tail : Text} (h : History)
      → Delivers reader (effective_size chunk_size) r xs tail
      → length tail ≤ max_blob_block_size
      → length xs ≤ fuel
      → (h' : History) × (put_block_blob_sized reader env c container name fuel chunk_size r h
          ≡ (ok tt, h'))
  put_block_blob_succeeds fuel chunk_size [] {tail} h (at_eof e t) short f =
      let (g, p) = put_single_created tail h short in (g, single_upload fuel chunk_size h e t ∙ p)
  put_block_blob_succeeds fuel chunk_size (x ∷ xs) h d short f =
      let (g, u) = all-Uploaded 0 (x ∷ xs) h in
      let (g', p) = put_block_list_created (numbered 0 (x ∷ xs)) g in
      (
        g',
        put_block_blob-Delivers reader env c container name fuel chunk_size d u (omega arith) ∙ p,
      )
