-- ===== src/Storage/Service/Uploads.antt =====
-- Uploads by `putBlockBlob` of storage/blob.go, as steps of the blob service.
use azure_sdk_for_go.Common.{
  ℕ, ◌≤◌, ◌^◌, List, [], ◌∷◌, some, inl, inr, ◌≡◌, ◌≢◌, refl, sym, ap, subst, ◌∙◌, length,
  Bool-cases, ltb,
}
use azure_sdk_for_go.Common.Text.{Text, codes, decimal, eq}
use azure_sdk_for_go.Go.{
  ok, History, Headers, insert, lookup-insert, lookup-insert_same, same_result, err-ne-ok,
}
use azure_sdk_for_go.Storage.{StorageClient, Env, not_created}
use azure_sdk_for_go.Storage.Container.{path_for_blob}
use azure_sdk_for_go.Storage.Container.Stored.{expect_status-Stored}
use azure_sdk_for_go.Storage.Block.{
  block_id, max_blob_block_size, put_single_block_blob, put_block_list, prepare_block_list_request,
}
use azure_sdk_for_go.Storage.Block.Writes.{put_block-Stored, put_block_list-Stored}
use azure_sdk_for_go.Storage.Block.Upload.{Reader, more, eof, effective_size, put_block_blob_sized}
use azure_sdk_for_go.Storage.Block.Upload.Content.{numbered, joined, stage_all, block_list-content}
use azure_sdk_for_go.Storage.Block.Upload.Loop.{
  Delivers, at_eof, chunk, Uploaded, nothing, block, Finished, single, by_blocks,
  put_block_blob-Finished,
}
use azure_sdk_for_go.Storage.Service.{BlobState, IsBlockBlob, Step, Run, done, next}
use azure_sdk_for_go.Storage.Service.BlockLists.{prepare_block_list_request-BlockListXml}

-- Two deliveries of one reader are the same.
Delivers-unique :
    {R : Type 0} (reader : Reader R) (size : ℕ) {r : R} {xs ys : List Text} {t u : Text}
    → Delivers reader size r xs t
    → Delivers reader size r ys u
    → (xs ≡ ys) × (t ≡ u)
Delivers-unique reader size (at_eof e p) (at_eof f q) = (refl, sym p ∙ q)
Delivers-unique reader size (at_eof e p) (chunk f d) = absurd (eof-ne-more (sym e ∙ f))
  where
    eof-ne-more : eof ≢ more
    eof-ne-more x = cc
Delivers-unique reader size (chunk e d) (at_eof f q) = absurd (more-ne-eof (sym e ∙ f))
  where
    more-ne-eof : more ≢ eof
    more-ne-eof x = cc
Delivers-unique reader size {r} (chunk e d) (chunk f b) =
    let (same, tails) = Delivers-unique reader size d b in
    (ap (λ l. (reader.read r size).bytes ∷ l) same, tails)

blob_type_header :
    (size : Text) (headers : Headers)
    → IsBlockBlob (
        insert
          (codes "Content-Length")
          size
          (insert (codes "x-ms-blob-type") (codes "BlockBlob") headers))
unfolding eq
blob_type_header size headers =
    lookup-insert (codes "Content-Length") (codes "x-ms-blob-type") size
      (insert (codes "x-ms-blob-type") (codes "BlockBlob") headers)
    ∙ lookup-insert_same (codes "x-ms-blob-type") (codes "BlockBlob") headers

-- What the blob is after an upload: the bytes that came with `io.EOF` if nothing came before them, and
-- otherwise the chunks before it.
abbrev pub stored_bytes : List Text → Text → Text
stored_bytes [] tail = tail
stored_bytes (x ∷ xs) tail = joined (x ∷ xs)

module _ (env : Env) (c : StorageClient) (container name : Text) where
  put_single-Step :
      (body : Text) (h h' : History) (s : BlobState)
      → put_single_block_blob env c container name body h ≡ (ok tt, h')
      → Step env c container name h s h' (record { staged = []; content = some body })
  unfolding put_single_block_blob
  put_single-Step body h h' s e = elim (Bool-cases (ltb max_blob_block_size (length body))) [
    | inl t ↦ absurd (err-ne-ok (same_result (rw t at e)))
    | inr t ↦
        Step.put_blob
          (expect_status-Stored env c (codes "PUT") (path_for_blob container name) _ _ _ 201
            not_created h h' (rw t at e))
          (lookup-insert_same (codes "Content-Length") (decimal (length body)) _)
          (blob_type_header (decimal (length body)) _)
  ]

  Uploaded-Run :
      {R : Type 0} (reader : Reader R) {n : ℕ} {xs : List Text} {h g h' : History} {u : BlobState}
      (s : BlobState)
      → Uploaded reader env c container name n xs h g
      → Run env c container name g
          (record { staged = stage_all n xs s.staged; content = s.content })
          h'
          u
      → Run env c container name h s h' u
  Uploaded-Run reader s nothing run = run
  Uploaded-Run reader {n} {h = h} s (block {x} {g = g} p rest) run =
      next
        (Step.put_block (put_block-Stored env c container name h g (block_id n) x p)
          (lookup-insert_same (codes "Content-Length") (decimal (length x)) _))
        (Uploaded-Run reader
          (record { staged = insert (block_id n) x s.staged; content = s.content }) rest run)

  put_block_list-Step :
      (chunks : List Text) (h h' : History) (s : BlobState)
      → length chunks ≤ 10 ^ 11
      → put_block_list env c container name (numbered 0 chunks) h ≡ (ok tt, h')
      → Step env c container name h
          (record { staged = stage_all 0 chunks s.staged; content = s.content })
          h'
          (record { staged = []; content = some (joined chunks) })
  put_block_list-Step chunks h h' s q e =
      Step.put_block_list (put_block_list-Stored env c container name h h' (numbered 0 chunks) e)
        (lookup-insert_same (codes "Content-Length")
          (decimal (length (prepare_block_list_request (numbered 0 chunks)))) _)
        (prepare_block_list_request-BlockListXml 0 chunks) (block_list-content chunks s.staged q)

  -- However the service answers, and whatever it keeps of the blob: if the reader gives these chunks and
  -- then, with `io.EOF`, a tail, at most 10^11 chunks, and `putBlockBlob` returns no error, then what it
  -- did is a sequence of documented uploads for this blob, behind which the blob is the tail where there
  -- are no chunks, and otherwise the chunks in order, and no uncommitted block is left.
  pub put_block_blob-Run :
      {R : Type 0} (reader : Reader R) (fuel chunk_size : ℕ) (r : R) (xs : List Text) (tail : Text)
      (h h' : History) (s : BlobState)
      → Delivers reader (effective_size chunk_size) r xs tail
      → length xs ≤ 10 ^ 11
      → put_block_blob_sized reader env c container name fuel chunk_size r h ≡ (ok tt, h')
      → Run env c container name h s h'
          (record { staged = []; content = some (stored_bytes xs tail) })
  put_block_blob-Run reader fuel chunk_size r xs tail h h' s d q e =
      finished (put_block_blob-Finished reader env c container name fuel chunk_size r h h' e)
    where
      known :
          {ys : List Text} {u : Text}
          → Delivers reader (effective_size chunk_size) r ys u
          → (xs ≡ ys) × (tail ≡ u)
      known d' = Delivers-unique reader (effective_size chunk_size) d d'

      finished :
          Finished reader env c container name (effective_size chunk_size) r h h'
          → Run env c container name h s h'
              (record { staged = []; content = some (stored_bytes xs tail) })
      finished (single {tail = u} d' p) =
          let (same, tails) = known d' in rw (same, tails) (next (put_single-Step u h h' s p) done)
      finished (by_blocks {x} {xs = ys} {tail = u} {g} d' up p) =
          let (same, tails) = known d' in
          rw same (
            Uploaded-Run reader s up (
              next (put_block_list-Step (x ∷ ys) g h' s (subst (λ l. length l ≤ 10 ^ 11) same q) p)
                done))
