-- ===== src/Storage/Block/Upload/Loop.antt =====
-- The loop of `putBlockBlob` of storage/blob.go, for a given stream.
use azure_sdk_for_go.Common.{
  ℕ, zero, suc, ◌+◌, ◌<◌, List, [], ◌∷◌, ◌++◌, ◌⊎◌, inl, inr, ◌≡◌, ◌≢◌, refl, sym, ap, ◌∙◌, arith,
  length, append_assoc,
}
use azure_sdk_for_go.Common.Text.{Text}
use azure_sdk_for_go.Go.{
  ok, err, History, Outcome-cases, Result-cases, same_result, err-ne-ok, stuck-ne-ok,
}
use azure_sdk_for_go.Storage.{GoError, StorageClient, Env}
use azure_sdk_for_go.Storage.Block.{
  Block, put_single_block_blob, put_block, put_block_list, block_id,
}
use azure_sdk_for_go.Storage.Block.Upload.{
  Reader, ReadEnd, more, eof, failed, latest_block, effective_size, put_blocks,
  put_block_blob_sized,
}
use azure_sdk_for_go.Storage.Block.Upload.Content.{numbered}

-- A reader, read with buffers of one size, gives these chunks with no error, and then `io.EOF`
-- together with some last bytes.
pub data Delivers {R : Type 0} (reader : Reader R) (size : ℕ) : R → List Text → Text → Type 0 where
  at_eof :
      {r : R} {tail : Text}
      → (reader.read r size).ended ≡ eof
      → (reader.read r size).bytes ≡ tail
      → Delivers reader size r [] tail
  chunk :
      {r : R} {xs : List Text} {tail : Text}
      → (reader.read r size).ended ≡ more
      → Delivers reader size (reader.read r size).reader xs tail
      → Delivers reader size r ((reader.read r size).bytes ∷ xs) tail

pub ReadEnd-cases : (e : ReadEnd) → (e ≡ eof) ⊎ ((e ≡ more) ⊎ ((x : GoError) × (e ≡ failed x)))
ReadEnd-cases eof = inl refl
ReadEnd-cases more = inr (inl refl)
ReadEnd-cases (failed x) = inr (inr (x, refl))

module _ {R : Type 0} (reader : Reader R) (env : Env) (c : StorageClient)
    (container name : Text) where
  -- The chunks were accepted as blocks numbered from `n` on.
  pub data Uploaded : ℕ → List Text → History → History → Type 0 where
    nothing : {n : ℕ} {h : History} → Uploaded n [] h h
    block :
        {n : ℕ} {x : Text} {xs : List Text} {h g h' : History}
        → put_block env c container name (block_id n) x h ≡ (ok tt, g)
        → Uploaded (n + 1) xs g h'
        → Uploaded n (x ∷ xs) h h'

  put_blocks_last :
      (fuel size : ℕ) (r : R) (n : ℕ) (x : Text) (bs : List Block) (h : History) {g : History}
      → put_block env c container name (block_id n) x h ≡ (ok tt, g)
      → (reader.read r size).ended ≡ eof
      → put_blocks reader env c container name (suc fuel) size r n x bs h
        ≡ put_block_list env c container name (bs ++ (latest_block (block_id n) ∷ [])) g
  unfolding put_blocks
  put_blocks_last fuel size r n x bs h p e = ground arith

  put_blocks_next :
      (fuel size : ℕ) (r : R) (n : ℕ) (x : Text) (bs : List Block) (h : History) {g : History}
      → put_block env c container name (block_id n) x h ≡ (ok tt, g)
      → (reader.read r size).ended ≡ more
      → put_blocks reader env c container name (suc fuel) size r n x bs h
        ≡ put_blocks reader env c container name fuel size
            (reader.read r size).reader
            (n + 1)
            (reader.read r size).bytes
            (bs ++ (latest_block (block_id n) ∷ []))
            g
  unfolding put_blocks
  put_blocks_next fuel size r n x bs h p e = ground arith

  put_blocks-Delivers :
      (size n fuel : ℕ) {r : R} (x : Text) {xs : List Text} {tail : Text} (bs : List Block)
      {h h' : History}
      → Delivers reader size r xs tail
      → Uploaded n (x ∷ xs) h h'
      → length xs < fuel
      → put_blocks reader env c container name fuel size r n x bs h
        ≡ put_block_list env c container name (bs ++ numbered n (x ∷ xs)) h'
  put_blocks-Delivers size n zero x bs d u f = absurd (omega arith)
  put_blocks-Delivers size n (suc fuel) {r} x bs (at_eof e t) (block p nothing) f =
      put_blocks_last fuel size r n x bs _ p e
  put_blocks-Delivers size n (suc fuel) {r} x bs {h' = h'} (chunk {xs} e d) (block p u) f =
      put_blocks_next fuel size r n x bs _ p e
      ∙ put_blocks-Delivers size (n + 1) fuel (reader.read r size).bytes
          (bs ++ (latest_block (block_id n) ∷ [])) d u (omega arith)
      ∙ ap (λ (l : List Block). put_block_list env c container name l h')
          (append_assoc bs (latest_block (block_id n) ∷ [])
            (numbered (n + 1) ((reader.read r size).bytes ∷ xs)))

  -- If the reader gives at least one chunk with no error before `io.EOF`, the service accepts each of
  -- them as a block, and the fuel is not less than their number, then what is left to do is to commit
  -- the list of these blocks, in order. What the reader gives together with `io.EOF` is sent nowhere.
  pub put_block_blob-Delivers :
      (fuel chunk_size : ℕ) {r : R} {x : Text} {xs : List Text} {tail : Text} {h h' : History}
      → Delivers reader (effective_size chunk_size) r (x ∷ xs) tail
      → Uploaded 0 (x ∷ xs) h h'
      → length xs < fuel
      → put_block_blob_sized reader env c container name fuel chunk_size r h
        ≡ put_block_list env c container name (numbered 0 (x ∷ xs)) h'
  unfolding put_block_blob_sized
  put_block_blob-Delivers fuel chunk_size {r} {h = h} (chunk e d) u f =
      (ground arith)
      ∙ put_blocks-Delivers (effective_size chunk_size) 0 fuel
          (reader.read r (effective_size chunk_size)).bytes [] d u f

  -- What stands behind an upload of blocks that succeeds.
  pub record ByBlocks (size n : ℕ) (x : Text) (r : R) (bs : List Block) (h h' : History)
      : Type 0 where
    pub chunks : List Text
    pub tail : Text
    pub before : History
    pub delivered : Delivers reader size r chunks tail
    pub uploaded : Uploaded n (x ∷ chunks) h before
    pub list_accepted :
        put_block_list env c container name (bs ++ numbered n (x ∷ chunks)) before ≡ (ok tt, h')

  put_blocks_failed :
      (fuel size : ℕ) (r : R) (n : ℕ) (x : Text) (bs : List Block) (h : History) {g : History}
      {y : GoError}
      → put_block env c container name (block_id n) x h ≡ (ok tt, g)
      → (reader.read r size).ended ≡ failed y
      → (put_blocks reader env c container name (suc fuel) size r n x bs h).0 ≡ err y
  unfolding put_blocks
  put_blocks_failed fuel size r n x bs h p e = ground arith

  put_blocks_not_ok :
      (fuel size : ℕ) (r : R) (n : ℕ) (x : Text) (bs : List Block) (h : History)
      → ((u : Unit {0}) → (put_block env c container name (block_id n) x h).0 ≢ ok u)
      → (put_blocks reader env c container name (suc fuel) size r n x bs h).0 ≢ ok tt
  unfolding put_blocks
  put_blocks_not_ok fuel size r n x bs h bad =
      elim (Result-cases (put_block env c container name (block_id n) x h).0) [
        | inl (u, e) ↦ absurd (bad u e)
        | inr (inl (y, e)) ↦ rw (e, put_blocks) (λ p. cc)
        | inr (inr (inl e)) ↦ rw (e, put_blocks) (λ p. cc)
        | inr (inr (inr e)) ↦ rw (e, put_blocks) (λ p. cc)
      ]

  ByBlocks-last :
      {size n : ℕ} {x : Text} {r : R} {bs : List Block} {h g h' : History}
      → put_block env c container name (block_id n) x h ≡ (ok tt, g)
      → (reader.read r size).ended ≡ eof
      → put_block_list env c container name (bs ++ (latest_block (block_id n) ∷ [])) g ≡ (ok tt, h')
      → ByBlocks size n x r bs h h'
  ByBlocks-last {size} {n} {x} {r} {bs} {h} {g} {h'} p d e = record {
    chunks = [];
    tail = (reader.read r size).bytes;
    before = g;
    delivered = at_eof d refl;
    uploaded = block p nothing;
    list_accepted = e;
  }

  ByBlocks-next :
      {size n : ℕ} {x : Text} {r : R} {bs : List Block} {h g h' : History}
      → put_block env c container name (block_id n) x h ≡ (ok tt, g)
      → (reader.read r size).ended ≡ more
      → ByBlocks size
          (n + 1)
          (reader.read r size).bytes
          (reader.read r size).reader
          (bs ++ (latest_block (block_id n) ∷ []))
          g
          h'
      → ByBlocks size n x r bs h h'
  ByBlocks-next {size} {n} {x} {r} {bs} {h} {g} {h'} p d b = record {
    chunks = (reader.read r size).bytes ∷ b.chunks;
    tail = b.tail;
    before = b.before;
    delivered = chunk d b.delivered;
    uploaded = block p b.uploaded;
    list_accepted =
        ap (λ (l : List Block). put_block_list env c container name l b.before)
          (sym (
            append_assoc bs (latest_block (block_id n) ∷ [])
              (numbered (n + 1) ((reader.read r size).bytes ∷ b.chunks))))
        ∙ b.list_accepted;
  }

  put_blocks-ByBlocks :
      (fuel size : ℕ) (r : R) (n : ℕ) (x : Text) (bs : List Block) (h h' : History)
      → put_blocks reader env c container name fuel size r n x bs h ≡ (ok tt, h')
      → ByBlocks size n x r bs h h'
  put_blocks-ByBlocks zero size r n x bs h h' e =
      absurd (unfold put_blocks in stuck-ne-ok (same_result e))
  put_blocks-ByBlocks (suc fuel) size r n x bs h h' e =
      elim (Outcome-cases (put_block env c container name (block_id n) x h)) [
        | inr bad ↦ absurd (put_blocks_not_ok fuel size r n x bs h bad (same_result e))
        | inl (u, (g, p)) ↦ elim (ReadEnd-cases (reader.read r size).ended) [
          | inl d ↦ ByBlocks-last p d (sym (put_blocks_last fuel size r n x bs h p d) ∙ e)
          | inr (inl d) ↦ ByBlocks-next p d (
              put_blocks-ByBlocks fuel size (reader.read r size).reader (n + 1)
                (reader.read r size).bytes (bs ++ (latest_block (block_id n) ∷ [])) g h'
                (sym (put_blocks_next fuel size r n x bs h p d) ∙ e))
          | inr (inr (y, d)) ↦
              absurd (err-ne-ok (sym (put_blocks_failed fuel size r n x bs h p d) ∙ same_result e))
        ]
      ]

  -- How an upload that returns no error went: the whole stream came with the first `io.EOF` and was
  -- sent in one request, or the chunks before it were sent as blocks and their list was committed.
  pub data Finished (size : ℕ) (r : R) (h h' : History) : Type 0 where
    single :
        {tail : Text}
        → Delivers reader size r [] tail
        → put_single_block_blob env c container name tail h ≡ (ok tt, h')
        → Finished size r h h'
    by_blocks :
        {x : Text} {xs : List Text} {tail : Text} {g : History}
        → Delivers reader size r (x ∷ xs) tail
        → Uploaded 0 (x ∷ xs) h g
        → put_block_list env c container name (numbered 0 (x ∷ xs)) g ≡ (ok tt, h')
        → Finished size r h h'

  -- If `putBlockBlob` returns no error, then it sent what the reader gave before `io.EOF` in one of
  -- these two ways, and every request on the way was accepted.
  pub put_block_blob-Finished :
      (fuel chunk_size : ℕ) (r : R) (h h' : History)
      → put_block_blob_sized reader env c container name fuel chunk_size r h ≡ (ok tt, h')
      → Finished (effective_size chunk_size) r h h'
  unfolding put_block_blob_sized
  put_block_blob-Finished fuel chunk_size r h h' e =
      elim (ReadEnd-cases (reader.read r (effective_size chunk_size)).ended) [
        | inl d ↦ single (at_eof d refl) (rw (d, put_block_blob_sized) at e)
        | inr (inl d) ↦
            let b =
              put_blocks-ByBlocks fuel (effective_size chunk_size)
                (reader.read r (effective_size chunk_size)).reader 0
                (reader.read r (effective_size chunk_size)).bytes [] h h'
                (rw (d, put_block_blob_sized) at e) in
            by_blocks (chunk d b.delivered) b.uploaded b.list_accepted
        | inr (inr (y, d)) ↦ absurd (err-ne-ok (same_result (rw (d, put_block_blob_sized) at e)))
      ]
