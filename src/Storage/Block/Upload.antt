-- ===== src/Storage/Block/Upload.antt =====
-- `putBlockBlob` of storage/blob.go: a stream is uploaded in one request, or block by block.
pub mod Content
pub mod Loop
pub mod Ends
pub mod Success
use azure_sdk_for_go.Common.{
  ℕ, zero, suc, ◌+◌, List, [], ◌∷◌, ◌++◌, if◌then◌else◌, Bool, true, false, ltb, ◌==◌, ◌||◌,
}
use azure_sdk_for_go.Common.Text.{Text}
use azure_sdk_for_go.Go.{Result, ok, err, panic, stuck, History, Call, proceed, ◌>>=◌}
use azure_sdk_for_go.Storage.{GoError, StorageClient, Env}
use azure_sdk_for_go.Storage.Block.{
  max_blob_block_size, Block, latest, put_single_block_blob, put_block, put_block_list, block_id,
}

-- How a `Read` ends: with no error, with `io.EOF`, or with another error.
pub data ReadEnd : Type 0 where
  more eof : ReadEnd
  failed : GoError → ReadEnd

-- One `Read`: the bytes that it put into the buffer, how it ended, and the reader behind it.
pub record ReadResult (R : Type 0) : Type 0 where
  pub bytes : Text
  pub ended : ReadEnd
  pub reader : R

-- `io.Reader`: a state, and what `Read` does with a buffer of some size.
pub record Reader (R : Type 0) : Type 0 where
  pub read : R → ℕ → ReadResult R

-- `PutBlockBlob` passes `MaxBlobBlockSize`; another size out of range is replaced by it.
unfoldable pub effective_size : ℕ → ℕ
effective_size chunk_size =
    if chunk_size == 0 || ltb max_blob_block_size chunk_size
    then max_blob_block_size
    else chunk_size

abbrev pub latest_block : Text → Block
latest_block id = record { id = id; status = latest }

module _ {R : Type 0} (reader : Reader R) (env : Env) (c : StorageClient)
    (container name : Text) where
  -- The loop over the blocks, on fuel: `data` is what the last `Read` gave. After `io.EOF` the loop is
  -- left, and what came with it is not uploaded.
  unfoldable pub put_blocks : ℕ → ℕ → R → ℕ → Text → List Block → Call GoError (Unit {0})
  put_blocks zero size r block_num chunk block_list h = (stuck, h)
  put_blocks (suc fuel) size r block_num chunk block_list h =
      let id = block_id block_num in
      let blocks = block_list ++ (latest_block id ∷ []) in
      let next = reader.read r size in
      let (put, h') = put_block env c container name id chunk h in
      elim put [
        | err e ↦ (err e, h')
        | panic ↦ (panic, h')
        | stuck ↦ (stuck, h')
        | ok u ↦ elim next.ended [
          | failed e ↦ (err e, h')
          | eof ↦ put_block_list env c container name blocks h'
          | more ↦ put_blocks fuel size next.reader (block_num + 1) next.bytes blocks h'
        ]
      ]

  unfoldable pub put_block_blob_sized : ℕ → ℕ → R → Call GoError (Unit {0})
  put_block_blob_sized fuel chunk_size r h =
      let size = effective_size chunk_size in
      let first = reader.read r size in
      elim first.ended [
        | failed e ↦ (err e, h)
        | eof ↦ put_single_block_blob env c container name first.bytes h
        | more ↦ put_blocks fuel size first.reader 0 first.bytes [] h
      ]

  -- `PutBlockBlob`
  unfoldable pub put_block_blob : ℕ → R → Call GoError (Unit {0})
  put_block_blob fuel r = put_block_blob_sized fuel max_blob_block_size r
