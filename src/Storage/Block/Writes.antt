-- ===== src/Storage/Block/Writes.antt =====
-- What stands behind a block, or a block list, that was put with no error: `PutBlock` and
-- `PutBlockList` of storage/blob.go.
use azure_sdk_for_go.Common.{List, [], ◌∷◌, some, ◌≡◌, length}
use azure_sdk_for_go.Common.Text.{Text, codes, decimal}
use azure_sdk_for_go.Go.{ok, History, insert}
use azure_sdk_for_go.Storage.{not_created, StorageClient, Env, get_standard_headers}
use azure_sdk_for_go.Storage.Container.{path_for_blob}
use azure_sdk_for_go.Storage.Container.Stored.{Stored, expect_status-Stored}
use azure_sdk_for_go.Storage.Block.{Block, put_block, put_block_list, prepare_block_list_request}

module _ (env : Env) (c : StorageClient) (container name : Text) (h h' : History) where
  -- If `PutBlock` returns no error, then the service replied with 201 to one PUT request whose query
  -- has the id, whose body is the chunk, and whose headers state the chunk's length.
  pub put_block-Stored :
      (id chunk : Text)
      → put_block env c container name id chunk h ≡ (ok tt, h')
      → Stored env c
          (codes "PUT")
          (path_for_blob container name)
          ((codes "comp", codes "block" ∷ []) ∷ (codes "blockid", id ∷ []) ∷ [])
          (insert
            (codes "Content-Length")
            (decimal (length chunk))
            (insert (codes "x-ms-blob-type") (codes "BlockBlob") (get_standard_headers env c h)))
          (some chunk)
          201
          h
          h'
  unfolding put_block
  put_block-Stored id chunk e =
      expect_status-Stored env c (codes "PUT") (path_for_blob container name) _ _ _ 201 not_created
        h h' e

  -- If `PutBlockList` returns no error, then the service replied with 201 to one PUT request whose body
  -- is the list in XML, and whose headers state the length of that text.
  pub put_block_list-Stored :
      (blocks : List Block)
      → put_block_list env c container name blocks h ≡ (ok tt, h')
      → Stored env c
          (codes "PUT")
          (path_for_blob container name)
          ((codes "comp", codes "blocklist" ∷ []) ∷ [])
          (insert
            (codes "Content-Length")
            (decimal (length (prepare_block_list_request blocks)))
            (get_standard_headers env c h))
          (some (prepare_block_list_request blocks))
          201
          h
          h'
  unfolding put_block_list
  put_block_list-Stored blocks e =
      expect_status-Stored env c (codes "PUT") (path_for_blob container name) _ _ _ 201 not_created
        h h' e
