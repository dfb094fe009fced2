-- ===== src/Storage/Block.antt =====
-- Block blobs: `CreateBlockBlob`, `PutBlock`, `PutBlockList` and `putSingleBlockBlob` of
-- storage/blob.go, and `prepareBlockListRequest` of storage/util.go.
pub mod Upload
pub mod Ids
pub mod Writes
use azure_sdk_for_go.Common.{
  ℕ, ◌*◌, ◌-◌, List, [], ◌∷◌, ◌++◌, Option, some, none, if◌then◌else◌, Bool, true, false, length,
  ltb, replicate,
}
use azure_sdk_for_go.Common.Text.{Text, codes, decimal}
use azure_sdk_for_go.Go.{Result, ok, err, History, Headers, Call, ◌>>=◌, return, insert}
use azure_sdk_for_go.Storage.{
  GoError, message, not_created, StorageClient, Env, Values, get_standard_headers,
}
use azure_sdk_for_go.Common.Base64.{base64_encode}
use azure_sdk_for_go.Storage.Container.{status_created, path_for_blob, blob_exec, expect_status}

abbrev pub max_blob_block_size : ℕ
max_blob_block_size = 4 * 1024 * 1024

-- `BlockStatus`
pub data BlockStatus : Type 0 where
  uncommitted committed latest : BlockStatus

pub status_text : BlockStatus → Text
status_text uncommitted = codes "Uncommitted"
status_text committed = codes "Committed"
status_text latest = codes "Latest"

pub record Block : Type 0 where
  pub id : Text
  pub status : BlockStatus

abbrev pub blob_type_block : Text
blob_type_block = codes "BlockBlob"

-- The headers of an upload: the blob's type and the length of the body.
abbrev upload_headers : Env → StorageClient → ℕ → History → Headers
upload_headers env c size h =
    insert (codes "Content-Length") (decimal size)
      (insert (codes "x-ms-blob-type") blob_type_block (get_standard_headers env c h))

-- The path has no slash at its front here.
unfoldable pub create_block_blob : Env → StorageClient → Text → Text → Call GoError (Unit {0})
unfolding insert decimal
create_block_blob env c container name h =
    expect_status status_created not_created
      (blob_exec env c (codes "PUT") (container ++ (b'/' ∷ name)) [] (upload_headers env c 0 h)
        none)
      h

abbrev too_long : ℕ → GoError
too_long n = message (
    codes "storage: provided chunk ("
    ++ (decimal n
        ++ (codes " bytes) cannot fit into single-block blob (max "
            ++ (decimal max_blob_block_size ++ codes " bytes)"))))

unfoldable pub put_single_block_blob :
    Env → StorageClient → Text → Text → Text → Call GoError (Unit {0})
unfolding insert decimal
put_single_block_blob env c container name chunk h =
    if ltb max_blob_block_size (length chunk)
    then (err (too_long (length chunk)), h)
    else expect_status status_created not_created
        (blob_exec env c (codes "PUT") (path_for_blob container name) []
          (upload_headers env c (length chunk) h) (some chunk))
        h

-- The query `?comp=block&blockid=ID`.
abbrev block_params : Text → Values
block_params block_id = (codes "comp", codes "block" ∷ []) ∷ (codes "blockid", block_id ∷ []) ∷ []

unfoldable pub put_block_with_length :
    Env → StorageClient → Text → Text → Text → ℕ → Text → Call GoError (Unit {0})
unfolding insert decimal
put_block_with_length env c container name block_id size blob h =
    expect_status status_created not_created
      (blob_exec env c (codes "PUT") (path_for_blob container name) (block_params block_id)
        (upload_headers env c size h) (some blob))
      h

unfoldable pub put_block : Env → StorageClient → Text → Text → Text → Text → Call GoError (Unit {0})
unfolding put_block_with_length
put_block env c container name block_id chunk =
    put_block_with_length env c container name block_id (length chunk) chunk

-- The loop of `prepareBlockListRequest`, which appends `<STATUS>ID</STATUS>`.
unfoldable pub block_list_items : List Block → Text
unfolding status_text
block_list_items [] = []
block_list_items (v ∷ blocks) =
    (b'<'
      ∷ (status_text v.status
          ++ (b'>' ∷ (v.id ++ (codes "</" ++ (status_text v.status ++ (b'>' ∷ [])))))))
    ++ block_list_items blocks

unfoldable pub prepare_block_list_request : List Block → Text
unfolding block_list_items
prepare_block_list_request blocks =
    codes "<?xml version=\"1.0\" encoding=\"utf-8\"?><BlockList>"
    ++ (block_list_items blocks ++ codes "</BlockList>")

unfoldable pub put_block_list :
    Env → StorageClient → Text → Text → List Block → Call GoError (Unit {0})
unfolding prepare_block_list_request insert decimal
put_block_list env c container name blocks h =
    let block_list_xml = prepare_block_list_request blocks in
    expect_status status_created not_created
      (blob_exec env c (codes "PUT") (path_for_blob container name)
        ((codes "comp", codes "blocklist" ∷ []) ∷ [])
        (insert (codes "Content-Length") (decimal (length block_list_xml))
          (get_standard_headers env c h))
        (some block_list_xml))
      h

-- `base64(fmt.Sprintf("%011d", n))`: the number is filled up to eleven digits.
pub padded : ℕ → Text
unfolding decimal
padded n = let digits = decimal n in replicate (11 - length digits) b'0' ++ digits

unfoldable pub block_id : ℕ → Text
unfolding padded base64_encode
block_id n = base64_encode (padded n)
