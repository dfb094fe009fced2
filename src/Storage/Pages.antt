-- ===== src/Storage/Pages.antt =====
-- Page blobs, storage/blob.go: `PutPageBlob` and `PutPage`.
pub mod Writes
use azure_sdk_for_go.Common.{ℕ, ◌+◌, List, [], ◌∷◌, ◌++◌, Option, some, none, length}
use azure_sdk_for_go.Common.Int.{ℤ, pos, negsuc}
use azure_sdk_for_go.Common.Text.{Text, codes, decimal}
use azure_sdk_for_go.Go.{Result, History, Headers, Call, insert}
use azure_sdk_for_go.Storage.{GoError, not_created, StorageClient, Env, get_standard_headers}
use azure_sdk_for_go.Storage.Container.{status_created, blob_exec, expect_status}

-- `PageWriteType`; every text but "clear" writes the chunk.
pub data PageWriteType : Type 0 where
  update clear : PageWriteType

pub page_write_text : PageWriteType → Text
page_write_text update = codes "update"
page_write_text clear = codes "clear"

-- `%v` of an int64.
pub signed_decimal : ℤ → Text
unfolding decimal
signed_decimal (pos n) = decimal n
signed_decimal (negsuc n) = b'-' ∷ decimal (n + 1)

abbrev pub blob_type_page : Text
blob_type_page = codes "PageBlob"

unfoldable pub put_page_blob : Env → StorageClient → Text → Text → ℤ → Call GoError (Unit {0})
unfolding insert signed_decimal
put_page_blob env c container name size h =
    expect_status status_created not_created
      (blob_exec env c (codes "PUT") (container ++ (b'/' ∷ name)) []
        (insert (codes "Content-Length") (codes "0") (
          insert (codes "x-ms-blob-content-length") (signed_decimal size)
            (insert (codes "x-ms-blob-type") blob_type_page (get_standard_headers env c h))))
        none)
      h

-- The bytes that are sent: none for a clear.
pub page_data : PageWriteType → Text → Text
page_data update chunk = chunk
page_data clear chunk = []

pub page_headers : ℤ → ℤ → PageWriteType → Text → Headers → Headers
unfolding insert signed_decimal page_write_text decimal
page_headers start_byte end_byte write_type content standard =
    insert (codes "Content-Length") (decimal (length content)) (
      insert (codes "x-ms-range")
        (codes "bytes=" ++ (signed_decimal start_byte ++ (b'-' ∷ signed_decimal end_byte)))
        (insert (codes "x-ms-page-write") (page_write_text write_type)
          (insert (codes "x-ms-blob-type") blob_type_page standard)))

unfoldable pub put_page :
    Env → StorageClient → Text → Text → ℤ → ℤ → PageWriteType → Text → Call GoError (Unit {0})
unfolding page_headers page_data
put_page env c container name start_byte end_byte write_type chunk h =
    let content = page_data write_type chunk in
    expect_status status_created not_created
      (blob_exec env c (codes "PUT") (container ++ (b'/' ∷ name))
        ((codes "comp", codes "page" ∷ []) ∷ [])
        (page_headers start_byte end_byte write_type content (get_standard_headers env c h))
        (some content))
      h
