-- ===== src/Storage/Service.antt =====
-- The blob service's side of block blobs, as its documentation describes it: the requests that
-- storage/blob.go sends, as steps on what the service keeps of one blob.
pub mod Uploads
pub mod BlockLists
use azure_sdk_for_go.Common.{ℕ, List, [], ◌∷◌, ◌++◌, Option, some, ◌≡◌, ◌≢◌, All, length}
use azure_sdk_for_go.Common.Text.{Text, codes, decimal}
use azure_sdk_for_go.Go.{History, Headers, insert, lookup}
use azure_sdk_for_go.Storage.{StorageClient, Env}
use azure_sdk_for_go.Storage.Container.{path_for_blob}
use azure_sdk_for_go.Storage.Container.Stored.{Stored}
use azure_sdk_for_go.Storage.Block.{Block}
use azure_sdk_for_go.Storage.Block.Upload.{latest_block}
use azure_sdk_for_go.Storage.Block.Upload.Content.{Staged, committed}

-- What the service keeps of a blob: the uncommitted blocks, and the content, if there is a blob.
pub record BlobState : Type 0 where
  pub staged : Staged
  pub content : Option Text

-- A text that stands for itself as character data.
abbrev pub IsPlain : Text → Type 0
IsPlain = All (λ (c : ℕ). (c ≢ b'<') × (c ≢ b'&'))

-- The documented body of Put Block List, for blocks that are looked up by "Latest".
pub data Items : Text → List Block → Type 0 where
  closing : Items (codes "</BlockList>") []
  item :
      {id text : Text} {blocks : List Block}
      → IsPlain id
      → Items text blocks
      → Items (codes "<Latest>" ++ (id ++ (codes "</Latest>" ++ text))) (latest_block id ∷ blocks)

pub data BlockListXml (text : Text) (blocks : List Block) : Type 0 where
  document :
      {items : Text}
      → text ≡ codes "<?xml version=\"1.0\" encoding=\"utf-8\"?><BlockList>" ++ items
      → Items items blocks
      → BlockListXml text blocks

-- The headers state the length of the body.
abbrev pub StatesLength : Headers → Text → Type 0
StatesLength headers body = lookup (codes "Content-Length") headers ≡ some (decimal (length body))

abbrev pub IsBlockBlob : Headers → Type 0
IsBlockBlob headers = lookup (codes "x-ms-blob-type") headers ≡ some (codes "BlockBlob")

module _ (env : Env) (c : StorageClient) (container name : Text) where
  -- One request for the blob that the service accepted with 201, and what it does to the blob: Put Blob
  -- replaces it and drops the uncommitted blocks; Put Block keeps the body under the id; Put Block List
  -- makes the blob out of the blocks that the list names.
  pub data Step (h : History) (s : BlobState) (h' : History) : BlobState → Type 0 where
    put_blob :
        {headers : Headers} {body : Text}
        → Stored env c (codes "PUT") (path_for_blob container name) [] headers (some body) 201 h h'
        → StatesLength headers body
        → IsBlockBlob headers
        → Step h s h' (record { staged = []; content = some body })
    put_block :
        {headers : Headers} {id body : Text}
        → Stored env c
            (codes "PUT")
            (path_for_blob container name)
            ((codes "comp", codes "block" ∷ []) ∷ (codes "blockid", id ∷ []) ∷ [])
            headers
            (some body)
            201
            h
            h'
        → StatesLength headers body
        → Step h s h' (record { staged = insert id body s.staged; content = s.content })
    put_block_list :
        {headers : Headers} {body bytes : Text} {blocks : List Block}
        → Stored env c
            (codes "PUT")
            (path_for_blob container name)
            ((codes "comp", codes "blocklist" ∷ []) ∷ [])
            headers
            (some body)
            201
            h
            h'
        → StatesLength headers body
        → BlockListXml body blocks
        → committed blocks s.staged ≡ some bytes
        → Step h s h' (record { staged = []; content = some bytes })

  -- A sequence of such requests, with no other between them.
  pub data Run : History → BlobState → History → BlobState → Type 0 where
    done : {h : History} {s : BlobState} → Run h s h s
    next : {h g h' : History} {s t u : BlobState} → Step h s g t → Run g t h' u → Run h s h' u
