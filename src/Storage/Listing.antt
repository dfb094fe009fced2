-- ===== src/Storage/Listing.antt =====
-- Listings of storage/blob.go: `ListContainers`, `ListBlobs`, `GetBlockList` and `GetPageRanges`, and
-- `xmlUnmarshal` of storage/util.go. What the XML decoder makes of a body is a parameter.
pub mod Outcomes
pub mod Tables
pub mod Query
use azure_sdk_for_go.Common.{
  ℕ, List, [], ◌∷◌, ◌++◌, Option, some, none, if◌then◌else◌, Bool, true, false, ◌==◌,
}
use azure_sdk_for_go.Common.Int.{ℤ, pos}
use azure_sdk_for_go.Common.Text.{Text, codes, is_empty, decimal}
use azure_sdk_for_go.Go.{Result, ok, err, panic, stuck, History, Call}
use azure_sdk_for_go.Storage.{
  GoError, StorageClient, StorageResponse, Responds, Env, Values, get_standard_headers,
}
use azure_sdk_for_go.Storage.Address.{merge_params}
use azure_sdk_for_go.Storage.Container.{status_ok, path_for_container, path_for_blob, blob_exec}
use azure_sdk_for_go.Storage.Blob.{BlobProperties, unexpected_status}

pub record ContainerProperties : Type 0 where
  pub last_modified : Text
  pub etag : Text
  pub lease_status : Text
  pub lease_state : Text
  pub lease_duration : Text

pub record Container : Type 0 where
  pub name : Text
  pub properties : ContainerProperties

pub record ContainerListResponse : Type 0 where
  pub xmlns : Text
  pub prefix : Text
  pub marker : Text
  pub next_marker : Text
  pub max_results : ℤ
  pub containers : List Container

pub record Blob : Type 0 where
  pub name : Text
  pub properties : BlobProperties

pub record BlobListResponse : Type 0 where
  pub xmlns : Text
  pub prefix : Text
  pub marker : Text
  pub next_marker : Text
  pub max_results : ℤ
  pub blobs : List Blob

pub record BlockResponse : Type 0 where
  pub name : Text
  pub size : ℤ

pub record BlockListResponse : Type 0 where
  pub committed_blocks : List BlockResponse
  pub uncommitted_blocks : List BlockResponse

pub record PageRange : Type 0 where
  pub start : ℤ
  pub end : ℤ

pub record GetPageRangesResponse : Type 0 where
  pub page_list : List PageRange

pub record ListContainersParameters : Type 0 where
  pub prefix : Text
  pub marker : Text
  pub include : Text
  pub max_results : ℕ
  pub timeout : ℕ

pub record ListBlobsParameters : Type 0 where
  pub prefix : Text
  pub delimiter : Text
  pub marker : Text
  pub include : Text
  pub max_results : ℕ
  pub timeout : ℕ

-- `if s != "" { out.Set(k, s) }`, for keys that are set once.
unfoldable pub set_text : Text → Text → Values → Values
set_text k s out = if is_empty s then out else out ++ ((k, s ∷ []) ∷ [])

unfoldable pub set_number : Text → ℕ → Values → Values
unfolding decimal
set_number k n out = if n == 0 then out else out ++ ((k, decimal n ∷ []) ∷ [])

-- The last three parameters of both listings.
abbrev pub last_parameters : Text → ℕ → ℕ → Values → Values
last_parameters include max_results timeout out =
    set_number (codes "timeout") timeout
      (set_number (codes "maxresults") max_results (set_text (codes "include") include out))

-- `ListContainersParameters.getParameters`
unfoldable pub container_parameters : ListContainersParameters → Values
unfolding set_text set_number
container_parameters p =
    last_parameters p.include p.max_results p.timeout
      (set_text (codes "marker") p.marker (set_text (codes "prefix") p.prefix []))

-- `ListBlobsParameters.getParameters`
unfoldable pub blob_parameters : ListBlobsParameters → Values
unfolding set_text set_number
blob_parameters p = last_parameters p.include p.max_results p.timeout (
    set_text (codes "marker") p.marker
      (set_text (codes "delimiter") p.delimiter (set_text (codes "prefix") p.prefix [])))

-- What `out, err` is: a value that may be filled in part, and an error, which may be nil.
abbrev pub Listed : Type 0 → Type 0
Listed A = A × Option GoError

module _ {A : Type 0} (unmarshal : Text → A × Option GoError) (zero_value : A) where
  -- `xmlUnmarshal(resp.body, &out)`, with `out` at its zero value.
  unfoldable pub xml_unmarshal : StorageResponse → Listed A
  xml_unmarshal resp = elim resp.body_error [
    | some e ↦ (zero_value, some e)
    | none ↦ unmarshal resp.body
  ]

  -- Behind the request: `if err != nil { return out, err }`, then what is made of the response.
  unfoldable pub read_listing : (StorageResponse → Listed A) → Responds → Call GoError (Listed A)
  read_listing use_response call h =
      let (r, h') = call h in
      elim r [
        | ok (resp, none) ↦ (ok (use_response resp), h')
        | ok (resp, some e) ↦ (ok (zero_value, some e), h')
        | err e ↦ (ok (zero_value, some e), h')
        | panic ↦ (panic, h')
        | stuck ↦ (stuck, h')
      ]

  -- The GET request and what is read of it.
  unfoldable pub get_listing : Env → StorageClient → Text → Values → Call GoError (Listed A)
  unfolding xml_unmarshal read_listing
  get_listing env c path q h =
      read_listing xml_unmarshal
        (blob_exec env c (codes "GET") path q (get_standard_headers env c h) none) h

abbrev pub list_query : Values
list_query = (codes "comp", codes "list" ∷ []) ∷ []

unfoldable pub list_containers :
    (Text → Listed ContainerListResponse)
    → Env
    → StorageClient
    → ListContainersParameters
    → Call GoError (Listed ContainerListResponse)
unfolding container_parameters
list_containers unmarshal env c params =
    get_listing unmarshal
      (record {
        xmlns = [];
        prefix = [];
        marker = [];
        next_marker = [];
        max_results = pos 0;
        containers = [];
      })
      env c [] (merge_params (container_parameters params) list_query)

unfoldable pub list_blobs :
    (Text → Listed BlobListResponse)
    → Env
    → StorageClient
    → Text
    → ListBlobsParameters
    → Call GoError (Listed BlobListResponse)
unfolding blob_parameters
list_blobs unmarshal env c container params =
    get_listing unmarshal
      (record {
        xmlns = [];
        prefix = [];
        marker = [];
        next_marker = [];
        max_results = pos 0;
        blobs = [];
      })
      env c (path_for_container container)
      (merge_params (blob_parameters params)
        ((codes "restype", codes "container" ∷ []) ∷ list_query))

-- `BlockListType`
pub data BlockListType : Type 0 where
  all_blocks committed_blocks uncommitted_blocks : BlockListType

unfoldable pub block_list_type_text : BlockListType → Text
block_list_type_text all_blocks = codes "all"
block_list_type_text committed_blocks = codes "committed"
block_list_type_text uncommitted_blocks = codes "uncommitted"

unfoldable pub get_block_list :
    (Text → Listed BlockListResponse)
    → Env
    → StorageClient
    → Text
    → Text
    → BlockListType
    → Call GoError (Listed BlockListResponse)
unfolding block_list_type_text
get_block_list unmarshal env c container name block_type =
    get_listing unmarshal (record { committed_blocks = []; uncommitted_blocks = [] }) env c
      (path_for_blob container name)
      ((codes "comp", codes "blocklist" ∷ [])
        ∷ (codes "blocklisttype", block_list_type_text block_type ∷ [])
        ∷ [])

abbrev no_ranges : GetPageRangesResponse
no_ranges = record { page_list = [] }

-- The status is tested before the body is read.
unfoldable pub read_page_ranges :
    (Text → Listed GetPageRangesResponse) → StorageResponse → Listed GetPageRangesResponse
unfolding decimal
read_page_ranges unmarshal resp =
    if resp.status_code == status_ok
    then xml_unmarshal unmarshal no_ranges resp
    else (no_ranges, some (unexpected_status (decimal status_ok) resp.status_code))

unfoldable pub get_page_ranges :
    (Text → Listed GetPageRangesResponse)
    → Env
    → StorageClient
    → Text
    → Text
    → Call GoError (Listed GetPageRangesResponse)
unfolding read_page_ranges
get_page_ranges unmarshal env c container name h =
    read_listing unmarshal no_ranges (read_page_ranges unmarshal)
      (blob_exec env c (codes "GET") (container ++ (b'/' ∷ name))
        ((codes "comp", codes "pagelist" ∷ []) ∷ []) (get_standard_headers env c h) none)
      h
