-- ===== src/Storage/Tests/Requests.antt =====
-- Tests of listings, page blobs, block writes and shared access signatures, storage/blob.go, and their
-- theorems at concrete inputs.
use azure_sdk_for_go.Common.{ℕ, List, [], ◌∷◌, none, inl, ◌≡◌, refl, length}
use azure_sdk_for_go.Common.Int.{pos}
use azure_sdk_for_go.Common.Text.{Text, codes, eq, le}
use azure_sdk_for_go.Go.{Result, ok}
use azure_sdk_for_go.Storage.{GoError, message, StorageResponse, Env, get_standard_headers}
use azure_sdk_for_go.Storage.Address.{get_endpoint}
use azure_sdk_for_go.Storage.Canonical.{get_authorization_header, build_canonicalized_resource}
use azure_sdk_for_go.Storage.Exec.{exec, receive}
use azure_sdk_for_go.Storage.Container.{blob_exec, expect_status}
use azure_sdk_for_go.Storage.Blob.{get_blob_url}
use azure_sdk_for_go.Storage.Block.{Block, latest}
use azure_sdk_for_go.Storage.Listing.Query.{Listing, containers}
use azure_sdk_for_go.Storage.Listing.{
  Listed, ContainerListResponse, BlobListResponse, BlockListResponse, GetPageRangesResponse,
  ListBlobsParameters, container_parameters, blob_parameters, all_blocks, get_listing,
  list_containers, list_blobs, get_block_list,
}
use azure_sdk_for_go.Storage.Listing.Outcomes.{get_listing_ok}
use azure_sdk_for_go.Storage.Pages.{clear, put_page_blob, put_page}
use azure_sdk_for_go.Storage.Pages.Writes.{Paged, put_page-Paged}
use azure_sdk_for_go.Storage.Sas.{sign_blob_url, get_blob_sas_uri, blob_sas_string_to_sign}
use azure_sdk_for_go.Storage.Sas.Signed.{SignedUri, get_blob_sas_uri-SignedUri}
use azure_sdk_for_go.Storage.Tests.{client, reply, answering}

abbrev created : Env
created = answering (reply 201 [] [])

abbrev fine : Env
fine = answering (reply 200 (codes "body") [])

abbrev params : ListBlobsParameters
params = record {
  prefix = codes "p";
  delimiter = [];
  marker = [];
  include = codes "metadata";
  max_results = 10;
  timeout = 0;
}

parameters_test :
    blob_parameters params
    ≡ (codes "prefix", codes "p" ∷ [])
      ∷ (codes "include", codes "metadata" ∷ [])
      ∷ (codes "maxresults", codes "10" ∷ [])
      ∷ []
unfolding blob_parameters
parameters_test = refl

abbrev decode_length : Text → Listed ℕ
decode_length body = (length body, none)

get_listing_ok_example :
    (resp : StorageResponse) × ((blob_exec fine client
        (codes "GET")
        (codes "/c")
        []
        (get_standard_headers fine client [])
        none
        []).0
      ≡ ok (resp, none))
    × (resp.body_error ≡ none)
    × (decode_length resp.body ≡ (4, none))
unfolding get_listing blob_exec get_endpoint get_authorization_header exec receive
    get_standard_headers eq le
get_listing_ok_example = get_listing_ok decode_length 0 fine client (codes "/c") [] [] refl

abbrev containers_found : ContainerListResponse
containers_found = record {
  xmlns = [];
  prefix = codes "p";
  marker = [];
  next_marker = [];
  max_results = pos 0;
  containers = [];
}

containers_listed :
    (list_containers
      (λ body. (containers_found, none))
      fine
      client
      (record { prefix = codes "p"; marker = []; include = []; max_results = 0; timeout = 0 })
      []).0
    ≡ ok (containers_found, none)
unfolding list_containers container_parameters get_listing blob_exec get_endpoint
    get_authorization_header exec receive get_standard_headers eq le
containers_listed = refl

abbrev blobs_found : BlobListResponse
blobs_found = record {
  xmlns = [];
  prefix = codes "p";
  marker = [];
  next_marker = [];
  max_results = pos 0;
  blobs = [];
}

blobs_listed :
    (list_blobs (λ body. (blobs_found, none)) fine client (codes "c") params []).0
    ≡ ok (blobs_found, none)
unfolding list_blobs blob_parameters get_listing blob_exec get_endpoint get_authorization_header
    exec receive get_standard_headers eq le
blobs_listed = refl

abbrev blocks_found : BlockListResponse
blocks_found = record {
  committed_blocks = record { name = codes "b"; size = pos 1 } ∷ [];
  uncommitted_blocks = [];
}

blocks_listed :
    (get_block_list
      (λ body. (blocks_found, none))
      fine
      client
      (codes "c")
      (codes "b")
      all_blocks
      []).0
    ≡ ok (blocks_found, none)
unfolding get_block_list get_listing blob_exec get_endpoint get_authorization_header exec receive
    get_standard_headers eq le
blocks_listed = refl

abbrev ranges : GetPageRangesResponse
ranges = record { page_list = record { start = pos 0; end = pos 511 } ∷ [] }

abbrev decode_ranges : Text → Listed GetPageRangesResponse
decode_ranges body = (ranges, none)

put_page-Paged_example :
    Paged created client
      (codes "c")
      (codes "b")
      (pos 0)
      (pos 511)
      clear
      (codes "x")
      []
      (put_page created client (codes "c") (codes "b") (pos 0) (pos 511) clear (codes "x") []).1
unfolding put_page expect_status blob_exec get_endpoint get_authorization_header exec receive
    get_standard_headers eq le
put_page-Paged_example =
    put_page-Paged created client (codes "c") (codes "b") (pos 0) (pos 511) clear (codes "x") [] _
      refl

page_blob_created : (put_page_blob created client (codes "c") (codes "b") (pos 1024) []).0 ≡ ok tt
unfolding put_page_blob expect_status blob_exec get_endpoint get_authorization_header exec receive
    get_standard_headers eq le
page_blob_created = refl

abbrev one_block : List Block
one_block = record { id = codes "i"; status = latest } ∷ []

abbrev uri_of : Result GoError Text → Text
uri_of (ok uri) = uri
uri_of r = []

get_blob_sas_uri-SignedUri_example :
    SignedUri fine client (codes "c") (codes "b") (codes "2015-01-01") (codes "r") (
      uri_of
        (get_blob_sas_uri fine client (codes "c") (codes "b") (codes "2015-01-01") (codes "r")))
unfolding get_blob_sas_uri sign_blob_url get_blob_url build_canonicalized_resource blob_exec
    get_endpoint get_authorization_header exec receive get_standard_headers eq le
get_blob_sas_uri-SignedUri_example =
    get_blob_sas_uri-SignedUri fine client (codes "c") (codes "b") (codes "2015-01-01") (codes "r")
      refl

old_version :
    blob_sas_string_to_sign (codes "2012-02-12") (codes "/r") (codes "e") (codes "r")
    ≡ inl (message (codes "storage: not implemented SAS for versions earlier than 2013-08-15"))
unfolding blob_sas_string_to_sign
old_version = refl

abbrev some_containers : Listing
some_containers = containers (record {
  prefix = codes "p";
  marker = [];
  include = codes "metadata";
  max_results = 5;
  timeout = 0;
})
