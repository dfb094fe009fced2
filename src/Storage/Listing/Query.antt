-- ===== src/Storage/Listing/Query.antt =====
-- The queries of `ListContainers` and `ListBlobs`, storage/blob.go.
use azure_sdk_for_go.Common.{[], ◌∷◌, some}
use azure_sdk_for_go.Common.Text.{Text, codes}
use azure_sdk_for_go.Storage.{Values}
use azure_sdk_for_go.Storage.Address.{merge_params}
use azure_sdk_for_go.Storage.Listing.{
  ListContainersParameters, ListBlobsParameters, container_parameters, blob_parameters, list_query,
}
use azure_sdk_for_go.Storage.Listing.Tables.{Table, text_value, number_value}

-- A listing with its parameters.
pub data Listing : Type 0 where
  containers : ListContainersParameters → Listing
  blobs : ListBlobsParameters → Listing

-- The query that the code builds.
abbrev pub query : Listing → Values
query (containers p) = merge_params (container_parameters p) list_query
query (blobs p) =
    merge_params (blob_parameters p) ((codes "restype", codes "container" ∷ []) ∷ list_query)

-- The parameters as a table, in the order in which the code sets them.
abbrev pub given : Listing → Table
given (containers p) =
    (codes "prefix", text_value p.prefix)
    ∷ (codes "marker", text_value p.marker)
    ∷ (codes "include", text_value p.include)
    ∷ (codes "maxresults", number_value p.max_results)
    ∷ (codes "timeout", number_value p.timeout)
    ∷ []
given (blobs p) =
    (codes "prefix", text_value p.prefix)
    ∷ (codes "delimiter", text_value p.delimiter)
    ∷ (codes "marker", text_value p.marker)
    ∷ (codes "include", text_value p.include)
    ∷ (codes "maxresults", number_value p.max_results)
    ∷ (codes "timeout", number_value p.timeout)
    ∷ []

-- What every such listing asks for.
abbrev pub fixed : Listing → Table
fixed (containers p) = (codes "comp", some (codes "list" ∷ [])) ∷ []
fixed (blobs p) =
    (codes "restype", some (codes "container" ∷ [])) ∷ (codes "comp", some (codes "list" ∷ [])) ∷ []
