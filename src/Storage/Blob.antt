-- ===== src/Storage/Blob.antt =====
-- The operations of storage/blob.go on one blob: look for, read, read the properties, delete.
pub mod Queries
pub mod Reads
use azure_sdk_for_go.Common.{ℕ, [], ◌++◌, Option, none, if◌then◌else◌, Bool, ◌==◌, ◌⊎◌, inl, inr}
use azure_sdk_for_go.Common.Int.{ℤ, pos}
use azure_sdk_for_go.Common.Text.{Text, codes, is_empty, decimal}
use azure_sdk_for_go.Go.{Result, ok, err, HeaderLists, Call, ◌>>=◌, return, insert, header_get}
use azure_sdk_for_go.Storage.{
  GoError, message, not_accepted, StorageClient, StorageResponse, Responds, refuse_error, Env,
  get_standard_headers,
}
use azure_sdk_for_go.Storage.Address.{get_endpoint}
use azure_sdk_for_go.Storage.Container.{
  blob_service_name, status_ok, status_accepted, status_partial_content, status_not_found,
  path_for_blob, blob_exec, expect_status, either_status,
}

-- `fmt.Errorf(errUnexpectedStatus, expected, got)`; the first argument is given as it is printed.
unfoldable pub unexpected_status : Text → ℕ → GoError
unfolding decimal
unexpected_status expected got =
    message (
      codes "storage: was expecting status code: "
      ++ (expected ++ (codes ", got: " ++ decimal got)))

unfoldable pub blob_exists : Env → StorageClient → Text → Text → Call GoError Bool
blob_exists env c container name h =
    let (r, h') =
      blob_exec env c (codes "HEAD") (path_for_blob container name) []
        (get_standard_headers env c h) none h in
    (either_status status_ok status_not_found r, h')

unfoldable pub get_blob_url : Env → StorageClient → Text → Text → Result GoError Text
get_blob_url env c container name =
    get_endpoint env c blob_service_name
      (path_for_blob (if is_empty container then codes "$root" else container) name) []

-- `getBlobRange`
unfoldable pub read_blob_range :
    Env → StorageClient → Text → Text → Text → Call GoError StorageResponse
unfolding insert
read_blob_range env c container name bytes_range h =
    let headers = get_standard_headers env c h in
    (do
      both ←
          blob_exec env c (codes "GET") (path_for_blob container name) []
            (if is_empty bytes_range
              then headers
              else insert (codes "Range") (codes "bytes=" ++ bytes_range) headers)
            none
      refuse_error both)
      h

-- An `io.ReadCloser`: the bytes that it gives, and the error, if any, with which it ends.
abbrev pub Stream : Type 0
Stream = Text × Option GoError

-- The body that goes to the caller, if the status is the expected one.
pub body_if : ℕ → StorageResponse → Result GoError Stream
unfolding decimal
body_if expected resp =
    if resp.status_code == expected
    then ok (resp.body, resp.body_error)
    else err (unexpected_status (decimal expected) resp.status_code)

unfoldable pub get_blob : Env → StorageClient → Text → Text → Call GoError Stream
unfolding body_if
get_blob env c container name = do
  resp ← read_blob_range env c container name []
  return (body_if status_ok resp)

unfoldable pub get_blob_range : Env → StorageClient → Text → Text → Text → Call GoError Stream
unfolding body_if
get_blob_range env c container name bytes_range = do
  resp ← read_blob_range env c container name bytes_range
  return (body_if status_partial_content resp)

-- `BlobProperties`; `BlobType` is a string.
pub record BlobProperties : Type 0 where
  pub last_modified : Text
  pub etag : Text
  pub content_md5 : Text
  pub content_length : ℤ
  pub content_type : Text
  pub content_encoding : Text
  pub blob_type : Text
  pub sequence_number : ℤ
  pub copy_id : Text
  pub copy_status : Text
  pub copy_source : Text
  pub copy_progress : Text
  pub copy_completion_time : Text
  pub copy_status_description : Text

-- An optional number in a header: 0 where the header is missing or empty.
pub header_number : Env → HeaderLists → Text → GoError ⊎ ℤ
unfolding header_get
header_number env headers name =
    let text = header_get headers name in if is_empty text then inr (pos 0) else env.parse_int text

blob_properties : HeaderLists → ℤ → ℤ → BlobProperties
unfolding header_get
blob_properties headers content_length sequence_num = record {
  last_modified = header_get headers (codes "Last-Modified");
  etag = header_get headers (codes "Etag");
  content_md5 = header_get headers (codes "Content-MD5");
  content_length = content_length;
  content_type = [];
  content_encoding = header_get headers (codes "Content-Encoding");
  blob_type = header_get headers (codes "x-ms-blob-type");
  sequence_number = sequence_num;
  copy_id = header_get headers (codes "x-ms-copy-id");
  copy_status = header_get headers (codes "x-ms-copy-status");
  copy_source = header_get headers (codes "x-ms-copy-source");
  copy_progress = header_get headers (codes "x-ms-copy-progress");
  copy_completion_time = header_get headers (codes "x-ms-copy-completion-time");
  copy_status_description = header_get headers (codes "x-ms-copy-status-description");
}

-- Behind the request: the status, then the two numbers.
pub read_properties : Env → StorageResponse → Result GoError BlobProperties
unfolding header_number blob_properties decimal
read_properties env resp =
    if resp.status_code == status_ok
    then elim (header_number env resp.headers (codes "Content-Length")) [
      | inl e ↦ err e
      | inr content_length ↦
          elim (header_number env resp.headers (codes "x-ms-blob-sequence-number")) [
            | inl e ↦ err e
            | inr sequence_num ↦ ok (blob_properties resp.headers content_length sequence_num)
          ]
    ]
    else err (unexpected_status (decimal status_ok) resp.status_code)

unfoldable pub get_blob_properties : Env → StorageClient → Text → Text → Call GoError BlobProperties
unfolding read_properties
get_blob_properties env c container name h =
    (do
      both ←
          blob_exec env c (codes "HEAD") (path_for_blob container name) []
            (get_standard_headers env c h) none
      resp ← refuse_error both
      return (read_properties env resp))
      h

-- `deleteBlob`
unfoldable pub send_delete_blob : Env → StorageClient → Text → Text → Responds
send_delete_blob env c container name h =
    blob_exec env c (codes "DELETE") (path_for_blob container name) []
      (get_standard_headers env c h) none h

unfoldable pub delete_blob : Env → StorageClient → Text → Text → Call GoError (Unit {0})
delete_blob env c container name =
    expect_status status_accepted not_accepted (send_delete_blob env c container name)

unfoldable pub delete_blob_if_exists : Env → StorageClient → Text → Text → Call GoError Bool
delete_blob_if_exists env c container name h =
    let (r, h') = send_delete_blob env c container name h in
    (either_status status_accepted status_not_found r, h')
