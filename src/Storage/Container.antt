-- ===== src/Storage/Container.antt =====
-- The container operations of storage/blob.go: create, delete, look for; and the helpers that all
-- blob operations share.
pub mod Verdicts
pub mod Stored
pub mod Final
pub mod Accepts
use azure_sdk_for_go.Common.{
  ℕ, List, [], ◌∷◌, ◌++◌, Option, some, none, if◌then◌else◌, Bool, true, false, ◌==◌, ◌||◌,
}
use azure_sdk_for_go.Common.Text.{Text, codes, is_empty}
use azure_sdk_for_go.Go.{
  Result, ok, err, panic, stuck, History, Headers, Call, ◌>>=◌, return, insert, proceed,
}
use azure_sdk_for_go.Storage.{
  GoError, not_created, not_accepted, StorageClient, StorageResponse, Responds, refuse_error, Env,
  Values, get_standard_headers,
}
use azure_sdk_for_go.Storage.Address.{get_endpoint}
use azure_sdk_for_go.Storage.Exec.{exec}

abbrev pub blob_service_name : Text
blob_service_name = codes "blob"

-- `http.StatusOK` and the others.
abbrev pub status_ok : ℕ
status_ok = 200

abbrev pub status_created : ℕ
status_created = 201

abbrev pub status_accepted : ℕ
status_accepted = 202

abbrev pub status_partial_content : ℕ
status_partial_content = 206

abbrev pub status_not_found : ℕ
status_not_found = 404

abbrev pub status_conflict : ℕ
status_conflict = 409

-- `pathForContainer` and `pathForBlob`
abbrev pub path_for_container : Text → Text
path_for_container name = b'/' ∷ name

abbrev pub path_for_blob : Text → Text → Text
path_for_blob container name = b'/' ∷ (container ++ (b'/' ∷ name))

-- A request to the blob service: the endpoint, then `exec`.
unfoldable pub blob_exec :
    Env → StorageClient → Text → Text → Values → Headers → Option Text → Responds
blob_exec env c verb path params headers body = do
  uri ← return (get_endpoint env c blob_service_name path params)
  exec env c verb uri headers body

-- `if resp.statusCode != expected { return e }`
pub expect : ℕ → GoError → StorageResponse → Result GoError (Unit {0})
expect expected e resp = if resp.status_code == expected then ok tt else err e

-- `if err != nil { return err }`, then the test of the status.
unfoldable pub expect_status : ℕ → GoError → Responds → Call GoError (Unit {0})
unfolding expect
expect_status expected e call = do
  both ← call
  resp ← refuse_error both
  return (expect expected e resp)

-- `if resp != nil && (status == hit || status == miss) { return status == hit, nil }`, and otherwise
-- `return false, err`, where the error may be nil.
unfoldable pub either_status :
    ℕ → ℕ → Result GoError (StorageResponse × Option GoError) → Result GoError Bool
either_status hit miss (ok (resp, e)) =
    if resp.status_code == hit || resp.status_code == miss
    then ok (resp.status_code == hit)
    else elim e [ none ↦ ok false | some x ↦ err x ]
either_status hit miss (err e) = err e
either_status hit miss panic = panic
either_status hit miss stuck = stuck

abbrev pub restype_container : Values
restype_container = (codes "restype", codes "container" ∷ []) ∷ []

-- The headers of `createContainer`.
unfoldable pub put_container_headers : Text → Headers → Headers
unfolding insert
put_container_headers access standard =
    let headers = insert (codes "Content-Length") (codes "0") standard in
    if is_empty access then headers else insert (codes "x-ms-blob-public-access") access headers

-- `createContainer`
unfoldable pub put_container : Env → StorageClient → Text → Text → Responds
put_container env c name access h =
    blob_exec env c (codes "PUT") (path_for_container name) restype_container
      (put_container_headers access (get_standard_headers env c h)) none h

unfoldable pub create_container : Env → StorageClient → Text → Text → Call GoError (Unit {0})
create_container env c name access =
    expect_status status_created not_created (put_container env c name access)

unfoldable pub create_container_if_not_exists :
    Env → StorageClient → Text → Text → Call GoError Bool
create_container_if_not_exists env c name access h =
    let (r, h') = put_container env c name access h in
    (either_status status_created status_conflict r, h')

unfoldable pub container_exists : Env → StorageClient → Text → Call GoError Bool
container_exists env c name h =
    let (r, h') =
      blob_exec env c (codes "HEAD") (path_for_container name) restype_container
        (get_standard_headers env c h) none h in
    (either_status status_ok status_not_found r, h')

-- `deleteContainer`
unfoldable pub send_delete_container : Env → StorageClient → Text → Responds
send_delete_container env c name h =
    blob_exec env c (codes "DELETE") (path_for_container name) restype_container
      (get_standard_headers env c h) none h

unfoldable pub delete_container : Env → StorageClient → Text → Call GoError (Unit {0})
delete_container env c name =
    expect_status status_accepted not_accepted (send_delete_container env c name)

unfoldable pub delete_container_if_exists : Env → StorageClient → Text → Call GoError Bool
delete_container_if_exists env c name h =
    let (r, h') = send_delete_container env c name h in
    (either_status status_accepted status_not_found r, h')
