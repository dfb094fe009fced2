-- ===== src/Storage/Copy.antt =====
-- Copying a blob: `CopyBlob`, `startBlobCopy` and `waitForBlobCopy` of storage/blob.go.
pub mod Judged
pub mod Wait
use azure_sdk_for_go.Common.{
  ℕ, zero, suc, List, [], ◌∷◌, ◌++◌, Option, some, none, if◌then◌else◌, Bool, true, false, ◌==◌,
  ◌||◌, not,
}
use azure_sdk_for_go.Common.Text.{Text, codes, is_empty, eq, decimal}
use azure_sdk_for_go.Go.{
  Result, ok, err, panic, stuck, History, Call, ◌>>=◌, return, insert, header_get,
}
use azure_sdk_for_go.Storage.{
  GoError, message, blob_copy_aborted, blob_copy_id_mismatch, StorageClient, StorageResponse,
  refuse_error, Env, get_standard_headers,
}
use azure_sdk_for_go.Storage.Container.{status_accepted, status_created, path_for_blob, blob_exec}
use azure_sdk_for_go.Storage.Blob.{BlobProperties, unexpected_status, get_blob_properties}

-- Behind the request: the status, then the id. `%d` prints the two numbers as `[202 201]`.
pub started_copy : StorageResponse → Result GoError Text
unfolding header_get
started_copy resp =
    let copy_id = header_get resp.headers (codes "x-ms-copy-id") in
    if resp.status_code == status_accepted || resp.status_code == status_created
    then (if is_empty copy_id then err (message (codes "Got empty copy id header")) else ok copy_id)
    else err (unexpected_status (codes "[202 201]") resp.status_code)

unfoldable pub start_blob_copy : Env → StorageClient → Text → Text → Text → Call GoError Text
unfolding insert started_copy
start_blob_copy env c container name source_blob h =
    let headers =
      insert (codes "x-ms-copy-source") source_blob
        (insert (codes "Content-Length") (codes "0") (get_standard_headers env c h)) in
    (do
      both ← blob_exec env c (codes "PUT") (path_for_blob container name) [] headers none
      resp ← refuse_error both
      return (started_copy resp))
      h

-- One round of the loop: `none` asks for another.
unfoldable pub judge_copy : Text → BlobProperties → Option (Result GoError (Unit {0}))
judge_copy copy_id props =
    if not (eq props.copy_id copy_id)
    then some (err blob_copy_id_mismatch)
    else if eq props.copy_status (codes "success")
    then some (ok tt)
    else if eq props.copy_status (codes "pending")
    then none
    else if eq props.copy_status (codes "aborted")
    then some (err blob_copy_aborted)
    else if eq props.copy_status (codes "failed")
    then some (
        err (
          message (
            codes "storage: blob copy failed. Id="
            ++ (props.copy_id ++ (codes " Description=" ++ props.copy_status_description)))))
    else some (
        err (
          message
            (codes "storage: unhandled blob copy status: '" ++ (props.copy_status ++ codes "'"))))

-- The loop, on fuel. It does not pause between its requests.
unfoldable pub wait_for_blob_copy :
    Env → StorageClient → Text → Text → Text → ℕ → Call GoError (Unit {0})
wait_for_blob_copy env c container name copy_id zero h = (stuck, h)
wait_for_blob_copy env c container name copy_id (suc fuel) h =
    let (r, h') = get_blob_properties env c container name h in
    elim r [
      | err e ↦ (err e, h')
      | panic ↦ (panic, h')
      | stuck ↦ (stuck, h')
      | ok props ↦ elim (judge_copy copy_id props) [
        | some outcome ↦ (outcome, h')
        | none ↦ wait_for_blob_copy env c container name copy_id fuel h'
      ]
    ]

unfoldable pub copy_blob : Env → StorageClient → ℕ → Text → Text → Text → Call GoError (Unit {0})
copy_blob env c fuel container name source_blob = do
  copy_id ← start_blob_copy env c container name source_blob
  wait_for_blob_copy env c container name copy_id fuel
