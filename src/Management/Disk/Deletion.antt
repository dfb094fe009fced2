-- ===== src/Management/Disk/Deletion.antt =====
-- What stands behind the deletion of a disk, management/virtualmachinedisk.
use azure_sdk_for_go.Common.{ℕ, ◌++◌, ◌≡◌, sym, subst, false}
use azure_sdk_for_go.Common.Text.{Text, codes, is_empty}
use azure_sdk_for_go.Go.{ok, History, same_history}
use azure_sdk_for_go.Management.{Client, Env}
use azure_sdk_for_go.Management.Http.{send_azure_delete_request}
use azure_sdk_for_go.Management.Calls.{
  Completed, and_wait, and_wait-Completed, require_then, require-history,
}
use azure_sdk_for_go.Management.Disk.{delete_disk}

-- If `DeleteDisk` returns no error, then the name is not empty, the DELETE request for the disk
-- returned an id, and the operation with this id ended with a status that is neither "InProgress" nor
-- "Failed".
pub delete_disk-Completed :
    (env : Env) (client : Client) (fuel : ℕ) (disk_name : Text) (h : History)
    → (delete_disk env client fuel disk_name h).0 ≡ ok tt
    → (is_empty disk_name ≡ false)
      × Completed env client
          (send_azure_delete_request env client (codes "services/disks/" ++ disk_name))
          h
          (delete_disk env client fuel disk_name h).1
unfolding delete_disk
delete_disk-Completed env client fuel disk_name h e =
    let write = send_azure_delete_request env client (codes "services/disks/" ++ disk_name) in
    let rest = and_wait env client fuel write in
    let (named, waited) = require_then (codes "diskName") disk_name rest h e in
    (
      named,
      subst (λ t. Completed env client write h t)
          (sym (same_history (require-history (codes "diskName") disk_name rest h named)))
          (and_wait-Completed env client fuel write h waited),
    )
