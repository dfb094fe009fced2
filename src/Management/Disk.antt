-- ===== src/Management/Disk.antt =====
-- Disks of virtual machines, management/virtualmachinedisk.
pub mod Deletion
use azure_sdk_for_go.Common.{ℕ, ◌++◌, ◌∷◌, [], if◌then◌else◌, true, false}
use azure_sdk_for_go.Common.Text.{Text, codes}
use azure_sdk_for_go.Go.{Result, ok, err, panic, stuck, Call, ◌>>◌, proceed}
use azure_sdk_for_go.Management.{GoError, Client, Env}
use azure_sdk_for_go.Management.Http.{send_azure_delete_request}
use azure_sdk_for_go.Management.Calls.{require, and_wait}

unfoldable pub delete_disk : Env → Client → ℕ → Text → Call GoError (Unit {0})
unfolding require
delete_disk env client fuel disk_name = do
  require (codes "diskName") disk_name
  and_wait env client fuel
      (send_azure_delete_request env client (codes "services/disks/" ++ disk_name))
