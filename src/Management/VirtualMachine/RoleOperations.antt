-- ===== src/Management/VirtualMachine/RoleOperations.antt =====
-- Deployments and roles, management/virtualmachine: reading, deleting, starting, stopping, and the
-- list of role sizes.
use azure_sdk_for_go.Common.{ℕ, List, [], ◌∷◌, ◌++◌, some, none, Bool, find_first}
use azure_sdk_for_go.Common.Text.{Text, codes, eq, trim_set}
use azure_sdk_for_go.Go.{ok, err, Call, ◌>>=◌, ◌>>◌, return, lift}
use azure_sdk_for_go.Management.{GoError, message, Client, Env}
use azure_sdk_for_go.Management.Http.{send_azure_post_request, send_azure_delete_request}
use azure_sdk_for_go.Management.Calls.{require, get_xml, and_wait}
use azure_sdk_for_go.Management.VirtualMachine.{
  Codec, VmDeployment, Role, StartRoleOperation, ShutdownRoleOperation, RestartRoleOperation,
  RoleSize, RoleSizeList, azure_xmlns,
}

-- The paths of a deployment, of a role and of a role's operations.
unfoldable pub deployment_url : Text → Text → Text
deployment_url cloudservice_name deployment_name =
    codes "services/hostedservices/"
    ++ (cloudservice_name ++ (codes "/deployments/" ++ deployment_name))

unfoldable pub role_url : Text → Text → Text → Text
unfolding deployment_url
role_url cloudservice_name deployment_name role_name =
    deployment_url cloudservice_name deployment_name ++ (codes "/roles/" ++ role_name)

unfoldable pub operations_url : Text → Text → Text → Text
unfolding deployment_url
operations_url cloudservice_name deployment_name role_name =
    deployment_url cloudservice_name deployment_name
    ++ (codes "/roleinstances/" ++ (role_name ++ codes "/Operations"))

unfoldable pub create_start_role_operation : StartRoleOperation
create_start_role_operation = record {
  xmlns = azure_xmlns;
  operation_type = codes "StartRoleOperation";
}

unfoldable pub create_shutdown_role_operation : ShutdownRoleOperation
create_shutdown_role_operation = record {
  xmlns = azure_xmlns;
  operation_type = codes "ShutdownRoleOperation";
}

unfoldable pub create_restart_role_operation : RestartRoleOperation
create_restart_role_operation = record {
  xmlns = azure_xmlns;
  operation_type = codes "RestartRoleOperation";
}

-- The tests of the two names, and of all three.
abbrev pub require_deployment : Text → Text → Call GoError (Unit {0})
require_deployment cloudservice_name deployment_name = do
  require (codes "cloudserviceName") cloudservice_name
  require (codes "deploymentName") deployment_name

abbrev pub require_role : Text → Text → Text → Call GoError (Unit {0})
require_role cloudservice_name deployment_name role_name = do
  require (codes "cloudserviceName") cloudservice_name
  require (codes "deploymentName") deployment_name
  require (codes "roleName") role_name

-- The loop that lists the sizes for the message.
size_names : List RoleSize → Text
size_names [] = []
size_names (s ∷ sizes) = s.name ++ (codes ", " ++ size_names sizes)

unfoldable pub invalid_role_size : Text → RoleSizeList → GoError
unfolding size_names trim_set
invalid_role_size name list = message (
    codes "Invalid role size: "
    ++ (name
        ++ (codes ". Available role sizes: "
            ++ trim_set (codes ", ") (size_names list.role_sizes))))

abbrev pub is_size : Text → RoleSize → Bool
is_size name s = eq s.name name

module _ (codec : Codec) (env : Env) (client : Client) where
  unfoldable pub get_vm_deployment : Text → Text → Call GoError VmDeployment
  unfolding get_xml deployment_url
  get_vm_deployment cloudservice_name deployment_name = do
    require_deployment cloudservice_name deployment_name
    get_xml codec.unmarshal_deployment env client (deployment_url cloudservice_name deployment_name)

  unfoldable pub get_role : Text → Text → Text → Call GoError Role
  unfolding get_xml role_url
  get_role cloudservice_name deployment_name role_name = do
    require_role cloudservice_name deployment_name role_name
    get_xml codec.unmarshal_role env client (role_url cloudservice_name deployment_name role_name)

  unfoldable pub delete_vm_deployment : ℕ → Text → Text → Call GoError (Unit {0})
  unfolding deployment_url
  delete_vm_deployment fuel cloudservice_name deployment_name = do
    require_deployment cloudservice_name deployment_name
    and_wait env client fuel (
        send_azure_delete_request env client
          (deployment_url cloudservice_name deployment_name ++ codes "?comp=media"))

  -- The request that posts an operation, encoded already.
  abbrev pub post_operation : Text → Text → Text → Text → Call GoError Text
  post_operation cloudservice_name deployment_name role_name bytes =
      send_azure_post_request env client
        (operations_url cloudservice_name deployment_name role_name) (some bytes)

  unfoldable pub start_role : ℕ → Text → Text → Text → Call GoError (Unit {0})
  start_role fuel cloudservice_name deployment_name role_name = do
    require_role cloudservice_name deployment_name role_name
    bytes ← lift (codec.marshal_start create_start_role_operation)
    and_wait env client fuel (post_operation cloudservice_name deployment_name role_name bytes)

  unfoldable pub shutdown_role : ℕ → Text → Text → Text → Call GoError (Unit {0})
  shutdown_role fuel cloudservice_name deployment_name role_name = do
    require_role cloudservice_name deployment_name role_name
    bytes ← lift (codec.marshal_shutdown create_shutdown_role_operation)
    and_wait env client fuel (post_operation cloudservice_name deployment_name role_name bytes)

  unfoldable pub restart_role : ℕ → Text → Text → Text → Call GoError (Unit {0})
  restart_role fuel cloudservice_name deployment_name role_name = do
    require_role cloudservice_name deployment_name role_name
    bytes ← lift (codec.marshal_restart create_restart_role_operation)
    and_wait env client fuel (post_operation cloudservice_name deployment_name role_name bytes)

  unfoldable pub delete_role : ℕ → Text → Text → Text → Call GoError (Unit {0})
  delete_role fuel cloudservice_name deployment_name role_name = do
    require_role cloudservice_name deployment_name role_name
    and_wait env client fuel (
        send_azure_delete_request env client (role_url cloudservice_name deployment_name role_name))

  unfoldable pub get_role_size_list : Call GoError RoleSizeList
  unfolding get_xml
  get_role_size_list = get_xml codec.unmarshal_role_sizes env client (codes "rolesizes")

  unfoldable pub resolve_role_size : Text → Call GoError (Unit {0})
  unfolding require invalid_role_size
  resolve_role_size role_size_name = do
    require (codes "roleSizeName") role_size_name
    role_size_list ← get_role_size_list
    return (elim (find_first (is_size role_size_name) role_size_list.role_sizes) [
      | none ↦ err (invalid_role_size role_size_name role_size_list)
      | some existing ↦ ok tt
    ])
