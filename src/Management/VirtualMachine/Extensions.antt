-- ===== src/Management/VirtualMachine/Extensions.antt =====
-- Extensions of a role, management/virtualmachine: `SetAzureVMExtension`, `SetAzureDockerVMExtension`
-- and `createDockerPublicConfig`.
pub mod Settings
use azure_sdk_for_go.Common.{
  List, [], ◌∷◌, ◌++◌, Option, some, none, ◌⊎◌, inl, inr, if◌then◌else◌, Bool, true, false, ◌+◌,
}
use azure_sdk_for_go.Common.Int.{ℤ, pos, negsuc}
use azure_sdk_for_go.Common.Base64.{base64_encode}
use azure_sdk_for_go.Common.Text.{Text, codes, is_empty, decimal}
use azure_sdk_for_go.Management.{GoError, message, param_not_specified}
use azure_sdk_for_go.Management.VirtualMachine.{
  ResourceExtensionParameter, ResourceExtensionReference, Role,
}
use azure_sdk_for_go.Management.VirtualMachine.Endpoints.{add_docker_port}
use azure_sdk_for_go.Management.VirtualMachine.Provisioning.{◌then_try◌}

-- `if value == "" { return nil, fmt.Errorf(errParamNotSpecified, name) }`
unfoldable pub required : Text → Text → GoError ⊎ Unit {0}
required name value = if is_empty value then inl (param_not_specified name) else inr tt

-- A value that is not empty is encoded, under the key "ignored".
unfoldable pub extension_parameter : Text → Text → List ResourceExtensionParameter
unfolding base64_encode
extension_parameter type_name value =
    if is_empty value
    then []
    else record { key = codes "ignored"; value = base64_encode value; type_name = type_name } ∷ []

unfoldable pub vm_extension :
    Text → Text → Text → Text → Text → Text → Text → ResourceExtensionReference
unfolding extension_parameter
vm_extension name publisher version reference_name state public_value private_value = record {
  reference_name = reference_name;
  publisher = publisher;
  name = name;
  version = version;
  parameter_values =
      extension_parameter (codes "Private") private_value
      ++ extension_parameter (codes "Public") public_value;
  state = state;
}

-- The role is changed in place, behind the last error; the result is the changed role.
unfoldable pub set_azure_vm_extension :
    Option Role → Text → Text → Text → Text → Text → Text → Text → GoError ⊎ Role
unfolding required vm_extension
set_azure_vm_extension none name publisher version reference_name state public_value private_value =
    inl (param_not_specified (codes "azureVMConfiguration"))
set_azure_vm_extension (some role) name publisher version reference_name state public_value
      private_value =
    required (codes "name") name then_try λ u. required (codes "publisher") publisher then_try λ u.
    required (codes "version") version then_try λ u.
    required (codes "referenceName") reference_name then_try λ u. inr (record role {
      resource_extension_references =
          role.resource_extension_references
          ++ (vm_extension name publisher version reference_name state public_value private_value
              ∷ []);
    })

-- A number in JSON.
abbrev json_number : ℤ → Text
json_number (pos n) = decimal n
json_number (negsuc n) = b'-' ∷ decimal (n + 1)

-- `json.Marshal` of the two numbers, which has no error.
unfoldable pub create_docker_public_config : ℤ → Text
unfolding decimal
create_docker_public_config docker_port =
    codes "{\"dockerport\":" ++ (json_number docker_port ++ codes ",\"version\":2}")

abbrev pub docker_version : Text → Text
docker_version version = if is_empty version then codes "0.3" else version

-- The error of `SetAzureVMExtension` is dropped; with these arguments it has none.
unfoldable pub set_azure_docker_vm_extension : Option Role → ℤ → Text → GoError ⊎ Role
unfolding create_docker_public_config
set_azure_docker_vm_extension none docker_port version =
    inl (param_not_specified (codes "azureVMConfiguration"))
set_azure_docker_vm_extension (some role) docker_port version =
    add_docker_port role.configuration_sets docker_port then_try λ sets.
    set_azure_vm_extension (some (record role { configuration_sets = sets }))
      (codes "DockerExtension") (codes "MSOpenTech.Extensions") (docker_version version)
      (codes "DockerExtension") (codes "enable") (create_docker_public_config docker_port)
      (codes "{}")
