-- ===== src/Management/Tests/Roles.antt =====
-- Tests of the configuration of a role, management/virtualmachine, with their theorems at concrete inputs.
use azure_sdk_for_go.Common.{
  ◌≤◌, [], some, ◌⊎◌, inl, inr, ◌≡◌, ◌↔◌, refl, length, All, arith, replicate,
}
use azure_sdk_for_go.Common.Int.{pos}
use azure_sdk_for_go.Common.Text.{codes}
use azure_sdk_for_go.Management.{GoError, message}
use azure_sdk_for_go.Management.VirtualMachine.{Role}
use azure_sdk_for_go.Management.VirtualMachine.Endpoints.{add_docker_port, create_network_config}
use azure_sdk_for_go.Management.VirtualMachine.Endpoints.Docker.{Ported, add_docker_port-Ported}
use azure_sdk_for_go.Management.VirtualMachine.Provisioning.{
  verify_password, add_azure_linux_provisioning_config, create_linux_provisioning_config,
  choose_password, choose_ssh, create_ssh_config, check_service_cert_extension,
  get_service_cert_fingerprint,
}
use azure_sdk_for_go.Management.VirtualMachine.Provisioning.Password.{Has, verify_password_iff}
use azure_sdk_for_go.Management.VirtualMachine.Extensions.Settings.{
  Dockerized, set_azure_docker_vm_extension-Dockerized,
}
use azure_sdk_for_go.Management.VirtualMachine.Extensions.{set_azure_vm_extension}
use azure_sdk_for_go.Management.VirtualMachine.Media.{
  uuid_text, storage_service_name, lower_hex_text,
}
use azure_sdk_for_go.Management.VirtualMachine.Media.Names.{
  IsByte, IsNameByte, uuid_text-drop, storage_service_name-IsNameByte,
}
use azure_sdk_for_go.Management.Tests.Machines.{host, role}

verify_password_iff_example : (verify_password host (codes "Ab1c") ≡ inr tt) ↔ (
    (4 ≤ length (codes "Ab1c"))
    × (length (codes "Ab1c") ≤ 30)
    × Has (codes "Ab1c") host.is_upper
    × Has (codes "Ab1c") host.is_lower
    × Has (codes "Ab1c") host.is_number)
verify_password_iff_example = verify_password_iff host (codes "Ab1c")

add_docker_port-Ported_example : Ported (pos 2376) [] (add_docker_port [] (pos 2376))
add_docker_port-Ported_example = add_docker_port-Ported (pos 2376) []

abbrev provisioned : GoError ⊎ Role
provisioned =
    add_azure_linux_provisioning_config host (some role) (codes "u") (codes "Ab1c") (codes "k.pem")
      (pos 22)

abbrev the_role : GoError ⊎ Role → Role
the_role (inl e) = role
the_role (inr r) = r

set_azure_docker_vm_extension-Dockerized_example :
    Dockerized host role
      (codes "u")
      (codes "Ab1c")
      (codes "k.pem")
      (pos 22)
      (pos 2376)
      []
      (the_role provisioned)
unfolding add_azure_linux_provisioning_config create_linux_provisioning_config choose_password
    choose_ssh create_ssh_config get_service_cert_fingerprint check_service_cert_extension
    verify_password create_network_config
set_azure_docker_vm_extension-Dockerized_example =
    set_azure_docker_vm_extension-Dockerized host role (codes "u") (codes "Ab1c") (codes "k.pem")
      (pos 22) (pos 2376) [] (the_role provisioned) refl

uuid_text-drop_example : uuid_text (replicate 16 255) ≡ lower_hex_text (replicate 6 255)
uuid_text-drop_example = uuid_text-drop (replicate 16 255)

bytes_are_bytes : All IsByte (replicate 16 255)
bytes_are_bytes = ground arith

storage_service_name-IsNameByte_example :
    (length (storage_service_name (replicate 16 255)) ≡ 22)
    × All IsNameByte (storage_service_name (replicate 16 255))
storage_service_name-IsNameByte_example =
    storage_service_name-IsNameByte (replicate 16 255) refl bytes_are_bytes

name_text : storage_service_name (replicate 16 255) ≡ codes "portalvhdsffffffffffff"
unfolding storage_service_name
name_text = refl

extension_without_name :
    set_azure_vm_extension (some role) [] (codes "p") (codes "1") (codes "r") [] [] []
    ≡ inl (message (codes "Parameter name is not specified."))
unfolding set_azure_vm_extension
extension_without_name = refl
