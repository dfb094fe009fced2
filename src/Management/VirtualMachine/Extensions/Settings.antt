-- ===== src/Management/VirtualMachine/Extensions/Settings.antt =====
-- Docker on a Linux machine, management/virtualmachine: `SetAzureDockerVMExtension` behind
-- `AddAzureLinuxProvisioningConfig`.
use azure_sdk_for_go.Common.{List, [], ◌∷◌, ◌++◌, some, inr, ◌≡◌, refl}
use azure_sdk_for_go.Common.Int.{ℤ}
use azure_sdk_for_go.Common.Base64.{base64_encode}
use azure_sdk_for_go.Common.Text.{Text, codes}
use azure_sdk_for_go.Management.VirtualMachine.{
  ResourceExtensionReference, ConfigurationSet, Role, Host,
}
use azure_sdk_for_go.Management.VirtualMachine.Endpoints.{add_docker_port, with_docker_port}
use azure_sdk_for_go.Management.VirtualMachine.Endpoints.Docker.{docker_endpoint}
use azure_sdk_for_go.Management.VirtualMachine.Provisioning.{add_azure_linux_provisioning_config}
use azure_sdk_for_go.Management.VirtualMachine.Provisioning.Linux.{
  Provisioned, linux_set, network_set, ssh_endpoint,
  add_azure_linux_provisioning_config-Provisioned,
}
use azure_sdk_for_go.Management.VirtualMachine.Extensions.{
  set_azure_vm_extension, create_docker_public_config, docker_version,
  set_azure_docker_vm_extension,
}

-- The extension that installs Docker, with its two settings.
abbrev pub docker_extension : ℤ → Text → ResourceExtensionReference
docker_extension port version = record {
  reference_name = codes "DockerExtension";
  publisher = codes "MSOpenTech.Extensions";
  name = codes "DockerExtension";
  version = docker_version version;
  parameter_values =
      record {
        key = codes "ignored";
        value = base64_encode (codes "{}");
        type_name = codes "Private";
      }
      ∷ record {
        key = codes "ignored";
        value = base64_encode (create_docker_public_config port);
        type_name = codes "Public";
      }
      ∷ [];
  state = codes "enable";
}

-- The role with these configuration sets and one extension more.
abbrev pub extended : Role → List ConfigurationSet → ResourceExtensionReference → Role
extended role sets extension = record role {
  configuration_sets = sets;
  resource_extension_references = role.resource_extension_references ++ (extension ∷ []);
}

set_docker :
    (role : Role) (docker_port : ℤ) (version : Text) (sets : List ConfigurationSet)
    → add_docker_port role.configuration_sets docker_port ≡ inr sets
    → set_azure_docker_vm_extension (some role) docker_port version
      ≡ inr (extended role sets (docker_extension docker_port version))
unfolding set_azure_docker_vm_extension set_azure_vm_extension
set_docker role docker_port [] sets p = rw p refl
set_docker role docker_port (c ∷ cs) sets p = rw p refl

-- A role that was provisioned for Linux, with Docker.
pub record Dockerized (host : Host) (role : Role) (user_name password cert_path : Text)
    (ssh_port docker_port : ℤ) (version : Text) (role' : Role) : Type 0 where
  pub provisioned : Provisioned host role user_name password cert_path ssh_port role'
  pub result :
      set_azure_docker_vm_extension (some role') docker_port version
      ≡ inr (
          extended role'
            (linux_set role user_name provisioned.used provisioned.disabled provisioned.ssh
              ∷ network_set (ssh_endpoint ssh_port ∷ docker_endpoint docker_port ∷ [])
              ∷ [])
            (docker_extension docker_port version))

-- Behind an `AddAzureLinuxProvisioningConfig` that returned no error, `SetAzureDockerVMExtension`
-- returns none: the role keeps its Linux configuration, its network configuration has exactly the
-- endpoints of SSH and of Docker, and its extensions have one more, that of Docker.
pub set_azure_docker_vm_extension-Dockerized :
    (host : Host) (role : Role) (user_name password cert_path : Text) (ssh_port docker_port : ℤ)
    (version : Text) (role' : Role)
    → add_azure_linux_provisioning_config host (some role) user_name password cert_path ssh_port
      ≡ inr role'
    → Dockerized host role user_name password cert_path ssh_port docker_port version role'
unfolding add_docker_port with_docker_port
set_azure_docker_vm_extension-Dockerized host role user_name password cert_path ssh_port docker_port
      version role' e =
    let p =
      add_azure_linux_provisioning_config-Provisioned host role user_name password cert_path
        ssh_port role' e in
    record { provisioned = p; result = set_docker role' docker_port version _ (rw p.result refl) }
