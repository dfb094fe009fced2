-- ===== src/Management/VirtualMachine.antt =====
-- Virtual machines, management/virtualmachine: the data of entities.go, and what the package uses of
-- libraries and of the machine that it runs on.
pub mod Endpoints
pub mod Provisioning
pub mod Extensions
pub mod RoleOperations
pub mod Media
pub mod Creation
use azure_sdk_for_go.Common.{ℕ, List, [], Option, none, ◌⊎◌, Bool, false}
use azure_sdk_for_go.Common.Int.{ℤ}
use azure_sdk_for_go.Common.Text.{Text, codes}
use azure_sdk_for_go.Go.{History}
use azure_sdk_for_go.Management.{GoError}
use azure_sdk_for_go.Management.StorageService
use azure_sdk_for_go.Management.HostedService
use azure_sdk_for_go.Management.Image.{ImageList}

-- The structs that hold nothing but one list stand here as that list.
pub record InputEndpoint : Type 0 where
  pub local_port : ℤ
  pub name : Text
  pub port : ℤ
  pub protocol : Text
  pub vip : Text

pub record PublicKey : Type 0 where
  pub fingerprint : Text
  pub path : Text

-- `SSH` is the list of its public keys.
pub record ConfigurationSet : Type 0 where
  pub configuration_set_type : Text
  pub host_name : Text
  pub user_name : Text
  pub user_password : Text
  pub disable_ssh_password_authentication : Bool
  pub input_endpoints : List InputEndpoint
  pub ssh : List PublicKey
  pub custom_data : Text

pub record ResourceExtensionParameter : Type 0 where
  pub key : Text
  pub value : Text
  pub type_name : Text

pub record ResourceExtensionReference : Type 0 where
  pub reference_name : Text
  pub publisher : Text
  pub name : Text
  pub version : Text
  pub parameter_values : List ResourceExtensionParameter
  pub state : Text

pub record OsVirtualHardDisk : Type 0 where
  pub media_link : Text
  pub source_image_name : Text
  pub host_caching : Text
  pub disk_name : Text
  pub os : Text

pub record Role : Type 0 where
  pub role_name : Text
  pub role_type : Text
  pub configuration_sets : List ConfigurationSet
  pub resource_extension_references : List ResourceExtensionReference
  pub os_virtual_hard_disk : OsVirtualHardDisk
  pub role_size : Text
  pub provision_guest_agent : Bool
  pub use_cert_auth : Bool
  pub cert_path : Text

pub record InstanceEndpoint : Type 0 where
  pub name : Text
  pub vip : Text
  pub public_port : ℤ
  pub local_port : ℤ
  pub protocol : Text

pub record RoleInstance : Type 0 where
  pub role_name : Text
  pub instance_name : Text
  pub instance_status : Text
  pub instance_size : Text
  pub power_state : Text
  pub ip_address : Text
  pub instance_endpoints : List InstanceEndpoint

-- `VirtualIPs` is the list of the addresses.
pub record VmDeployment : Type 0 where
  pub xmlns : Text
  pub name : Text
  pub deployment_slot : Text
  pub status : Text
  pub label : Text
  pub url : Text
  pub role_list : List Role
  pub role_instance_list : List RoleInstance
  pub virtual_ips : List Text

pub record ServiceCertificate : Type 0 where
  pub xmlns : Text
  pub encoded : Text
  pub certificate_format : Text
  pub password : Text

pub record StartRoleOperation : Type 0 where
  pub xmlns : Text
  pub operation_type : Text

pub record ShutdownRoleOperation : Type 0 where
  pub xmlns : Text
  pub operation_type : Text

pub record RestartRoleOperation : Type 0 where
  pub xmlns : Text
  pub operation_type : Text

pub record RoleSize : Type 0 where
  pub name : Text
  pub label : Text
  pub cores : ℤ
  pub memory_in_mb : ℤ
  pub supported_by_web_worker_roles : Bool
  pub supported_by_virtual_machines : Bool
  pub max_data_disk_count : ℤ
  pub web_worker_resource_disk_size_in_mb : ℤ
  pub virtual_machine_resource_disk_size_in_mb : ℤ

pub record RoleSizeList : Type 0 where
  pub xmlns : Text
  pub role_sizes : List RoleSize

-- encoding/xml on the types above, with what the clients below use of it.
pub record Codec : Type 0 where
  pub storage : StorageService.Codec
  pub hosted : HostedService.Codec
  pub unmarshal_images : Text → GoError ⊎ ImageList
  pub unmarshal_deployment : Text → GoError ⊎ VmDeployment
  pub unmarshal_role : Text → GoError ⊎ Role
  pub unmarshal_role_sizes : Text → GoError ⊎ RoleSizeList
  pub marshal_deployment : VmDeployment → GoError ⊎ Text
  pub marshal_certificate : ServiceCertificate → GoError ⊎ Text
  pub marshal_start : StartRoleOperation → GoError ⊎ Text
  pub marshal_shutdown : ShutdownRoleOperation → GoError ⊎ Text
  pub marshal_restart : RestartRoleOperation → GoError ⊎ Text

-- unicode and the runes of a string, encoding/pem, crypto/sha1, the file system, the random numbers
-- (16 bytes) and the local time, in the form that the code asks for.
pub record Host : Type 0 where
  pub runes : Text → List ℕ
  pub is_upper : ℕ → Bool
  pub is_lower : ℕ → Bool
  pub is_number : ℕ → Bool
  pub pem_decode : Text → Option Text × Text
  pub sha1_sum : Text → Text
  pub read_file : Text → GoError ⊎ Text
  pub random_16 : History → GoError ⊎ Text
  pub local_time : History → Text

abbrev pub azure_xmlns : Text
azure_xmlns = codes "http://schemas.microsoft.com/windowsazure"
