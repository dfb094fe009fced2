-- ===== src/Management/Tests/Machines.antt =====
-- Tests of virtual machines and of the operations that are waited for, management/, with their theorems
-- at concrete inputs.
use azure_sdk_for_go.Common.{[], ◌∷◌, some, inl, inr, true, false, ◌≡◌, refl, leb, ◌&&◌, replicate}
use azure_sdk_for_go.Common.Int.{pos}
use azure_sdk_for_go.Common.Text.{codes, eq, contains}
use azure_sdk_for_go.Go.{Result, ok, err, panic, History, lookup}
use azure_sdk_for_go.Management.{GoError, message, get_response_body}
use azure_sdk_for_go.Management.Http.{
  create_azure_request, judge, send_request, send_azure_request, first_request_id,
  send_azure_get_request, send_azure_post_request, send_azure_put_request,
  send_azure_delete_request,
}
use azure_sdk_for_go.Management.Operations.{
  get_operation_status, conclude, poll, wait_async_operation,
}
use azure_sdk_for_go.Management.Calls.{require, get_xml, and_wait}
use azure_sdk_for_go.Management.Location.{get_location, get_location_list}
use azure_sdk_for_go.Management.Image.{resolve_image_name, get_image_list}
use azure_sdk_for_go.Management.StorageService.{
  get_storage_service_by_location, get_storage_service_list, get_blob_endpoint,
}
use azure_sdk_for_go.Management.HostedService.{
  create_hosted_service, create_hosted_service_deployment_config,
  check_hosted_service_name_availability, post_hosted_service, delete_hosted_service,
}
use azure_sdk_for_go.Management.Location.{resolve_location}
use azure_sdk_for_go.Management.VirtualMachine.{Role, OsVirtualHardDisk, RoleSize, Codec, Host}
use azure_sdk_for_go.Management.VirtualMachine.Media.{
  create_azure_vm_configuration, create_azure_vm_role, create_os_virtual_hard_disk,
  get_vhd_media_link, account_in, is_instance_size_available_in_location,
}
use azure_sdk_for_go.Management.VirtualMachine.Media.Configuration.{
  Configuration, create_azure_vm_configuration_ok,
}
use azure_sdk_for_go.Management.VirtualMachine.RoleOperations.{
  get_vm_deployment, get_role, resolve_role_size, get_role_size_list, start_role,
  create_start_role_operation, operations_url,
}
use azure_sdk_for_go.Management.VirtualMachine.Creation.{
  create_azure_vm, create_service, deploy, settle, upload_if_needed, upload_service_cert,
  post_deployment, create_vm_deployment_config, create_service_cert_deployment_conf,
}
use azure_sdk_for_go.Management.VirtualMachine.Creation.Attempts.{
  Creation, create_azure_vm-Creation,
}
use azure_sdk_for_go.Management.VirtualMachine.Creation.Success.{Running, create_azure_vm-Running}
use azure_sdk_for_go.Management.Changes.{start, Performed, perform-Performed}
use azure_sdk_for_go.Management.Tests.{client}
use azure_sdk_for_go.Management.Tests.Resources.{
  env, account_codec, hosted_codec, decode_images, encode_network, place,
}

-- A machine whose files and random bytes are always the same.
abbrev pub host : Host
host = record {
  runes = λ s. s;
  is_upper = λ r. leb b'A' r && leb r b'Z';
  is_lower = λ r. leb b'a' r && leb r b'z';
  is_number = λ r. leb b'0' r && leb r b'9';
  pem_decode = λ s. (some s, []);
  sha1_sum = λ s. s;
  read_file = λ path. inr (codes "K");
  random_16 = λ h. inr (replicate 16 255);
  local_time = λ h. codes "t";
}

abbrev no_disk : OsVirtualHardDisk
no_disk = record {
  media_link = [];
  source_image_name = [];
  host_caching = [];
  disk_name = [];
  os = [];
}

abbrev pub role : Role
role = record {
  role_name = codes "vm";
  role_type = codes "PersistentVMRole";
  configuration_sets = [];
  resource_extension_references = [];
  os_virtual_hard_disk = no_disk;
  role_size = codes "Small";
  provision_guest_agent = true;
  use_cert_auth = false;
  cert_path = [];
}

abbrev small : RoleSize
small = record {
  name = codes "Small";
  label = [];
  cores = pos 1;
  memory_in_mb = pos 1792;
  supported_by_web_worker_roles = true;
  supported_by_virtual_machines = true;
  max_data_disk_count = pos 2;
  web_worker_resource_disk_size_in_mb = pos 0;
  virtual_machine_resource_disk_size_in_mb = pos 0;
}

-- In every location there are small machines.
abbrev codec : Codec
codec = record {
  storage = account_codec;
  hosted = record hosted_codec {
    unmarshal_locations = λ body. inr (record {
      xmlns = [];
      locations =
          record (place (codes "West")) { virtual_machine_role_sizes = codes "Small" ∷ [] } ∷ [];
    });
  };
  unmarshal_images = decode_images;
  unmarshal_deployment = λ body. inr (create_vm_deployment_config role);
  unmarshal_role = λ body. inr role;
  unmarshal_role_sizes = λ body. inr (record { xmlns = []; role_sizes = small ∷ [] });
  marshal_deployment = λ d. inr d.name;
  marshal_certificate = λ c. inr c.encoded;
  marshal_start = λ o. inr o.operation_type;
  marshal_shutdown = λ o. inr o.operation_type;
  marshal_restart = λ o. inr o.operation_type;
}

abbrev configured : Result GoError Role × History
configured =
    create_azure_vm_configuration codec host env client 5 (codes "vm") (codes "Small")
      (codes "Ubuntu") (codes "West") []

abbrev configured_role : Result GoError Role → Role
configured_role (ok r) = r
configured_role (err e) = role
configured_role panic = role
configured_role Result.stuck = role

create_azure_vm_configuration_ok_example :
    Configuration codec host env client 5
      (codes "vm")
      (codes "Small")
      (codes "Ubuntu")
      (codes "West")
      []
      (configured_role configured.0)
      configured.1
unfolding require and_wait get_xml send_azure_get_request send_azure_post_request
    send_azure_put_request send_azure_delete_request send_azure_request send_request
    create_azure_request judge get_response_body first_request_id get_operation_status conclude poll
    wait_async_operation eq lookup create_azure_vm_configuration create_azure_vm_role
    create_os_virtual_hard_disk get_vhd_media_link account_in is_instance_size_available_in_location
    get_location get_location_list resolve_image_name get_image_list get_storage_service_by_location
    get_storage_service_list get_blob_endpoint contains
create_azure_vm_configuration_ok_example =
    create_azure_vm_configuration_ok codec host env client 5 (codes "vm") (codes "Small")
      (codes "Ubuntu") (codes "West") [] (configured_role configured.0) configured.1 refl

create_azure_vm-Creation_example :
    Creation codec host env client 5 role
      (codes "svc")
      (codes "West")
      []
      (create_azure_vm codec host env client 5 (some role) (codes "svc") (codes "West") [])
create_azure_vm-Creation_example =
    create_azure_vm-Creation codec host env client 5 role (codes "svc") (codes "West") []

-- The role with a certificate.
abbrev certified_role : Role
certified_role = record role { use_cert_auth = true; cert_path = codes "c.pfx" }

create_azure_vm-Running_example :
    Running codec host env client 5 certified_role
      (codes "svc")
      (codes "West")
      []
      (create_azure_vm codec host env client 5
        (some certified_role)
        (codes "svc")
        (codes "West")
        []).1
unfolding require and_wait get_xml send_azure_get_request send_azure_post_request
    send_azure_put_request send_azure_delete_request send_azure_request send_request
    create_azure_request judge get_response_body first_request_id get_operation_status conclude poll
    wait_async_operation eq lookup create_azure_vm create_service deploy settle upload_if_needed
    upload_service_cert create_service_cert_deployment_conf post_deployment create_hosted_service
    create_hosted_service_deployment_config check_hosted_service_name_availability
    post_hosted_service resolve_location get_location_list
create_azure_vm-Running_example =
    create_azure_vm-Running codec host env client 5 certified_role (codes "svc") (codes "West") [] _
      refl

-- A deployment that cannot be encoded.
abbrev unencodable : Codec
unencodable = record codec { marshal_deployment = λ d. inl (message (codes "no")) }

service_deleted :
    create_azure_vm unencodable host env client 5 (some role) (codes "svc") (codes "West") [] ≡ (
      err (message (codes "no")),
      (delete_hosted_service codec.hosted env client 5
          (codes "svc")
          (create_service unencodable host env client 5 (codes "svc") (codes "West") []).1).1,
    )
unfolding require and_wait get_xml send_azure_get_request send_azure_post_request
    send_azure_put_request send_azure_delete_request send_azure_request send_request
    create_azure_request judge get_response_body first_request_id get_operation_status conclude poll
    wait_async_operation eq lookup create_azure_vm create_service deploy settle upload_if_needed
    post_deployment create_hosted_service create_hosted_service_deployment_config
    delete_hosted_service check_hosted_service_name_availability post_hosted_service
    resolve_location get_location_list
service_deleted = refl

perform-Performed_example :
    Performed codec host encode_network env client
      (start (codes "svc") (codes "vm") (codes "vm"))
      []
      (start_role codec env client 5 (codes "svc") (codes "vm") (codes "vm") []).1
unfolding require and_wait get_xml send_azure_get_request send_azure_post_request
    send_azure_put_request send_azure_delete_request send_azure_request send_request
    create_azure_request judge get_response_body first_request_id get_operation_status conclude poll
    wait_async_operation eq lookup start_role create_start_role_operation operations_url
perform-Performed_example =
    perform-Performed codec host encode_network env client 5
      (start (codes "svc") (codes "vm") (codes "vm")) [] refl

deployment_read :
    (get_vm_deployment codec env client (codes "svc") (codes "vm") []).0
    ≡ ok (create_vm_deployment_config role)
unfolding require and_wait get_xml send_azure_get_request send_azure_post_request
    send_azure_put_request send_azure_delete_request send_azure_request send_request
    create_azure_request judge get_response_body first_request_id get_operation_status conclude poll
    wait_async_operation eq lookup get_vm_deployment create_vm_deployment_config
deployment_read = refl

role_read : (get_role codec env client (codes "svc") (codes "vm") (codes "vm") []).0 ≡ ok role
unfolding require and_wait get_xml send_azure_get_request send_azure_post_request
    send_azure_put_request send_azure_delete_request send_azure_request send_request
    create_azure_request judge get_response_body first_request_id get_operation_status conclude poll
    wait_async_operation eq lookup get_role
role_read = refl

unknown_size :
    (resolve_role_size codec env client (codes "Huge") []).0
    ≡ err (message (codes "Invalid role size: Huge. Available role sizes: Small"))
unfolding require and_wait get_xml send_azure_get_request send_azure_post_request
    send_azure_put_request send_azure_delete_request send_azure_request send_request
    create_azure_request judge get_response_body first_request_id get_operation_status conclude poll
    wait_async_operation eq lookup resolve_role_size get_role_size_list
unknown_size = refl

certificate_uploaded :
    (upload_service_cert codec host env client 5 (codes "svc") (codes "k.pem") []).0 ≡ ok tt
unfolding require and_wait get_xml send_azure_get_request send_azure_post_request
    send_azure_put_request send_azure_delete_request send_azure_request send_request
    create_azure_request judge get_response_body first_request_id get_operation_status conclude poll
    wait_async_operation eq lookup upload_service_cert create_service_cert_deployment_conf
certificate_uploaded = refl
