-- ===== src/Management/Tests/Resources.antt =====
-- Tests of the clients below management/: locations, storage accounts, hosted services, images, disks
-- and networks, with their theorems at concrete inputs.
use azure_sdk_for_go.Common.{[], ◌∷◌, some, ◌⊎◌, inr, true, false, ◌≡◌, refl}
use azure_sdk_for_go.Common.Text.{Text, codes, is_empty, eq, contains}
use azure_sdk_for_go.Go.{ok, err, History, lookup}
use azure_sdk_for_go.Management.{GoError, message, Client, Env, get_response_body}
use azure_sdk_for_go.Management.Http.{
  create_azure_request, judge, send_request, send_azure_request, first_request_id,
  send_azure_get_request, send_azure_post_request,
}
use azure_sdk_for_go.Management.Operations.{
  get_operation_status, conclude, poll, wait_async_operation,
}
use azure_sdk_for_go.Management.Calls.{require, get_xml, and_wait, Completed}
use azure_sdk_for_go.Management.Location.{
  Location, LocationList, location_list_text, get_location_list, resolve_location,
}
use azure_sdk_for_go.Management.StorageService.{
  Account, StorageServiceProperties, StorageServiceList, StorageServiceDeployment,
  create_storage_service_deployment_conf, get_blob_endpoint, lies_in, get_storage_service_list,
  get_storage_service_by_name, get_storage_service_by_location, create_storage_service,
  is_available,
}
use azure_sdk_for_go.Management.StorageService.Choice.{create_storage_service_ok}
use azure_sdk_for_go.Management.HostedService.{
  Hosted, create_hosted_service_deployment_config, check_hosted_service_name_availability,
  post_hosted_service, create_hosted_service, delete_hosted_service, get_hosted_service,
}
use azure_sdk_for_go.Management.HostedService.Creation.{Created, create_hosted_service-Created}
use azure_sdk_for_go.Management.Image.{OsImage, ImageList}
use azure_sdk_for_go.Management.Network.{
  NetworkConfiguration, new_network_configuration, get_virtual_network_configuration,
}
use azure_sdk_for_go.Management.Tests.{client, ending}

-- Every request succeeds, and an operation ends at its first poll.
abbrev pub env : Env
env = ending (codes "Succeeded")

abbrev pub place : Text → Location
place name = record {
  name = name;
  display_name = [];
  available_services = [];
  web_worker_role_sizes = [];
  virtual_machine_role_sizes = [];
}

abbrev pub places : LocationList
places = record { xmlns = []; locations = place (codes "East") ∷ place (codes "West") ∷ [] }

abbrev decode_places : Text → GoError ⊎ LocationList
decode_places body = inr places

places_text : location_list_text places ≡ codes "East, West"
unfolding location_list_text
places_text = refl

unknown_location :
    (resolve_location decode_places env client (codes "North") []).0
    ≡ err (message (codes "Invalid location: North. Available locations: East, West"))
unfolding resolve_location get_location_list location_list_text require and_wait get_xml
    send_azure_get_request send_azure_request send_request create_azure_request judge
    get_response_body first_request_id get_operation_status conclude poll wait_async_operation eq
    lookup
unknown_location = refl

abbrev account : Account
account = record {
  url = [];
  service_name = codes "acct";
  properties = record {
    description = [];
    location = codes "West";
    label = [];
    status = [];
    endpoints = codes "http://a.queue.core.x" ∷ codes "http://a.blob.core.x" ∷ [];
    geo_replication_enabled = [];
    geo_primary_region = [];
  };
}

abbrev pub accounts : StorageServiceList
accounts = record { xmlns = []; storage_services = account ∷ [] }

abbrev pub account_codec : azure_sdk_for_go.Management.StorageService.Codec
account_codec = record {
  unmarshal_list = λ body. inr accounts;
  unmarshal_service = λ body. inr account;
  unmarshal_availability = λ body. inr (record { xmlns = []; result = true; reason = [] });
  marshal_deployment = λ d. inr d.service_name;
}

blob_endpoint : get_blob_endpoint account ≡ inr (codes "http://a.blob.core.x")
unfolding get_blob_endpoint contains
blob_endpoint = refl

create_storage_service_ok_example :
    (is_empty (codes "acct") ≡ false)
    × (is_empty (codes "West") ≡ false)
    × (bytes : Text) × (h' : History) × (account_codec.marshal_deployment
          (create_storage_service_deployment_conf (codes "acct") (codes "West"))
        ≡ inr bytes)
    × Completed env client
        (send_azure_post_request env client (codes "services/storageservices") (some bytes))
        []
        h'
    × ((get_storage_service_by_name account_codec env client (codes "acct") h').0 ≡ ok account)
unfolding create_storage_service create_storage_service_deployment_conf get_storage_service_by_name
    send_azure_post_request require and_wait get_xml send_azure_get_request send_azure_request
    send_request create_azure_request judge get_response_body first_request_id get_operation_status
    conclude poll wait_async_operation eq lookup
create_storage_service_ok_example =
    create_storage_service_ok account_codec env client 5 (codes "acct") (codes "West") [] refl

name_free : (is_available account_codec env client (codes "acct") []).0 ≡ ok (true, [])
unfolding is_available require and_wait get_xml send_azure_get_request send_azure_request
    send_request create_azure_request judge get_response_body first_request_id get_operation_status
    conclude poll wait_async_operation eq lookup
name_free = refl

abbrev hosted : Hosted
hosted = record {
  url = [];
  service_name = codes "svc";
  description = [];
  affinity_group = [];
  location = [];
  label_base64 = codes "bGFi";
  label = [];
  status = [];
  reverse_dns_fqdn = [];
  default_win_rm_certificate_thumbprint = [];
}

abbrev pub hosted_codec : azure_sdk_for_go.Management.HostedService.Codec
hosted_codec = record {
  unmarshal_locations = decode_places;
  unmarshal_availability = λ body. inr (record { xmlns = []; result = true; reason = [] });
  unmarshal_service = λ body. inr hosted;
  marshal_service = λ s. inr s.service_name;
  decode_base64 = λ s. inr (codes "lab");
}

create_hosted_service-Created_example :
    Created hosted_codec env client
      (codes "svc")
      (codes "East")
      []
      (codes "lab")
      []
      []
      (codes "id1")
      (create_hosted_service hosted_codec env client
        (codes "svc")
        (codes "East")
        []
        (codes "lab")
        []
        []).1
unfolding create_hosted_service create_hosted_service_deployment_config
    check_hosted_service_name_availability post_hosted_service resolve_location get_location_list
    send_azure_post_request require and_wait get_xml send_azure_get_request send_azure_request
    send_request create_azure_request judge get_response_body first_request_id get_operation_status
    conclude poll wait_async_operation eq lookup
create_hosted_service-Created_example =
    create_hosted_service-Created hosted_codec env client (codes "svc") (codes "East") []
      (codes "lab") [] [] refl

label_decoded :
    (get_hosted_service hosted_codec env client (codes "svc") []).0
    ≡ ok (record hosted { label = codes "lab" })
unfolding get_hosted_service require and_wait get_xml send_azure_get_request send_azure_request
    send_request create_azure_request judge get_response_body first_request_id get_operation_status
    conclude poll wait_async_operation eq lookup
label_decoded = refl

abbrev image : OsImage
image = record {
  category = [];
  label = codes "Ubuntu";
  logical_size_in_gb = [];
  name = codes "img";
  os = [];
  eula = [];
  description = [];
  location = [];
}

abbrev pub images : ImageList
images = record { xmlns = []; os_images = image ∷ [] }

abbrev pub decode_images : Text → GoError ⊎ ImageList
decode_images body = inr images

abbrev pub encode_network : NetworkConfiguration → GoError ⊎ Text
encode_network c = inr c.xmlns

network_read :
    (get_virtual_network_configuration (λ c body. inr c) env client []).0
    ≡ ok new_network_configuration
unfolding get_virtual_network_configuration require and_wait get_xml send_azure_get_request
    send_azure_request send_request create_azure_request judge get_response_body first_request_id
    get_operation_status conclude poll wait_async_operation eq lookup
network_read = refl
