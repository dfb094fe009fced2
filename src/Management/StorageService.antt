-- ===== src/Management/StorageService.antt =====
-- Storage accounts of a subscription, management/storageservice.
pub mod Choice
use azure_sdk_for_go.Common.{
  ℕ, List, [], ◌∷◌, ◌++◌, Option, some, none, if◌then◌else◌, ◌⊎◌, inl, inr, Bool, true, false,
  find_first,
}
use azure_sdk_for_go.Common.Text.{Text, codes, is_empty, eq, contains}
use azure_sdk_for_go.Common.Base64.{base64_encode}
use azure_sdk_for_go.Go.{
  Result, ok, err, panic, stuck, History, Call, ◌>>=◌, ◌>>◌, return, lift, proceed,
}
use azure_sdk_for_go.Management.{GoError, message, Client, Env}
use azure_sdk_for_go.Management.Http.{send_azure_post_request}
use azure_sdk_for_go.Management.Calls.{require, get_xml, and_wait}

pub record StorageServiceProperties : Type 0 where
  pub description : Text
  pub location : Text
  pub label : Text
  pub status : Text
  pub endpoints : List Text
  pub geo_replication_enabled : Text
  pub geo_primary_region : Text

-- `StorageService`
pub record Account : Type 0 where
  pub url : Text
  pub service_name : Text
  pub properties : StorageServiceProperties

pub record StorageServiceList : Type 0 where
  pub xmlns : Text
  pub storage_services : List Account

pub record ExtendedProperty : Type 0 where
  pub name : Text
  pub value : Text

pub record StorageServiceDeployment : Type 0 where
  pub xmlns : Text
  pub service_name : Text
  pub description : Text
  pub label : Text
  pub affinity_group : Text
  pub location : Text
  pub geo_replication_enabled : Bool
  pub extended_properties : List ExtendedProperty
  pub secondary_read_enabled : Bool

pub record AvailabilityResponse : Type 0 where
  pub xmlns : Text
  pub result : Bool
  pub reason : Text

-- What the package uses of encoding/xml.
pub record Codec : Type 0 where
  pub unmarshal_list : Text → GoError ⊎ StorageServiceList
  pub unmarshal_service : Text → GoError ⊎ Account
  pub unmarshal_availability : Text → GoError ⊎ AvailabilityResponse
  pub marshal_deployment : StorageServiceDeployment → GoError ⊎ Text

-- `createStorageServiceDeploymentConf`
unfoldable pub create_storage_service_deployment_conf : Text → Text → StorageServiceDeployment
unfolding base64_encode
create_storage_service_deployment_conf name location = record {
  xmlns = codes "http://schemas.microsoft.com/windowsazure";
  service_name = name;
  description = [];
  label = base64_encode name;
  affinity_group = [];
  location = location;
  geo_replication_enabled = false;
  extended_properties = [];
  secondary_read_enabled = false;
}

abbrev pub is_blob_endpoint : Text → Bool
is_blob_endpoint endpoint = contains endpoint (codes ".blob.core")

unfoldable pub get_blob_endpoint : Account → GoError ⊎ Text
get_blob_endpoint service = elim (find_first is_blob_endpoint service.properties.endpoints) [
  | some endpoint ↦ inr endpoint
  | none ↦
      inl (message (codes "Blob endpoint was not found in storage serice " ++ service.service_name))
]

abbrev pub lies_in : Text → Account → Bool
lies_in location s = eq s.properties.location location

module _ (codec : Codec) (env : Env) (client : Client) where
  unfoldable pub get_storage_service_list : Call GoError StorageServiceList
  unfolding get_xml
  get_storage_service_list =
      get_xml codec.unmarshal_list env client (codes "services/storageservices")

  unfoldable pub get_storage_service_by_name : Text → Call GoError Account
  unfolding require get_xml
  get_storage_service_by_name service_name = do
    require (codes "serviceName") service_name
    get_xml codec.unmarshal_service env client (codes "services/storageservices/" ++ service_name)

  -- `none` is the nil that comes back with no error where no account lies in the location.
  unfoldable pub get_storage_service_by_location : Text → Call GoError (Option Account)
  unfolding require
  get_storage_service_by_location location = do
    require (codes "location") location
    list ← get_storage_service_list
    return (ok (find_first (lies_in location) list.storage_services))

  unfoldable pub create_storage_service : ℕ → Text → Text → Call GoError Account
  unfolding require and_wait create_storage_service_deployment_conf
  create_storage_service fuel name location = do
    require (codes "name") name
    require (codes "location") location
    deployment_bytes ←
        lift (codec.marshal_deployment (create_storage_service_deployment_conf name location))
    and_wait env client fuel (
        send_azure_post_request env client (codes "services/storageservices")
          (some deployment_bytes))
    get_storage_service_by_name name

  unfoldable pub is_available : Text → Call GoError (Bool × Text)
  unfolding require get_xml
  is_available name = do
    require (codes "name") name
    response ←
        get_xml codec.unmarshal_availability env client
          (codes "services/storageservices/operations/isavailable/" ++ name)
    return (ok (response.result, response.reason))
