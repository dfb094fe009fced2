-- ===== src/Management/HostedService.antt =====
-- Hosted services, management/hostedservice.
pub mod Creation
use azure_sdk_for_go.Common.{
  ℕ, List, [], ◌∷◌, ◌++◌, Option, some, none, if◌then◌else◌, ◌⊎◌, inl, inr, Bool, true, false,
}
use azure_sdk_for_go.Common.Text.{Text, codes, is_empty}
use azure_sdk_for_go.Common.Base64.{base64_encode}
use azure_sdk_for_go.Go.{
  Result, ok, err, panic, stuck, History, Call, ◌>>=◌, ◌>>◌, return, lift, proceed,
}
use azure_sdk_for_go.Management.{GoError, message, Client, Env}
use azure_sdk_for_go.Management.Http.{send_azure_post_request, send_azure_delete_request}
use azure_sdk_for_go.Management.Calls.{require, get_xml, and_wait}
use azure_sdk_for_go.Management.Location.{LocationList, resolve_location}

pub record CreateHostedService : Type 0 where
  pub xmlns : Text
  pub service_name : Text
  pub label : Text
  pub description : Text
  pub location : Text
  pub reverse_dns_fqdn : Text

pub record AvailabilityResponse : Type 0 where
  pub xmlns : Text
  pub result : Bool
  pub reason : Text

-- `HostedService`
pub record Hosted : Type 0 where
  pub url : Text
  pub service_name : Text
  pub description : Text
  pub affinity_group : Text
  pub location : Text
  pub label_base64 : Text
  pub label : Text
  pub status : Text
  pub reverse_dns_fqdn : Text
  pub default_win_rm_certificate_thumbprint : Text

-- What the package uses of encoding/xml and encoding/base64.
pub record Codec : Type 0 where
  pub unmarshal_locations : Text → GoError ⊎ LocationList
  pub unmarshal_availability : Text → GoError ⊎ AvailabilityResponse
  pub unmarshal_service : Text → GoError ⊎ Hosted
  pub marshal_service : CreateHostedService → GoError ⊎ Text
  pub decode_base64 : Text → GoError ⊎ Text

-- `createHostedServiceDeploymentConfig`
unfoldable pub create_hosted_service_deployment_config :
    Text → Text → Text → Text → Text → CreateHostedService
unfolding base64_encode
create_hosted_service_deployment_config dns_name location reverse_dns_fqdn label description =
    record {
      xmlns = codes "http://schemas.microsoft.com/windowsazure";
      service_name = dns_name;
      label = base64_encode label;
      description = description;
      location = location;
      reverse_dns_fqdn = reverse_dns_fqdn;
    }

-- `fmt.Errorf("%s Hosted service name: %s", reason, dnsName)`
abbrev pub not_available : Text → Text → GoError
not_available reason dns_name = message (reason ++ (codes " Hosted service name: " ++ dns_name))

-- `if !result`
abbrev pub refuse_taken : Text → Bool × Text → Call GoError (Unit {0})
refuse_taken dns_name (true, reason) = return (ok tt)
refuse_taken dns_name (false, reason) = return (err (not_available reason dns_name))

module _ (codec : Codec) (env : Env) (client : Client) where
  unfoldable pub check_hosted_service_name_availability : Text → Call GoError (Bool × Text)
  unfolding require get_xml
  check_hosted_service_name_availability dns_name = do
    require (codes "dnsName") dns_name
    response ←
        get_xml codec.unmarshal_availability env client
          (codes "services/hostedservices/operations/isavailable/" ++ dns_name)
    return (ok (response.result, response.reason))

  -- Behind the checks: the request that creates the service.
  unfoldable pub post_hosted_service : CreateHostedService → Call GoError Text
  post_hosted_service deployment = do
    hosted_service_bytes ← lift (codec.marshal_service deployment)
    send_azure_post_request env client (codes "services/hostedservices") (some hosted_service_bytes)

  unfoldable pub create_hosted_service : Text → Text → Text → Text → Text → Call GoError Text
  unfolding require create_hosted_service_deployment_config
  create_hosted_service dns_name location reverse_dns_fqdn label description = do
    require (codes "dnsName") dns_name
    require (codes "location") location
    availability ← check_hosted_service_name_availability dns_name
    refuse_taken dns_name availability
    resolve_location codec.unmarshal_locations env client location
    post_hosted_service (
        create_hosted_service_deployment_config dns_name location reverse_dns_fqdn label
          description)

  unfoldable pub delete_hosted_service : ℕ → Text → Call GoError (Unit {0})
  unfolding require and_wait
  delete_hosted_service fuel dns_name = do
    require (codes "dnsName") dns_name
    and_wait env client fuel (
        send_azure_delete_request env client
          (codes "services/hostedservices/" ++ (dns_name ++ codes "?comp=media")))

  -- The name is not tested. The label is decoded.
  unfoldable pub get_hosted_service : Text → Call GoError Hosted
  unfolding get_xml
  get_hosted_service name = do
    service ← get_xml codec.unmarshal_service env client (codes "services/hostedservices/" ++ name)
    decoded_label ← lift (codec.decode_base64 service.label_base64)
    return (ok (record service { label = decoded_label }))
