-- ===== src/Management.antt =====
-- The service management client, management/client.go and management/util.go: the client's data,
-- its errors, and what it uses of libraries.
pub mod Http
pub mod Operations
pub mod Calls
pub mod Location
pub mod StorageService
pub mod HostedService
pub mod Image
pub mod Disk
pub mod Network
pub mod VirtualMachine
pub mod Changes
pub mod Subscription
mod Tests
use azure_sdk_for_go.Common.{
  ℕ, ◌-◌, List, [], ◌∷◌, ◌++◌, Option, some, none, if◌then◌else◌, ◌⊎◌, inl, inr, length, take,
  replicate, Bool, true, false,
}
use azure_sdk_for_go.Common.Text.{Text, codes, is_empty}
use azure_sdk_for_go.Go.{Result, ok, err, panic, Request, Response, Reply, History}

-- `AzureError`, without the XML name.
pub record AzureError : Type 0 where
  pub code : Text
  pub message : Text

-- The errors that the client returns: its own messages, the service's, and those of libraries.
pub data GoError : Type 0 where
  message : Text → GoError
  azure : AzureError → GoError
  library : Text → GoError

abbrev pub Outcome : Type 0 → Type 0
Outcome = Result GoError

-- `fmt.Errorf(errParamNotSpecified, name)`
abbrev pub param_not_specified : Text → GoError
param_not_specified name = message (codes "Parameter " ++ (name ++ codes " is not specified."))

-- `publishSettings`: the certificate and the key are PEM texts.
pub record PublishSettings : Type 0 where
  pub subscription_id : Text
  pub subscription_cert : Text
  pub subscription_key : Text

pub record Client : Type 0 where
  pub management_url : Text
  pub publish_settings : PublishSettings

pub record ClientConfig : Type 0 where
  pub config_url : Text

-- `var client Client`, which is also `NewAnonymousClient()`.
abbrev pub new_anonymous_client : Client
new_anonymous_client = record {
  management_url = [];
  publish_settings = record { subscription_id = []; subscription_cert = []; subscription_key = [] };
}

-- `operation`, without the XML name.
pub record Operation : Type 0 where
  pub id : Text
  pub status : Text
  pub http_status_code : Text
  pub error : AzureError

-- What the client uses of core/tls, core/http and encoding/xml. The answer of the service may
-- depend on all that was done before.
pub record Env : Type 1 where
  pub Certificate : Type 0
  pub x509_key_pair : Text → Text → Certificate
  pub new_request : Text → Text → Option GoError
  pub answer : Certificate → History → Request → Reply GoError
  pub unmarshal_azure_error : Text → GoError ⊎ AzureError
  pub unmarshal_operation : Text → GoError ⊎ Operation

pub make_client : Text → Text → Text → GoError ⊎ Client
make_client subscription_id management_cert management_url =
    if is_empty subscription_id
    then inl (message (codes "azure: subscription ID required"))
    else if is_empty management_cert
    then inl (message (codes "azure: management certificate required"))
    else if is_empty management_url
    then inl (message (codes "azure: base URL required"))
    else inr (record {
      management_url = management_url;
      publish_settings = record {
        subscription_id = subscription_id;
        subscription_cert = management_cert;
        subscription_key = management_cert;
      };
    })

pub new_client_from_config : Text → Text → ClientConfig → GoError ⊎ Client
unfolding make_client
new_client_from_config subscription_id management_cert config =
    make_client subscription_id management_cert config.config_url

pub new_client : Text → Text → GoError ⊎ Client
unfolding new_client_from_config
new_client subscription_id management_cert =
    new_client_from_config subscription_id management_cert
      (record { config_url = codes "https://management.core.windows.net" })

-- `make([]byte, ContentLength)` panics at -1; `io.ReadFull` fills what the body has, and its error
-- is dropped, so a short body leaves zeros.
pub get_response_body : Response GoError → Outcome Text
get_response_body response = elim response.content_length [
  | none ↦ panic
  | some n ↦ ok (take n response.body ++ replicate (n - length response.body) 0)
]
