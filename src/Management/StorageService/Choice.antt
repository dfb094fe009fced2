-- ===== src/Management/StorageService/Choice.antt =====
-- What the operations of management/storageservice choose and create.
use azure_sdk_for_go.Common.{
  ℕ, Option, some, ◌⊎◌, inl, inr, false, ◌≡◌, find_first, IsFirst, find_first-IsFirst,
  find_first-none, All, Option-cases,
}
use azure_sdk_for_go.Common.Text.{Text, codes, is_empty}
use azure_sdk_for_go.Go.{Result, ok, History, proceed_ok, return}
use azure_sdk_for_go.Management.{GoError, Client, Env}
use azure_sdk_for_go.Management.Http.{send_azure_post_request}
use azure_sdk_for_go.Management.Calls.{
  Completed, and_wait, and_wait-Completed, require_then, lift_then,
}
use azure_sdk_for_go.Management.StorageService.{
  Account, StorageServiceList, Codec, create_storage_service_deployment_conf, is_blob_endpoint,
  get_blob_endpoint, lies_in, get_storage_service_list, get_storage_service_by_name,
  get_storage_service_by_location, create_storage_service,
}

-- The account's first endpoint with ".blob.core" in it, or an error where no endpoint has that.
pub data EndpointChoice (service : Account) : GoError ⊎ Text → Type 0 where
  chosen :
      (endpoint : Text)
      → IsFirst is_blob_endpoint service.properties.endpoints endpoint
      → EndpointChoice service (inr endpoint)
  none_there :
      (e : GoError)
      → All (λ t. is_blob_endpoint t ≡ false) service.properties.endpoints
      → EndpointChoice service (inl e)

-- `GetBlobEndpoint` returns the first of the account's endpoints that contains ".blob.core", or an
-- error if none does.
pub get_blob_endpoint-EndpointChoice :
    (service : Account) → EndpointChoice service (get_blob_endpoint service)
unfolding get_blob_endpoint
get_blob_endpoint-EndpointChoice service =
    elim (Option-cases (find_first is_blob_endpoint service.properties.endpoints)) [
      | inl n ↦
          rw (n, get_blob_endpoint)
            (none_there _ (find_first-none is_blob_endpoint service.properties.endpoints n))
      | inr (t, s) ↦
          rw (s, get_blob_endpoint)
            (chosen t (find_first-IsFirst is_blob_endpoint service.properties.endpoints s))
    ]

ok_injective :
    {a b : Option Account} → ◌≡◌ {A = Result GoError (Option Account)} (ok a) (ok b) → a ≡ b
ok_injective e = cc

module _ (codec : Codec) (env : Env) (client : Client) where
  -- If `GetStorageServiceByLocation` returns an account, it is the first of the service's list that
  -- lies in the location.
  pub get_storage_service_by_location_ok :
      (location : Text) (h : History) {account : Account}
      → (get_storage_service_by_location codec env client location h).0 ≡ ok (some account)
      → (list : StorageServiceList) × ((get_storage_service_list codec env client h).0 ≡ ok list)
        × IsFirst (lies_in location) list.storage_services account
  unfolding get_storage_service_by_location
  get_storage_service_by_location_ok location h e =
      let (named, rest) = require_then (codes "location") location _ h e in
      let (list, read, f) =
        proceed_ok (get_storage_service_list codec env client h)
          (λ list. return (ok (find_first (lies_in location) list.storage_services))) rest in
      (list, read, find_first-IsFirst (lies_in location) list.storage_services (ok_injective f))

  -- If `CreateStorageService` returns an account, then the name and the location are not empty, the
  -- deployment for them was encoded, the POST request with these bytes returned an id, the operation
  -- with this id ended without failing, and the account is what was then read under the name.
  pub create_storage_service_ok :
      (fuel : ℕ) (name location : Text) (h : History) {account : Account}
      → (create_storage_service codec env client fuel name location h).0 ≡ ok account
      → (is_empty name ≡ false)
        × (is_empty location ≡ false)
        × (bytes : Text) × (h' : History) × (codec.marshal_deployment
              (create_storage_service_deployment_conf name location)
            ≡ inr bytes)
        × Completed env client
            (send_azure_post_request env client (codes "services/storageservices") (some bytes))
            h
            h'
        × ((get_storage_service_by_name codec env client name h').0 ≡ ok account)
  unfolding create_storage_service
  create_storage_service_ok fuel name location h e =
      let (named, e₁) = require_then (codes "name") name _ h e in
      let (placed, e₂) = require_then (codes "location") location _ h e₁ in
      let (bytes, marshalled, e₃) =
        lift_then (codec.marshal_deployment (create_storage_service_deployment_conf name location))
          _ h e₂ in
      let write =
        send_azure_post_request env client (codes "services/storageservices") (some bytes) in
      let (u, waited, got) =
        proceed_ok (and_wait env client fuel write h)
          (λ _. get_storage_service_by_name codec env client name) e₃ in
      (
        named,
        placed,
        bytes,
        (and_wait env client fuel write h).1,
        marshalled,
        and_wait-Completed env client fuel write h waited,
        got,
      )
