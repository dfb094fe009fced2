-- ===== src/Storage.antt =====
-- The storage client, storage/client.go and storage/util.go: its data, its errors, and what it uses
-- of libraries.
pub mod Address
pub mod Canonical
pub mod Exec
pub mod Container
pub mod Blob
pub mod Block
pub mod Copy
pub mod Listing
pub mod Pages
pub mod Sas
pub mod Service
mod Tests
use azure_sdk_for_go.Common.{
  ℕ, List, [], ◌∷◌, ◌++◌, Option, some, none, if◌then◌else◌, ◌⊎◌, inl, inr, Bool, true, false,
}
use azure_sdk_for_go.Common.Int.{ℤ}
use azure_sdk_for_go.Common.Text.{Text, codes, is_empty, decimal}
use azure_sdk_for_go.Go.{Request, Reply, History, HeaderLists, Headers, Call, ok, err}

-- `StorageServiceError`
pub record StorageServiceError : Type 0 where
  pub code : Text
  pub message : Text
  pub authentication_error_detail : Text
  pub query_parameter_name : Text
  pub query_parameter_value : Text
  pub reason : Text
  pub status_code : ℕ
  pub request_id : Text

-- The errors that the client returns: its own messages and values, the service's, and those of
-- libraries.
pub data GoError : Type 0 where
  message : Text → GoError
  service : StorageServiceError → GoError
  library : Text → GoError
  not_created not_accepted blob_copy_aborted blob_copy_id_mismatch : GoError

-- `url.URL`, as far as the client sets and reads it.
pub record Url : Type 0 where
  pub scheme : Text
  pub host : Text
  pub path : Text
  pub raw_query : Text

-- `url.Values`: a map from keys to lists of values.
abbrev pub Values : Type 0
Values = List (Text × List Text)

pub record StorageClient : Type 0 where
  pub account_name : Text
  pub account_key : Text
  pub use_https : Bool
  pub base_url : Text
  pub api_version : Text

-- `storageResponse`; the body is read by `ReadAll`, which ends with `body_error` if there is one.
pub record StorageResponse : Type 0 where
  pub status_code : ℕ
  pub headers : HeaderLists
  pub body : Text
  pub body_error : Option GoError

-- A call that returns a response and an error: `ok (r, none)` is a response alone, `ok (r, some e)`
-- both, and `err e` is a nil response with an error.
abbrev pub Responds : Type 0
Responds = Call GoError (StorageResponse × Option GoError)

-- `if err != nil { return err }` where a response may come along.
abbrev pub refuse_error : StorageResponse × Option GoError → Call GoError StorageResponse
refuse_error (r, none) h = (ok r, h)
refuse_error (r, some e) h = (err e, h)

-- What the client uses of net/http, net/url, strconv, crypto/hmac, encoding/base64, encoding/xml and of the
-- clock. The answer of the service may depend on all that was done before. The errors of net/url are
-- given by their texts.
pub record Env : Type 0 where
  pub clock : History → Text
  pub answer : History → Request → Reply GoError
  pub new_request : Text → Text → Option GoError
  pub parse_url : Text → Text ⊎ Url
  pub parse_query : Text → Text ⊎ Values
  pub parse_int : Text → GoError ⊎ ℤ
  pub hmac_sha256 : Text → Text → Text
  pub decode_base64 : Text → GoError ⊎ Text
  pub unmarshal_service_error : Text → StorageServiceError × Option GoError

unfoldable pub new_client : Env → Text → Text → Text → Text → Bool → GoError ⊎ StorageClient
new_client env account_name account_key blob_service_base_url api_version use_https =
    if is_empty account_name
    then inl (message (codes "azure: account name required"))
    else if is_empty account_key
    then inl (message (codes "azure: account key required"))
    else if is_empty blob_service_base_url
    then inl (message (codes "azure: base storage service url required"))
    else elim (env.decode_base64 account_key) [
      | inl e ↦ inl e
      | inr key ↦ inr (record {
        account_name = account_name;
        account_key = key;
        use_https = use_https;
        base_url = blob_service_base_url;
        api_version = api_version;
      })
    ]

unfoldable pub new_basic_client : Env → Text → Text → GoError ⊎ StorageClient
unfolding new_client
new_basic_client env account_name account_key =
    new_client env account_name account_key (codes "core.windows.net") (codes "2014-02-14") true

-- `currentTimeRfc1123Formatted` reads the clock.
unfoldable pub get_standard_headers : Env → StorageClient → History → Headers
get_standard_headers env c h =
    (codes "x-ms-version", c.api_version) ∷ (codes "x-ms-date", env.clock h) ∷ []

-- `StorageServiceError.Error`
unfoldable pub error_text : StorageServiceError → Text
unfolding decimal
error_text e =
    codes "storage: remote server returned error. StatusCode="
    ++ (decimal e.status_code
        ++ (codes ", ErrorCode="
            ++ (e.code
                ++ (codes ", ErrorMessage="
                    ++ (e.message ++ (codes ", RequestId=" ++ e.request_id))))))
