-- ===== src/Storage/Tests.antt =====
-- Tests of the storage client, storage/: runs against scripted services, and the theorems at concrete
-- inputs.
mod Transfers
mod Requests
mod Uploads
use mathlib.Core.List.{Perm, Permᴰ}
use mathlib.Core.List.Permᴰ
use azure_sdk_for_go.Common.{
  ℕ, zero, suc, ◌+◌, ◌≤◌, ◌<◌, ◌^◌, List, [], ◌∷◌, ◌++◌, map, Option, some, none, ◌⊎◌, inl, inr,
  Bool, true, false, ◌≡◌, ◌≢◌, refl, arith, length, take, if◌then◌else◌, ltb,
}
use azure_sdk_for_go.Common.Int.{pos}
use azure_sdk_for_go.Common.Text.{Text, codes, is_empty, eq, le, join, sort_strings}
use azure_sdk_for_go.Go.{
  Result, ok, err, panic, Request, Response, Reply, failed, replied, sent, History, ◌▷◌, Headers,
  HeaderLists, insert, lookup, header_get,
}
use azure_sdk_for_go.Storage.{
  GoError, message, service, StorageServiceError, StorageClient, StorageResponse, Env, Url,
  get_standard_headers, new_client, new_basic_client,
}
use azure_sdk_for_go.Storage.Address.{keys, get_endpoint, get_base_url, merge_params}
use azure_sdk_for_go.Storage.Canonical.{
  get_authorization_header, build_canonicalized_header, header_name, is_signed,
}
use azure_sdk_for_go.Storage.Canonical.Order.{signed, Distinct}
use azure_sdk_for_go.Storage.Canonical.Maps.{get_authorization_header-Perm}
use mathlib.Core.Quot
use azure_sdk_for_go.Storage.Canonical.Sorted.{Ascending, entry, build_canonicalized_header_lem}
use azure_sdk_for_go.Storage.Exec.{exec, receive}
use azure_sdk_for_go.Storage.Exec.Replies.{CarriesError, exec-CarriesError, Accepted, exec-Accepted}
use azure_sdk_for_go.Storage.Container.{
  path_for_container, restype_container, put_container_headers, blob_exec, expect_status,
  either_status, put_container, create_container, create_container_if_not_exists, container_exists,
  send_delete_container, delete_container, delete_container_if_exists,
}
use azure_sdk_for_go.Storage.Container.Verdicts.{
  Answered, Verdict, create_container_if_not_exists-Verdict, container_exists-Verdict,
  delete_container_if_exists-Verdict,
}

abbrev client : StorageClient
client = record {
  account_name = codes "acct";
  account_key = codes "key";
  use_https = true;
  base_url = codes "core.net";
  api_version = codes "2014-02-14";
}

abbrev reply : ℕ → Text → HeaderLists → Response GoError
reply status body headers = record {
  status = status;
  status_line = codes "line";
  header = headers;
  content_length = some (length body);
  body = body;
  body_error = none;
}

-- A service that gives its replies by the number of things done before.
abbrev scripted : (ℕ → Reply GoError) → Env
scripted replies = record {
  clock = λ h. codes "now";
  answer = λ h q. replies (length h);
  new_request = λ verb url. none;
  parse_url = λ s. inr (record {
    scheme = codes "https";
    host = codes "acct.blob.core.net";
    path = codes "/c";
    raw_query = [];
  });
  parse_query = λ q. inr [];
  parse_int = λ s. inr (pos (length s));
  hmac_sha256 = λ key s. take 3 s;
  decode_base64 = λ s. inr s;
  unmarshal_service_error = λ body. (
    record {
      code = body;
      message = [];
      authentication_error_detail = [];
      query_parameter_name = [];
      query_parameter_value = [];
      reason = [];
      status_code = 0;
      request_id = [];
    },
    none,
  );
}

abbrev answering : Response GoError → Env
answering r = scripted (λ n. replied r)

abbrev standard : Headers
standard = (codes "x-ms-version", codes "2014-02-14") ∷ (codes "x-ms-date", codes "now") ∷ []

abbrev no_text : GoError ⊎ Text → Text
no_text (inl e) = []
no_text (inr t) = t

abbrev container_uri : Text
container_uri = codes "https://acct.blob.core.net/c?restype=container"

-- The authorization of a request with these headers.
abbrev auth_for : Env → Text → Headers → Text
auth_for env verb headers = no_text (get_authorization_header env client verb container_uri headers)

client_without_key :
    new_basic_client (answering (reply 200 [] [])) (codes "acct") []
    ≡ inl (message (codes "azure: account key required"))
unfolding new_basic_client new_client
client_without_key = refl

base_url_test : get_base_url client (codes "blob") ≡ codes "https://acct.blob.core.net"
unfolding get_base_url
base_url_test = refl

merged_params :
    merge_params
      ((codes "a", codes "1" ∷ []) ∷ [])
      ((codes "a", codes "2" ∷ []) ∷ (codes "b", []) ∷ [])
    ≡ (codes "a", codes "1" ∷ codes "2" ∷ []) ∷ (codes "b", []) ∷ []
unfolding merge_params eq
merged_params = refl

-- Two headers that are signed and one that is not.
abbrev three_headers : Headers
three_headers =
    (codes "X-Ms-Version", codes "1")
    ∷ (codes "Date", codes "0")
    ∷ (codes "x-ms-date", codes "now")
    ∷ []

abbrev three_turned : Headers
three_turned =
    (codes "Date", codes "0")
    ∷ (codes "X-Ms-Version", codes "1")
    ∷ (codes "x-ms-date", codes "now")
    ∷ []

canonicalized : build_canonicalized_header three_headers ≡ codes "x-ms-date:now\nx-ms-version:1"
unfolding build_canonicalized_header eq le
canonicalized = refl

three_Distinct : Distinct (keys (signed three_headers))
unfolding header_name is_signed
three_Distinct = ((λ e. cc, tt), (tt, tt))

three_names-Distinct : Distinct (keys three_headers)
three_names-Distinct = ((λ e. cc, (λ e. cc, tt)), ((λ e. cc, tt), (tt, tt)))

get_authorization_header-Perm_example :
    get_authorization_header
      (answering (reply 200 [] []))
      client
      (codes "GET")
      container_uri
      three_headers
    ≡ get_authorization_header
        (answering (reply 200 [] []))
        client
        (codes "GET")
        container_uri
        three_turned
get_authorization_header-Perm_example =
    get_authorization_header-Perm (answering (reply 200 [] [])) client (codes "GET") container_uri
      ∣ Permᴰ.swap refl refl ∣₁ three_names-Distinct three_Distinct

build_canonicalized_header_lem_example :
    (m : Headers) × Permᴰ m (signed three_headers)
    × Ascending (keys m)
    × (build_canonicalized_header three_headers ≡ join (b'\n' ∷ []) (map entry m))
build_canonicalized_header_lem_example = build_canonicalized_header_lem three_headers three_Distinct

abbrev missing : Response GoError
missing = reply 404 (codes "NotFound") []

exec-CarriesError_example :
    CarriesError missing
      (exec (answering missing) client (codes "GET") container_uri standard none []).0
unfolding get_authorization_header
exec-CarriesError_example =
    exec-CarriesError (answering missing) client (codes "GET") container_uri standard none [] refl
      refl refl (omega arith, omega arith)

abbrev fine : Response GoError
fine = reply 200 (codes "body") []

exec-Accepted_example :
    Accepted
      (answering fine)
      client
      (codes "GET")
      container_uri
      standard
      none
      []
      (record { status_code = 200; headers = []; body = codes "body"; body_error = none })
      (exec (answering fine) client (codes "GET") container_uri standard none []).1
unfolding exec receive get_authorization_header
exec-Accepted_example =
    exec-Accepted (answering fine) client (codes "GET") container_uri standard none [] _ refl

abbrev conflict : Response GoError
conflict = reply 409 (codes "ContainerAlreadyExists") []

abbrev creation_headers : Headers
creation_headers = put_container_headers (codes "blob") standard

abbrev put_answered :
    Answered
      (answering conflict)
      client
      (codes "PUT")
      (path_for_container (codes "c"))
      restype_container
      (put_container_headers (codes "blob") (get_standard_headers (answering conflict) client []))
      none
      []
      conflict
unfolding get_endpoint get_authorization_header get_standard_headers put_container_headers eq le
put_answered = record {
  uri = container_uri;
  auth = auth_for (answering conflict) (codes "PUT") creation_headers;
  endpoint = refl;
  authorized = refl;
  built = refl;
  answered = refl;
  readable = refl;
}

abbrev head_answered :
    Answered
      (answering missing)
      client
      (codes "HEAD")
      (path_for_container (codes "c"))
      restype_container
      (get_standard_headers (answering missing) client [])
      none
      []
      missing
unfolding get_endpoint get_authorization_header get_standard_headers eq le
head_answered = record {
  uri = container_uri;
  auth = auth_for (answering missing) (codes "HEAD") standard;
  endpoint = refl;
  authorized = refl;
  built = refl;
  answered = refl;
  readable = refl;
}

abbrev delete_answered :
    Answered
      (answering missing)
      client
      (codes "DELETE")
      (path_for_container (codes "c"))
      restype_container
      (get_standard_headers (answering missing) client [])
      none
      []
      missing
unfolding get_endpoint get_authorization_header get_standard_headers eq le
delete_answered = record {
  uri = container_uri;
  auth = auth_for (answering missing) (codes "DELETE") standard;
  endpoint = refl;
  authorized = refl;
  built = refl;
  answered = refl;
  readable = refl;
}

exists_test : (container_exists (answering fine) client (codes "c") []).0 ≡ ok true
unfolding container_exists either_status blob_exec get_endpoint get_authorization_header
    get_standard_headers exec receive eq le
exists_test = refl

create_test : (create_container (answering (reply 201 [] [])) client (codes "c") [] []).0 ≡ ok tt
unfolding create_container put_container put_container_headers expect_status blob_exec get_endpoint
    get_authorization_header get_standard_headers exec receive eq le
create_test = refl

delete_test : (delete_container (answering (reply 202 [] [])) client (codes "c") []).0 ≡ ok tt
unfolding delete_container send_delete_container expect_status blob_exec get_endpoint
    get_authorization_header get_standard_headers exec receive eq le
delete_test = refl
