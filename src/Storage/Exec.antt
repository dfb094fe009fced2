-- ===== src/Storage/Exec.antt =====
-- `exec`, `readResponseBody` and `serviceErrFromXml` of storage/client.go: a signed request, and what
-- becomes of the service's reply.
pub mod Replies
pub mod Final
use azure_sdk_for_go.Common.{
  ℕ, List, [], ◌∷◌, ◌++◌, Option, some, none, if◌then◌else◌, ◌⊎◌, inl, inr, Bool, true, false, leb,
  ◌&&◌,
}
use azure_sdk_for_go.Common.Text.{Text, codes, is_empty}
use azure_sdk_for_go.Go.{
  Result, ok, err, panic, Request, Response, Reply, failed, replied, sent, History, ◌▷◌, Headers,
  insert, header_get,
}
use azure_sdk_for_go.Storage.{
  GoError, message, service, StorageServiceError, StorageClient, StorageResponse, Responds, Env,
}
use azure_sdk_for_go.Storage.Canonical.{get_authorization_header}

-- `ioutil.ReadAll` never returns `io.EOF`.
pub read_response_body : Response GoError → GoError ⊎ Text
read_response_body resp = elim resp.body_error [ some e ↦ inl e | none ↦ inr resp.body ]

-- The status and the request id are set only if the body was well formed.
unfoldable pub service_err_from_xml : Env → Text → ℕ → Text → StorageServiceError × Option GoError
service_err_from_xml env body status_code request_id =
    let (storage_err, failure) = env.unmarshal_service_error body in
    elim failure [
      | some e ↦ (storage_err, some e)
      | none ↦ (record storage_err { status_code = status_code; request_id = request_id }, none)
    ]

-- The response that goes back with an error: its body is what was read.
abbrev restored : Response GoError → Text → StorageResponse
restored resp body = record {
  status_code = resp.status;
  headers = resp.header;
  body = body;
  body_error = none;
}

-- Behind `readResponseBody`. The test `err != nil` below `serviceErrFromXml` reads the error of
-- `readResponseBody`, which is nil there, so that of `serviceErrFromXml` is never used.
error_response :
    Env → Response GoError → GoError ⊎ Text → Result GoError (StorageResponse × Option GoError)
unfolding service_err_from_xml
error_response env resp (inl e) = err e
error_response env resp (inr []) = ok (
  restored resp [],
  some (
      message (
        codes "storage: service returned without a response body ("
        ++ (resp.status_line ++ codes ")."))),
)
error_response env resp (inr (x ∷ xs)) =
    let (storage_err, err_in) =
      service_err_from_xml env (x ∷ xs) resp.status
        (header_get resp.header (codes "x-ms-request-id")) in
    ok (restored resp (x ∷ xs), some (service storage_err))

unfoldable pub receive : Env → Reply GoError → Result GoError (StorageResponse × Option GoError)
unfolding error_response read_response_body
receive env (failed e) = err e
receive env (replied resp) =
    if leb 400 resp.status && leb resp.status 505
    then error_response env resp (read_response_body resp)
    else ok (
      record {
        status_code = resp.status;
        headers = resp.header;
        body = resp.body;
        body_error = resp.body_error;
      },
      none,
    )

-- The error of `http.NewRequest` is not looked at: the nil request panics.
unfoldable pub exec : Env → StorageClient → Text → Text → Headers → Option Text → Responds
unfolding insert
exec env c verb url headers body h = elim (get_authorization_header env c verb url headers) [
  | inl e ↦ (err e, h)
  | inr auth_header ↦ elim (env.new_request verb url) [
    | some e ↦ (panic, h)
    | none ↦
        let request : Request = record {
          verb = verb;
          url = url;
          headers = insert (codes "Authorization") auth_header headers;
          body = body;
        } in
        (receive env (env.answer h request), h ▷ sent request)
  ]
]
