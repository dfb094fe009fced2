-- ===== src/Management/Http.antt =====
-- management/http.go: building a request, sending it with retries, and the four kinds of request.
pub mod Retries
pub mod Requests
pub mod Writes
use azure_sdk_for_go.Common.{
  ℕ, zero, suc, ◌+◌, ◌≤◌, ◌<◌, List, [], ◌∷◌, ◌++◌, Option, some, none, if◌then◌else◌, ◌⊎◌, inl,
  inr, leb, Bool, true, false, ◌≡◌, refl, arith,
}
use azure_sdk_for_go.Common.Text.{Text, codes, is_empty}
use azure_sdk_for_go.Go.{
  Result, ok, err, panic, stuck, Request, Response, Reply, failed, replied, sent, History, ◌▷◌,
  Call, ◌>>=◌, return, lookup, Event,
}
use azure_sdk_for_go.Management.{
  GoError, message, azure, Outcome, param_not_specified, Client, Env, get_response_body,
}

-- `%s/%s/%s` of the base URL, the subscription and the path.
pub request_url : Client → Text → Text
request_url client url =
    client.management_url ++ (b'/' ∷ (client.publish_settings.subscription_id ++ (b'/' ∷ url)))

unfoldable pub create_azure_request :
    Env → Client → Text → Text → Text → Option Text → GoError ⊎ Request
unfolding request_url
create_azure_request env client url request_type content_type content =
    let full = request_url client url in
    elim (env.new_request request_type full) [
      | some e ↦ inl e
      | none ↦ inr (record {
        verb = request_type;
        url = full;
        headers =
            (codes "x-ms-version", codes "2014-05-01")
            ∷ (
              codes "Content-Type",
              if is_empty content_type then codes "application/xml" else content_type,
            )
            ∷ [];
        body = content;
      })
    ]

-- `getAzureError`: the service's error, or why the body is none.
pub get_azure_error : Env → Text → Option GoError
get_azure_error env body = elim (env.unmarshal_azure_error body) [
  | inl e ↦ some e
  | inr e ↦ some (azure e)
]

-- What one round of `sendRequest` comes to: a return, or an error that asks for another round.
pub data Round : Type 0 where
  done : Outcome (Response GoError) → Round
  again : GoError → Round

-- `if azureErr != nil`
judge_error : Response GoError → Option GoError → Round
judge_error response none = done (ok response)
judge_error response (some e) = again e

judge_body : Env → Response GoError → Outcome Text → Round
judge_body env response (ok content) = judge_error response (get_azure_error env content)
judge_body env response (err e) = done (err e)
judge_body env response panic = done panic
judge_body env response stuck = done stuck

unfoldable pub judge : Env → Reply GoError → Round
unfolding judge_error judge_body get_azure_error get_response_body
judge env (failed e) = again e
judge env (replied response) =
    if leb 400 response.status
    then judge_body env response (get_response_body response)
    else done (ok response)

-- The request is built anew in each round, from the same arguments.
unfoldable pub send_request :
    (env : Env)
    → Client
    → env.Certificate
    → Text
    → Text
    → Text
    → Option Text
    → ℕ
    → Call GoError (Response GoError)
send_request env client cert url request_type content_type content zero h =
    elim (create_azure_request env client url request_type content_type content) [
      | inl e ↦ (err e, h)
      | inr request ↦ elim (judge env (env.answer cert h request)) [
        | done r ↦ (r, h ▷ sent request)
        | again e ↦ (err e, h ▷ sent request)
      ]
    ]
send_request env client cert url request_type content_type content (suc retries) h =
    elim (create_azure_request env client url request_type content_type content) [
      | inl e ↦ (err e, h)
      | inr request ↦ elim (judge env (env.answer cert h request)) [
        | done r ↦ (r, h ▷ sent request)
        | again e ↦
            send_request env client cert url request_type content_type content retries
              (h ▷ sent request)
      ]
    ]

-- `createHttpClient`: the certificate is all that the HTTP client carries.
pub create_http_client : (env : Env) → Client → env.Certificate
create_http_client env client =
    env.x509_key_pair client.publish_settings.subscription_cert
      client.publish_settings.subscription_key

unfoldable pub send_azure_request :
    Env → Client → Text → Text → Text → Option Text → Call GoError (Response GoError)
unfolding create_http_client
send_azure_request env client url request_type content_type content h =
    if is_empty url
    then (err (param_not_specified (codes "url")), h)
    else if is_empty request_type
    then (err (param_not_specified (codes "requestType")), h)
    else send_request env client (create_http_client env client) url request_type content_type
        content 7 h

-- `response.Header[requestIdHeader][0]`: an index out of range panics.
unfoldable pub first_request_id : Response GoError → Outcome Text
unfolding lookup
first_request_id response = elim (lookup (codes "X-Ms-Request-Id") response.header) [
  | none ↦ panic
  | some [] ↦ panic
  | some (id ∷ ids) ↦ ok id
]

unfoldable pub send_azure_get_request : Env → Client → Text → Call GoError Text
send_azure_get_request env client url =
    if is_empty url then return (err (param_not_specified (codes "url"))) else do
      response ← send_azure_request env client url (codes "GET") [] none
      return (get_response_body response)

unfoldable pub send_azure_post_request : Env → Client → Text → Option Text → Call GoError Text
send_azure_post_request env client url content =
    if is_empty url then return (err (param_not_specified (codes "url"))) else do
      response ← send_azure_request env client url (codes "POST") [] content
      return (first_request_id response)

-- `fmt.Errorf(errParamNotSpecified, contentType, "url")`: the format takes the content type, and
-- the argument left over is appended the way `fmt` does it.
pub put_url_not_specified : Text → GoError
put_url_not_specified content_type =
    message (codes "Parameter " ++ (content_type ++ codes " is not specified.%!(EXTRA string=url)"))

unfoldable pub send_azure_put_request : Env → Client → Text → Text → Option Text → Call GoError Text
unfolding put_url_not_specified
send_azure_put_request env client url content_type content =
    if is_empty url then return (err (put_url_not_specified content_type)) else do
      response ← send_azure_request env client url (codes "PUT") content_type content
      return (first_request_id response)

unfoldable pub send_azure_delete_request : Env → Client → Text → Call GoError Text
send_azure_delete_request env client url =
    if is_empty url then return (err (param_not_specified (codes "url"))) else do
      response ← send_azure_request env client url (codes "DELETE") [] none
      return (first_request_id response)
