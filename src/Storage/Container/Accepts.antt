-- ===== src/Storage/Container/Accepts.antt =====
-- Requests of the blob service, storage/blob.go, that the service accepts with 201.
use azure_sdk_for_go.Common.{ℕ, Option, none, inr, ◌≡◌, ap, ◌∙◌, arith}
use azure_sdk_for_go.Common.Text.{Text}
use azure_sdk_for_go.Go.{ok, History, Headers, Request, Response, replied, ◌▷◌, sent}
use azure_sdk_for_go.Storage.{GoError, not_created, StorageClient, StorageResponse, Env, Values}
use azure_sdk_for_go.Storage.Address.{get_endpoint}
use azure_sdk_for_go.Storage.Canonical.{get_authorization_header}
use azure_sdk_for_go.Storage.Exec.{receive}
use azure_sdk_for_go.Storage.Exec.Replies.{IsErrorStatus, receive_plain, signed_request, exec_sends}
use azure_sdk_for_go.Storage.Container.{blob_service_name, blob_exec, expect, expect_status}

-- Every request can be addressed, signed and built, and the service replies to it with 201.
pub record Accepts (env : Env) (c : StorageClient) : Type 0 where
  pub endpoint :
      (path : Text) (params : Values)
      → (uri : Text) × (get_endpoint env c blob_service_name path params ≡ ok uri)
  pub authorized :
      (verb uri : Text) (headers : Headers)
      → (auth : Text) × (get_authorization_header env c verb uri headers ≡ inr auth)
  pub built : (verb uri : Text) → env.new_request verb uri ≡ none
  pub created :
      (h : History) (q : Request)
      → (resp : Response GoError) × (env.answer h q ≡ replied resp) × (resp.status ≡ 201)

plain : {status : ℕ} → status ≡ 201 → ¬ IsErrorStatus status
plain e (low, high) = omega (arith, e, low)

expect_created : (r : StorageResponse) → r.status_code ≡ 201 → expect 201 not_created r ≡ ok tt
unfolding expect
expect_created r e = ground arith

module _ (env : Env) (c : StorageClient) (a : Accepts env c) where
  blob_exec_created :
      (verb path : Text) (params : Values) (headers : Headers) (body : Option Text) (h : History)
      → (r : StorageResponse) × (g : History) × (blob_exec env c verb path params headers body h
          ≡ (ok (r, none), g))
        × (r.status_code ≡ 201)
  unfolding blob_exec
  blob_exec_created verb path params headers body h =
      let (uri, e) = a.endpoint path params in
      let (auth, s) = a.authorized verb uri headers in
      let q = signed_request env c verb uri headers body auth in
      let (resp, w, status) = a.created h q in
      (
        record {
          status_code = resp.status;
          headers = resp.header;
          body = resp.body;
          body_error = resp.body_error;
        },
        h ▷ sent q,
        rw (e, blob_exec)
            (exec_sends env c verb uri headers body h s (a.built verb uri)
              ∙ ap (λ r. (receive env r, h ▷ sent q)) w
              ∙ ap (λ r. (r, h ▷ sent q)) (receive_plain env resp (plain status))),
        status,
      )

  pub expect_status_created :
      (verb path : Text) (params : Values) (headers : Headers) (body : Option Text) (h : History)
      → (g : History) × (expect_status 201 not_created
            (blob_exec env c verb path params headers body)
            h
          ≡ (ok tt, g))
  unfolding expect_status
  expect_status_created verb path params headers body h =
      let (r, g, e, s) = blob_exec_created verb path params headers body h in
      (g, rw e (ap (λ x. (x, g)) (expect_created r s)))
